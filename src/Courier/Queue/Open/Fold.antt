-- ===== src/Courier/Queue/Open/Fold.antt =====
-- The loop of `load` (queue.go) accepts each record's file and takes the record in.
use mathlib.Core.List.{map-append, append_assoc, append-nil}
use ori_gateway.Base.{
  String, ◌≡◌, refl, sym, ap, ◌∙◌, subst, inr, none, List, [], ◌∷◌, ◌++◌, arith, eq_iff, All,
  nat_eq, string_eq,
}
use ori_gateway.Base.Maps.{lookup-insert}
use ori_gateway.Courier.Queue.State.{DurableQueue, External, artifact_id}
use ori_gateway.Courier.Queue.Model.Items.{Item, id_of, find, Unique}
use ori_gateway.Courier.Queue.Model.Indexed.{Indexed, added, added-Indexed}
use ori_gateway.Courier.Queue.Model.Arranged.{Fresh, Seqs}
use ori_gateway.Courier.Queue.Open.Names.{
  EntryKind, skipped, unconfigured_file, hold_file, backoff_file, unfinished_file, stray_entry,
  record_file, classify, record_file_name,
}
use ori_gateway.Courier.Queue.Open.{
  DirEntry, Decoders, Loading, record_refusal, take_record, load_kind, load_entry, load_entries,
}
use ori_gateway.Courier.Queue.Open.Listing.{
  FileOf, Recorded, Passed, Lists, end_of_directory, a_record, another_file, Reading, Apart,
  Fresh-before, Fresh-last, Apart-append, below-append, Beside, Beside-refl, Beside-then,
  or_earlier-left, hold_named, backoff_named, unconfigured_named, hold_files, backoff_files,
  unconfigured_file_of,
}

module _ (ext : External) (ds : Decoders) (q₀ : DurableQueue) where
  -- The loading once the record is in.
  abbrev taken : Item → Loading → Loading
  taken x s = record s {
    queue = take_record ext (x.entry) (x.size) s.queue;
    seen = x.entry.queue_seq ∷ s.seen;
  }

  no_refusal :
      (s : Loading) (xs : List Item) (x : Item) (name : String)
      → Reading ext q₀ s xs
      → Recorded ext x
      → find (id_of x) xs ≡ none
      → Fresh (x.entry.queue_seq) xs
      → name ≡ record_file_name (id_of x)
      → record_refusal ext name (x.entry) s ≡ none
  unfolding record_refusal
  no_refusal s xs x name r h absent fresh named = ground (
    arith,
    h.version,
    h.seq_positive,
    h.time_positive,
    h.kind,
    h.payload,
    h.identity,
    eq_iff (x.entry.id) (artifact_id ext (x.entry.kind) (x.entry.payload)),
    eq_iff name (record_file_name (id_of x)),
    named,
    r.indexed.entries (id_of x),
    absent,
    r.unseen (x.entry.queue_seq) fresh,
  )

  taken-Reading :
      (s : Loading) (xs : List Item) (x : Item)
      → Reading ext q₀ s xs
      → find (id_of x) xs ≡ none
      → Reading ext q₀ (taken x s) (xs ++ (x ∷ []))
  unfolding take_record added
  taken-Reading s xs x r absent =
      let i = added-Indexed ext s.queue xs x r.indexed absent in
      record {
        indexed = record {
          entries = i.entries;
          sizes = i.sizes;
          lane_keys = i.lane_keys;
          entry_count = i.entry_count;
          distinct = i.distinct;
          bytes = i.bytes;
          lane_items = i.lane_items;
          lane_bytes = i.lane_bytes;
          device_items = i.device_items;
          device_bytes = i.device_bytes;
          unique = i.unique;
        };
        order = ap (λ ids. ids ++ (id_of x ∷ [])) r.order ∙ sym (map-append id_of xs (x ∷ []));
        on_disk = λ id. ground (
          arith,
          lookup-insert (id_of x) id (x.entry) (s.queue.entries),
          lookup-insert (id_of x) id (x.entry) (s.queue.disk.records),
          r.on_disk id,
        );
        below = below-append _ _ xs x r.below (ground arith) (ground arith);
        unseen = λ n f. ground (arith, r.unseen n (Fresh-before n xs x f), Fresh-last n xs x f);
        max_items = r.max_items;
        max_bytes = r.max_bytes;
      }

  load_record :
      (s : Loading) (xs : List Item) (e : DirEntry) (x : Item)
      → Reading ext q₀ s xs
      → FileOf ds e x
      → Recorded ext x
      → find (id_of x) xs ≡ none
      → Fresh (x.entry.queue_seq) xs
      → load_entry ext ds e s ≡ inr (taken x s)
  unfolding load_entry
  load_record s xs e x r f h absent fresh =
      rw (f.kind, f.readable, f.decoded, no_refusal s xs x (e.name) r h absent fresh f.name, f.size)
        refl

  -- An entry that is passed leaves the queue as it is.
  passes :
      (s : Loading) (e : DirEntry) (kind : EntryKind)
      → Passed e.removable kind
      → (s' : Loading) × (load_kind ext ds e s kind ≡ inr s')
        × (s'.queue ≡ s.queue)
        × (s'.seen ≡ s.seen)
        × Beside (hold_named kind e) (backoff_named kind e) (unconfigured_named kind e) s s'
  passes s e skipped p = (s, refl, refl, refl, Beside-refl s)
  passes s e unconfigured_file p = (
    _,
    refl,
    refl,
    refl,
    record { holds = sym (append-nil _); backoffs = sym (append-nil _); unconfigured = refl },
  )
  passes s e (hold_file id) p = (
    _,
    refl,
    refl,
    refl,
    record { holds = refl; backoffs = sym (append-nil _); unconfigured = refl },
  )
  passes s e (backoff_file id) p = (
    _,
    refl,
    refl,
    refl,
    record { holds = sym (append-nil _); backoffs = refl; unconfigured = refl },
  )
  passes s e unfinished_file p = (s, rw p refl, refl, refl, Beside-refl s)
  passes s e stray_entry p = absurd p
  passes s e record_file p = absurd p

  same_queue :
      (s s' : Loading) (xs : List Item)
      → s'.queue ≡ s.queue
      → s'.seen ≡ s.seen
      → Reading ext q₀ s xs
      → Reading ext q₀ s' xs
  same_queue s s' xs eq eq' r = record {
    indexed = subst (λ q. Indexed ext q xs) (sym eq) r.indexed;
    order = rw eq r.order;
    on_disk = λ id. rw eq (r.on_disk id);
    below = rw eq r.below;
    unseen = λ n f. rw eq' (r.unseen n f);
    max_items = rw eq r.max_items;
    max_bytes = rw eq r.max_bytes;
  }

  load_entries-step :
      (e : DirEntry) (es : List DirEntry) (s s₁ : Loading)
      → load_entry ext ds e s ≡ inr s₁
      → load_entries ext ds (e ∷ es) s ≡ load_entries ext ds es s₁
  unfolding load_entries
  load_entries-step e es s s₁ h = rw (h, load_entries) refl

  step_passed :
      (e : DirEntry) (s s₁ : Loading)
      → load_kind ext ds e s (classify e.name e.is_dir) ≡ inr s₁
      → load_entry ext ds e s ≡ inr s₁
  unfolding load_entry
  step_passed e s s₁ h = h

  -- Reading a directory takes in the items that it lists, and sets the sidecars aside.
  pub load_entries-Reading :
      {dir : List DirEntry} {ys : List Item} (s : Loading) (xs : List Item)
      → Lists ds dir ys
      → All (Recorded ext) ys
      → Reading ext q₀ s xs
      → Apart xs ys
      → Unique ys
      → Seqs ys
      → (s' : Loading) × (load_entries ext ds dir s ≡ inr s')
        × Reading ext q₀ s' (xs ++ ys)
        × Beside (hold_files dir) (backoff_files dir) (unconfigured_file_of dir) s s'
  unfolding load_entries hold_files backoff_files unconfigured_file_of
  load_entries-Reading s xs end_of_directory k r a u v =
      (s, refl, subst (Reading ext q₀ s) (sym (append-nil xs)) r, Beside-refl s)
  load_entries-Reading s xs (a_record {e} {x} {es} {xs = ys} f l) k r a u v =
      let step = load_record s xs e x r f k.0 a.0.0 a.0.1 in
      let (s', run, r', b) =
        load_entries-Reading (taken x s) (xs ++ (x ∷ [])) l k.1 (taken-Reading s xs x r a.0.0)
          (Apart-append xs x ys a.0.0 u.0 v.0 a.1) u.1 v.1 in
      (
        s',
        load_entries-step e es s _ step ∙ run,
        subst (Reading ext q₀ s') (append_assoc xs (x ∷ []) ys) r',
        rw (f.kind, or_earlier-left)
            (record { holds = b.holds; backoffs = b.backoffs; unconfigured = b.unconfigured }),
      )
  load_entries-Reading s xs (another_file e {es} {xs = ys} p l) k r a u v =
      let (s₁, step, eq, eq', b₁) = passes s e _ p in
      let (s', run, r', b) = load_entries-Reading s₁ xs l k (same_queue s s₁ xs eq eq' r) a u v in
      (
        s',
        load_entries-step e es s _ (step_passed e s _ step) ∙ run,
        r',
        Beside-then _ _ _ _ _ _ b₁ b,
      )
