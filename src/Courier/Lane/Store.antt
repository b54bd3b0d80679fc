-- ===== src/Courier/Lane/Store.antt =====
-- The head of a lane and its hold, under the operations that other tasks run on the store
-- (internal/evidence/courier/queue.go and hold.go).
use ori_gateway.Base.{
  ℕ, String, ◌≡◌, refl, sym, ap, subst, ◌∙◌, ◌≢◌, ◌⊎◌, inl, inr, Bool, true, false, not, Option,
  none, some, List, [], ◌∷◌, ◌++◌, arith, eq_iff, if◌then◌else◌, Bool-cases, Option-cases, All,
  ◌==◌, nat_eq, string_eq,
}
use ori_gateway.Base.Maps.{Map, lookup, insert, erase, has, lookup-insert, lookup-erase}
use ori_gateway.Courier.Types.{
  Bytes, ArtifactType, LaneKey, key_eq, key_beq_iff, HoldRecord, BackoffRecord, QueueRecord,
}
use ori_gateway.Faults.{Recorder}
use ori_gateway.Courier.Queue.Disk.{
  Disk, Write, write_file, remove_file, lost, unsynced, Removal, removed, kept, unconfirmed,
  write_failed, removal_failed, committed,
}
use ori_gateway.Courier.Queue.State.{
  DurableQueue, External, QueueError, key_of, peek_lane, artifact_id, note_store, store_failed,
  index_locked, sort_order, unindex_locked,
}
use ori_gateway.Courier.Queue.Admit.{
  Outcome, queued, refused, enqueue_or_find, write_record, new_record, keep_record,
}
use ori_gateway.Courier.Queue.Retire.{
  RetireIo, remove, remove_locked, remove_hold_locked, remove_backoff_locked, remove_backoff_then,
  unlink_record, drop_record, clear_backoff,
}
use ori_gateway.Courier.Queue.Cases.{admit_cases}
use ori_gateway.Courier.Queue.Admission.{Rep-outside, Admitted, enqueue_or_find-Admitted}
use ori_gateway.Courier.Queue.Retirement.{Retired, remove-Retired}
use ori_gateway.Courier.Queue.Delivery.{
  first, first-append, first-without, artifact_of, peek_lane-first,
}
use ori_gateway.Courier.Queue.Model.Items.{Item, id_of, find, without, without_absent}
use ori_gateway.Courier.Queue.Model.Order.{found-Unique}
use ori_gateway.Courier.Queue.Model.Rep.{Rep, item_lane}
use ori_gateway.Courier.Sidecars.{
  hold_sidecar, set_backoff, validate_hold_record, validate_backoff_record, hold_record_version,
  version_of,
}

abbrev pub in_lane : External → LaneKey → Item → Bool
in_lane ext key y = item_lane ext y == key

-- The queue stands for a list whose first item of the lane is `x`.
abbrev pub Heads : External → LaneKey → Item → DurableQueue → Type 0
Heads ext key x q = (xs : List Item) × Rep ext q xs × (first (in_lane ext key) xs ≡ some x)

pub Heads-peek :
    (ext : External) (key : LaneKey) (x : Item) (q : DurableQueue)
    → Heads ext key x q
    → peek_lane key q ≡ some (artifact_of x)
Heads-peek ext key x q (xs, rep, f) = peek_lane-first ext q xs rep key ∙ ground (arith, f)

first-found :
    (p : Item → Bool) (xs ys : List Item) (x : Item)
    → All (λ y. find (id_of y) xs ≡ some y) ys
    → first p ys ≡ some x
    → (find (id_of x) xs ≡ some x) × (p x ≡ true)
unfolding first
first-found p xs [] x a f = cc
first-found p xs (y ∷ ys) x a f = elim (Bool-cases (p y)) [
  | inl wanted ↦
      let same : y ≡ x = ground arith in
      (subst (λ z. find (id_of z) xs ≡ some z) same a.0, subst (λ z. p z ≡ true) same wanted)
  | inr other ↦ first-found p xs ys x a.1 (ground arith)
]

-- The store files the head under its lane.
pub Heads-key :
    (ext : External) (key : LaneKey) (x : Item) (q : DurableQueue)
    → Heads ext key x q
    → key_of (id_of x) q.lane_keys ≡ key
Heads-key ext key x q (xs, rep, f) =
    let (found, wanted) = first-found (in_lane ext key) xs xs x (found-Unique xs rep.unique) f in
    ground (arith, rep.lane_keys (id_of x), found, key_beq_iff (item_lane ext x) key)

-- A hold's write leaves the queue, or changes nothing of it but its holds, its faults and its disk.
pub hold_sidecar_cases :
    (P : DurableQueue → Type 0) (ext : External) (w : Write) (given : HoldRecord) (q : DurableQueue)
    → P q
    → ((h : Map String HoldRecord) (n : Recorder) (d : Disk)
        → P (record q { holds = h; faults = n; disk = d }))
    → P (hold_sidecar ext w given q).0
unfolding hold_sidecar note_store
hold_sidecar_cases P ext w given q h change =
    elim (Option-cases (lookup given.queue_record q.entries)) [
      | inl absent ↦ rw (absent, hold_sidecar) h
      | inr (r, found) ↦
          rw (found, hold_sidecar)
            (elim (Option-cases
              (validate_hold_record ext (record given { v = hold_record_version }) r)) [
                | inr (fault, bad) ↦ rw (bad, hold_sidecar) h
                | inl good ↦ rw (good, hold_sidecar) (by_write w)
              ])
    ]
  where
    by_write :
        (w : Write)
        → let r : HoldRecord = record given { v = hold_record_version } in
          let q₁ : DurableQueue = note_store (write_failed w) (record q {
            disk = record (q.disk) {
              hold_files = write_file w r.queue_record r (q.disk.hold_files);
            };
          }) in
          let p : DurableQueue × Option QueueError =
            (if write_failed w
              then (q₁, some store_failed)
              else (record q₁ { holds = insert r.queue_record r (q₁.holds) }, none)) in
          P p.0
    by_write committed = change _ _ _
    by_write lost = change _ _ _
    by_write unsynced = change _ _ _

pub set_backoff_cases :
    (P : DurableQueue → Type 0) (w : Write) (given : BackoffRecord) (q : DurableQueue)
    → P q
    → ((b : Map String BackoffRecord) (n : Recorder) (d : Disk)
        → P (record q { backoffs = b; faults = n; disk = d }))
    → P (set_backoff w given q).0
unfolding set_backoff note_store
set_backoff_cases P w given q h change = elim (Option-cases (lookup given.queue_record q.entries)) [
  | inl absent ↦ rw (absent, set_backoff) h
  | inr (r, found) ↦
      rw (found, set_backoff)
        (elim (Option-cases
          (validate_backoff_record (record given { v = version_of given.retry_after_ms }))) [
            | inr (fault, bad) ↦ rw (bad, set_backoff) h
            | inl good ↦ rw (good, set_backoff) (by_write w)
          ])
]
  where
    by_write :
        (w : Write)
        → let r : BackoffRecord = record given { v = version_of given.retry_after_ms } in
          let q₁ : DurableQueue = note_store (write_failed w) (record q {
            disk = record (q.disk) {
              backoff_files = write_file w r.queue_record r (q.disk.backoff_files);
            };
          }) in
          let p : DurableQueue × Option QueueError =
            (if write_failed w
              then (q₁, some store_failed)
              else (record q₁ { backoffs = insert r.queue_record r (q₁.backoffs) }, none)) in
          P p.0
    by_write committed = change _ _ _
    by_write lost = change _ _ _
    by_write unsynced = change _ _ _

pub clear_backoff_cases :
    (P : DurableQueue → Type 0) (m : Removal) (id : String) (q : DurableQueue)
    → P q
    → ((b : Map String BackoffRecord) (n : Recorder) (d : Disk)
        → P (record q { backoffs = b; faults = n; disk = d }))
    → P (clear_backoff m id q).0
unfolding clear_backoff remove_backoff_locked note_store
clear_backoff_cases P m id q h change = elim (Bool-cases (has id q.backoffs)) [
  | inr absent ↦ rw absent h
  | inl present ↦ rw present (by_removal m)
]
  where
    by_removal :
        (m : Removal)
        → let q₁ : DurableQueue = record q {
          disk = record (q.disk) { backoff_files = remove_file m id (q.disk.backoff_files) };
        } in
          let p : DurableQueue × Bool =
            (if removal_failed m
              then (q₁, false)
              else (record q₁ { backoffs = erase id q.backoffs }, true)) in
          P (note_store (not p.1) p.0)
    by_removal removed = change _ _ _
    by_removal kept = change _ _ _
    by_removal unconfirmed = change _ _ _

module _ (ext : External) (key : LaneKey) (x : Item) where
  Heads-outside :
      (h : Map String HoldRecord) (b : Map String BackoffRecord) (n : Recorder) (d : Disk)
      (q : DurableQueue)
      → Heads ext key x q
      → Heads ext key x (record q { holds = h; backoffs = b; faults = n; disk = d })
  Heads-outside h b n d q (xs, rep, f) = (xs, Rep-outside _ _ _ _ rep, f)

  pub enqueue-Heads :
      (w : Write) (now : ℕ) (kind : ArtifactType) (payload : Bytes) (q : DurableQueue)
      → Heads ext key x q
      → Heads ext key x (enqueue_or_find ext w now kind payload q).0
  enqueue-Heads w now kind payload q (xs, rep, f) =
      by_outcome (enqueue_or_find ext w now kind payload q)
        (enqueue_or_find-Admitted ext q xs rep w now kind payload)
    where
      by_outcome :
          (r : DurableQueue × Outcome)
          → Admitted ext q xs (artifact_id ext kind payload) kind payload r
          → Heads ext key x r.0
      by_outcome (q', queued a true) t = (xs, subst (λ s. Rep ext s xs) (sym t.0) rep, f)
      by_outcome (q', queued a false) t =
          (xs ++ (t.0 ∷ []), t.2, ground (arith, first-append (in_lane ext key) xs t.0, f))
      by_outcome (q', refused e) t = (xs, t, f)

  -- A record that the store files under another lane.
  pub remove-Heads :
      (io : RetireIo) (id : String) (q : DurableQueue)
      → key_of id q.lane_keys ≢ key
      → Heads ext key x q
      → Heads ext key x (remove ext io id q).0
  remove-Heads io id q other (xs, rep, f) =
      by_result (remove ext io id q) (remove-Retired ext xs id io q rep)
    where
      stays : (o : Option Item) → find id xs ≡ o → first (in_lane ext key) (without id xs) ≡ some x
      stays none e = ap (first (in_lane ext key)) (without_absent id xs e) ∙ f
      stays (some y) e =
          first-without (in_lane ext key) id xs y e
            (ground (arith, rep.lane_keys id, e, other, key_beq_iff (item_lane ext y) key))
          ∙ f

      by_result :
          (r : DurableQueue × Option QueueError) → Retired ext xs id q r → Heads ext key x r.0
      by_result (q', some e) t = (xs, t, f)
      by_result (q', none) t = (without id xs, t.0, stays (find id xs) refl)

  pub hold-Heads :
      (w : Write) (given : HoldRecord) (q : DurableQueue)
      → Heads ext key x q
      → Heads ext key x (hold_sidecar ext w given q).0
  hold-Heads w given q h =
      hold_sidecar_cases (Heads ext key x) ext w given q h (λ h' n d. Heads-outside _ _ _ _ q h)

  pub set_backoff-Heads :
      (w : Write) (given : BackoffRecord) (q : DurableQueue)
      → Heads ext key x q
      → Heads ext key x (set_backoff w given q).0
  set_backoff-Heads w given q h =
      set_backoff_cases (Heads ext key x) w given q h (λ b n d. Heads-outside _ _ _ _ q h)

  pub clear-Heads :
      (m : Removal) (id : String) (q : DurableQueue)
      → Heads ext key x q
      → Heads ext key x (clear_backoff m id q).0
  clear-Heads m id q h =
      clear_backoff_cases (Heads ext key x) m id q h (λ b n d. Heads-outside _ _ _ _ q h)

-- The holds in memory under the same operations.
pub enqueue-holds :
    (ext : External) (w : Write) (now : ℕ) (kind : ArtifactType) (payload : Bytes)
    (q : DurableQueue)
    → (enqueue_or_find ext w now kind payload q).0.holds ≡ q.holds
enqueue-holds ext w now kind payload q =
    admit_cases (λ r. r.0.holds ≡ q.holds) ext w now kind payload q (λ e. refl)
      (λ w' size g. write_record-holds w')
      (λ size g. unfold keep_record index_locked sort_order in write_record-holds committed)
      (λ e held _ _. refl)
  where
    write_record-holds :
        (w : Write)
        → (write_record w (new_record q kind payload (artifact_id ext kind payload) now) q).holds
          ≡ q.holds
    write_record-holds committed = unfold note_store in refl
    write_record-holds lost = unfold note_store in refl
    write_record-holds unsynced = unfold note_store in refl

-- A hold is left as it was, or is the one just written, which names its record.
pub hold-lookup :
    (ext : External) (w : Write) (given : HoldRecord) (id : String) (q : DurableQueue)
    → (lookup id (hold_sidecar ext w given q).0.holds ≡ lookup id q.holds)
      ⊎ ((given.queue_record ≡ id)
          × (lookup id (hold_sidecar ext w given q).0.holds
              ≡ some (record given { v = hold_record_version })))
unfolding hold_sidecar note_store
hold-lookup ext w given id q = ground (
  arith,
  eq_iff given.queue_record id,
  lookup-insert given.queue_record id (record given { v = hold_record_version }) q.holds,
)

pub set_backoff-holds :
    (w : Write) (given : BackoffRecord) (q : DurableQueue)
    → (set_backoff w given q).0.holds ≡ q.holds
unfolding set_backoff note_store
set_backoff-holds w given q = ground arith

pub clear-holds :
    (m : Removal) (id : String) (q : DurableQueue) → (clear_backoff m id q).0.holds ≡ q.holds
unfolding clear_backoff remove_backoff_locked note_store
clear-holds m id q = ground arith

module _ (id j : String) (other : id ≢ j) where
  note-hold : (b : Bool) (q : DurableQueue) → lookup j (note_store b q).holds ≡ lookup j q.holds
  unfolding note_store
  note-hold b q = ground arith

  remove_hold-hold :
      (m : Removal) (q : DurableQueue)
      → lookup j (remove_hold_locked m id q).0.holds ≡ lookup j q.holds
  unfolding remove_hold_locked
  remove_hold-hold m q = ground (arith, lookup-erase id j q.holds, eq_iff id j)

  remove_backoff-hold :
      (m : Removal) (q : DurableQueue)
      → lookup j (remove_backoff_locked m id q).0.holds ≡ lookup j q.holds
  unfolding remove_backoff_locked
  remove_backoff-hold m q = ground arith

  unlink-hold :
      (m : Removal) (w : Write) (r : QueueRecord) (q : DurableQueue)
      → lookup j (unlink_record m w r id q).0.holds ≡ lookup j q.holds
  unfolding unlink_record drop_record unindex_locked
  unlink-hold removed w r q = refl
  unlink-hold kept w r q = refl
  unlink-hold unconfirmed w r q = note-hold (write_failed w) _

  then-hold :
      (io : RetireIo) (r : QueueRecord) (q : DurableQueue)
      → lookup j (remove_backoff_then io r id q).0.holds ≡ lookup j q.holds
  unfolding remove_backoff_then
  then-hold io r q = ground (
    arith,
    remove_backoff-hold io.backoff_file q,
    unlink-hold io.record_file io.restore r (remove_backoff_locked io.backoff_file id q).0,
  )

  locked-hold :
      (ext : External) (io : RetireIo) (q : DurableQueue)
      → lookup j (remove_locked ext io id q).0.holds ≡ lookup j q.holds
  unfolding remove_locked
  locked-hold ext io q = elim (Option-cases (lookup id q.entries)) [
    | inl absent ↦ rw (absent, remove_locked) refl
    | inr (r, found) ↦
        rw (found, remove_locked)
          (ground (
            arith,
            remove_hold-hold io.hold_file q,
            then-hold io r (remove_hold_locked io.hold_file id q).0,
          ))
  ]

  -- A retirement leaves the hold of every other record.
  pub remove-hold :
      (ext : External) (io : RetireIo) (q : DurableQueue)
      → lookup j (remove ext io id q).0.holds ≡ lookup j q.holds
  unfolding remove
  remove-hold ext io q = note-hold _ (remove_locked ext io id q).0 ∙ locked-hold ext io q

pub hold-Rep :
    {ext : External} {xs : List Item} (w : Write) (given : HoldRecord) (q : DurableQueue)
    → Rep ext q xs
    → Rep ext (hold_sidecar ext w given q).0 xs
hold-Rep {ext} {xs} w given q rep =
    hold_sidecar_cases (λ r. Rep ext r xs) ext w given q rep (λ h n d. Rep-outside _ _ _ _ rep)

pub set_backoff-Rep :
    {ext : External} {xs : List Item} (w : Write) (given : BackoffRecord) (q : DurableQueue)
    → Rep ext q xs
    → Rep ext (set_backoff w given q).0 xs
set_backoff-Rep {ext} {xs} w given q rep =
    set_backoff_cases (λ r. Rep ext r xs) w given q rep (λ b n d. Rep-outside _ _ _ _ rep)

pub clear-Rep :
    {ext : External} {xs : List Item} (m : Removal) (id : String) (q : DurableQueue)
    → Rep ext q xs
    → Rep ext (clear_backoff m id q).0 xs
clear-Rep {ext} {xs} m id q rep =
    clear_backoff_cases (λ r. Rep ext r xs) m id q rep (λ b n d. Rep-outside _ _ _ _ rep)
