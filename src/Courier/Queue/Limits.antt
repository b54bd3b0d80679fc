-- ===== src/Courier/Queue/Limits.antt =====
-- No admission takes the queue past its limits, a device past its share or an evidence lane into
-- the reserve (`insertLocked`).
use ori_gateway.Base.{
  ℕ, ◌-◌, ◌≤◌, String, ◌≡◌, refl, true, Option, none, some, List, [], ◌∷◌, ◌++◌, arith, eq_iff,
  length, length-append, ◌==◌, nat_eq, string_eq,
}
use mathlib.Core.Option
use ori_gateway.Base.Maps.{Map, lookup}
use ori_gateway.Faults.{Recorder}
use ori_gateway.Courier.Types.{
  Bytes, ArtifactType, evidence, key_eq, key_beq_iff, QueueRecord, HoldRecord, BackoffRecord,
}
use ori_gateway.Courier.Queue.Disk.{Disk, Write, committed, lost, unsynced}
use ori_gateway.Courier.Queue.State.{
  DurableQueue, External, max_queue_record_bytes, note_store, artifact_id,
}
use ori_gateway.Courier.Queue.Admit.{
  lane_share_refusal, keep_record, write_record, enqueue_or_find, new_record,
}
use ori_gateway.Courier.Queue.Admission.{write_record-Rep}
use ori_gateway.Courier.Queue.Cases.{Guards, admit_cases}
use ori_gateway.Courier.Queue.Model.Items.{Item, find, tally, tally-append}
use ori_gateway.Courier.Queue.Model.Keep.{keep_record-Rep}
use ori_gateway.Courier.Queue.Model.Rep.{
  Rep, item_lane, lane_count, lane_size, device_count, device_size, class-append,
}
use ori_gateway.Courier.Queue.Capacity.{
  Bounded, SharesFit, lane_key, count-lane_items, count-lane_bytes, count-device_items,
  count-device_bytes,
}

pub Bounded-outside :
    {ext : External} {q : DurableQueue} {xs : List Item} (h : Map String HoldRecord)
    (b : Map String BackoffRecord) (f : Recorder) (d : Disk)
    → Bounded ext q xs
    → Bounded ext (record q { holds = h; backoffs = b; faults = f; disk = d }) xs
Bounded-outside h b f d v = record {
  items = v.items;
  bytes = v.bytes;
  device_items = v.device_items;
  device_bytes = v.device_bytes;
  reserve_items = v.reserve_items;
  reserve_bytes = v.reserve_bytes;
}

pub write_record-Bounded :
    {ext : External} (w : Write) (r : QueueRecord) {q : DurableQueue} {xs : List Item}
    → Bounded ext q xs
    → Bounded ext (write_record w r q) xs
unfolding note_store
write_record-Bounded committed r v = Bounded-outside _ _ _ _ v
write_record-Bounded lost r v = Bounded-outside _ _ _ _ v
write_record-Bounded unsynced r v = Bounded-outside _ _ _ _ v

module _ {ext : External} {q : DurableQueue} {xs : List Item} (rep : Rep ext q xs)
    (b : Bounded ext q xs) (x : Item) (g : Guards ext q (x.entry) (x.size)) where
  items' : length (xs ++ (x ∷ [])) ≤ q.max_items
  items' = ground (arith, g.items, rep.entry_count, length-append xs (x ∷ []))

  bytes' : tally (λ y. y.size) (xs ++ (x ∷ [])) ≤ q.max_bytes
  bytes' = ground (arith, g.bytes, rep.bytes, tally-append (λ y. y.size) xs x)

  device_items' : (d : String) → device_count ext (xs ++ (x ∷ [])) d ≤ q.share_items
  unfolding lane_share_refusal
  device_items' d = ground (
    arith,
    g.share,
    b.device_items d,
    count-device_items rep d,
    eq_iff ((item_lane ext x).device) d,
    class-append (λ y. (item_lane ext y).device == d) (λ y. 1) xs x,
  )

  device_bytes' : (d : String) → device_size ext (xs ++ (x ∷ [])) d ≤ q.share_bytes
  unfolding lane_share_refusal
  device_bytes' d = ground (
    arith,
    g.byte_share,
    b.device_bytes d,
    count-device_bytes rep d,
    eq_iff ((item_lane ext x).device) d,
    class-append (λ y. (item_lane ext y).device == d) (λ y. y.size) xs x,
  )

  reserve_items' :
      q.reserved ≡ true
      → (d : String) → lane_count ext (xs ++ (x ∷ [])) (lane_key d evidence) ≤ q.share_items - 1
  unfolding lane_share_refusal
  reserve_items' res d = ground (
    arith,
    g.share,
    b.reserve_items res d,
    count-lane_items rep (lane_key d evidence),
    key_beq_iff (item_lane ext x) (lane_key d evidence),
    class-append (λ y. item_lane ext y == lane_key d evidence) (λ y. 1) xs x,
  )

  reserve_bytes' :
      q.reserved ≡ true
      → (d : String)
      → lane_size ext (xs ++ (x ∷ [])) (lane_key d evidence)
        ≤ q.share_bytes - max_queue_record_bytes
  unfolding lane_share_refusal
  reserve_bytes' res d = ground (
    arith,
    g.byte_share,
    b.reserve_bytes res d,
    count-lane_bytes rep (lane_key d evidence),
    key_beq_iff (item_lane ext x) (lane_key d evidence),
    class-append (λ y. item_lane ext y == lane_key d evidence) (λ y. y.size) xs x,
  )

  keep-Bounded : Bounded ext (keep_record ext (x.entry) (x.size) q) (xs ++ (x ∷ []))
  unfolding keep_record
  keep-Bounded = record {
    items = items';
    bytes = bytes';
    device_items = device_items';
    device_bytes = device_bytes';
    reserve_items = reserve_items';
    reserve_bytes = reserve_bytes';
  }

keep_write-Bounded :
    {ext : External} (q : DurableQueue) {ys : List Item} (r : QueueRecord) (size : ℕ)
    → Bounded ext (keep_record ext r size q) ys
    → Bounded ext (keep_record ext r size (write_record committed r q)) ys
unfolding keep_record note_store
keep_write-Bounded q r size v = record {
  items = v.items;
  bytes = v.bytes;
  device_items = v.device_items;
  device_bytes = v.device_bytes;
  reserve_items = v.reserve_items;
  reserve_bytes = v.reserve_bytes;
}

-- The queue's indices stand for a list that is within its bounds.
abbrev pub Sound : External → DurableQueue → Type 0
Sound ext q = (xs : List Item) × Rep ext q xs × Bounded ext q xs × SharesFit q

write_record-SharesFit :
    (w : Write) (r : QueueRecord) (q : DurableQueue) → SharesFit q → SharesFit (write_record w r q)
unfolding note_store
write_record-SharesFit committed r q f = record { items = f.items; bytes = f.bytes }
write_record-SharesFit lost r q f = record { items = f.items; bytes = f.bytes }
write_record-SharesFit unsynced r q f = record { items = f.items; bytes = f.bytes }

keep_record-SharesFit :
    (ext : External) (r : QueueRecord) (size : ℕ) (q : DurableQueue)
    → SharesFit q
    → SharesFit (keep_record ext r size q)
unfolding keep_record
keep_record-SharesFit ext r size q f = record { items = f.items; bytes = f.bytes }

-- Every admission, on every path and whatever the file operations answer, keeps the indices in
-- step with the entries and the queue within its limits, its shares and its reserve.
pub enqueue_or_find-Sound :
    (ext : External) (w : Write) (now : ℕ) (kind : ArtifactType) (payload : Bytes)
    (q : DurableQueue)
    → Sound ext q
    → Sound ext (enqueue_or_find ext w now kind payload q).0
enqueue_or_find-Sound ext w now kind payload q (xs, rep, b, f) =
    admit_cases (λ r. Sound ext r.0) ext w now kind payload q (λ e. (xs, rep, b, f))
      (λ w' size g. (
        xs,
        write_record-Rep w' _ rep,
        write_record-Bounded w' _ b,
        write_record-SharesFit w' _ q f,
      ))
      (λ size g. keep size g) (λ e _ _ _. (xs, rep, b, f))
  where
    r : QueueRecord
    r = new_record q kind payload (artifact_id ext kind payload) now

    none_found :
        (f : Option Item)
        → lookup r.id q.entries ≡ Option.map (λ x. x.entry) f
        → lookup r.id q.entries ≡ none
        → f ≡ none
    none_found none e h = refl
    none_found (some x) e h = cc

    keep :
        (size : ℕ)
        → Guards ext q r size
        → Sound ext (keep_record ext r size (write_record committed r q))
    keep size g =
        let x : Item = record { entry = r; size = size } in
        (
          xs ++ (x ∷ []),
          keep_record-Rep ext (write_record committed r q) xs x (write_record-Rep committed r rep)
              (none_found (find r.id xs) (rep.entries r.id) g.absent) (unfold note_store in refl),
          keep_write-Bounded q r size (keep-Bounded rep b x g),
          keep_record-SharesFit ext r size _ (write_record-SharesFit committed r q f),
        )
