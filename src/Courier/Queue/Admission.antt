-- ===== src/Courier/Queue/Admission.antt =====
-- What admission does to the list that the queue stands for, on every path of `enqueueOrFind`.
use ori_gateway.Base.{
  ℕ, String, ◌≡◌, refl, true, false, Option, none, some, List, [], ◌∷◌, ◌++◌, arith, eq_iff, nat_eq,
  string_eq,
}
use mathlib.Core.Option
use ori_gateway.Base.Maps.{Map, lookup, insert, lookup-insert}
use ori_gateway.Faults.{Recorder}
use ori_gateway.Courier.Types.{
  Bytes, ArtifactType, key_eq, QueueRecord, HoldRecord, BackoffRecord, record_artifact,
}
use ori_gateway.Courier.Queue.Disk.{Disk, Write, committed, lost, unsynced, write_file}
use ori_gateway.Courier.Queue.State.{DurableQueue, External, artifact_id, note_store}
use ori_gateway.Courier.Queue.Admit.{
  Outcome, queued, refused, write_record, keep_record, enqueue_or_find,
}
use ori_gateway.Courier.Queue.Cases.{admit_cases}
use ori_gateway.Courier.Queue.Model.Items.{Item, find}
use ori_gateway.Courier.Queue.Model.Rep.{Rep}
use ori_gateway.Courier.Queue.Model.Keep.{keep_record-Rep}

-- The list does not depend on the sidecars, the fault recorder or the disk.
pub Rep-outside :
    {ext : External} {q : DurableQueue} {xs : List Item} (h : Map String HoldRecord)
    (b : Map String BackoffRecord) (f : Recorder) (d : Disk)
    → Rep ext q xs
    → Rep ext (record q { holds = h; backoffs = b; faults = f; disk = d }) xs
Rep-outside h b f d rep = record {
  entries = rep.entries;
  sizes = rep.sizes;
  lane_keys = rep.lane_keys;
  entry_count = rep.entry_count;
  distinct = rep.distinct;
  order = rep.order;
  bytes = rep.bytes;
  lane_items = rep.lane_items;
  lane_bytes = rep.lane_bytes;
  device_items = rep.device_items;
  device_bytes = rep.device_bytes;
  unique = rep.unique;
  rising = rep.rising;
}

pub write_record-Rep :
    {ext : External} (w : Write) (r : QueueRecord) {q : DurableQueue} {xs : List Item}
    → Rep ext q xs
    → Rep ext (write_record w r q) xs
unfolding note_store
write_record-Rep committed r rep = Rep-outside _ _ _ _ rep
write_record-Rep lost r rep = Rep-outside _ _ _ _ rep
write_record-Rep unsynced r rep = Rep-outside _ _ _ _ rep

pub absent_item :
    (ext : External) (q : DurableQueue) (xs : List Item)
    → Rep ext q xs
    → (id : String) → lookup id q.entries ≡ none
    → find id xs ≡ none
absent_item ext q xs rep id h = by_find (find id xs) (rep.entries id)
  where
    by_find : (f : Option Item) → lookup id q.entries ≡ Option.map (λ x. x.entry) f → f ≡ none
    by_find none e = refl
    by_find (some x) e = cc

-- A call that answers with an artifact found it, or appended it with its file committed; a refusal
-- leaves the list.
abbrev pub Admitted :
    External
    → DurableQueue
    → List Item
    → String
    → ArtifactType
    → Bytes
    → DurableQueue × Outcome
    → Type 0
Admitted ext q xs id kind payload (q', queued a true) =
    (q' ≡ q) × (x : Item) × (find id xs ≡ some x) × (a ≡ record_artifact (x.entry))
Admitted ext q xs id kind payload (q', queued a false) =
    (x : Item) × (find id xs ≡ none)
    × Rep ext q' (xs ++ (x ∷ []))
    × (lookup id (q'.disk.records) ≡ some (x.entry))
    × (a ≡ record_artifact (x.entry))
    × (a.id ≡ id)
    × (a.kind ≡ kind)
    × (a.payload ≡ payload)
Admitted ext q xs id kind payload (q', refused e) = Rep ext q' xs

module _ (ext : External) (q : DurableQueue) (xs : List Item) (rep : Rep ext q xs) where
  keep-Admitted :
      (r : QueueRecord) (size : ℕ)
      → find (r.id) xs ≡ none
      → r.queue_seq ≡ q.next_seq
      → Admitted ext q xs
          (r.id)
          (r.kind)
          (r.payload)
          (keep_record ext r size (write_record committed r q), queued (record_artifact r) false)
  unfolding keep_record write_file record_artifact note_store insert
  keep-Admitted r size n s = (
    record { entry = r; size = size },
    n,
    keep_record-Rep ext (write_record committed r q) xs (record { entry = r; size = size })
        (write_record-Rep committed r rep) n s,
    ground (arith, lookup-insert (r.id) (r.id) r (q.disk.records), eq_iff (r.id) (r.id)),
    refl,
    refl,
    refl,
    refl,
  )

  -- The list follows every admission: an artifact already held leaves the queue as it was, a new
  -- one comes last with its record committed to its file and its bytes unchanged, and a refused
  -- one leaves the list, whatever the file operations answer.
  pub enqueue_or_find-Admitted :
      (w : Write) (now : ℕ) (kind : ArtifactType) (payload : Bytes)
      → Admitted ext q xs
          (artifact_id ext kind payload)
          kind
          payload
          (enqueue_or_find ext w now kind payload q)
  enqueue_or_find-Admitted w now kind payload =
      admit_cases (Admitted ext q xs (artifact_id ext kind payload) kind payload) ext w now kind
        payload q (λ e. rep) (λ w' size g. write_record-Rep w' _ rep)
        (λ size g. keep-Admitted _ size (absent_item ext q xs rep _ g.absent) refl)
        (λ e held _ _. present (find (artifact_id ext kind payload) xs) (rep.entries _) refl held)
    where
      present :
          (f : Option Item) {r : QueueRecord}
          → lookup (artifact_id ext kind payload) q.entries ≡ Option.map (λ x. x.entry) f
          → find (artifact_id ext kind payload) xs ≡ f
          → lookup (artifact_id ext kind payload) q.entries ≡ some r
          → Admitted ext q xs
              (artifact_id ext kind payload)
              kind
              payload
              (q, queued (record_artifact r) true)
      present none e f h = cc
      present (some x) e f h = (refl, x, f, ground arith)
