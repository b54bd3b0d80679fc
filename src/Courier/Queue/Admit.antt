-- ===== src/Courier/Queue/Admit.antt =====
-- Admission: `Enqueue`, `enqueueOrFind`, `insertLocked` and `laneShareRefusalLocked`.
use ori_gateway.Base.{
  ℕ, ◌+◌, ◌-◌, String, Bool, true, false, not, ◌&&◌, ◌||◌, Option, none, some, [], ◌∷◌, ◌++◌, ltb,
  leb, if◌then◌else◌, length, any, ◌==◌, nat_eq, string_eq,
}
use ori_gateway.Base.Maps.{lookup, insert}
use ori_gateway.Courier.Types.{
  Bytes, ArtifactType, Lane, LaneKey, registration, key_eq, lane_of, QueueRecord, QueuedArtifact,
  record_artifact, valid_outbound_artifact_type, valid_queue_artifact_type,
}
use ori_gateway.Courier.Routing.{record_device}
use ori_gateway.Courier.Queue.Disk.{Write, write_failed, write_file}
use ori_gateway.Courier.Queue.State.{
  DurableQueue, External, QueueError, unsupported_type, empty_payload, unconfigured_device,
  item_limit, byte_limit, device_item_limit, device_byte_limit, bad_clock, encode_failed,
  store_failed, count, artifact_id, note_store, index_locked, sort_order, max_queue_record_bytes,
}

-- A call's result: the artifact with whether it was already held, or the refusal.
pub data Outcome : Type 0 where
  queued : QueuedArtifact → Bool → Outcome
  refused : QueueError → Outcome

abbrev is_registration : Lane → Bool
is_registration registration = true
is_registration _ = false

-- With size 0 the items are checked, otherwise the bytes. Shares are reserved only where a share
-- holds at least the reserve (`openDurableQueue`), so the two differences are exact.
unfoldable pub lane_share_refusal : DurableQueue → LaneKey → ℕ → Option QueueError
unfolding lookup
lane_share_refusal q key size =
    if size == 0
    then (if leb q.share_items (count key.device q.device_items)
          || (reserved && leb (q.share_items - 1) (count key q.lane_items))
        then some device_item_limit
        else none)
    else if ltb q.share_bytes (count key.device q.device_bytes + size)
        || (reserved
            && ltb (q.share_bytes - max_queue_record_bytes) (count key q.lane_bytes + size))
    then some device_byte_limit
    else none
  where
    reserved : Bool
    reserved = q.reserved && not (is_registration key.lane)

abbrev pub is_configured : DurableQueue → String → Bool
is_configured q device = elim q.configured [
  | none ↦ true
  | some devices ↦ any (λ d. d == device) devices
]

abbrev pub write_record : Write → QueueRecord → DurableQueue → DurableQueue
write_record w r q =
    note_store (write_failed w)
      (record q { disk = record (q.disk) { records = write_file w r.id r (q.disk.records) } })

-- The record that `insertLocked` writes.
abbrev pub new_record : DurableQueue → ArtifactType → Bytes → String → ℕ → QueueRecord
new_record q kind payload id now = record {
  v = 1;
  id = id;
  kind = kind;
  queue_seq = q.next_seq;
  enqueued_at_ms = now;
  payload = payload;
}

-- The writes to the queue's maps once the record's file is committed.
unfoldable pub keep_record : External → QueueRecord → ℕ → DurableQueue → DurableQueue
unfolding insert index_locked sort_order
keep_record ext r size q =
    let q₁ : DurableQueue = record q {
      entries = insert r.id r q.entries;
      sizes = insert r.id size q.sizes;
    } in
    let q₂ : DurableQueue = index_locked ext r size q₁ in
    let q₃ : DurableQueue = sort_order (record q₂ { order = q₂.order ++ (r.id ∷ []) }) in
    record q₃ { bytes = q₃.bytes + size; next_seq = q₃.next_seq + 1 }

-- From the size of the encoded record on.
unfoldable pub commit_record :
    External → Write → QueueRecord → LaneKey → ℕ → DurableQueue → DurableQueue × Outcome
unfolding note_store write_file
commit_record ext w r key size q =
    if ltb q.max_bytes (q.bytes + size)
    then (q, refused byte_limit)
    else elim (lane_share_refusal q key size) [
      | some e ↦ (q, refused e)
      | none ↦
          if write_failed w
          then (write_record w r q, refused store_failed)
          else (keep_record ext r size (write_record w r q), queued (record_artifact r) false)
    ]

-- `now` is the clock's reading in milliseconds; 0 stands for every reading that is not positive.
unfoldable pub insert_locked :
    External → Write → ℕ → ArtifactType → Bytes → String → DurableQueue → DurableQueue × Outcome
unfolding record_device
insert_locked ext w now kind payload id q =
    if not (is_configured q device)
    then (q, refused unconfigured_device)
    else if leb q.max_items (length q.entries)
    then (q, refused item_limit)
    else elim (lane_share_refusal q key 0) [
      | some e ↦ (q, refused e)
      | none ↦
          if now == 0
          then (q, refused bad_clock)
          else elim (ext.encoded_size (new_record q kind payload id now)) [
            | none ↦ (q, refused encode_failed)
            | some size ↦ commit_record ext w (new_record q kind payload id now) key size q
          ]
    ]
  where
    device : String
    device = record_device ext.json payload

    key : LaneKey
    key = record { device = device; lane = lane_of kind }

unfoldable pub enqueue_or_find :
    External → Write → ℕ → ArtifactType → Bytes → DurableQueue → DurableQueue × Outcome
unfolding lookup artifact_id
enqueue_or_find ext w now kind payload q =
    if not (valid_queue_artifact_type kind)
    then (q, refused unsupported_type)
    else if length payload == 0
    then (q, refused empty_payload)
    else elim (lookup (artifact_id ext kind payload) q.entries) [
      | some existing ↦ (q, queued (record_artifact existing) true)
      | none ↦ insert_locked ext w now kind payload (artifact_id ext kind payload) q
    ]

unfoldable pub enqueue :
    External → Write → ℕ → ArtifactType → Bytes → DurableQueue → DurableQueue × Outcome
enqueue ext w now kind payload q =
    if not (valid_outbound_artifact_type kind)
    then (q, refused unsupported_type)
    else enqueue_or_find ext w now kind payload q
