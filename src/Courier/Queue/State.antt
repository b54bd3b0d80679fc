-- ===== src/Courier/Queue/State.antt =====
-- The queue's state, its indices by lane and device, and the views a client reads.
use ori_gateway.Base.{
  ℕ, ◌+◌, ◌-◌, String, Bool, true, Option, none, some, List, [], ◌∷◌, ◌++◌, map, ltb, if◌then◌else◌,
  Eq, ◌==◌, nat_eq, string_eq,
}
use ori_gateway.Base.Maps.{Map, lookup, insert, erase}
use ori_gateway.Base.Sort.{sort_by, str_ltb}
use ori_gateway.Faults.{Recorder, note, store_unavailable}
use ori_gateway.Courier.Types.{
  Bytes, ArtifactType, type_name, Lane, LaneKey, registration, evidence, no_lane, zero_record,
  key_eq, lane_of, QueueRecord, QueuedArtifact, HoldRecord, BackoffRecord, record_artifact,
}
use ori_gateway.Courier.Routing.{Json, record_device}
use ori_gateway.Courier.Queue.Disk.{Disk}
use Prim.Native.Char.{code}

-- What the queue calls of the standard library: crypto/sha256 with encoding/hex, and the length of
-- encoding/json's text of a record, `none` where it fails.
pub record External : Type 0 where
  pub json : Json
  pub sha256_hex : Bytes → String
  pub encoded_size : QueueRecord → Option ℕ

-- The bytes of a text, which is ASCII for every constant of `ArtifactType`.
abbrev pub codes : String → Bytes
codes String.[] = []
codes (String.◌∷◌ c s) = code c ∷ codes s

unfoldable pub artifact_id : External → ArtifactType → Bytes → String
artifact_id ext kind payload = ext.sha256_hex (codes (type_name kind) ++ (0 ∷ payload))

abbrev pub max_record_overhead : ℕ
max_record_overhead = 1398284

-- With the 19 bytes of "anchor_registration".
abbrev pub max_queue_record_bytes : ℕ
max_queue_record_bytes = max_record_overhead + 19

-- With the 17 bytes of "delivery_envelope".
abbrev pub max_evidence_record_bytes : ℕ
max_evidence_record_bytes = max_record_overhead + 17

abbrev pub min_device_share_items : ℕ
min_device_share_items = 2

abbrev pub min_device_share_bytes : ℕ
min_device_share_bytes = max_queue_record_bytes + max_evidence_record_bytes

pub data QueueError : Type 0 where
  unsupported_type empty_payload unconfigured_device : QueueError
  item_limit byte_limit device_item_limit device_byte_limit : QueueError
  bad_clock encode_failed store_failed artifact_not_found restore_failed : QueueError
  invalid_record : QueueError

-- `configured` is `none` for the nil map, which admits every device. `sizes`, `order`, `bytes` and
-- the maps by lane and device are indices over `entries`.
pub record DurableQueue : Type 0 where
  pub max_items : ℕ
  pub max_bytes : ℕ
  pub reserved : Bool
  pub configured : Option (List String)
  pub share_items : ℕ
  pub share_bytes : ℕ
  pub entries : Map String QueueRecord
  pub holds : Map String HoldRecord
  pub backoffs : Map String BackoffRecord
  pub sizes : Map String ℕ
  pub order : List String
  pub bytes : ℕ
  pub next_seq : ℕ
  pub lane_keys : Map String LaneKey
  pub lane_items : Map LaneKey ℕ
  pub lane_bytes : Map LaneKey ℕ
  pub device_items : Map String ℕ
  pub device_bytes : Map String ℕ
  pub faults : Recorder
  pub fault_source : String
  pub disk : Disk

-- A Go map read of a number: 0 where the key is missing.
abbrev pub count {ℓ} : {K : Type ℓ} ⦃e : Eq K⦄ → K → Map K ℕ → ℕ
count k m = elim (lookup k m) [ none ↦ 0 | some n ↦ n ]

unfoldable pub record_lane : External → QueueRecord → LaneKey
unfolding record_device
record_lane ext r = record { device = record_device ext.json r.payload; lane = lane_of r.kind }

unfoldable pub note_store : Bool → DurableQueue → DurableQueue
unfolding note
note_store failed q =
    if failed then record q { faults = note store_unavailable q.fault_source true q.faults } else q

unfoldable pub index_locked : External → QueueRecord → ℕ → DurableQueue → DurableQueue
unfolding insert lookup
index_locked ext r size q = record q {
  lane_keys = insert r.id key q.lane_keys;
  lane_items = insert key (count key q.lane_items + 1) q.lane_items;
  lane_bytes = insert key (count key q.lane_bytes + size) q.lane_bytes;
  device_items = insert key.device (count key.device q.device_items + 1) q.device_items;
  device_bytes = insert key.device (count key.device q.device_bytes + size) q.device_bytes;
}
  where
    key : LaneKey
    key = record_lane ext r

-- A count that falls to 0 or below takes the key out of both maps.
abbrev pub take_count {ℓ} : {K : Type ℓ} ⦃e : Eq K⦄ → K → Map K ℕ → Map K ℕ
take_count k items =
    if count k items - 1 == 0 then erase k items else insert k (count k items - 1) items

abbrev pub take_bytes {ℓ} : {K : Type ℓ} ⦃e : Eq K⦄ → K → ℕ → Map K ℕ → Map K ℕ → Map K ℕ
take_bytes k size items bytes =
    if count k items - 1 == 0 then erase k bytes else insert k (count k bytes - size) bytes

abbrev pub zero_key : LaneKey
zero_key = record { device = ""; lane = no_lane }

abbrev pub key_of : String → Map String LaneKey → LaneKey
key_of id keys = elim (lookup id keys) [ none ↦ zero_key | some k ↦ k ]

unfoldable pub unindex_locked : String → ℕ → DurableQueue → DurableQueue
unfolding insert erase lookup
unindex_locked id size q = record q {
  lane_keys = erase id q.lane_keys;
  lane_items = take_count key q.lane_items;
  lane_bytes = take_bytes key size q.lane_items q.lane_bytes;
  device_items = take_count key.device q.device_items;
  device_bytes = take_bytes key.device size q.device_items q.device_bytes;
}
  where
    key : LaneKey
    key = key_of id q.lane_keys

abbrev pub entry_of : String → Map String QueueRecord → QueueRecord
entry_of id entries = elim (lookup id entries) [ none ↦ zero_record | some r ↦ r ]

abbrev pub seq_of : Map String QueueRecord → String → ℕ
seq_of entries id = (entry_of id entries).queue_seq

-- The test of `sortOrder`: by sequence, then by id.
abbrev pub precedes : Map String QueueRecord → String → String → Bool
precedes entries a b =
    if seq_of entries a == seq_of entries b
    then str_ltb a b
    else ltb (seq_of entries a) (seq_of entries b)

unfoldable pub sort_order : DurableQueue → DurableQueue
unfolding sort_by lookup
sort_order q = record q { order = sort_by (precedes q.entries) q.order }

unfoldable pub peek_in :
    (String → Bool) → Map String QueueRecord → List String → Option QueuedArtifact
unfolding lookup record_artifact
peek_in wanted entries [] = none
peek_in wanted entries (id ∷ ids) =
    if wanted id then some (record_artifact (entry_of id entries)) else peek_in wanted entries ids

unfoldable pub peek_lane : LaneKey → DurableQueue → Option QueuedArtifact
unfolding peek_in
peek_lane key q = peek_in (λ id. key_of id q.lane_keys == key) q.entries q.order

unfoldable pub peek_device : String → DurableQueue → Option QueuedArtifact
unfolding peek_in
peek_device device q = peek_in (λ id. (key_of id q.lane_keys).device == device) q.entries q.order

abbrev lane_name : Lane → String
lane_name registration = "registration"
lane_name evidence = "evidence"
lane_name no_lane = ""

-- The test of `sortLaneKeys`.
abbrev pub key_ltb : LaneKey → LaneKey → Bool
key_ltb a b =
    if a.device == b.device
    then str_ltb (lane_name a.lane) (lane_name b.lane)
    else str_ltb a.device b.device

unfoldable pub lanes : DurableQueue → List LaneKey
unfolding sort_by
lanes q = sort_by key_ltb (map (λ entry. entry.0) q.lane_items)
