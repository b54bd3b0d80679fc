-- ===== src/Courier/Sidecars.antt =====
-- Holds and back-offs: the sidecar records beside a queue record (internal/evidence/courier/hold.go).
pub mod Valid
pub mod Orphans
pub mod Unsynced
use Prim.Native.String.{◌++◌ as str_append}
use ori_gateway.Base.{
  ℕ, zero, suc, ◌+◌, ◌-◌, ◌*◌, ◌/◌, ◌%◌, ◌^◌, ◌≤◌, ◌<◌, min, max, String, ◌≡◌, refl, sym, ap, subst,
  ◌∙◌, ◌≢◌, ◌↔◌, ◌⊎◌, inl, inr, Bool, true, false, not, ◌&&◌, ◌||◌, Option, none, some, List, [],
  ◌∷◌, ◌++◌, map, arith, eq_iff, ltb, leb, if◌then◌else◌, ltb→lt, lt→ltb, leb→le, Bool-cases,
  Option-cases, is_some, length, length-append, drop, any, all, All, Eq, ◌==◌, nat_eq, string_eq,
}
use ori_gateway.Base.Maps.{Map, lookup, insert, erase, has}
use ori_gateway.Refusal.{held, held_refusal_status}
use ori_gateway.Courier.Types.{Bytes, ArtifactType, type_eq, QueueRecord, HoldRecord, BackoffRecord}
use ori_gateway.Courier.Queue.Disk.{Disk, Write, write_failed, write_file}
use ori_gateway.Courier.Queue.State.{
  DurableQueue, External, QueueError, artifact_not_found, invalid_record, encode_failed,
  store_failed, note_store,
}

abbrev pub hold_record_version : ℕ
hold_record_version = 1

abbrev pub max_safe_integer : ℕ
max_safe_integer = 9007199254740991

abbrev pub max_backoff_attempts : ℕ
max_backoff_attempts = 65536

abbrev pub max_retry_after_ms : ℕ
max_retry_after_ms = 2147483647000

abbrev pub payload_digest : External → Bytes → String
payload_digest ext payload = str_append "sha256:" (ext.sha256_hex payload)

pub data HoldFault : Type 0 where
  bad_version record_mismatch digest_mismatch type_mismatch bad_reason bad_status bad_time :
      HoldFault

-- The first case that applies; `none` is a valid record. Times are not negative, so a time is out
-- of range at 0 and above the bound.
unfoldable pub validate_hold_record : External → HoldRecord → QueueRecord → Option HoldFault
validate_hold_record ext r queued =
    if not (r.v == hold_record_version)
    then some bad_version
    else if not (r.queue_record == queued.id)
    then some record_mismatch
    else if not (r.artifact_digest == payload_digest ext (queued.payload))
    then some digest_mismatch
    else if not (type_eq (r.artifact_type) (queued.kind))
    then some type_mismatch
    else if not (held (r.refusal_status) (r.reason))
    then some bad_reason
    else if not (held_refusal_status (r.refusal_status))
    then some bad_status
    else if r.first_held_at_ms == 0 || ltb max_safe_integer (r.first_held_at_ms)
    then some bad_time
    else none

pub data BackoffFault : Type 0 where
  v1_with_floor v2_without_floor unknown_version bad_deadline bad_attempts bad_floor : BackoffFault

abbrev floor_out_of_range : Option ℕ → Bool
floor_out_of_range none = false
floor_out_of_range (some ms) = ms == 0 || ltb max_retry_after_ms ms

unfoldable pub validate_backoff_record : BackoffRecord → Option BackoffFault
validate_backoff_record r =
    if r.v == 1 && is_some (r.retry_after_ms)
    then some v1_with_floor
    else if r.v == 2 && not (is_some (r.retry_after_ms))
    then some v2_without_floor
    else if not (r.v == 1) && not (r.v == 2)
    then some unknown_version
    else if r.not_before_ms == 0 || ltb max_safe_integer (r.not_before_ms)
    then some bad_deadline
    else if r.attempts == 0 || ltb max_backoff_attempts (r.attempts)
    then some bad_attempts
    else if floor_out_of_range (r.retry_after_ms)
    then some bad_floor
    else none

-- `Hold`: the write, and the map once it has committed.
unfoldable pub hold_sidecar :
    External → Write → HoldRecord → DurableQueue → DurableQueue × Option QueueError
unfolding lookup insert write_file note_store
hold_sidecar ext w given q = elim (lookup (given.queue_record) q.entries) [
  | none ↦ (q, some artifact_not_found)
  | some queued ↦
      let r : HoldRecord = record given { v = hold_record_version } in
      elim (validate_hold_record ext r queued) [
        | some fault ↦ (q, some invalid_record)
        | none ↦
            let q₁ : DurableQueue = note_store (write_failed w) (record q {
              disk = record (q.disk) {
                hold_files = write_file w (r.queue_record) r (q.disk.hold_files);
              };
            }) in
            if write_failed w
            then (q₁, some store_failed)
            else (record q₁ { holds = insert (r.queue_record) r (q₁.holds) }, none)
      ]
]

abbrev pub version_of : Option ℕ → ℕ
version_of none = 1
version_of (some _) = 2

-- `SetBackoff`.
unfoldable pub set_backoff : Write → BackoffRecord → DurableQueue → DurableQueue × Option QueueError
unfolding lookup insert write_file note_store
set_backoff w given q = elim (lookup (given.queue_record) q.entries) [
  | none ↦ (q, some artifact_not_found)
  | some queued ↦
      let r : BackoffRecord = record given { v = version_of (given.retry_after_ms) } in
      elim (validate_backoff_record r) [
        | some fault ↦ (q, some invalid_record)
        | none ↦
            let q₁ : DurableQueue = note_store (write_failed w) (record q {
              disk = record (q.disk) {
                backoff_files = write_file w (r.queue_record) r (q.disk.backoff_files);
              };
            }) in
            if write_failed w
            then (q₁, some store_failed)
            else (record q₁ { backoffs = insert (r.queue_record) r (q₁.backoffs) }, none)
      ]
]

unfoldable pub hold_for : String → DurableQueue → Option HoldRecord
unfolding lookup
hold_for id q = lookup id q.holds

unfoldable pub backoff_for : String → DurableQueue → Option BackoffRecord
unfolding lookup
backoff_for id q = lookup id q.backoffs

-- `loadHolds` and `loadBackoffs` over the parsed files: `none` refuses the queue.
unfoldable pub load_holds :
    External → Map String QueueRecord → Map String HoldRecord → Option (Map String HoldRecord)
unfolding lookup insert
load_holds ext entries [] = some []
load_holds ext entries ((id, r) ∷ files) =
    if not (r.queue_record == id) then none else elim (lookup id entries) [
      | none ↦ none
      | some queued ↦ elim (validate_hold_record ext r queued) [
        | some fault ↦ none
        | none ↦ elim (load_holds ext entries files) [
          | none ↦ none
          | some holds ↦ some (insert id r holds)
        ]
      ]
    ]

unfoldable pub load_backoffs :
    Map String QueueRecord → Map String BackoffRecord → Option (Map String BackoffRecord)
unfolding lookup insert
load_backoffs entries [] = some []
load_backoffs entries ((id, r) ∷ files) =
    if not (r.queue_record == id) then none else elim (lookup id entries) [
      | none ↦ none
      | some queued ↦ elim (validate_backoff_record r) [
        | some fault ↦ none
        | none ↦ elim (load_backoffs entries files) [
          | none ↦ none
          | some backoffs ↦ some (insert id r backoffs)
        ]
      ]
    ]
