-- ===== src/Courier/Lane/Status.antt =====
-- What the worker shows of its lanes (`Status` of internal/evidence/courier/worker.go). The snapshot of
-- the counts and the state of each lane are read as one.
pub mod Sums
pub mod Blockage
use ori_gateway.Base.{
  ℕ, ◌+◌, ◌*◌, String, Bool, true, false, not, ◌&&◌, ◌||◌, Option, none, some, List, [], ◌∷◌, ltb,
  if◌then◌else◌, length, Eq, ◌==◌, nat_eq, string_eq,
}
use ori_gateway.Base.Maps.{Map, lookup}
use ori_gateway.Base.Sort.{sort_by}
use ori_gateway.Faults.{Recorder, active}
use ori_gateway.Courier.Types.{ArtifactType, LaneKey, key_eq}
use ori_gateway.Courier.Queue.State.{DurableQueue, count, key_ltb}
use ori_gateway.Courier.Backoff.{millisecond}
use ori_gateway.Courier.Lane.{HeldHead, DeliveryLane}
use ori_gateway.Courier.Lane.Loop.{waits_for_handoff}

pub record HeldStatus : Type 0 where
  pub queue_record : String
  pub artifact_digest : String
  pub artifact_type : ArtifactType
  pub refusal_status : ℕ
  pub reason : String
  pub first_held_at : ℕ
  pub acknowledged : Bool
  pub persisted : Bool

pub data DeviceState : Type 0 where
  device_held : HeldStatus → DeviceState
  device_waiting_handoff device_backing_off : DeviceState

pub record DeviceDeliveryStatus : Type 0 where
  pub key : LaneKey
  pub pending : ℕ
  pub state : DeviceState

pub record DeliveryStatus : Type 0 where
  pub pending : ℕ
  pub degraded : Bool
  pub blocked : Bool
  pub last_failure_at : ℕ
  pub last_error : String
  pub held : Option HeldStatus
  pub devices : List DeviceDeliveryStatus
  pub faults : List String

abbrev pub held_status : HeldHead → HeldStatus
held_status h = record {
  queue_record = h.hold.queue_record;
  artifact_digest = h.hold.artifact_digest;
  artifact_type = h.hold.artifact_type;
  refusal_status = h.hold.refusal_status;
  reason = h.hold.reason;
  first_held_at = h.hold.first_held_at_ms * millisecond;
  acknowledged = h.hold.acknowledged;
  persisted = h.persisted;
}

-- The `switch` over a lane's state, with the count of its artifacts; `none` is a clean lane.
unfoldable pub lane_state : ℕ → DeliveryLane → Option DeviceState
lane_state pending l = if pending == 0 then none else elim l.held [
  | some h ↦ some (device_held (held_status h))
  | none ↦
      if waits_for_handoff l
      then some device_waiting_handoff
      else if l.last_error == ""
      then none
      else some device_backing_off
]

abbrev pub Lanes : Type 0
Lanes = List (LaneKey × DeliveryLane)

-- The entries of the lanes that are not clean, in the order of the lanes.
unfoldable pub entries_of : Map LaneKey ℕ → Lanes → List DeviceDeliveryStatus
unfolding lane_state
entries_of counts [] = []
entries_of counts ((key, l) ∷ rest) = elim (lane_state (count key counts) l) [
  | none ↦ entries_of counts rest
  | some state ↦
      record { key = key; pending = count key counts; state = state } ∷ entries_of counts rest
]

unfoldable pub listed : List DeviceDeliveryStatus → ℕ
listed [] = 0
listed (e ∷ rest) = e.pending + listed rest

abbrev pub is_held : DeviceState → Bool
is_held (device_held h) = true
is_held _ = false

unfoldable pub held_all : List DeviceDeliveryStatus → Bool
held_all [] = true
held_all (e ∷ rest) = is_held e.state && held_all rest

abbrev pub held_of : DeviceState → Option HeldStatus
held_of (device_held h) = some h
held_of _ = none

unfoldable pub first_held : List DeviceDeliveryStatus → Option HeldStatus
first_held [] = none
first_held (e ∷ rest) = elim (held_of e.state) [ some h ↦ some h | none ↦ first_held rest ]

-- The latest failure of a lane that has one, the first of the latest.
unfoldable pub latest_failure : Lanes → ℕ × String → ℕ × String
latest_failure [] best = best
latest_failure ((key, l) ∷ rest) best = latest_failure rest (
    if not (l.last_error == "") && ltb best.0 l.last_failure_at
    then (l.last_failure_at, l.last_error)
    else best)

unfoldable pub status : DurableQueue → Lanes → Recorder → DeliveryStatus
unfolding lookup sort_by entries_of listed held_all first_held latest_failure active
status q lanes recorder =
    let sorted : Lanes = sort_by (λ a b. key_ltb a.0 b.0) lanes in
    let devices : List DeviceDeliveryStatus = entries_of q.lane_items sorted in
    let total : ℕ = length q.entries in
    let failure : ℕ × String = latest_failure sorted (0, "") in
    let faults : List String = active recorder in
    record {
      pending = total;
      degraded = not (length faults == 0) || not (length devices == 0);
      blocked = ltb 0 total && (listed devices == total && held_all devices);
      last_failure_at = failure.0;
      last_error = failure.1;
      held = first_held devices;
      devices = devices;
      faults = faults;
    }
