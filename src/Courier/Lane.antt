-- ===== src/Courier/Lane.antt =====
-- One device's delivery lane (`deliveryLane` of internal/evidence/courier/worker.go): its state, the
-- hold on its head, and how an attempt begins. Readings of the clock are nanoseconds.
pub mod Attempt
pub mod Loop
pub mod Store
pub mod Run
pub mod Blocked
pub mod Retained
pub mod Turns
pub mod Status
pub mod Flight
use ori_gateway.Base.{
  ℕ, ◌*◌, ◌/◌, String, Bool, true, false, not, ◌&&◌, Option, none, some, [], if◌then◌else◌, is_some,
  Eq, ◌==◌, nat_eq, string_eq,
}
use ori_gateway.Base.Maps.{lookup}
use ori_gateway.Courier.Types.{Bytes, other, Lane, LaneKey, QueuedArtifact, HoldRecord}
use ori_gateway.Courier.Routing.{ok, err, decode_device}
use ori_gateway.Courier.Queue.Disk.{Write}
use ori_gateway.Courier.Queue.State.{DurableQueue, External, peek_lane}
use ori_gateway.Courier.Sidecars.{hold_sidecar, hold_for}
use ori_gateway.Courier.Sidecars.Valid.{hold_record}
use ori_gateway.Courier.Backoff.{BackoffLane, millisecond}

-- The errors of an attempt. A channel refusal carries its Retry-After, 0 for none.
pub data Failure : Type 0 where
  channel_unavailable : Failure
  channel_refused : ℕ → Failure
  channel_permanent_refusal channel_receiver_state head_held : Failure
  runtime_sink malformed_response queue_retirement : Failure

unfoldable pub safe_failure_reason : Failure → String
safe_failure_reason channel_unavailable = "channel_unavailable"
safe_failure_reason (channel_refused retry_after) = "channel_refused"
safe_failure_reason channel_permanent_refusal = "channel_permanent_refusal"
safe_failure_reason channel_receiver_state = "channel_receiver_state_refusal"
safe_failure_reason runtime_sink = "runtime_sink_unavailable"
safe_failure_reason malformed_response = "malformed_channel_response"
safe_failure_reason queue_retirement = "queue_retirement_failed"
safe_failure_reason head_held = "delivery_pending"

pub record HeldHead : Type 0 where
  pub hold : HoldRecord
  pub device : String
  pub persisted : Bool

pub record StallState : Type 0 where
  pub id : String
  pub digest : String
  pub device : String
  pub lane : Lane
  pub failure : String
  pub reason : String
  pub waits_for_handoff : Bool
  pub since : ℕ
  pub last_logged : ℕ

-- `wake` is whether a handoff is pending in the channel of one place. `timing` has the deadlines and
-- the count of attempts, and names the head that `attempted` holds.
pub record DeliveryLane : Type 0 where
  pub key : LaneKey
  pub wake : Bool
  pub last_failure_at : ℕ
  pub last_error : String
  pub timing : BackoffLane
  pub held : Option HeldHead
  pub stall : Option StallState
  pub attempted : QueuedArtifact
  pub attempt_reason : String

abbrev pub no_artifact : QueuedArtifact
no_artifact = record { id = ""; kind = other ""; payload = []; enqueued_at_ms = 0 }

abbrev pub no_timing : BackoffLane
no_timing = record {
  not_before = 0;
  mono_due = 0;
  attempts = 0;
  retry_after = 0;
  backoff_id = "";
  attempted_id = "";
}

-- A lane as the worker creates it.
abbrev pub new_lane : LaneKey → DeliveryLane
new_lane key = record {
  key = key;
  wake = false;
  last_failure_at = 0;
  last_error = "";
  timing = no_timing;
  held = none;
  stall = none;
  attempted = no_artifact;
  attempt_reason = "";
}

unfoldable pub artifact_device_id : External → Bytes → String
unfolding decode_device
artifact_device_id ext payload = elim (decode_device ext.json payload) [
  | err e ↦ "unrecognised"
  | ok device ↦ if device == "" then "unrecognised" else device
]

-- Whether the lane holds this record.
abbrev pub holds_id : String → DeliveryLane → Bool
holds_id id l = elim l.held [ none ↦ false | some h ↦ h.hold.queue_record == id ]

-- The writes that publish a hold with its failure.
abbrev pub held_by : HeldHead → DeliveryLane → DeliveryLane
held_by h l = record l {
  held = some h;
  stall = none;
  last_error = "channel_permanent_refusal";
  last_failure_at = h.hold.first_held_at_ms * millisecond;
}

unfoldable pub adopt_durable_hold :
    External → QueuedArtifact → DurableQueue → DeliveryLane → DeliveryLane
unfolding hold_for lookup artifact_device_id
adopt_durable_hold ext queued q l =
    if holds_id queued.id l then l else elim (hold_for queued.id q) [
      | none ↦ l
      | some r ↦
          held_by
            (record { hold = r; device = artifact_device_id ext queued.payload; persisted = true })
            l
    ]

unfoldable pub adopted_head :
    External → DurableQueue → DeliveryLane → DeliveryLane × Option QueuedArtifact
unfolding peek_lane adopt_durable_hold
adopted_head ext q l = elim (peek_lane l.key q) [
  | none ↦ (l, none)
  | some queued ↦ (adopt_durable_hold ext queued q l, some queued)
]

-- Whether the head is the held artifact; if not, the hold is released.
unfoldable pub release_held_unless : Option QueuedArtifact → DeliveryLane → DeliveryLane × Bool
release_held_unless none l = (record l { held = none }, false)
release_held_unless (some queued) l =
    if holds_id queued.id l then (l, true) else (record l { held = none }, false)

-- How an attempt begins: behind a hold, with nothing queued, or with the artifact that it sends.
pub data Begun : Type 0 where
  blocked nothing_queued : Begun
  sending : QueuedArtifact → Begun

abbrev pub start_timing : QueuedArtifact → DeliveryLane → BackoffLane
start_timing queued l = record {
  not_before = 0;
  mono_due = 0;
  attempts = if l.attempted.id == queued.id then l.timing.attempts else 0;
  retry_after = 0;
  backoff_id = "";
  attempted_id = queued.id;
}

abbrev pub begin_with : Option QueuedArtifact → DeliveryLane × Bool → DeliveryLane × Begun
begin_with head (l, true) = (l, blocked)
begin_with none (l, false) = (l, nothing_queued)
begin_with (some queued) (l, false) = (
  record l { timing = start_timing queued l; attempted = queued; attempt_reason = "" },
  sending queued,
)

-- `deliverHead` up to its send. The pending handoff is taken first.
unfoldable pub begin_attempt : External → DurableQueue → DeliveryLane → DeliveryLane × Begun
unfolding adopted_head release_held_unless
begin_attempt ext q l =
    let (l₁, head) = adopted_head ext q (record l { wake = false }) in
    begin_with head (release_held_unless head l₁)

-- `hold`: in memory first, then durably; `persisted` is whether the sidecar was written.
unfoldable pub hold_head :
    External
    → Write
    → ℕ
    → QueuedArtifact
    → ℕ
    → String
    → DurableQueue
    → DeliveryLane
    → DurableQueue × DeliveryLane
unfolding hold_record hold_sidecar artifact_device_id
hold_head ext w now queued status reason q l =
    let r : HoldRecord = hold_record ext queued status reason (now / millisecond) in
    let (q', e) = hold_sidecar ext w r q in
    (
      q',
      held_by
          (record {
            hold = r;
            device = artifact_device_id ext queued.payload;
            persisted = not (is_some e);
          })
          l,
    )
