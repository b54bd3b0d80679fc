-- ===== src/Courier/Lane/Loop.antt =====
-- The lane's loop (`run`, `remind`, `noteStall`, `recordFailure`, `clearFailure`, `clearBackoff` and
-- `restore` of internal/evidence/courier/worker.go): one function for what a wake or the timer does,
-- and one for what follows an attempt. A timer that is reset is given as its delay.
use ori_gateway.Base.{
  ℕ, ◌+◌, ◌-◌, ◌*◌, String, Bool, true, false, not, ◌&&◌, ◌||◌, Option, none, some, List, [], ltb,
  leb, if◌then◌else◌, is_some, ◌==◌, nat_eq, string_eq,
}
use ori_gateway.Base.Maps.{lookup}
use ori_gateway.Courier.Types.{BackoffRecord}
use ori_gateway.Courier.Queue.State.{DurableQueue, External}
use ori_gateway.Courier.Sidecars.{backoff_for, payload_digest}
use ori_gateway.Courier.Backoff.{
  Settings, millisecond, ceil_milli, wait_bound, persisted, until_due, schedule_backoff,
}
use ori_gateway.Courier.Lane.{
  Failure, channel_refused, channel_permanent_refusal, channel_receiver_state, head_held,
  safe_failure_reason, StallState, DeliveryLane, no_timing, adopted_head,
}

-- The clocks' readings in one turn of the loop: at its start, and when a back-off is scheduled.
pub record Readings : Type 0 where
  pub wall : ℕ
  pub mono : ℕ

pub data Event : Type 0 where
  woken timer_fired : Event

-- An attempt, or none: with the timer left alone, or reset to a delay.
pub data Turn : Type 0 where
  attempt : Turn
  wait : Option ℕ → Turn

abbrev pub waits_for_handoff : DeliveryLane → Bool
waits_for_handoff l = elim l.stall [ none ↦ false | some s ↦ s.waits_for_handoff ]

-- `remind`: whether there is a held head or one that waits for a handoff.
abbrev pub reminds : DeliveryLane → Bool
reminds l = is_some l.held || waits_for_handoff l

abbrev pub log_stall : ℕ → DeliveryLane → DeliveryLane
log_stall now l = elim l.stall [
  | none ↦ l
  | some s ↦
      if s.waits_for_handoff then record l { stall = some (record s { last_logged = now }) } else l
]

-- The look at the deadlines, with what a clamp hands to `SetBackoff`.
abbrev pub due : Settings → Readings → DeliveryLane → DeliveryLane × List BackoffRecord × ℕ
due w at l =
    let (timing, records, left) = until_due w at.wall at.mono l.timing in
    (record l { timing = timing }, records, left)

-- The `select` of the loop.
unfoldable pub on_event :
    Settings → ℕ → Readings → Event → DeliveryLane → DeliveryLane × List BackoffRecord × Turn
unfolding until_due
on_event w reminder at woken l =
    let (l', records, left) = due w at (record l { wake = false }) in
    (l', records, if ltb 0 left then wait none else attempt)
on_event w reminder at timer_fired l =
    if reminds l
    then (log_stall at.wall l, [], wait (some reminder))
    else let (l', records, left) = due w at l in
      (l', records, if ltb 0 left then wait (some left) else attempt)

abbrev pub record_failure : ℕ → Failure → DeliveryLane → DeliveryLane
record_failure now e l = record l { last_failure_at = now; last_error = safe_failure_reason e }

abbrev pub is_receiver_state : Failure → Bool
is_receiver_state channel_receiver_state = true
is_receiver_state _ = false

-- Whether a failure enters a stall: the first one, a new head, or a wait that is new.
abbrev pub enters_stall : Failure → DeliveryLane → Bool
enters_stall e l = elim l.stall [
  | none ↦ true
  | some s ↦ not (s.id == l.attempted.id) || (is_receiver_state e && not s.waits_for_handoff)
]

abbrev pub stall_or : StallState → DeliveryLane → StallState
stall_or s l = elim l.stall [ none ↦ s | some old ↦ old ]

unfoldable pub note_stall : External → ℕ → ℕ → Failure → DeliveryLane → DeliveryLane
note_stall ext reminder now e l =
    let fresh : StallState = record {
      id = l.attempted.id;
      digest = payload_digest ext l.attempted.payload;
      device = l.key.device;
      lane = l.key.lane;
      failure = "";
      reason = "";
      waits_for_handoff = false;
      since = now;
      last_logged = now;
    } in
    let enter = enters_stall e l in
    let old = stall_or fresh l in
    let logged = not enter && leb (old.last_logged + reminder) now in
    let s : StallState = if enter then fresh else old in
    record l {
      stall = some (record s {
        failure = safe_failure_reason e;
        reason = l.attempt_reason;
        waits_for_handoff = is_receiver_state e;
        last_logged = if logged then now else s.last_logged;
      });
    }

-- `clearBackoff` on the lane, with the id that it clears in the store, if any.
unfoldable pub clear_lane_backoff : DeliveryLane → DeliveryLane × Option String
clear_lane_backoff l = (
  record l { timing = record no_timing { attempted_id = l.timing.attempted_id } },
  if l.attempted.id == "" then none else some l.attempted.id,
)

-- What the loop does next: the lane, the records handed to `SetBackoff`, the id handed to
-- `ClearBackoff`, and the timer.
pub record Next : Type 0 where
  pub lane : DeliveryLane
  pub set : List BackoffRecord
  pub cleared : Option String
  pub timer : Option ℕ

abbrev pub retry_floor : Failure → ℕ
retry_floor (channel_refused retry_after) = retry_after
retry_floor _ = 0

abbrev then_remind : ℕ → DeliveryLane → Next
then_remind reminder l =
    let (l', id) = clear_lane_backoff l in
    record { lane = l'; set = []; cleared = id; timer = some reminder }

abbrev then_back_off : Settings → Readings → Readings → Failure → DeliveryLane → Next
then_back_off w at after e l =
    let (timing, records, delay) =
      schedule_backoff w at.wall at.mono (retry_floor e) after.wall after.mono l.timing in
    record {
      lane = record l { timing = timing };
      set = records;
      cleared = none;
      timer = some delay;
    }

-- After an attempt that failed.
unfoldable pub after_failure :
    External → Settings → ℕ → Readings → Readings → Failure → DeliveryLane → Next
unfolding note_stall clear_lane_backoff schedule_backoff
after_failure ext w reminder at after head_held l = record {
  lane = l;
  set = [];
  cleared = none;
  timer = none;
}
after_failure ext w reminder at after channel_permanent_refusal l =
    then_remind reminder (record_failure at.wall channel_permanent_refusal l)
after_failure ext w reminder at after channel_receiver_state l = then_remind reminder (
    note_stall ext reminder at.wall channel_receiver_state
      (record_failure at.wall channel_receiver_state l))
after_failure ext w reminder at after e l =
    then_back_off w at after e (note_stall ext reminder at.wall e (record_failure at.wall e l))

-- After an attempt without an error: at once again if one was delivered, else at the interval.
unfoldable pub after_success : Settings → Bool → DeliveryLane → Next
after_success w delivered l = record {
  lane = record l { last_error = ""; stall = none };
  set = [];
  cleared = none;
  timer = some (if delivered then 0 else w.retry);
}

abbrev pub floor_of : Option ℕ → ℕ
floor_of none = 0
floor_of (some ms) = ms * millisecond

-- What a persisted back-off sets: the rest of the wait that the wall clock shows, bounded as any wait
-- is, becomes the monotonic deadline too.
abbrev restored :
    Settings
    → Readings
    → ℕ
    → String
    → BackoffRecord
    → DeliveryLane
    → DeliveryLane × List BackoffRecord
restored w at now id r l =
    let retry_after : ℕ = floor_of r.retry_after_ms in
    let latest : ℕ = at.wall + wait_bound w retry_after in
    let clamped : Bool = ltb latest (r.not_before_ms * millisecond) in
    let not_before : ℕ = if clamped then ceil_milli latest else r.not_before_ms * millisecond in
    (
      record l {
        timing = record l.timing {
          not_before = not_before;
          attempts = r.attempts;
          retry_after = retry_after;
          backoff_id = id;
          mono_due = at.mono + (not_before - at.wall);
        };
        last_error = "channel_refused";
        last_failure_at = now;
      },
      if clamped then persisted id not_before r.attempts retry_after else [],
    )

-- `restore`: the hold, or else the back-off, that the store has for the lane's head.
unfoldable pub restore :
    External
    → Settings
    → Readings
    → ℕ
    → DurableQueue
    → DeliveryLane
    → DeliveryLane × List BackoffRecord
unfolding adopted_head backoff_for lookup wait_bound ceil_milli persisted
restore ext w at now q l =
    let (l₁, head) = adopted_head ext q l in
    elim head [
      | none ↦ (l₁, [])
      | some queued ↦ elim (backoff_for queued.id q) [
        | none ↦ (l₁, [])
        | some r ↦ restored w at now queued.id r l₁
      ]
    ]
