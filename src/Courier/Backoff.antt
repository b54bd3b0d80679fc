-- ===== src/Courier/Backoff.antt =====
-- The back-off of a delivery lane (`backoffDelay`, `scheduleBackoff`, `untilDue`, `persistClamp` and
-- `waitBound` of internal/evidence/courier/worker.go). Durations and readings are nanoseconds; a
-- deadline that has passed leaves a wait of 0, where the source has a difference that is not
-- positive, which its timers and `backingOff` treat alike. What a call hands to `SetBackoff` is a
-- value, since the lane goes on alike whatever that answers.
pub mod Deadlines
use ori_gateway.Base.{
  ℕ, zero, suc, ◌+◌, ◌-◌, ◌*◌, ◌/◌, ◌^◌, ◌≤◌, ◌<◌, min, max, String, ◌≡◌, refl, sym, ap, subst, ◌∙◌,
  Bool, true, false, Option, none, some, List, [], ◌∷◌, ◌++◌, arith, ltb, leb, if◌then◌else◌,
  Bool-cases, ◌==◌, nat_eq, string_eq,
}
use ori_gateway.Courier.Types.{BackoffRecord}
use ori_gateway.Courier.Sidecars.{max_backoff_attempts}

-- The settings of `DeliveryWorker`.
pub record Settings : Type 0 where
  pub retry : ℕ
  pub backoff_base : ℕ
  pub max_backoff : ℕ

-- The fields of `deliveryLane` that a back-off sets, with the id of the head last attempted.
pub record BackoffLane : Type 0 where
  pub not_before : ℕ
  pub mono_due : ℕ
  pub attempts : ℕ
  pub retry_after : ℕ
  pub backoff_id : String
  pub attempted_id : String

-- The loop of `backoffDelay`: at most `rounds` doublings.
unfoldable pub double_up : ℕ → ℕ → ℕ → ℕ
double_up zero bound delay = delay
double_up (suc rounds) bound delay =
    let further = double_up rounds bound (delay * 2) in if ltb delay bound then further else delay

unfoldable pub backoff_delay : Settings → ℕ → ℕ → ℕ
backoff_delay w attempts floor =
    let delay = double_up (attempts - 1) w.max_backoff w.backoff_base in
    let capped = if ltb w.max_backoff delay then w.max_backoff else delay in
    max (max capped w.retry) floor

unfoldable pub wait_bound : Settings → ℕ → ℕ
wait_bound w retry_after = max (max w.max_backoff w.retry) retry_after

abbrev pub millisecond : ℕ
millisecond = 1000000

unfoldable pub ceil_milli : ℕ → ℕ
ceil_milli t =
    let whole = (t / millisecond) * millisecond in
    if ltb whole t then whole + millisecond else whole

unfoldable pub backoff_record : String → ℕ → ℕ → ℕ → BackoffRecord
backoff_record id not_before attempts retry_after = record {
  v = 0;
  queue_record = id;
  not_before_ms = not_before / millisecond;
  attempts = attempts;
  retry_after_ms = if ltb 0 retry_after then some (retry_after / millisecond) else none;
}

-- What is handed to `SetBackoff` for an id: nothing, when there is no id.
unfoldable pub persisted : String → ℕ → ℕ → ℕ → List BackoffRecord
persisted id not_before attempts retry_after =
    if id == "" then [] else backoff_record id not_before attempts retry_after ∷ []

unfoldable pub until_due : Settings → ℕ → ℕ → BackoffLane → BackoffLane × List BackoffRecord × ℕ
until_due w wall mono l =
    let bound = wait_bound w l.retry_after in
    if ltb bound (l.not_before - wall)
    then (let clamp = ceil_milli (wall + bound) in
        (
          record l { not_before = clamp },
          persisted l.backoff_id clamp l.attempts l.retry_after,
          max (clamp - wall) (l.mono_due - mono),
        ))
    else (l, [], max (l.not_before - wall) (l.mono_due - mono))

-- The lane as `scheduleBackoff` leaves it, before it reads the clocks again.
unfoldable pub set_deadlines : Settings → ℕ → ℕ → ℕ → BackoffLane → BackoffLane
set_deadlines w wall mono floor l =
    let attempts = if ltb l.attempts max_backoff_attempts then l.attempts + 1 else l.attempts in
    let delay = backoff_delay w attempts floor in
    record l {
      attempts = attempts;
      not_before = ceil_milli (wall + delay);
      mono_due = mono + delay;
      retry_after = floor;
      backoff_id = l.attempted_id;
    }

unfoldable pub schedule_backoff :
    Settings → ℕ → ℕ → ℕ → ℕ → ℕ → BackoffLane → BackoffLane × List BackoffRecord × ℕ
schedule_backoff w wall mono floor wall_after mono_after l =
    let set = set_deadlines w wall mono floor l in
    let (l', clamped, wait) = until_due w wall_after mono_after set in
    (l', persisted set.backoff_id set.not_before set.attempts set.retry_after ++ clamped, wait)
