-- ===== src/Courier/Lane/Turns.antt =====
-- When the loop attempts (`run` of internal/evidence/courier/worker.go).
use ori_gateway.Base.{
  ℕ, ◌+◌, ◌≤◌, min, ◌≡◌, refl, subst, ◌∙◌, Bool, true, false, some, List, [], ◌∷◌, arith, if-both,
  nat_eq, string_eq,
}
use ori_gateway.Courier.Types.{BackoffRecord}
use ori_gateway.Courier.Queue.State.{External}
use ori_gateway.Courier.Sidecars.{max_backoff_attempts}
use ori_gateway.Courier.Backoff.{Settings, BackoffLane, until_due, schedule_backoff, set_deadlines}
use ori_gateway.Courier.Backoff.Deadlines.{
  until_due-keeps, until_due-wait, set_deadlines-due, full_delay,
}
use ori_gateway.Courier.Lane.{
  Failure, channel_unavailable, channel_refused, channel_receiver_state, malformed_response,
  runtime_sink, queue_retirement, channel_permanent_refusal, head_held, DeliveryLane,
}
use ori_gateway.Courier.Lane.Loop.{
  Readings, Event, woken, timer_fired, Turn, attempt, wait, on_event, after_failure, note_stall,
  clear_lane_backoff, waits_for_handoff, retry_floor, reminds,
}

-- The loop turns again and again without an attempt.
unfoldable pub watch : Settings → ℕ → List (Event × Readings) → DeliveryLane → DeliveryLane
watch w reminder [] l = l
watch w reminder ((e, at) ∷ rest) l = watch w reminder rest (on_event w reminder at e l).0

-- The failures that back a lane off.
abbrev pub backs_off : Failure → Bool
backs_off channel_unavailable = true
backs_off (channel_refused floor) = true
backs_off malformed_response = true
backs_off runtime_sink = true
backs_off queue_retirement = true
backs_off _ = false

event-due :
    (w : Settings) (reminder : ℕ) (at : Readings) (e : Event) (l : DeliveryLane)
    → (on_event w reminder at e l).0.timing.mono_due ≡ l.timing.mono_due
unfolding on_event
event-due w reminder at woken l = (until_due-keeps w at.wall at.mono l.timing).0
event-due w reminder at timer_fired l =
    if-both
      (λ (o : DeliveryLane × List BackoffRecord × Turn). o.0.timing.mono_due ≡ l.timing.mono_due)
      (reminds l) _ _ (λ _. ground arith) (λ _. (until_due-keeps w at.wall at.mono l.timing).0)

watch-due :
    (w : Settings) (reminder : ℕ) (turns : List (Event × Readings)) (l : DeliveryLane)
    → (watch w reminder turns l).timing.mono_due ≡ l.timing.mono_due
unfolding watch
watch-due w reminder [] l = refl
watch-due w reminder ((e, at) ∷ rest) l =
    watch-due w reminder rest (on_event w reminder at e l).0 ∙ event-due w reminder at e l

-- An attempt means that the monotonic deadline has passed.
event-passed :
    (w : Settings) (reminder : ℕ) (at : Readings) (e : Event) (l : DeliveryLane)
    → (on_event w reminder at e l).2 ≡ attempt
    → l.timing.mono_due ≤ at.mono
unfolding on_event
event-passed w reminder at woken l go =
    ground (arith, (until_due-wait w at.wall at.mono l.timing).0)
event-passed w reminder at timer_fired l go =
    ground (arith, (until_due-wait w at.wall at.mono l.timing).0)

schedule-due :
    (w : Settings) (at after : Readings) (floor : ℕ) (timing : BackoffLane)
    → timing.attempts ≤ max_backoff_attempts
    → (schedule_backoff w at.wall at.mono floor after.wall after.mono timing).0.mono_due
      ≡ at.mono + full_delay w (min (timing.attempts + 1) max_backoff_attempts) floor
unfolding schedule_backoff
schedule-due w at after floor timing known =
    (until_due-keeps w after.wall after.mono (set_deadlines w at.wall at.mono floor timing)).0
    ∙ (set_deadlines-due w at.wall at.mono floor timing known).0

failure-due :
    (ext : External) (w : Settings) (reminder : ℕ) (at after : Readings) (e : Failure)
    (l : DeliveryLane)
    → backs_off e ≡ true
    → l.timing.attempts ≤ max_backoff_attempts
    → (after_failure ext w reminder at after e l).lane.timing.mono_due
      ≡ at.mono + full_delay w (min (l.timing.attempts + 1) max_backoff_attempts) (retry_floor e)
unfolding after_failure note_stall
failure-due ext w reminder at after channel_unavailable l back known =
    schedule-due w at after 0 l.timing known
failure-due ext w reminder at after (channel_refused floor) l back known =
    schedule-due w at after floor l.timing known
failure-due ext w reminder at after malformed_response l back known =
    schedule-due w at after 0 l.timing known
failure-due ext w reminder at after runtime_sink l back known =
    schedule-due w at after 0 l.timing known
failure-due ext w reminder at after queue_retirement l back known =
    schedule-due w at after 0 l.timing known
failure-due ext w reminder at after channel_permanent_refusal l back known = cc
failure-due ext w reminder at after channel_receiver_state l back known = cc
failure-due ext w reminder at after head_held l back known = cc

-- After a failure that backs a lane off, no turn of the loop attempts before the whole delay has
-- passed on the monotonic clock: not after any number of handoffs and of timers, and however the wall
-- clock moves; provided the count of attempts is within its bound. The delay doubles with each
-- back-off in a row, up to the cap, and is never below the interval or the Retry-After.
pub failure-rests :
    (ext : External) (w : Settings) (reminder : ℕ) (at after : Readings) (f : Failure)
    (l : DeliveryLane) (turns : List (Event × Readings)) (e : Event) (now : Readings)
    → backs_off f ≡ true
    → l.timing.attempts ≤ max_backoff_attempts
    → (on_event w reminder now e
        (watch w reminder turns (after_failure ext w reminder at after f l).lane)).2
      ≡ attempt
    → at.mono + full_delay w (min (l.timing.attempts + 1) max_backoff_attempts) (retry_floor f)
      ≤ now.mono
failure-rests ext w reminder at after f l turns e now back known go =
    let l' = (after_failure ext w reminder at after f l).lane in
    subst (λ n. n ≤ now.mono)
      (watch-due w reminder turns l' ∙ failure-due ext w reminder at after f l back known)
      (event-passed w reminder now e (watch w reminder turns l') go)

-- A lane whose head waits for a handoff, with no deadline.
record Waiting (l : DeliveryLane) : Type 0 where
  waits : waits_for_handoff l ≡ true
  no_wall : l.timing.not_before ≡ 0
  no_mono : l.timing.mono_due ≡ 0

unfoldable pub timers_only : List Readings → List (Event × Readings)
timers_only [] = []
timers_only (at ∷ rest) = (timer_fired, at) ∷ timers_only rest

timer-Waiting :
    (w : Settings) (reminder : ℕ) (at : Readings) (l : DeliveryLane)
    → Waiting l
    → Waiting (on_event w reminder at timer_fired l).0
unfolding on_event
timer-Waiting w reminder at l h = record {
  waits = ground (arith, h.waits);
  no_wall = ground (arith, h.waits, h.no_wall);
  no_mono = ground (arith, h.waits, h.no_mono);
}

timers-Waiting :
    (w : Settings) (reminder : ℕ) (ticks : List Readings) (l : DeliveryLane)
    → Waiting l
    → Waiting (watch w reminder (timers_only ticks) l)
unfolding watch timers_only
timers-Waiting w reminder [] l h = h
timers-Waiting w reminder (at ∷ rest) l h =
    timers-Waiting w reminder rest (on_event w reminder at timer_fired l).0
      (timer-Waiting w reminder at l h)

handoff-Waiting :
    (ext : External) (w : Settings) (reminder : ℕ) (at after : Readings) (l : DeliveryLane)
    → Waiting (after_failure ext w reminder at after channel_receiver_state l).lane
unfolding after_failure note_stall clear_lane_backoff
handoff-Waiting ext w reminder at after l = record { waits = refl; no_wall = refl; no_mono = refl }

Waiting-turns :
    (w : Settings) (reminder : ℕ) (now : Readings) (l : DeliveryLane)
    → Waiting l
    → ((on_event w reminder now timer_fired l).2 ≡ wait (some reminder))
      × ((on_event w reminder now woken l).2 ≡ attempt)
unfolding on_event until_due
Waiting-turns w reminder now l h = (ground (arith, h.waits), ground (arith, h.no_wall, h.no_mono))

-- After a refusal that waits for the receiver's state, the timer only reminds, however often it
-- fires, and the next handoff is answered by an attempt at once, whatever back-off came before.
pub handoff-answered :
    (ext : External) (w : Settings) (reminder : ℕ) (at after : Readings) (l : DeliveryLane)
    (ticks : List Readings) (now : Readings)
    → let l' =
        watch w reminder
          (timers_only ticks)
          (after_failure ext w reminder at after channel_receiver_state l).lane in
      ((on_event w reminder now timer_fired l').2 ≡ wait (some reminder))
      × ((on_event w reminder now woken l').2 ≡ attempt)
handoff-answered ext w reminder at after l ticks now =
    Waiting-turns w reminder now _
      (timers-Waiting w reminder ticks _ (handoff-Waiting ext w reminder at after l))
