-- ===== src/Samples/Lanes.antt =====
-- A delivery lane that backs off (internal/evidence/courier/worker.go).
use ori_gateway.Base.{◌+◌, ◌≤◌, ◌<◌, min, ◌≡◌, refl, List, [], ◌∷◌, arith, nat_eq}
use ori_gateway.Courier.Sidecars.{max_backoff_attempts}
use ori_gateway.Courier.Backoff.{
  Settings, BackoffLane, double_up, backoff_delay, millisecond, until_due, schedule_backoff,
}
use ori_gateway.Courier.Backoff.Deadlines.{Reading, look, full_delay, schedule-waits}

-- Five seconds between attempts, and five minutes at most.
abbrev pub sample_settings : Settings
sample_settings = record {
  retry = 5000000000;
  backoff_base = 5000000000;
  max_backoff = 300000000000;
}

third_delay : backoff_delay sample_settings 3 0 ≡ 20000000000
unfolding backoff_delay double_up
third_delay = refl

capped_delay : backoff_delay sample_settings 9 0 ≡ 300000000000
unfolding backoff_delay double_up
capped_delay = refl

floored_delay : backoff_delay sample_settings 1 60000000000 ≡ 60000000000
unfolding backoff_delay double_up
floored_delay = refl

-- A lane that has backed off twice.
abbrev sample_backoff_lane : BackoffLane
sample_backoff_lane = record {
  not_before = 0;
  mono_due = 0;
  attempts = 2;
  retry_after = 0;
  backoff_id = "";
  attempted_id = "pump-1";
}

-- The wall clock falls back to 0 after the back-off is scheduled.
abbrev sample_readings : List Reading
sample_readings = record { wall = 0; mono = 2000000000 } ∷ []

abbrev sample_now : Reading
sample_now = record { wall = 1500000; mono = 3000000000 }

schedule-waits_example :
    let lane =
      look sample_settings sample_readings
        (schedule_backoff sample_settings 900000000000 1000000000 0 900000000001 1000000001
          sample_backoff_lane).0 in
    let wait = (until_due sample_settings 1500000 3000000000 lane).2 in
    (1000000000 + full_delay sample_settings (min 3 max_backoff_attempts) 0 ≤ 3000000000 + wait)
    × (wait < 300000000000 + millisecond)
schedule-waits_example =
    schedule-waits sample_settings 900000000000 1000000000 0 900000000001 1000000001
      sample_backoff_lane sample_readings sample_now (omega arith) (omega arith)
