-- ===== src/Samples/Clocks.antt =====
-- The theorems of the signing clock at sample runs (internal/mqttauth/signingclock.go).
use ori_gateway.Base.{
  ◌<◌, ◌≡◌, refl, true, false, none, some, [], ◌∷◌, arith, All, nat_eq, string_eq,
}
use ori_gateway.Auth.Signing.{
  Clock, start_written, started, new_durable_signing_clock, new_signing_clock, first_value,
  first_mark, next, next_durable, extend, issue, warn_ahead, start_write, reservation_for,
  write_ended, issued,
}
use ori_gateway.Auth.Signing.Steps.{System, ask, asked, failed, Run, here, then_step}
use ori_gateway.Auth.Signing.Coverage.{Backed, Run-Backed}
use ori_gateway.Auth.Signing.Order.{Ordered, InOrder, Run-InOrder}
use ori_gateway.Auth.Signing.Restart.{restart_never_repeats}
use ori_gateway.Auth.Signing.Episode.{Retried, Run-Retried}
use ori_gateway.Auth.Signing.Waking.{Woken}
use ori_gateway.Auth.Signing.Waits.{Step-Woken}

-- A durable clock that has issued 4000, covered to 4600.
abbrev sample_clock : Clock
sample_clock = record {
  durable = true;
  last = 4000;
  covered = 4600;
  written = 4600;
  ahead = false;
  closed = false;
  episode = false;
  write = none;
  writes = 0;
  write_started = 10;
  retry = none;
  changed = 0;
  notes = [];
  draining = false;
  dropped = 0;
  refused = false;
}

abbrev sample_system : System
sample_system = record { clock = sample_clock; disk = 4600; out = 4000 ∷ [] }

sample_system-Backed : Backed sample_system
sample_system-Backed = record {
  sound = record {
    is_durable = refl;
    covers = λ q. omega arith;
    covered_written = omega arith;
    outstanding = tt;
    last_below = omega arith;
    written_below = omega arith;
  };
  held = omega arith;
}

sample_system-Ordered : Ordered sample_system
sample_system-Ordered = (omega arith, (omega arith, tt))

sample_system-Retried : Retried sample_clock
sample_system-Retried = record {
  going = λ e up. ground arith;
  scheduled = λ is. ground arith;
  paced = tt;
}

-- Two values are asked for, the second past the half of the reservation.
abbrev sample_end : System
sample_end = ask 4300 30 (ask 4100 20 sample_system)

sample-Run : Run sample_system sample_end
sample-Run =
    then_step sample_system (ask 4100 20 sample_system) sample_end (asked 4100 20 sample_system) (
      then_step (ask 4100 20 sample_system) sample_end sample_end
        (asked 4300 30 (ask 4100 20 sample_system)) (here sample_end))

Run-Backed_example : Backed sample_end
Run-Backed_example = Run-Backed sample_system sample_end sample-Run sample_system-Backed

Run-InOrder_example : InOrder sample_end
Run-InOrder_example = Run-InOrder sample_system sample_end sample-Run (sample_system-Ordered, refl)

Run-Retried_example : Retried sample_end.clock
Run-Retried_example = Run-Retried sample_system sample_end sample-Run sample_system-Retried

Step-Woken_example : Woken sample_clock (write_ended 40 false sample_clock)
Step-Woken_example =
    Step-Woken sample_system (record sample_system { clock = write_ended 40 false sample_clock })
      (failed 40 sample_system)

abbrev restarted_clock : Clock
restarted_clock = record sample_clock {
  last = 4600;
  covered = 5000;
  written = 5000;
  write_started = 7;
}

restarted : new_durable_signing_clock 4000 7 (some 4600) start_written ≡ started restarted_clock
unfolding new_durable_signing_clock first_value first_mark new_signing_clock
restarted = refl

sample_end-quiet : sample_end.clock.episode ≡ false
unfolding next next_durable extend issue warn_ahead start_write reservation_for
sample_end-quiet = refl

restarted-gives : (next 4200 9 restarted_clock).1 ≡ issued 4601
unfolding next next_durable
restarted-gives = refl

restart_never_repeats_example : All (λ v. v < 4601) sample_end.out
restart_never_repeats_example =
    restart_never_repeats sample_system sample_end sample-Run sample_system-Backed
      sample_system-Ordered sample_end-quiet 4600 (omega arith) 4000 7 start_written restarted_clock
      restarted 4200 9 4601 restarted-gives
