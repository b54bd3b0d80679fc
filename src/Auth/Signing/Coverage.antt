-- ===== src/Auth/Signing/Coverage.antt =====
-- Every value issued is at or below a mark on the disk, unless an episode is open
-- (internal/mqttauth/signingclock.go).
use ori_gateway.Base.{
  ℕ, ◌+◌, ◌≤◌, ◌<◌, max, ◌≡◌, refl, ◌∙◌, inl, inr, Bool, true, false, not, ◌&&◌, some, arith, ltb,
  leb, if-both, Option-cases, nat_eq, string_eq,
}
use ori_gateway.Auth.Signing.{
  signing_ceiling, MarkWrite, Clock, reservation_for, note, broadcast, start_write, schedule_retry,
  open_episode, end_episode, retry_if_open, write_ended, write_overdue, value_overdue, retry_write,
  stop, Answer, refuse_stopped, cover, extend, warn_ahead, issue, next_durable, next,
}
use ori_gateway.Auth.Signing.Steps.{
  System, Step, asked, landed, succeeded, failed, write_timer, value_timer, retry_timer, closed,
  Run, Run-keeps,
}
use ori_gateway.Auth.Signing.Soundness.{
  Sound, refuse_stopped-Sound, write_ended-Sound, write_overdue-Sound, value_overdue-Sound,
}

retry_write-Sound : (wall m : ℕ) (c : Clock) → Sound c → Sound (retry_write wall m c)
unfolding retry_write start_write reservation_for
retry_write-Sound wall m c s = record {
  is_durable = ground (arith, s.is_durable);
  covers = λ quiet. ground (arith, s.covers);
  covered_written = ground (arith, s.covered_written);
  outstanding = ground (arith, s.outstanding);
  last_below = ground (arith, s.last_below);
  written_below = ground (arith, s.written_below);
}

stop-Sound : (c : Clock) → Sound c → Sound (stop c)
unfolding stop broadcast
stop-Sound c s = record {
  is_durable = ground (arith, s.is_durable);
  covers = λ quiet. ground (arith, s.covers);
  covered_written = ground (arith, s.covered_written);
  outstanding = ground (arith, s.outstanding);
  last_below = ground (arith, s.last_below);
  written_below = ground (arith, s.written_below);
}

extend-Sound : (wall m at : ℕ) (c : Clock) → Sound c → Sound (extend wall m at c)
unfolding extend start_write reservation_for
extend-Sound wall m at c s = record {
  is_durable = ground (arith, s.is_durable);
  covers = λ quiet. ground (arith, s.covers);
  covered_written = ground (arith, s.covered_written);
  outstanding = ground (arith, s.outstanding);
  last_below = ground (arith, s.last_below);
  written_below = ground (arith, s.written_below);
}

cover-Sound : (wall m at : ℕ) (c : Clock) → Sound c → Sound (cover wall m at c)
unfolding cover start_write reservation_for
cover-Sound wall m at c s = record {
  is_durable = ground (arith, s.is_durable);
  covers = λ quiet. ground (arith, s.covers);
  covered_written = ground (arith, s.covered_written);
  outstanding = ground (arith, s.outstanding);
  last_below = ground (arith, s.last_below);
  written_below = ground (arith, s.written_below);
}

extend-quiet :
    (wall m at : ℕ) (c : Clock)
    → ((extend wall m at c).episode ≡ c.episode) × ((extend wall m at c).covered ≡ c.covered)
unfolding extend start_write
extend-quiet wall m at c = ground arith

issue-Sound :
    (wall at : ℕ) (c : Clock)
    → at < signing_ceiling
    → (c.episode ≡ false → at ≤ c.covered)
    → Sound c
    → Sound (issue wall at c)
unfolding issue warn_ahead note
issue-Sound wall at c below covers s = record {
  is_durable = ground (arith, s.is_durable);
  covers = λ quiet. ground (arith, covers);
  covered_written = ground (arith, s.covered_written);
  outstanding = ground (arith, s.outstanding);
  last_below = below;
  written_below = ground (arith, s.written_below);
}

next_durable-Sound :
    (wall m at : ℕ) (c : Clock)
    → at < signing_ceiling
    → Sound c
    → Sound (next_durable wall m at c).0
unfolding next_durable
next_durable-Sound wall m at c below s =
    if-both (λ (o : Clock × Answer). Sound o.0) c.closed _ _ (λ _. refuse_stopped-Sound c s)
      (λ _.
        if-both (λ (o : Clock × Answer). Sound o.0) (ltb c.covered at && not c.episode) _ _
          (λ _. cover-Sound wall m at c s)
          (λ go.
            issue-Sound wall at (extend wall m at c) below
              (λ quiet. ground (arith, extend-quiet wall m at c)) (extend-Sound wall m at c s)))

pub next-Sound : (wall m : ℕ) (c : Clock) → Sound c → Sound (next wall m c).0
unfolding next
next-Sound wall m c s =
    if-both (λ (o : Clock × Answer). Sound o.0) (leb signing_ceiling (max wall (c.last + 1))) _ _
      (λ _. s)
      (λ under.
        if-both (λ (o : Clock × Answer). Sound o.0) c.durable _ _
          (λ _. next_durable-Sound wall m (max wall (c.last + 1)) c (ground arith) s)
          (λ in_process. ground (arith, s.is_durable)))

-- The disk holds the coverage.
pub record Backed (s : System) : Type 0 where
  pub sound : Sound s.clock
  pub held : s.clock.covered ≤ s.disk

next-covered : (wall m : ℕ) (c : Clock) → (next wall m c).0.covered ≡ c.covered
unfolding next next_durable cover extend issue warn_ahead refuse_stopped start_write note
next-covered wall m c = ground arith

open_episode-covered : (m : ℕ) (c : Clock) → (open_episode m c).covered ≡ c.covered
unfolding open_episode broadcast schedule_retry note
open_episode-covered m c = ground arith

retry_write-covered : (wall m : ℕ) (c : Clock) → (retry_write wall m c).covered ≡ c.covered
unfolding retry_write start_write
retry_write-covered wall m c = ground arith

retry_if_open-covered : (m : ℕ) (c : Clock) → (retry_if_open m c).covered ≡ c.covered
unfolding retry_if_open schedule_retry
retry_if_open-covered m c = ground arith

end_episode-covered : (c : Clock) → (end_episode c).covered ≡ c.covered
unfolding end_episode note
end_episode-covered c = ground arith

pub write_ended-covered :
    (m : ℕ) (c : Clock) (w : MarkWrite)
    → c.write ≡ some w
    → (write_ended m true c).covered ≡ max c.covered w.mark
unfolding write_ended broadcast
write_ended-covered m c w is =
    rw (is, write_ended) (retry_if_open-covered m _ ∙ end_episode-covered _)

write_failed-covered : (m : ℕ) (c : Clock) → (write_ended m false c).covered ≡ c.covered
unfolding write_ended broadcast
write_failed-covered m c = elim (Option-cases c.write) [
  | inl is ↦ rw (is, write_ended) refl
  | inr (w, is) ↦ rw (is, write_ended) (retry_if_open-covered m _ ∙ open_episode-covered m _)
]

timers-covered :
    (m number : ℕ) (answered : Bool) (c : Clock)
    → ((write_overdue m number c).covered ≡ c.covered)
      × ((value_overdue m answered c).covered ≡ c.covered)
unfolding write_overdue value_overdue
timers-covered m number answered c = ground (arith, open_episode-covered m c)

Step-Backed : (s r : System) → Step s r → Backed s → Backed r
unfolding stop broadcast
Step-Backed _ _ (asked wall m s) b = record {
  sound = next-Sound wall m s.clock b.sound;
  held = rw (next-covered wall m s.clock) b.held;
}
Step-Backed _ _ (landed s w is) b = record { sound = b.sound; held = omega (arith, b.held) }
Step-Backed _ _ (succeeded m s w is on) b = record {
  sound = write_ended-Sound m true s.clock b.sound;
  held = rw (write_ended-covered m s.clock w is) (omega (arith, b.held));
}
Step-Backed _ _ (failed m s) b = record {
  sound = write_ended-Sound m false s.clock b.sound;
  held = rw (write_failed-covered m s.clock) b.held;
}
Step-Backed _ _ (write_timer m number s) b = record {
  sound = write_overdue-Sound m number s.clock b.sound;
  held = rw ((timers-covered m number true s.clock).0) b.held;
}
Step-Backed _ _ (value_timer m answered s) b = record {
  sound = value_overdue-Sound m answered s.clock b.sound;
  held = rw ((timers-covered m 0 answered s.clock).1) b.held;
}
Step-Backed _ _ (retry_timer wall m s) b = record {
  sound = retry_write-Sound wall m s.clock b.sound;
  held = rw (retry_write-covered wall m s.clock) b.held;
}
Step-Backed _ _ (closed s) b = record { sound = stop-Sound s.clock b.sound; held = b.held }

-- Through any run of a durable clock - values asked for, writes that land, succeed, fail or stay
-- outstanding, timers, retries and the stop, in any order and with any clock readings - the last
-- value issued is at or below the mark on the disk unless an episode is open, the coverage is on
-- the disk, and every value and mark stays below the ceiling; provided the run starts so.
pub Run-Backed : (s r : System) → Run s r → Backed s → Backed r
Run-Backed s r run b = Run-keeps Backed Step-Backed s r run b
