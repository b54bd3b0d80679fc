-- ===== src/Auth/Signing/Soundness.antt =====
-- The signing clock's state between operations: what it covers, what it has written and the
-- ceiling (internal/mqttauth/signingclock.go).
use ori_gateway.Base.{
  ℕ, ◌≤◌, ◌<◌, max, ◌≡◌, subst, inl, inr, Bool, true, false, Option, none, some, arith, nat_beq,
  if◌then◌else◌, Bool-cases, Option-cases, nat_eq, string_eq,
}
use ori_gateway.Auth.Signing.{
  signing_ceiling, MarkWrite, Clock, reservation_for, note, broadcast, start_write, schedule_retry,
  open_episode, end_episode, retry_if_open, write_ended, write_overdue, value_overdue,
  refuse_stopped, warn_ahead,
}

abbrev pub MarkBelow : Option MarkWrite → ℕ → Type 0
MarkBelow none n = Unit
MarkBelow (some w) n = w.mark ≤ n

-- `Sound c`: the last value is covered unless an episode is open, and every mark and value is
-- below the ceiling.
pub record Sound (c : Clock) : Type 0 where
  pub is_durable : c.durable ≡ true
  pub covers : c.episode ≡ false → c.last ≤ c.covered
  pub covered_written : c.covered ≤ c.written
  pub outstanding : MarkBelow c.write c.written
  pub last_below : c.last < signing_ceiling
  pub written_below : c.written < signing_ceiling

open_episode-Sound : (m : ℕ) (c : Clock) → Sound c → Sound (open_episode m c)
unfolding open_episode broadcast schedule_retry note
open_episode-Sound m c s = record {
  is_durable = ground (arith, s.is_durable);
  covers = λ quiet. ground (arith, s.covers);
  covered_written = ground (arith, s.covered_written);
  outstanding = ground (arith, s.outstanding);
  last_below = ground (arith, s.last_below);
  written_below = ground (arith, s.written_below);
}

end_episode-Sound : (c : Clock) → Sound c → Sound (end_episode c)
unfolding end_episode note
end_episode-Sound c s = record {
  is_durable = ground (arith, s.is_durable);
  covers = λ quiet. ground (arith, s.covers);
  covered_written = ground (arith, s.covered_written);
  outstanding = ground (arith, s.outstanding);
  last_below = ground (arith, s.last_below);
  written_below = ground (arith, s.written_below);
}

retry_if_open-Sound : (m : ℕ) (c : Clock) → Sound c → Sound (retry_if_open m c)
unfolding retry_if_open schedule_retry
retry_if_open-Sound m c s = record {
  is_durable = ground (arith, s.is_durable);
  covers = λ quiet. ground (arith, s.covers);
  covered_written = ground (arith, s.covered_written);
  outstanding = ground (arith, s.outstanding);
  last_below = ground (arith, s.last_below);
  written_below = ground (arith, s.written_below);
}

start_write-Sound :
    (wall m at : ℕ) (c : Clock) → Sound c → Sound (start_write m (reservation_for wall at) c)
unfolding start_write reservation_for
start_write-Sound wall m at c s = record {
  is_durable = ground (arith, s.is_durable);
  covers = λ quiet. ground (arith, s.covers);
  covered_written = ground (arith, s.covered_written);
  outstanding = ground (arith, s.outstanding);
  last_below = ground (arith, s.last_below);
  written_below = ground (arith, s.written_below);
}

warn_ahead-Sound : (wall at : ℕ) (c : Clock) → Sound c → Sound (warn_ahead wall at c)
unfolding warn_ahead note
warn_ahead-Sound wall at c s = record {
  is_durable = ground (arith, s.is_durable);
  covers = λ quiet. ground (arith, s.covers);
  covered_written = ground (arith, s.covered_written);
  outstanding = ground (arith, s.outstanding);
  last_below = ground (arith, s.last_below);
  written_below = ground (arith, s.written_below);
}

pub refuse_stopped-Sound : (c : Clock) → Sound c → Sound (refuse_stopped c)
unfolding refuse_stopped note
refuse_stopped-Sound c s = record {
  is_durable = ground (arith, s.is_durable);
  covers = λ quiet. ground (arith, s.covers);
  covered_written = ground (arith, s.covered_written);
  outstanding = ground (arith, s.outstanding);
  last_below = ground (arith, s.last_below);
  written_below = ground (arith, s.written_below);
}

ended-Sound :
    (c : Clock) (w : MarkWrite)
    → c.write ≡ some w
    → Sound c
    → Sound (record c { write = none; covered = max c.covered w.mark })
ended-Sound c w is s = record {
  is_durable = s.is_durable;
  covers = λ quiet. omega (arith, s.covers quiet);
  covered_written =
      let under : w.mark ≤ c.written = subst (λ o. MarkBelow o c.written) is s.outstanding in
      omega (arith, s.covered_written, under);
  outstanding = tt;
  last_below = s.last_below;
  written_below = s.written_below;
}

unwritten-Sound : (c : Clock) → Sound c → Sound (record c { write = none })
unwritten-Sound c s = record {
  is_durable = s.is_durable;
  covers = s.covers;
  covered_written = s.covered_written;
  outstanding = tt;
  last_below = s.last_below;
  written_below = s.written_below;
}

broadcast-Sound : (c : Clock) → Sound c → Sound (broadcast c)
unfolding broadcast
broadcast-Sound c s = record {
  is_durable = s.is_durable;
  covers = s.covers;
  covered_written = s.covered_written;
  outstanding = s.outstanding;
  last_below = s.last_below;
  written_below = s.written_below;
}

pub write_ended-Sound : (m : ℕ) (ok : Bool) (c : Clock) → Sound c → Sound (write_ended m ok c)
unfolding write_ended
write_ended-Sound m ok c s = elim (Option-cases (c.write)) [
  | inl is ↦ rw (is, write_ended) s
  | inr (w, is) ↦
      rw (is, write_ended) (broadcast-Sound _ (retry_if_open-Sound m _ (by_outcome ok w is)))
]
  where
    by_outcome :
        (ok : Bool) (w : MarkWrite)
        → c.write ≡ some w
        → Sound (
            if ok
            then end_episode (record c { write = none; covered = max c.covered w.mark })
            else open_episode m (record c { write = none }))
    by_outcome true w is = end_episode-Sound _ (ended-Sound c w is s)
    by_outcome false w is = open_episode-Sound m _ (unwritten-Sound c s)

pub write_overdue-Sound : (m number : ℕ) (c : Clock) → Sound c → Sound (write_overdue m number c)
unfolding write_overdue
write_overdue-Sound m number c s = elim (Option-cases (c.write)) [
  | inl is ↦ rw (is, write_overdue) s
  | inr (w, is) ↦ elim (Bool-cases (nat_beq w.number number)) [
    | inl same ↦ rw (is, same, write_overdue) (open_episode-Sound m c s)
    | inr other ↦ rw (is, other, write_overdue) s
  ]
]

pub value_overdue-Sound :
    (m : ℕ) (answered : Bool) (c : Clock) → Sound c → Sound (value_overdue m answered c)
unfolding value_overdue
value_overdue-Sound m true c s = s
value_overdue-Sound m false c s = open_episode-Sound m c s
