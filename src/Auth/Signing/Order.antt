-- ===== src/Auth/Signing/Order.antt =====
-- The signing clock issues each value once, in increasing order (internal/mqttauth/signingclock.go).
use ori_gateway.Base.{
  ℕ, ◌+◌, ◌-◌, ◌≤◌, ◌<◌, max, ◌≡◌, refl, sym, subst, Bool, true, false, not, ◌&&◌, List, [], ◌∷◌,
  arith, ltb, leb, if-both, nat_eq, string_eq,
}
use ori_gateway.Auth.Signing.{
  signing_ceiling, Clock, note, broadcast, start_write, schedule_retry, open_episode, end_episode,
  retry_if_open, write_ended, write_overdue, value_overdue, retry_write, stop, Answer, exhausted,
  stopped, waiting, issued, refuse_stopped, cover, extend, warn_ahead, issue, next_durable, next,
}
use ori_gateway.Auth.Signing.Steps.{
  System, give, Step, asked, landed, succeeded, failed, write_timer, value_timer, retry_timer,
  closed, Run, Run-keeps,
}

-- What an answer says of the last value.
abbrev pub Gives : ℕ → ℕ → Answer → Type 0
Gives last last' (issued at) = (last < at) × (last' ≡ at)
Gives last last' exhausted = last' ≡ last
Gives last last' stopped = last' ≡ last
Gives last last' waiting = last' ≡ last

pub next-Gives : (wall m : ℕ) (c : Clock) → Gives c.last (next wall m c).0.last (next wall m c).1
unfolding next next_durable cover extend issue warn_ahead refuse_stopped start_write note
next-Gives wall m c =
    if-both (λ (o : Clock × Answer). Gives c.last o.0.last o.1)
      (leb signing_ceiling (max wall (c.last + 1))) _ _ (λ _. refl)
      (λ under.
        if-both (λ (o : Clock × Answer). Gives c.last o.0.last o.1) c.durable _ _
          (λ _.
            if-both (λ (o : Clock × Answer). Gives c.last o.0.last o.1) c.closed _ _
              (λ _. ground arith)
              (λ _.
                if-both (λ (o : Clock × Answer). Gives c.last o.0.last o.1)
                  (ltb c.covered (max wall (c.last + 1)) && not c.episode) _ _ (λ _. ground arith)
                  (λ _. (omega arith, refl))))
          (λ _. (omega arith, refl)))

timers-last :
    (m number : ℕ) (answered : Bool) (c : Clock)
    → ((write_overdue m number c).last ≡ c.last) × ((value_overdue m answered c).last ≡ c.last)
unfolding write_overdue value_overdue open_episode broadcast schedule_retry note
timers-last m number answered c = ground arith

retry_write-last : (wall m : ℕ) (c : Clock) → (retry_write wall m c).last ≡ c.last
unfolding retry_write start_write
retry_write-last wall m c = ground arith

write_ended-last : (m : ℕ) (ok : Bool) (c : Clock) → (write_ended m ok c).last ≡ c.last
unfolding write_ended broadcast retry_if_open end_episode open_episode schedule_retry note
write_ended-last m ok c = ground arith

-- A newest-first list of values that strictly increase, none past the last.
abbrev pub Increasing : ℕ → List ℕ → Type 0
Increasing last [] = Unit {0}
Increasing last (v ∷ vs) = (v ≤ last) × ((0 < v) × Increasing (v - 1) vs)

Increasing-up : (a b : ℕ) (vs : List ℕ) → a ≤ b → Increasing a vs → Increasing b vs
Increasing-up a b [] le i = tt
Increasing-up a b (v ∷ vs) le i = (omega (arith, i.0), i.1)

abbrev pub Ordered : System → Type 0
Ordered s = Increasing s.clock.last s.out

give-Increasing :
    (last last' : ℕ) (answer : Answer) (vs : List ℕ)
    → Gives last last' answer
    → Increasing last vs
    → Increasing last' (give answer vs)
give-Increasing last last' (issued at) vs (newer, is) i = (
  omega (arith, is),
  (omega (arith, newer), Increasing-up last (at - 1) vs (omega (arith, newer)) i),
)
give-Increasing last last' exhausted vs is i = subst (λ n. Increasing n vs) (sym is) i
give-Increasing last last' stopped vs is i = subst (λ n. Increasing n vs) (sym is) i
give-Increasing last last' waiting vs is i = subst (λ n. Increasing n vs) (sym is) i

Step-Ordered : (s r : System) → Step s r → Ordered s → Ordered r
unfolding stop broadcast
Step-Ordered _ _ (asked wall m s) i =
    give-Increasing s.clock.last _ _ s.out (next-Gives wall m s.clock) i
Step-Ordered _ _ (landed s w is) i = i
Step-Ordered _ _ (succeeded m s w is on) i = rw (write_ended-last m true s.clock) i
Step-Ordered _ _ (failed m s) i = rw (write_ended-last m false s.clock) i
Step-Ordered _ _ (write_timer m number s) i = rw ((timers-last m number true s.clock).0) i
Step-Ordered _ _ (value_timer m answered s) i = rw ((timers-last m 0 answered s.clock).1) i
Step-Ordered _ _ (retry_timer wall m s) i = rw (retry_write-last wall m s.clock) i
Step-Ordered _ _ (closed s) i = i

-- What holds of a run's values at its start holds at its end.
pub Run-Ordered : (s r : System) → Run s r → Ordered s → Ordered r
Run-Ordered s r run i = Run-keeps Ordered Step-Ordered s r run i

-- The newest value is exactly the last of the clock.
abbrev Newest : ℕ → List ℕ → Type 0
Newest last [] = Unit {0}
Newest last (v ∷ vs) = v ≡ last

abbrev NewestLast : System → Type 0
NewestLast s = Newest s.clock.last s.out

give-Newest :
    (last last' : ℕ) (answer : Answer) (vs : List ℕ)
    → Gives last last' answer
    → Newest last vs
    → Newest last' (give answer vs)
give-Newest last last' (issued at) vs (newer, is) i = sym is
give-Newest last last' exhausted vs is i = subst (λ n. Newest n vs) (sym is) i
give-Newest last last' stopped vs is i = subst (λ n. Newest n vs) (sym is) i
give-Newest last last' waiting vs is i = subst (λ n. Newest n vs) (sym is) i

Step-NewestLast : (s r : System) → Step s r → NewestLast s → NewestLast r
unfolding stop broadcast
Step-NewestLast _ _ (asked wall m s) i =
    give-Newest s.clock.last _ _ s.out (next-Gives wall m s.clock) i
Step-NewestLast _ _ (landed s w is) i = i
Step-NewestLast _ _ (succeeded m s w is on) i = rw (write_ended-last m true s.clock) i
Step-NewestLast _ _ (failed m s) i = rw (write_ended-last m false s.clock) i
Step-NewestLast _ _ (write_timer m number s) i = rw ((timers-last m number true s.clock).0) i
Step-NewestLast _ _ (value_timer m answered s) i = rw ((timers-last m 0 answered s.clock).1) i
Step-NewestLast _ _ (retry_timer wall m s) i = rw (retry_write-last wall m s.clock) i
Step-NewestLast _ _ (closed s) i = i

-- The values issued strictly increase, and the newest of them is the last that the clock has.
abbrev pub InOrder : System → Type 0
InOrder s = Ordered s × NewestLast s

-- Through any run of a clock, in-process or durable, with any readings of the wall clock and any
-- order of writes, timers, retries and the stop, the values issued strictly increase, and the
-- newest of them is exactly the last value that the clock has; provided that this is so of those
-- issued before the run.
pub Run-InOrder : (s r : System) → Run s r → InOrder s → InOrder r
Run-InOrder s r run (i, newest) =
    (Run-Ordered s r run i, Run-keeps NewestLast Step-NewestLast s r run newest)
