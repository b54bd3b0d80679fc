-- ===== src/Auth/Signing/Episode.antt =====
-- Episodes of the signing clock (internal/mqttauth/signingclock.go): an open episode is always being
-- retried.
use ori_gateway.Base.{
  ℕ, ◌+◌, ◌≤◌, max, ◌≡◌, refl, ap, inl, inr, Bool, true, false, not, ◌&&◌, ◌||◌, Option, none, some,
  arith, ltb, leb, nat_beq, if-both, if◌then◌else◌, Bool-cases, Option-cases, is_some, nat_eq,
  string_eq,
}
use ori_gateway.Auth.Signing.{
  signing_ceiling, mark_retry_pacing, MarkWrite, Clock, note, broadcast, start_write,
  schedule_retry, open_episode, end_episode, retry_if_open, write_ended, write_overdue,
  value_overdue, retry_write, stop, Answer, refuse_stopped, cover, extend, warn_ahead, issue,
  next_durable, next,
}
use ori_gateway.Auth.Signing.Steps.{
  System, Step, asked, landed, succeeded, failed, write_timer, value_timer, retry_timer, closed,
  Run, Run-keeps,
}

abbrev pub DueAfter : ℕ → Option ℕ → Type 0
DueAfter n none = Unit
DueAfter n (some due) = n ≤ due

-- An open episode has a write outstanding or a retry scheduled, unless the clock is closed; a retry
-- is scheduled in an open episode only, with no write outstanding, and no sooner than the pacing
-- after the previous write started.
pub record Retried (c : Clock) : Type 0 where
  pub going : c.episode ≡ true → c.closed ≡ false → is_some c.write || is_some c.retry ≡ true
  pub scheduled : is_some c.retry ≡ true → (c.episode ≡ true) × (is_some c.write ≡ false)
  pub paced : DueAfter (c.write_started + mark_retry_pacing) c.retry

open_episode-Retried : (m : ℕ) (c : Clock) → Retried c → Retried (open_episode m c)
unfolding open_episode broadcast schedule_retry note
open_episode-Retried m c r = record {
  going = λ open_now up. ground (arith, r.going, r.scheduled);
  scheduled = λ is. ground (arith, r.going, r.scheduled);
  paced = ground (arith, r.going, r.scheduled, r.paced);
}

-- The state between the end of a write and the retry that may follow it.
record Loose (c : Clock) : Type 0 where
  unwritten : c.write ≡ none
  planned : is_some c.retry ≡ true → c.episode ≡ true
  pacing : DueAfter (c.write_started + mark_retry_pacing) c.retry

unwritten-Loose :
    (c : Clock) (n : ℕ)
    → is_some c.write ≡ true
    → Retried c
    → Loose (record c { write = none; covered = n })
unwritten-Loose c n busy r = record {
  unwritten = refl;
  planned = λ is. ground (arith, r.scheduled);
  pacing = r.paced;
}

-- A clock with a write outstanding has no retry scheduled.
busy-retry : (c : Clock) → is_some c.write ≡ true → Retried c → c.retry ≡ none
busy-retry c busy r = elim (Option-cases c.retry) [
  | inl e ↦ e
  | inr (n, e) ↦ ground (arith, r.scheduled (ap is_some e))
]

open_episode-Loose : (m : ℕ) (c : Clock) → Loose c → Loose (open_episode m c)
unfolding open_episode broadcast schedule_retry note
open_episode-Loose m c l = record {
  unwritten = ground (arith, l.unwritten);
  planned = λ is. ground (arith, l.planned);
  pacing = ground (arith, l.pacing);
}

end_episode-Loose : (c : Clock) → c.retry ≡ none → Loose c → Loose (end_episode c)
unfolding end_episode note
end_episode-Loose c idle l = record {
  unwritten = ground (arith, l.unwritten);
  planned = λ is. ground (arith, idle);
  pacing = ground (arith, idle);
}

retry_if_open-Loose : (m : ℕ) (c : Clock) → Loose c → Retried (retry_if_open m c)
unfolding retry_if_open schedule_retry
retry_if_open-Loose m c l = record {
  going = λ open_now up. ground (arith, l.unwritten, l.planned);
  scheduled = λ is. ground (arith, l.unwritten, l.planned);
  paced = ground (arith, l.unwritten, l.pacing);
}

broadcast-Retried : (c : Clock) → Retried c → Retried (broadcast c)
unfolding broadcast
broadcast-Retried c r = record { going = r.going; scheduled = r.scheduled; paced = r.paced }

write_ended-Retried : (m : ℕ) (ok : Bool) (c : Clock) → Retried c → Retried (write_ended m ok c)
unfolding write_ended
write_ended-Retried m ok c r = elim (Option-cases c.write) [
  | inl is ↦ rw (is, write_ended) r
  | inr (w, is) ↦
      rw (is, write_ended)
        (broadcast-Retried _ (retry_if_open-Loose m _ (by_outcome ok w (ap is_some is))))
]
  where
    by_outcome :
        (ok : Bool) (w : MarkWrite)
        → is_some c.write ≡ true
        → Loose (
            if ok
            then end_episode (record c { write = none; covered = max c.covered w.mark })
            else open_episode m (record c { write = none }))
    by_outcome true w busy =
        end_episode-Loose _ (busy-retry c busy r) (unwritten-Loose c (max c.covered w.mark) busy r)
    by_outcome false w busy = open_episode-Loose m _ (unwritten-Loose c c.covered busy r)

write_overdue-Retried : (m number : ℕ) (c : Clock) → Retried c → Retried (write_overdue m number c)
unfolding write_overdue
write_overdue-Retried m number c r = elim (Option-cases c.write) [
  | inl is ↦ rw (is, write_overdue) r
  | inr (w, is) ↦ elim (Bool-cases (nat_beq w.number number)) [
    | inl same ↦ rw (is, same, write_overdue) (open_episode-Retried m c r)
    | inr other ↦ rw (is, other, write_overdue) r
  ]
]

value_overdue-Retried :
    (m : ℕ) (answered : Bool) (c : Clock) → Retried c → Retried (value_overdue m answered c)
unfolding value_overdue
value_overdue-Retried m true c r = r
value_overdue-Retried m false c r = open_episode-Retried m c r

retry_write-Retried : (wall m : ℕ) (c : Clock) → Retried c → Retried (retry_write wall m c)
unfolding retry_write start_write
retry_write-Retried wall m c r = record {
  going = λ open_now up. ground (arith, r.going, r.scheduled);
  scheduled = λ is. ground (arith, r.going, r.scheduled);
  paced = ground (arith, r.going, r.scheduled, r.paced);
}

stop-Retried : (c : Clock) → Retried c → Retried (stop c)
unfolding stop broadcast
stop-Retried c r = record {
  going = λ open_now up. ground (arith, r.going, r.scheduled);
  scheduled = λ is. ground (arith, r.going, r.scheduled);
  paced = ground (arith, r.going, r.scheduled, r.paced);
}

refuse_stopped-Retried : (c : Clock) → Retried c → Retried (refuse_stopped c)
unfolding refuse_stopped note
refuse_stopped-Retried c r = record {
  going = λ open_now up. ground (arith, r.going, r.scheduled);
  scheduled = λ is. ground (arith, r.going, r.scheduled);
  paced = ground (arith, r.going, r.scheduled, r.paced);
}

extend-Retried : (wall m at : ℕ) (c : Clock) → Retried c → Retried (extend wall m at c)
unfolding extend start_write
extend-Retried wall m at c r = record {
  going = λ open_now up. ground (arith, r.going, r.scheduled);
  scheduled = λ is. ground (arith, r.going, r.scheduled);
  paced = ground (arith, r.going, r.scheduled, r.paced);
}

issue-Retried : (wall at : ℕ) (c : Clock) → Retried c → Retried (issue wall at c)
unfolding issue warn_ahead note
issue-Retried wall at c r = record {
  going = λ open_now up. ground (arith, r.going, r.scheduled);
  scheduled = λ is. ground (arith, r.going, r.scheduled);
  paced = ground (arith, r.going, r.scheduled, r.paced);
}

-- A write that starts for a waiting value starts outside an episode, with no retry scheduled.
cover-Retried :
    (wall m at : ℕ) (c : Clock) → c.episode ≡ false → Retried c → Retried (cover wall m at c)
unfolding cover start_write
cover-Retried wall m at c quiet r = record {
  going = λ open_now up. ground (arith, r.going, quiet);
  scheduled = λ is. ground (arith, r.scheduled, quiet);
  paced = ground (arith, r.scheduled, r.paced, quiet);
}

next_durable-Retried :
    (wall m at : ℕ) (c : Clock) → Retried c → Retried (next_durable wall m at c).0
unfolding next_durable
next_durable-Retried wall m at c r =
    if-both (λ (o : Clock × Answer). Retried o.0) c.closed _ _ (λ _. refuse_stopped-Retried c r)
      (λ _.
        if-both (λ (o : Clock × Answer). Retried o.0) (ltb c.covered at && not c.episode) _ _
          (λ wait. cover-Retried wall m at c (ground arith) r)
          (λ _. issue-Retried wall at (extend wall m at c) (extend-Retried wall m at c r)))

next-Retried : (wall m : ℕ) (c : Clock) → Retried c → Retried (next wall m c).0
unfolding next
next-Retried wall m c r =
    if-both (λ (o : Clock × Answer). Retried o.0) (leb signing_ceiling (max wall (c.last + 1))) _ _
      (λ _. r)
      (λ _.
        if-both (λ (o : Clock × Answer). Retried o.0) c.durable _ _
          (λ _. next_durable-Retried wall m (max wall (c.last + 1)) c r)
          (λ _. issue-Retried wall (max wall (c.last + 1)) c r))

Step-Retried : (s r : System) → Step s r → Retried s.clock → Retried r.clock
Step-Retried _ _ (asked wall m s) t = next-Retried wall m s.clock t
Step-Retried _ _ (landed s w is) t = t
Step-Retried _ _ (succeeded m s w is on) t = write_ended-Retried m true s.clock t
Step-Retried _ _ (failed m s) t = write_ended-Retried m false s.clock t
Step-Retried _ _ (write_timer m number s) t = write_overdue-Retried m number s.clock t
Step-Retried _ _ (value_timer m answered s) t = value_overdue-Retried m answered s.clock t
Step-Retried _ _ (retry_timer wall m s) t = retry_write-Retried wall m s.clock t
Step-Retried _ _ (closed s) t = stop-Retried s.clock t

-- Through any run of the clock, an open episode of a clock that is not closed has a write
-- outstanding or a retry scheduled; a retry is scheduled in an open episode only, with no write
-- outstanding, and is due no sooner than the pacing after the previous write started. The run
-- starts so.
pub Run-Retried : (s r : System) → Run s r → Retried s.clock → Retried r.clock
Run-Retried s r run t = Run-keeps (λ x. Retried x.clock) Step-Retried s r run t
