-- ===== src/Auth/Signing/Waits.antt =====
-- Values that wait for coverage (internal/mqttauth/signingclock.go): what wakes them.
use ori_gateway.Base.{
  ℕ, ◌+◌, max, ◌≡◌, refl, ◌∙◌, true, false, not, ◌&&◌, arith, ltb, leb, if-both, is_some, nat_eq,
  string_eq,
}
use ori_gateway.Auth.Signing.{
  signing_ceiling, Clock, note, broadcast, start_write, stop, Answer, refuse_stopped, cover, extend,
  warn_ahead, issue, next_durable, next,
}
use ori_gateway.Auth.Signing.Steps.{
  System, Step, asked, landed, succeeded, failed, write_timer, value_timer, retry_timer, closed,
}
use ori_gateway.Auth.Signing.Waking.{
  Woken, write_ended-Woken, write_overdue-Woken, value_overdue-Woken, retry_write-Woken,
}

-- What stirs no waiting value.
record Still (c d : Clock) : Type 0 where
  covers_same : d.covered ≡ c.covered
  episode_same : d.episode ≡ c.episode
  closed_same : d.closed ≡ c.closed
  changed_same : d.changed ≡ c.changed
  write_stays : is_some c.write ≡ true → is_some d.write ≡ true

Still-Woken : (c d : Clock) → Still c d → Woken c d
Still-Woken c d s = (
  omega (arith, s.changed_same),
  λ moved. ground (arith, s.covers_same, s.episode_same, s.closed_same, s.write_stays),
)

Still-trans : (c d e : Clock) → Still c d → Still d e → Still c e
Still-trans c d e s t = record {
  covers_same = t.covers_same ∙ s.covers_same;
  episode_same = t.episode_same ∙ s.episode_same;
  closed_same = t.closed_same ∙ s.closed_same;
  changed_same = t.changed_same ∙ s.changed_same;
  write_stays = λ busy. t.write_stays (s.write_stays busy);
}

same-Still : (c : Clock) → Still c c
same-Still c = record {
  covers_same = refl;
  episode_same = refl;
  closed_same = refl;
  changed_same = refl;
  write_stays = λ busy. busy;
}

refuse_stopped-Still : (c : Clock) → Still c (refuse_stopped c)
unfolding refuse_stopped note
refuse_stopped-Still c = record {
  covers_same = ground arith;
  episode_same = ground arith;
  closed_same = ground arith;
  changed_same = ground arith;
  write_stays = λ busy. ground arith;
}

cover-Still : (wall m at : ℕ) (c : Clock) → Still c (cover wall m at c)
unfolding cover start_write
cover-Still wall m at c = record {
  covers_same = ground arith;
  episode_same = ground arith;
  closed_same = ground arith;
  changed_same = ground arith;
  write_stays = λ busy. ground arith;
}

extend-Still : (wall m at : ℕ) (c : Clock) → Still c (extend wall m at c)
unfolding extend start_write
extend-Still wall m at c = record {
  covers_same = ground arith;
  episode_same = ground arith;
  closed_same = ground arith;
  changed_same = ground arith;
  write_stays = λ busy. ground arith;
}

issue-Still : (wall at : ℕ) (c : Clock) → Still c (issue wall at c)
unfolding issue warn_ahead note
issue-Still wall at c = record {
  covers_same = ground arith;
  episode_same = ground arith;
  closed_same = ground arith;
  changed_same = ground arith;
  write_stays = λ busy. ground arith;
}

next-Still : (wall m : ℕ) (c : Clock) → Still c (next wall m c).0
unfolding next next_durable
next-Still wall m c =
    if-both (λ (o : Clock × Answer). Still c o.0) (leb signing_ceiling (max wall (c.last + 1))) _ _
      (λ _. same-Still c)
      (λ _.
        if-both (λ (o : Clock × Answer). Still c o.0) c.durable _ _
          (λ _.
            if-both (λ (o : Clock × Answer). Still c o.0) c.closed _ _ (λ _. refuse_stopped-Still c)
              (λ _.
                if-both (λ (o : Clock × Answer). Still c o.0)
                  (ltb c.covered (max wall (c.last + 1)) && not c.episode) _ _
                  (λ _. cover-Still wall m (max wall (c.last + 1)) c)
                  (λ _.
                    Still-trans c _ _ (extend-Still wall m (max wall (c.last + 1)) c)
                      (issue-Still wall (max wall (c.last + 1)) _))))
          (λ _. issue-Still wall (max wall (c.last + 1)) c))

next-Woken : (wall m : ℕ) (c : Clock) → Woken c (next wall m c).0
next-Woken wall m c = Still-Woken c _ (next-Still wall m c)

-- No wake-up is lost: every step of the clock that raises the coverage, opens an episode, closes
-- the clock or ends the outstanding write also moves on what waiting values wait for, which no step
-- takes back.
pub Step-Woken : (s r : System) → Step s r → Woken s.clock r.clock
unfolding stop broadcast
Step-Woken _ _ (asked wall m s) = next-Woken wall m s.clock
Step-Woken _ _ (landed s w is) = (ground arith, λ moved. ground arith)
Step-Woken _ _ (succeeded m s w is on) = write_ended-Woken m true s.clock
Step-Woken _ _ (failed m s) = write_ended-Woken m false s.clock
Step-Woken _ _ (write_timer m number s) = write_overdue-Woken m number s.clock
Step-Woken _ _ (value_timer m answered s) = value_overdue-Woken m answered s.clock
Step-Woken _ _ (retry_timer wall m s) = retry_write-Woken wall m s.clock
Step-Woken _ _ (closed s) = (ground arith, λ moved. ground arith)
