-- ===== src/Session/Attempts.antt =====
-- A session's attempts (internal/session/session.go).
use ori_gateway.Base.{
  ℕ, suc, ◌+◌, ◌-◌, min, ◌≡◌, ap, ◌∙◌, inl, inr, List, [], ◌∷◌, arith, nat_beq, if◌then◌else◌,
  Bool-cases, is_some, length, nat_eq, string_eq,
}
use ori_gateway.Session.{
  RetryPolicy, total_attempts, ReasoningRequest, Session, new_session, attempts_remaining,
  next_attempt,
}

-- The attempts of a loop that asks `times` times, at whatever times, and the requests it sends.
unfoldable pub ask_all : List ℕ → Session → Session × ℕ
unfolding next_attempt
ask_all [] s = (s, 0)
ask_all (now ∷ times) s =
    let (s₁, sent) = next_attempt now s in
    let (s₂, count) = ask_all times s₁ in (s₂, if is_some sent then suc count else count)

ask_all-count :
    (times : List ℕ) (s : Session)
    → (ask_all times s).1 ≡ min (length times) (s.policy.max_retries + 1 - s.attempts)
unfolding ask_all next_attempt attempts_remaining total_attempts
ask_all-count [] s = omega arith
ask_all-count (now ∷ times) s =
    elim (Bool-cases (nat_beq (s.policy.max_retries + 1 - s.attempts) 0)) [
      | inl spent ↦ ground (arith, ask_all-count times s)
      | inr more ↦
          ground
            (arith, ask_all-count times (record s { attempts = s.attempts + 1; started = now }))
    ]

-- A new session that is asked for attempts any number of times, at any times, sends its request as
-- often as it is asked, and no more than one time above its policy's retries.
pub new_session-attempts :
    (request : ReasoningRequest) (policy : RetryPolicy) (now : ℕ) (times : List ℕ)
    → (ask_all times (new_session request policy now)).1
      ≡ min (length times) (policy.max_retries + 1)
unfolding new_session
new_session-attempts request policy now times =
    ask_all-count times (new_session request policy now) ∙ ap (min (length times)) (omega arith)
