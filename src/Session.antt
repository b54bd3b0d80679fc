-- ===== src/Session.antt =====
-- Sessions of reasoning requests (internal/session/session.go). A request and a response are known
-- by their identifiers and what else they carry. Times are milliseconds and not negative, and a
-- session's start is not after the clock: `now - started` is not cut off.
pub mod Attempts
pub mod Registry
use ori_gateway.Base.{
  ℕ, zero, suc, ◌+◌, ◌-◌, ◌*◌, ◌/◌, ◌%◌, ◌^◌, ◌≤◌, ◌<◌, min, max, String, ◌≡◌, refl, sym, ap, subst,
  ◌∙◌, ◌≢◌, ◌↔◌, ◌⊎◌, inl, inr, Bool, true, false, not, ◌&&◌, ◌||◌, Option, none, some, List, [],
  ◌∷◌, ◌++◌, map, arith, eq_iff, ltb, leb, nat_beq, if-both, if◌then◌else◌, ltb→lt, lt→ltb, leb→le,
  Bool-cases, Option-cases, is_some, length, length-append, drop, any, all, All, Eq, ◌==◌, nat_eq,
  string_eq,
}
use ori_gateway.Base.Maps.{Map, lookup, insert, erase}

pub record RetryPolicy : Type 0 where
  pub timeout_ms : ℕ
  pub max_retries : ℕ

unfoldable pub total_attempts : RetryPolicy → ℕ
total_attempts p = p.max_retries + 1

pub record ReasoningRequest : Type 0 where
  pub request_id : String
  pub device_id : String

pub record ReasoningResponse : Type 0 where
  pub request_id : String

pub record Session : Type 0 where
  pub request : ReasoningRequest
  pub policy : RetryPolicy
  pub started : ℕ
  pub attempts : ℕ

unfoldable pub new_session : ReasoningRequest → RetryPolicy → ℕ → Session
new_session request policy now = record {
  request = request;
  policy = policy;
  started = now;
  attempts = 0;
}

unfoldable pub is_correlated : ReasoningResponse → Session → Bool
is_correlated response s = s.request.request_id == response.request_id

unfoldable pub is_timed_out : ℕ → Session → Bool
is_timed_out now s = ltb 0 s.policy.timeout_ms && leb (s.started + s.policy.timeout_ms) now

-- The subtraction stops at 0, as the source's test makes it.
unfoldable pub attempts_remaining : Session → ℕ
unfolding total_attempts
attempts_remaining s = total_attempts s.policy - s.attempts

unfoldable pub next_attempt : ℕ → Session → Session × Option ReasoningRequest
unfolding attempts_remaining
next_attempt now s =
    if nat_beq (attempts_remaining s) 0
    then (s, none)
    else (record s { attempts = s.attempts + 1; started = now }, some s.request)

unfoldable pub register : Session → Map String Session → Map String Session
register s sessions = insert s.request.request_id s sessions

unfoldable pub correlate :
    ReasoningResponse → Map String Session → Map String Session × Option Session
correlate response sessions = elim (lookup response.request_id sessions) [
  | none ↦ (sessions, none)
  | some s ↦ (erase response.request_id sessions, some s)
]

-- The loop over the sessions, in the order that the map gives them.
unfoldable pub evict_each :
    ℕ → Map String Session → Map String Session × List Session → Map String Session × List Session
evict_each now [] (sessions, evicted) = (sessions, evicted)
evict_each now ((id, s) ∷ rest) (sessions, evicted) =
    evict_each now rest
      (if is_timed_out now s then (erase id sessions, evicted ++ (s ∷ [])) else (sessions, evicted))

unfoldable pub evict_timed_out : ℕ → Map String Session → Map String Session × List Session
evict_timed_out now sessions = evict_each now sessions (sessions, [])
