-- ===== src/Refusal.antt =====
-- The refusal policy of the gateway-to-authority hop (internal/evidence/refusal/refusal.go).
pub mod Policy
use ori_gateway.Base.{
  ℕ, zero, suc, ◌+◌, ◌-◌, ◌*◌, ◌/◌, ◌%◌, ◌^◌, ◌≤◌, ◌<◌, min, max, String, ◌≡◌, refl, sym, ap, subst,
  ◌∙◌, ◌≢◌, ◌↔◌, ◌⊎◌, inl, inr, Bool, true, false, not, ◌&&◌, ◌||◌, Option, none, some, List, [],
  ◌∷◌, ◌++◌, map, arith, eq_iff, ltb, leb, if◌then◌else◌, ltb→lt, lt→ltb, leb→le, Bool-cases,
  Option-cases, is_some, length, length-append, drop, any, all, All, Eq, ◌==◌, nat_eq, string_eq,
}
use ori_gateway.Base.Maps.{Map, lookup}

-- `map[string]bool` as a set: membership in a list of names.
abbrev pub mem : String → List String → Bool
mem r rs = any (λ x. x == r) rs

abbrev pub unrecognised : String
unrecognised = "unrecognised"

abbrev pub pending_registration_conflict : String
pending_registration_conflict = "pending_registration_conflict"

abbrev pub byte_refusal_reasons : List String
byte_refusal_reasons =
    "bad_authenticator" ∷ "binding_mismatch" ∷ "commissioning_digest_mismatch" ∷ []

abbrev pub receiver_state_refusal_reasons : List String
receiver_state_refusal_reasons = "unrecognised_version" ∷ "unknown_key" ∷ []

abbrev pub union_reasons : List String → List String → List String
union_reasons a b = a ++ b

abbrev pub status_refusal_reasons : Map ℕ (List String)
status_refusal_reasons =
    (400, "malformed" ∷ [])
    ∷ (401, "malformed" ∷ "unknown_key" ∷ "bad_authenticator" ∷ "stale" ∷ "replay" ∷ [])
    ∷ (403, "not_authorized" ∷ [])
    ∷ (409, "conflict" ∷ pending_registration_conflict ∷ [])
    ∷ (422, union_reasons byte_refusal_reasons receiver_state_refusal_reasons)
    ∷ (429, "rate_limited" ∷ "pending_registration_limit" ∷ [])
    ∷ (503, "unavailable" ∷ [])
    ∷ []

-- `statusRefusalReasons[status][reason]`: a missing status has the nil map, which holds nothing.
unfoldable pub admits : ℕ → String → Bool
unfolding lookup
admits status reason = elim (lookup status status_refusal_reasons) [
  | none ↦ false
  | some reasons ↦ mem reason reasons
]

-- The loop over every status's list.
unfoldable pub any_admits : String → Bool
any_admits reason = any (λ row. mem reason row.1) status_refusal_reasons

unfoldable pub recorded_reason : ℕ → String → String
recorded_reason status reason =
    if status == 0
    then (if any_admits reason then reason else unrecognised)
    else if admits status reason
    then reason
    else unrecognised

pub data Class : Type 0 where
  hold handoff backoff : Class

pub Class-discrete : Discrete Class
Class-discrete = hlevel

abbrev pub is_hold : Class → Bool
is_hold hold = true
is_hold _ = false

unfoldable pub policy : ℕ → String → Class
policy status reason =
    if status == 401 || status == 403
    then handoff
    else if status == 400
    then hold
    else if status == 409
    then (if reason == pending_registration_conflict then backoff else hold)
    else if status == 422
    then (if mem reason receiver_state_refusal_reasons then handoff else hold)
    else if status == 429 || status == 503
    then backoff
    else hold

unfoldable pub held : ℕ → String → Bool
unfolding recorded_reason policy
held status reason =
    if reason == unrecognised
    then true
    else if status == 0
    then not (reason == "") && recorded_reason 0 reason == reason
    else admits status reason && is_hold (policy status reason)

-- `heldRefusalStatus` of courier/hold.go: the statuses that can hold a head.
unfoldable pub held_refusal_status : ℕ → Bool
held_refusal_status status = status == 0 || status == 400 || status == 409 || status == 422
