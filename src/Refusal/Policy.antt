-- ===== src/Refusal/Policy.antt =====
-- What the table of `Policy`, `RecordedReason` and `Held` amounts to.
use ori_gateway.Base.{
  ℕ, String, ◌≡◌, refl, ◌≢◌, ◌↔◌, ◌⊎◌, Bool, true, false, arith, eq_iff, if◌then◌else◌, ◌==◌,
  nat_eq, string_eq,
}
use ori_gateway.Refusal.{
  hold, held, handoff, backoff, policy, recorded_reason, admits, any_admits, unrecognised,
  pending_registration_conflict,
}

-- A refusal is retried on the next handoff exactly at 401, at 403, and at 422 for the two reasons
-- that name state of the receiver. It backs off exactly at 429, at 503, and at 409 for a pending
-- registration. In every other case it holds.
pub policy_table :
    (s : ℕ) (r : String)
    → (policy s r ≡ handoff ↔ (
        (s ≡ 401) ⊎ (s ≡ 403) ⊎ ((s ≡ 422) × ((r ≡ "unrecognised_version") ⊎ (r ≡ "unknown_key")))))
      × (policy s r ≡ backoff
          ↔ ((s ≡ 429) ⊎ (s ≡ 503) ⊎ ((s ≡ 409) × (r ≡ pending_registration_conflict))))
unfolding policy
policy_table s r = ground (
  arith,
  eq_iff r pending_registration_conflict,
  eq_iff pending_registration_conflict r,
  eq_iff "unrecognised_version" r,
  eq_iff "unknown_key" r,
)

-- The reasons that a status admits; status 0 stands for a channel that reports none.
abbrev pub admitted : ℕ → String → Bool
admitted s r = if s == 0 then any_admits r else admits s r

pub recorded_reason-admitted :
    (s : ℕ) (r : String) → recorded_reason s r ≡ (if admitted s r then r else unrecognised)
unfolding recorded_reason
recorded_reason-admitted s r = ground arith

-- What is recorded is `unrecognised` or a reason that the status admits, status 0 admitting the
-- reasons of every status, and recording it again changes nothing.
pub recorded_reason_closed :
    (s : ℕ) (r : String)
    → ((recorded_reason s r ≡ unrecognised) ⊎ ((recorded_reason s r ≡ r) × (admitted s r ≡ true)))
      × (recorded_reason s (recorded_reason s r) ≡ recorded_reason s r)
recorded_reason_closed s r =
    ground (arith, recorded_reason-admitted s r, recorded_reason-admitted s (recorded_reason s r))

pub held-0 : (r : String) → r ≢ "" → any_admits r ≡ true → held 0 r ≡ true
unfolding held
held-0 r n a = ground (arith, eq_iff r "", eq_iff r unrecognised, eq_iff r r)

pub any_admits_ne : any_admits "" ≡ false
unfolding any_admits
any_admits_ne = refl

pub held_unrecognised : (s : ℕ) → held s unrecognised ≡ true
unfolding held
held_unrecognised s = refl

pub held_admitted :
    (s : ℕ) (r : String) → s ≢ 0 → admits s r ≡ true → policy s r ≡ hold → held s r ≡ true
unfolding held
held_admitted s r n a h = ground (arith, eq_iff r unrecognised)
