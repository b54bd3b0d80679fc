-- ===== src/Courier/Sidecars/Valid.antt =====
-- The hold that a terminal refusal writes is one that the store admits (`deliveryLane.hold` of
-- worker.go against `validateHoldRecord` of hold.go).
use ori_gateway.Base.{
  ℕ, ◌≤◌, ◌<◌, String, ◌≡◌, refl, sym, ap, subst, ◌≢◌, ◌⊎◌, inl, inr, true, false, none, arith,
  eq_iff, if◌then◌else◌, Bool-cases, ◌==◌, nat_eq, string_eq,
}
use ori_gateway.Refusal.{
  held, held_refusal_status, recorded_reason, policy, hold, admits, any_admits,
}
use ori_gateway.Refusal.Policy.{
  recorded_reason-admitted, held-0, any_admits_ne, held_unrecognised, held_admitted,
}
use ori_gateway.Courier.Types.{type_name, QueueRecord, HoldRecord, QueuedArtifact, record_artifact}
use ori_gateway.Courier.Queue.State.{External}
use ori_gateway.Courier.Sidecars.{
  validate_hold_record, payload_digest, hold_record_version, max_safe_integer,
}

-- The record that `deliveryLane.hold` builds at the clock's reading `now`.
unfoldable pub hold_record : External → QueuedArtifact → ℕ → String → ℕ → HoldRecord
hold_record ext a status reason now = record {
  v = hold_record_version;
  queue_record = a.id;
  artifact_digest = payload_digest ext (a.payload);
  artifact_type = a.kind;
  refusal_status = held_status;
  reason = recorded_reason held_status reason;
  first_held_at_ms = now;
  acknowledged = false;
}
  where
    held_status : ℕ
    held_status = if held_refusal_status status then status else 0

held-recorded-0 : (r : String) → held 0 (recorded_reason 0 r) ≡ true
held-recorded-0 r = elim (Bool-cases (any_admits r)) [
  | inl yes_ ↦
      rw (recorded_reason-admitted 0 r, yes_)
        (held-0 r (λ e. ground (arith, any_admits_ne, ap any_admits e)) yes_)
  | inr no_ ↦ rw (recorded_reason-admitted 0 r, no_) (held_unrecognised 0)
]

held-recorded-pos :
    (s : ℕ) (r : String) → s ≢ 0 → policy s r ≡ hold → held s (recorded_reason s r) ≡ true
held-recorded-pos s r n h = elim (Bool-cases (admits s r)) [
  | inl yes_ ↦
      subst (λ x. held s x ≡ true) (sym (ground (arith, recorded_reason-admitted s r)))
        (held_admitted s r n yes_ h)
  | inr no_ ↦
      subst (λ x. held s x ≡ true) (sym (ground (arith, recorded_reason-admitted s r)))
        (held_unrecognised s)
]

status_kept :
    (s : ℕ) (r : String)
    → policy s r ≡ hold
    → let k = if held_refusal_status s then s else 0 in
      (held k (recorded_reason k r) ≡ true) × (held_refusal_status k ≡ true)
status_kept s r h = elim (Bool-cases (held_refusal_status s)) [
  | inr other_status ↦ rw other_status (held-recorded-0 r, unfold held_refusal_status in refl)
  | inl known ↦ rw known (by_zero (Bool-cases (s == 0)), known)
]
  where
    by_zero : ((s == 0) ≡ true) ⊎ ((s == 0) ≡ false) → held s (recorded_reason s r) ≡ true
    by_zero (inl z) =
        subst (λ n. held n (recorded_reason n r) ≡ true) (ground arith) (held-recorded-0 r)
    by_zero (inr p) = held-recorded-pos s r (ground arith) h

-- A refusal whose policy is to hold gives a hold that the store takes for the record it is about,
-- at any clock reading in range: a terminal refusal is never left without its durable hold for a
-- fault of the hold itself.
pub hold_record-valid :
    (ext : External) (queued : QueueRecord) (status : ℕ) (reason : String) (now : ℕ)
    → policy status reason ≡ hold
    → 0 < now
    → now ≤ max_safe_integer
    → validate_hold_record ext (hold_record ext (record_artifact queued) status reason now) queued
      ≡ none
unfolding validate_hold_record hold_record record_artifact
hold_record-valid ext queued status reason now h lo hi = ground (
  arith,
  (status_kept status reason h).0,
  (status_kept status reason h).1,
  eq_iff (queued.id) (queued.id),
  eq_iff (payload_digest ext (queued.payload)) (payload_digest ext (queued.payload)),
  eq_iff (type_name (queued.kind)) (type_name (queued.kind)),
)
