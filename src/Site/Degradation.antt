-- ===== src/Site/Degradation.antt =====
-- The reasons of a node's heartbeat (internal/site/degradation.go). encoding/json reads the raw
-- value: what it read is the argument, and `none` is an absent member.
pub mod Accepted
use ori_gateway.Base.{
  ℕ, zero, suc, ◌+◌, ◌-◌, ◌*◌, ◌/◌, ◌%◌, ◌^◌, ◌≤◌, ◌<◌, min, max, String, ◌≡◌, refl, sym, ap, subst,
  ◌∙◌, ◌≢◌, ◌↔◌, ◌⊎◌, inl, inr, Bool, true, false, not, ◌&&◌, ◌||◌, Option, none, some, List, [],
  ◌∷◌, ◌++◌, map, arith, eq_iff, ltb, leb, nat_beq, if-both, if◌then◌else◌, ltb→lt, lt→ltb, leb→le,
  Bool-cases, Option-cases, is_some, length, length-append, drop, any, all, All, Eq, ◌==◌, nat_eq,
  string_eq,
}
use ori_gateway.Base.Maps.{Map, lookup, has}
use ori_gateway.Base.Sort.{str_ltb}
use ori_gateway.Site.Registry.{node_status_degraded, node_status_critical}
use ori_gateway.Site.Health.{
  severity_healthy, severity_degraded, severity_critical, status_severity,
}

abbrev pub max_degradation_reasons : ℕ
max_degradation_reasons = 32

abbrev pub health_snapshot_invalid : String
health_snapshot_invalid = "health_snapshot_invalid"

abbrev pub degradation_reason_severity : Map String ℕ
degradation_reason_severity =
    ("action_log_records_lost", severity_degraded)
    ∷ ("action_log_records_stalled", severity_degraded)
    ∷ ("alert_delivery_overdue", severity_degraded)
    ∷ ("commissioning_problem", severity_degraded)
    ∷ ("community_skills_refused", severity_degraded)
    ∷ ("config_unsigned_value_source", severity_degraded)
    ∷ ("decision_record_lost", severity_critical)
    ∷ ("evidence_contributor_link_unresolved", severity_degraded)
    ∷ ("evidence_courier_answer_unrecognised", severity_degraded)
    ∷ ("evidence_posture_problem", severity_degraded)
    ∷ ("firmware_liveness_degraded", severity_healthy)
    ∷ ("firmware_liveness_device_expired", severity_critical)
    ∷ ("firmware_liveness_over_capacity", severity_degraded)
    ∷ ("firmware_liveness_stopped", severity_critical)
    ∷ ("firmware_liveness_tick_failures", severity_degraded)
    ∷ ("firmware_liveness_tick_stale", severity_critical)
    ∷ (health_snapshot_invalid, severity_critical)
    ∷ ("safety_zone_activation_refused", severity_degraded)
    ∷ ("safety_zone_active_unprotected", severity_degraded)
    ∷ ("safety_zone_trip_unresolved", severity_critical)
    ∷ ("sensor_measurement_degraded", severity_degraded)
    ∷ ("sensor_stale", severity_degraded)
    ∷ ("sensor_unconnected", severity_degraded)
    ∷ ("skill_optional_hooks_unavailable", severity_degraded)
    ∷ ("skill_required_hooks_unavailable", severity_critical)
    ∷ ("subsystem_starting", severity_degraded)
    ∷ ("subsystem_state_unknown", severity_degraded)
    ∷ ("subsystem_state_unknown_critical", severity_critical)
    ∷ ("tier_c_records_degraded", severity_degraded)
    ∷ ("tier_c_recovery_failed", severity_degraded)
    ∷ ("tier_d_alert_delivery_unconfirmed", severity_critical)
    ∷ []

-- The vocabulary stays shut: its lookups are read through this name.
unfoldable pub reason_severity : String → Option ℕ
reason_severity token = lookup token degradation_reason_severity

pub data Verdict : Type 0 where
  runtime_status_invalid reasons_not_array reasons_length_invalid reason_not_string : Verdict
  reasons_not_unique reasons_not_ordered reason_unknown reason_not_alone : Verdict
  reasons_status_mismatch severity_understated : Verdict

-- An element or a status, as decoded.
pub data Decoded : Type 0 where
  text : String → Decoded
  null_value not_text : Decoded

pub data RawReasons : Type 0 where
  raw_null not_array : RawReasons
  array : List Decoded → RawReasons

pub data Checked (A : Type 0) : Type 0 where
  admitted : A → Checked A
  refused : Verdict → Checked A

unfoldable pub read_tokens : List Decoded → Option (List String)
read_tokens [] = some []
read_tokens (null_value ∷ es) = none
read_tokens (not_text ∷ es) = none
read_tokens (text s ∷ es) = elim (read_tokens es) [ none ↦ none | some tokens ↦ some (s ∷ tokens) ]

unfoldable pub repeats : List String → List String → Bool
repeats seen [] = false
repeats seen (t ∷ ts) = any (λ s. s == t) seen || repeats (t ∷ seen) ts

unfoldable pub out_of_order : List String → Bool
out_of_order [] = false
out_of_order (t ∷ []) = false
out_of_order (t ∷ u ∷ ts) = str_ltb u t || out_of_order (u ∷ ts)

unfoldable pub some_unknown : List String → Bool
some_unknown [] = false
some_unknown (t ∷ ts) = not (is_some (reason_severity t)) || some_unknown ts

unfoldable pub not_alone : String → List String → Bool
not_alone status tokens =
    any (λ t. t == health_snapshot_invalid) tokens
    && (not (nat_beq (length tokens) 1) || not (status == node_status_critical))

-- A missing key reads as 0.
unfoldable pub severity_or_zero : Option ℕ → ℕ
severity_or_zero none = 0
severity_or_zero (some n) = n

unfoldable pub understates : String → List String → Bool
understates status [] = false
understates status (t ∷ ts) =
    ltb (severity_or_zero (status_severity status)) (severity_or_zero (reason_severity t))
    || understates status ts

unfoldable pub check_tokens : String → List String → Checked (Option (List String))
check_tokens status tokens =
    if repeats [] tokens
    then refused reasons_not_unique
    else if out_of_order tokens
    then refused reasons_not_ordered
    else if some_unknown tokens
    then refused reason_unknown
    else if not_alone status tokens
    then refused reason_not_alone
    else if not (status == node_status_degraded) && not (status == node_status_critical)
    then refused reasons_status_mismatch
    else if understates status tokens
    then refused severity_understated
    else admitted (some tokens)

unfoldable pub validate_degradation_reasons :
    Option RawReasons → String → Checked (Option (List String))
validate_degradation_reasons none status = admitted none
validate_degradation_reasons (some raw_null) status = refused reasons_not_array
validate_degradation_reasons (some not_array) status = refused reasons_not_array
validate_degradation_reasons (some (array elements)) status =
    if ltb (length elements) 1 || ltb max_degradation_reasons (length elements)
    then refused reasons_length_invalid
    else elim (read_tokens elements) [
      | none ↦ refused reason_not_string
      | some tokens ↦ check_tokens status tokens
    ]

unfoldable pub validate_runtime_status : Option Decoded → Checked String
validate_runtime_status none = refused runtime_status_invalid
validate_runtime_status (some null_value) = refused runtime_status_invalid
validate_runtime_status (some not_text) = refused runtime_status_invalid
validate_runtime_status (some (text status)) =
    if is_some (status_severity status) then admitted status else refused runtime_status_invalid
