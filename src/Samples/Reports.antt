-- ===== src/Samples/Reports.antt =====
-- The theorems of degradation reasons and sessions at concrete inputs (internal/site/degradation.go,
-- internal/session).
use ori_gateway.Base.{
  String, ◌≡◌, refl, ◌↔◌, none, some, List, [], ◌∷◌, arith, eq_iff, if◌then◌else◌, nat_eq,
  string_eq,
}
use ori_gateway.Base.Maps.{Map, lookup}
use ori_gateway.Site.Degradation.{
  Decoded, text, array, validate_degradation_reasons, reason_severity,
}
use ori_gateway.Site.Degradation as Degradation
use ori_gateway.Site.Degradation.Accepted.{Accepts, validate-Valid}
use ori_gateway.Session.{RetryPolicy, ReasoningRequest, Session, evict_timed_out}
use ori_gateway.Session.Registry.{Filed, timed_out, evict_timed_out-left}

abbrev sample_reasons : List Decoded
sample_reasons = text "sensor_stale" ∷ text "tier_c_recovery_failed" ∷ []

validate-Valid_example :
    (validate_degradation_reasons (some (array sample_reasons)) "degraded"
      ≡ Degradation.admitted (some ("sensor_stale" ∷ "tier_c_recovery_failed" ∷ [])))
    ↔ Accepts
        (some (array sample_reasons))
        "degraded"
        (some ("sensor_stale" ∷ "tier_c_recovery_failed" ∷ []))
validate-Valid_example =
    validate-Valid (some (array sample_reasons)) "degraded"
      (some ("sensor_stale" ∷ "tier_c_recovery_failed" ∷ []))

abbrev sample_request : ReasoningRequest
sample_request = record { request_id = "r1"; device_id = "pump" }

abbrev sample_policy : RetryPolicy
sample_policy = record { timeout_ms = 500; max_retries = 2 }

abbrev sample_session : Session
sample_session = record {
  request = sample_request;
  policy = sample_policy;
  started = 5;
  attempts = 0;
}

abbrev sample_sessions : Map String Session
sample_sessions = ("r1", sample_session) ∷ []

sample_sessions-Filed : Filed sample_sessions
unfolding lookup
sample_sessions-Filed = record {
  distinct = (refl, tt);
  named = λ id s found. ground (arith, eq_iff "r1" id);
}

evict_timed_out-left_example :
    lookup "r1" (evict_timed_out 505 sample_sessions).0
    ≡ (if timed_out 505 (lookup "r1" sample_sessions) then none else lookup "r1" sample_sessions)
evict_timed_out-left_example = evict_timed_out-left 505 sample_sessions sample_sessions-Filed "r1"
