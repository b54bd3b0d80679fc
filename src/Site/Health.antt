-- ===== src/Site/Health.antt =====
-- The site health projection (internal/site/health.go). The members that are only carried from the
-- registry and the gateway to the projection are left out, and so is the time it is generated at.
pub mod Folding
pub mod Critical
use ori_gateway.Base.{
  ℕ, zero, suc, ◌+◌, ◌-◌, ◌*◌, ◌/◌, ◌%◌, ◌^◌, ◌≤◌, ◌<◌, min, max, String, ◌≡◌, refl, sym, ap, subst,
  ◌∙◌, ◌≢◌, ◌↔◌, ◌⊎◌, inl, inr, Bool, true, false, not, ◌&&◌, ◌||◌, Option, none, some, List, [],
  ◌∷◌, ◌++◌, map, arith, eq_iff, ltb, leb, nat_beq, if-both, if◌then◌else◌, ltb→lt, lt→ltb, leb→le,
  Bool-cases, Option-cases, is_some, length, length-append, drop, any, all, All, Eq, ◌==◌, nat_eq,
  string_eq,
}
use ori_gateway.Base.Maps.{Map, lookup, insert}
use ori_gateway.Site.Evidence.{NodeEvidence}
use ori_gateway.Site.Registry.{
  NodeHeartbeat, Registry, SiteNodePosture, node_status_healthy, node_status_degraded,
  node_status_critical, export_severity_critical, report_stale, severity_of,
  snapshot_with_export_severity,
}

abbrev pub severity_healthy : ℕ
severity_healthy = 0

abbrev pub severity_degraded : ℕ
severity_degraded = 1

abbrev pub severity_critical : ℕ
severity_critical = 2

unfoldable pub status_severity : String → Option ℕ
status_severity status =
    if status == node_status_healthy
    then some severity_healthy
    else if status == node_status_degraded
    then some severity_degraded
    else if status == node_status_critical
    then some severity_critical
    else none

unfoldable pub projected_severity : String → ℕ
unfolding status_severity
projected_severity status = elim (status_severity status) [
  | none ↦ severity_degraded
  | some sev ↦ sev
]

unfoldable pub site_status_name : ℕ → String
site_status_name zero = "healthy"
site_status_name (suc zero) = "degraded"
site_status_name (suc (suc n)) = "critical"

unfoldable pub export_severity_floor : String → ℕ
export_severity_floor severity =
    if (severity == "") || (severity == "ok")
    then severity_healthy
    else if severity == export_severity_critical
    then severity_critical
    else severity_degraded

pub record MqttIngressCount : Type 0 where
  pub payload_too_large : ℕ
  pub volume_dropped : ℕ

pub record GatewayEvidenceDeliveryView : Type 0 where
  pub degraded : Bool
  pub blocked : Bool

pub record GatewayView : Type 0 where
  pub status : String
  pub evidence_delivery : Option GatewayEvidenceDeliveryView
  pub mqtt_ingress : Map String MqttIngressCount

pub record SiteNode : Type 0 where
  pub device_id : String
  pub status : String
  pub last_seen_ms : ℕ
  pub gateway_observed : Bool
  pub stale : Bool
  pub active_trigger_count : ℕ
  pub degradation_reasons : Option (List String)
  pub posture : Option SiteNodePosture
  pub evidence : Option NodeEvidence

pub record SiteHealth : Type 0 where
  pub status : String
  pub nodes : List SiteNode
  pub gateway : GatewayView

unfoldable pub evidence_problem : Option NodeEvidence → Bool
evidence_problem none = false
evidence_problem (some e) = e.truncation_suspected || (e.head_regressed || not e.available)

unfoldable pub at_least : Bool → ℕ → ℕ
at_least problem status = if problem then max status severity_degraded else status

unfoldable pub unobserved_node : String → Map String String → SiteNode
unfolding site_status_name
unobserved_node device severities = record {
  device_id = device;
  status =
      site_status_name
        (max severity_degraded (export_severity_floor (severity_of device severities)));
  last_seen_ms = 0;
  gateway_observed = false;
  stale = true;
  active_trigger_count = 0;
  degradation_reasons = none;
  posture = none;
  evidence = none;
}

unfoldable pub node_severity : ℕ → ℕ → NodeHeartbeat → ℕ
node_severity now ttl n = at_least (evidence_problem n.evidence) (
    max (at_least (report_stale n now ttl) (projected_severity n.status))
      (export_severity_floor n.export_severity))

unfoldable pub observed_node : ℕ → ℕ → String → NodeHeartbeat → SiteNode
unfolding site_status_name
observed_node now ttl device n = record {
  device_id = device;
  status = site_status_name (node_severity now ttl n);
  last_seen_ms = n.last_seen_ms;
  gateway_observed = true;
  stale = report_stale n now ttl;
  active_trigger_count = length n.active_triggers;
  degradation_reasons = n.degradation_reasons;
  posture = n.posture;
  evidence = n.evidence;
}

-- The last node of a device in the snapshot stands.
unfoldable pub index_nodes :
    List NodeHeartbeat → Map String NodeHeartbeat → Map String NodeHeartbeat
index_nodes [] observed = observed
index_nodes (n ∷ ns) observed = index_nodes ns (insert n.device_id n observed)

unfoldable pub project_node :
    ℕ → ℕ → Map String NodeHeartbeat → Map String String → String → SiteNode
project_node now ttl observed severities device = elim (lookup device observed) [
  | none ↦ unobserved_node device severities
  | some n ↦ observed_node now ttl device n
]

unfoldable pub most_severe : List SiteNode → ℕ → ℕ
most_severe [] status = status
most_severe (n ∷ ns) status = most_severe ns (max status (projected_severity n.status))

unfoldable pub gateway_severity : GatewayView → ℕ
gateway_severity gateway = elim (gateway.evidence_delivery) [
  | none ↦ projected_severity gateway.status
  | some d ↦ at_least (d.degraded || d.blocked) (projected_severity gateway.status)
]

-- Every received family and no other; a family without a count reads as zeros.
unfoldable pub project_ingress :
    List String → Map String MqttIngressCount → Map String MqttIngressCount
project_ingress [] counts = []
project_ingress (family ∷ families) counts =
    insert family
      (elim (lookup family counts) [
        | none ↦ record { payload_too_large = 0; volume_dropped = 0 }
        | some n ↦ n
      ])
      (project_ingress families counts)

unfoldable pub project : List String → ℕ → List String → ℕ → GatewayView → Registry → SiteHealth
project families ttl expected now gateway r =
    let (nodes, severities) = snapshot_with_export_severity r in
    let projected : List SiteNode =
      map (project_node now ttl (index_nodes nodes []) severities) expected in
    record {
      status = site_status_name (most_severe projected (gateway_severity gateway));
      nodes = projected;
      gateway = record gateway { mqtt_ingress = project_ingress families gateway.mqtt_ingress };
    }
