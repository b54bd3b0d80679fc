-- ===== src/Samples/Sites.antt =====
-- The theorems of the site at a registry of two devices (internal/site).
use ori_gateway.Base.{
  String, ◌≡◌, refl, ◌≢◌, inl, inr, true, false, none, List, [], ◌∷◌, arith, eq_iff, All, nat_eq,
  string_eq,
}
use ori_gateway.Base.Maps.{lookup, insert, erase}
use ori_gateway.Site.Evidence.{
  NodeEvidence, new_track, observe, current_head, fold_head, newest, record_head,
}
use ori_gateway.Site.Evidence.Rollback.{observe_all, rollback-flagged}
use ori_gateway.Site.Registry.{
  NodeHeartbeat, Registry, evict_stale_retaining_critical, severity_of, report_stale,
  node_status_healthy, snapshot, copied_severity, snapshot_with_export_severity,
}
use ori_gateway.Site.Registry.Retention.{Left, evict_stale-Left}
use ori_gateway.Site.Registry.Consistency.{
  Event, heartbeat, posture, eviction, apply_all, Consistent,
}
use ori_gateway.Site.Registry.Severity.{LastCritical}
use ori_gateway.Site.Health.{
  GatewayView, project, project_ingress, project_node, index_nodes, most_severe, gateway_severity,
  projected_severity, status_severity, site_status_name, observed_node, node_severity, at_least,
  evidence_problem, export_severity_floor,
}
use ori_gateway.Site.Health.Critical.{
  heartbeat-never_folded, export-never_folded, Fine, project-healthy,
}

abbrev reported : String → NodeEvidence
reported head = record {
  chain_head_hash = head;
  attestation_gap_count = 0;
  available = true;
  action_event_type = "";
  truncation_suspected = false;
  head_regressed = false;
}

moved_on :
    current_head (observe_all (reported "head_2" ∷ []) (observe (reported "head_1") new_track).0)
    ≢ "head_1"
unfolding observe_all observe current_head fold_head newest record_head
moved_on e = ground (arith, (eq_iff "head_2" "head_1").1 e)

some_head : (reported "head_1").chain_head_hash ≢ ""
some_head e = ground (arith, (eq_iff "head_1" "").1 e)

rollback-flagged_example :
    (observe (reported "head_1") (
      observe_all
        (reported "head_2" ∷ [])
        (observe (reported "head_1") new_track).0)).1.head_regressed
    ≡ true
rollback-flagged_example =
    rollback-flagged (reported "head_1") (reported "head_1") (reported "head_2" ∷ []) new_track
      some_head refl (omega arith) moved_on

abbrev beat : String → String → String → NodeHeartbeat
beat device status severity = record {
  device_id = device;
  status = status;
  last_seen_ms = 900;
  gateway_seen = 1000;
  active_triggers = [];
  degradation_reasons = none;
  posture = none;
  evidence = none;
  export_severity = severity;
  received_mono = 50;
  advanced_mono = 50;
}

abbrev pump : String
pump = "pump"

abbrev fan : String
fan = "fan"

fan_apart : fan ≢ pump
fan_apart e = ground (arith, (eq_iff fan pump).1 e)

abbrev sample_registry : Registry
sample_registry = record {
  nodes = ("pump", beat "pump" "critical" "") ∷ ("fan", beat "fan" "healthy" "critical") ∷ [];
  evidence = [];
  export_severity = ("fan", "critical") ∷ [];
  silent_critical = [];
}

sample_registry-Consistent : Consistent sample_registry
unfolding lookup severity_of
sample_registry-Consistent = record {
  distinct = (refl, (refl, tt));
  filed = λ d hb found. ground (arith, eq_iff "pump" d, eq_iff "fan" d, fan_apart);
  read = ((λ e. ground (arith, (eq_iff "critical" "").1 e)), tt);
}

evict_stale-Left_example :
    Left 500 90 "fan"
      (lookup "fan" sample_registry.nodes)
      sample_registry
      (evict_stale_retaining_critical 500 90 sample_registry).registry
evict_stale-Left_example =
    evict_stale-Left 500 90 "fan" sample_registry sample_registry-Consistent.distinct

pump-LastCritical : LastCritical "pump" sample_registry
unfolding lookup
pump-LastCritical = (beat "pump" "critical" "", refl, refl)

abbrev sample_events : List Event
sample_events =
    eviction 500 90
    ∷ heartbeat 1400 510 (beat "fan" "healthy" "")
    ∷ posture "pump" (record { export_severity = "ok" })
    ∷ []

abbrev sample_gateway : GatewayView
sample_gateway = record { status = "healthy"; evidence_delivery = none; mqtt_ingress = [] }

heartbeat-never_folded_example :
    (project
      ("runtime/status" ∷ [])
      90
      ("fan" ∷ "pump" ∷ [])
      600
      sample_gateway
      (apply_all sample_events sample_registry)).status
    ≡ "critical"
heartbeat-never_folded_example =
    heartbeat-never_folded "pump" sample_events sample_registry sample_registry-Consistent
      (tt, (fan_apart, (tt, tt))) pump-LastCritical ("runtime/status" ∷ []) ("fan" ∷ "pump" ∷ []) 90
      600 sample_gateway (inr (inl refl))

fan-read : severity_of "fan" sample_registry.export_severity ≡ "critical"
unfolding severity_of lookup
fan-read = refl

abbrev quiet_events : List Event
quiet_events =
    eviction 500 90
    ∷ heartbeat 1400 510 (beat "fan" "healthy" "")
    ∷ posture "fan" (record { export_severity = "" })
    ∷ []

export-never_folded_example :
    (project [] 90 ("fan" ∷ []) 600 sample_gateway (apply_all quiet_events sample_registry)).status
    ≡ "critical"
export-never_folded_example =
    export-never_folded "fan" quiet_events sample_registry sample_registry-Consistent
      (tt, (tt, ((λ e. refl), tt))) fan-read [] ("fan" ∷ []) 90 600 sample_gateway (inl refl)

abbrev calm_registry : Registry
calm_registry = record {
  nodes = ("fan", beat "fan" "healthy" "") ∷ [];
  evidence = [];
  export_severity = [];
  silent_critical = [];
}

calm_registry-Consistent : Consistent calm_registry
unfolding lookup severity_of
calm_registry-Consistent = record {
  distinct = (refl, tt);
  filed = λ d hb found. ground (arith, eq_iff "fan" d);
  read = tt;
}

calm-healthy : (project [] 90 ("fan" ∷ []) 100 sample_gateway calm_registry).status ≡ "healthy"
unfolding project snapshot_with_export_severity snapshot copied_severity project_node index_nodes
    most_severe gateway_severity projected_severity status_severity site_status_name observed_node
    node_severity at_least evidence_problem export_severity_floor lookup insert erase report_stale
    project_ingress
calm-healthy = refl

project-healthy_example :
    (sample_gateway.status ≡ node_status_healthy) × All (Fine 100 90 calm_registry) ("fan" ∷ [])
project-healthy_example =
    project-healthy [] ("fan" ∷ []) 90 100 sample_gateway calm_registry calm_registry-Consistent
      calm-healthy
