-- ===== src/Site/Health/Critical.antt =====
-- Critical is never folded: from the registry's events to the site's status (internal/site).
use ori_gateway.Base.{
  ℕ, zero, suc, ◌≤◌, max, String, ◌≡◌, refl, sym, ◌∙◌, ◌⊎◌, inl, inr, Bool, false, some, List, [],
  ◌∷◌, arith, eq_iff, Option-cases, All, nat_eq, string_eq,
}
use ori_gateway.Base.Maps.{lookup}
use ori_gateway.Site.Registry.{
  NodeHeartbeat, Registry, node_status_healthy, export_severity_critical, report_stale, severity_of,
}
use ori_gateway.Site.Registry.Consistency.{Event, apply_all, Consistent, apply_all-Consistent}
use ori_gateway.Site.Registry.Severity.{
  LastCritical, NotFrom, NotRead, apply_all-LastCritical, apply_all-severity,
}
use ori_gateway.Site.Health.{
  projected_severity, status_severity, site_status_name, export_severity_floor, GatewayView,
  evidence_problem, at_least, node_severity, gateway_severity, project,
}
use ori_gateway.Site.Health.Folding.{
  severity_at, node_severity-bounds, Expects, project-critical, project-greatest, greatest,
  critical-two, floor-two,
}

last-severity :
    (now ttl : ℕ) (r : Registry) (d : String) → LastCritical d r → 2 ≤ severity_at now ttl r d
last-severity now ttl r d (hb, found, critical) =
    rw found (omega (arith, (node_severity-bounds now ttl hb).0, critical-two hb.status critical))

read-severity :
    (now ttl : ℕ) (r : Registry) (d : String)
    → Consistent r
    → severity_of d r.export_severity ≡ export_severity_critical
    → 2 ≤ severity_at now ttl r d
read-severity now ttl r d c critical = elim (Option-cases (lookup d r.nodes)) [
  | inl absent ↦ rw absent (omega (arith, floor-two (severity_of d r.export_severity) critical))
  | inr (hb, found) ↦ rw found (
      omega (
        arith,
        (node_severity-bounds now ttl hb).1.0,
        floor-two hb.export_severity ((c.filed d hb found).1 ∙ critical),
      ))
]

-- A critical heartbeat is never folded: while the device sends no further heartbeat, through any
-- heartbeats of other devices, export readings and evictions, every projection of a site that
-- expects the device is critical, at any time, with any bounds and whatever the gateway's state.
pub heartbeat-never_folded :
    (d : String) (es : List Event) (r : Registry)
    → Consistent r
    → All (NotFrom d) es
    → LastCritical d r
    → (families expected : List String) (ttl now : ℕ) (gateway : GatewayView) → Expects d expected
    → (project families ttl expected now gateway (apply_all es r)).status ≡ "critical"
heartbeat-never_folded d es r c others last families expected ttl now gateway expects =
    project-critical families ttl expected now gateway (apply_all es r) d
      (apply_all-Consistent es r c) expects
      (last-severity now ttl (apply_all es r) d (apply_all-LastCritical d es r c others last))

-- A critical health export is never folded: until a later export of the device is read, through
-- its own heartbeats and everyone's, postures without a reading and evictions, every projection of
-- a site that expects the device is critical, whether the device is in the registry or not.
pub export-never_folded :
    (d : String) (es : List Event) (r : Registry)
    → Consistent r
    → All (NotRead d) es
    → severity_of d r.export_severity ≡ export_severity_critical
    → (families expected : List String) (ttl now : ℕ) (gateway : GatewayView) → Expects d expected
    → (project families ttl expected now gateway (apply_all es r)).status ≡ "critical"
export-never_folded d es r c unread critical families expected ttl now gateway expects =
    let c' = apply_all-Consistent es r c in
    project-critical families ttl expected now gateway (apply_all es r) d c' expects
      (read-severity now ttl (apply_all es r) d c' (apply_all-severity d es r c unread ∙ critical))

-- A device that gives no reason for concern.
pub record Fine (now ttl : ℕ) (r : Registry) (d : String) : Type 0 where
  pub node : NodeHeartbeat
  pub observed : lookup d r.nodes ≡ some node
  pub reports_healthy : node.status ≡ node_status_healthy
  pub moving : report_stale node now ttl ≡ false
  pub export_fine : (node.export_severity ≡ "") ⊎ (node.export_severity ≡ "ok")
  pub evidence_fine : evidence_problem node.evidence ≡ false

healthy-zero : (s : String) → projected_severity s ≡ 0 → s ≡ node_status_healthy
unfolding projected_severity status_severity
healthy-zero s zero_is = ground (arith, eq_iff s node_status_healthy)

floor-zero : (s : String) → export_severity_floor s ≡ 0 → (s ≡ "") ⊎ (s ≡ "ok")
unfolding export_severity_floor
floor-zero s zero_is = ground (arith, eq_iff s "", eq_iff s "ok")

at_least-zero : (b : Bool) (n : ℕ) → at_least b n ≡ 0 → (b ≡ false) × (n ≡ 0)
unfolding at_least
at_least-zero b n zero_is = ground arith

severity-Fine :
    (now ttl : ℕ) (r : Registry) (d : String) → severity_at now ttl r d ≡ 0 → Fine now ttl r d
unfolding node_severity
severity-Fine now ttl r d zero_is = elim (Option-cases (lookup d r.nodes)) [
  | inl absent ↦ ground (arith, rw absent at zero_is)
  | inr (hb, found) ↦
      let at_zero = rw found at zero_is in
      let (fine, rest) = at_least-zero (evidence_problem hb.evidence) _ at_zero in
      let (fresh, healthy) =
        at_least-zero (report_stale hb now ttl) (projected_severity hb.status)
          (omega (arith, rest)) in
      record {
        node = hb;
        observed = found;
        reports_healthy = healthy-zero hb.status healthy;
        moving = fresh;
        export_fine = floor-zero hb.export_severity (omega (arith, rest));
        evidence_fine = fine;
      }
]

greatest-zero :
    (now ttl : ℕ) (r : Registry) (ds : List String) (s : ℕ)
    → greatest now ttl r ds s ≡ 0
    → (s ≡ 0) × All (Fine now ttl r) ds
greatest-zero now ttl r [] s zero_is = (zero_is, tt)
greatest-zero now ttl r (d ∷ ds) s zero_is =
    let (now_zero, rest) = greatest-zero now ttl r ds (max s (severity_at now ttl r d)) zero_is in
    (omega (arith, now_zero), (severity-Fine now ttl r d (omega (arith, now_zero)), rest))

name-zero : (n : ℕ) → site_status_name n ≡ "healthy" → n ≡ 0
unfolding site_status_name
name-zero zero is = refl
name-zero (suc zero) is = ground (arith, (eq_iff "degraded" "healthy").1 is)
name-zero (suc (suc n)) is = ground (arith, (eq_iff "critical" "healthy").1 is)

gateway-zero : (g : GatewayView) → gateway_severity g ≡ 0 → g.status ≡ node_status_healthy
unfolding gateway_severity at_least
gateway-zero g zero_is = healthy-zero g.status (ground arith)

-- A site reads healthy only when the gateway is healthy and every expected device has been heard,
-- reports healthy, has a report that moved within the bound, shows no evidence problem and has no
-- export read that is not ok.
pub project-healthy :
    (families expected : List String) (ttl now : ℕ) (gateway : GatewayView) (r : Registry)
    → Consistent r
    → (project families ttl expected now gateway r).status ≡ "healthy"
    → (gateway.status ≡ node_status_healthy) × All (Fine now ttl r) expected
project-healthy families expected ttl now gateway r c healthy =
    let zero_is =
      name-zero _ (sym (project-greatest families ttl expected now gateway r c) ∙ healthy) in
    let (gateway_zero, each) =
      greatest-zero now ttl r expected (gateway_severity gateway) zero_is in
    (gateway-zero gateway gateway_zero, each)
