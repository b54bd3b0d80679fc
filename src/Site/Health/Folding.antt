-- ===== src/Site/Health/Folding.antt =====
-- A projection never folds critical, and is healthy only when everything is (internal/site).
use ori_gateway.Base.{
  ℕ, zero, suc, ◌≤◌, max, String, ◌≡◌, refl, sym, ap, subst, ◌∙◌, ◌⊎◌, inl, inr, Bool, Option, none,
  some, List, [], ◌∷◌, map, arith, eq_iff, Option-cases, All, nat_eq, string_eq,
}
use ori_gateway.Base.Maps.{Map, lookup, insert, Distinct, lookup-insert}
use ori_gateway.Site.Registry.{
  NodeHeartbeat, Registry, node_status_critical, export_severity_critical, report_stale,
  severity_of, snapshot, copied_severity, snapshot_with_export_severity,
}
use ori_gateway.Site.Registry.Consistency.{Filed, NonEmpty, Consistent}
use ori_gateway.Site.Health.{
  severity_degraded, status_severity, projected_severity, site_status_name, export_severity_floor,
  GatewayView, SiteNode, evidence_problem, at_least, unobserved_node, node_severity, observed_node,
  index_nodes, project_node, most_severe, gateway_severity, project,
}

abbrev Named : Map String NodeHeartbeat → Type 0
Named = All (λ entry. entry.1.device_id ≡ entry.0)

lookup-index :
    (d : String) (m acc : Map String NodeHeartbeat)
    → Distinct m
    → Named m
    → lookup d (index_nodes (map (λ entry. entry.1) m) acc)
      ≡ elim (lookup d m) [ none ↦ lookup d acc | some hb ↦ some hb ]
unfolding lookup index_nodes
lookup-index d [] acc distinct named = refl
lookup-index d ((k, hb) ∷ m) acc distinct named = ground (
  arith,
  lookup-index d m (insert hb.device_id hb acc) distinct.1 named.1,
  lookup-insert hb.device_id d hb acc,
  named.0,
  eq_iff k d,
)

Filed-Named :
    (severities : Map String String) (m : Map String NodeHeartbeat)
    → Distinct m
    → Filed severities m
    → Named m
unfolding lookup
Filed-Named severities [] distinct filed = tt
Filed-Named severities ((k, hb) ∷ m) distinct filed = (
  (filed k hb (ground (arith, eq_iff k k))).0,
  Filed-Named severities m distinct.1 (λ d h found. filed d h (ground (arith, eq_iff k d))),
)

index-lookup :
    (d : String) (r : Registry)
    → Consistent r
    → lookup d (index_nodes (snapshot r) []) ≡ lookup d r.nodes
unfolding snapshot lookup
index-lookup d r c =
    lookup-index d r.nodes [] c.distinct (Filed-Named r.export_severity r.nodes c.distinct c.filed)
    ∙ same (lookup d r.nodes)
  where
    same : (o : Option NodeHeartbeat) → elim o [ none ↦ none | some hb ↦ some hb ] ≡ o
    same none = refl
    same (some hb) = refl

copied_severity-same : (m : Map String String) → NonEmpty m → copied_severity m ≡ m
unfolding copied_severity
copied_severity-same [] read = refl
copied_severity-same ((k, v) ∷ m) read = ground (arith, copied_severity-same m read.1, eq_iff v "")

-- A node of the projection, read straight from the registry.
abbrev node_at : ℕ → ℕ → String → Map String String → Option NodeHeartbeat → SiteNode
node_at now ttl d severities none = unobserved_node d severities
node_at now ttl d severities (some n) = observed_node now ttl d n

abbrev pub node_of : ℕ → ℕ → Registry → String → SiteNode
node_of now ttl r d = node_at now ttl d r.export_severity (lookup d r.nodes)

project_node-at :
    (now ttl : ℕ) (m : Map String NodeHeartbeat) (severities : Map String String) (d : String)
    → project_node now ttl m severities d ≡ node_at now ttl d severities (lookup d m)
unfolding project_node
project_node-at now ttl m severities d = elim (Option-cases (lookup d m)) [
  | inl e ↦ rw (e, project_node) refl
  | inr (n, e) ↦ rw (e, project_node) refl
]

project_node-registry :
    (now ttl : ℕ) (d : String) (r : Registry)
    → Consistent r
    → project_node now ttl (index_nodes (snapshot r) []) (copied_severity r.export_severity) d
      ≡ node_of now ttl r d
project_node-registry now ttl d r c =
    project_node-at now ttl _ _ d
    ∙ (ap (node_at now ttl d (copied_severity r.export_severity)) (index-lookup d r c)
        ∙ ap (λ m. node_at now ttl d m (lookup d r.nodes))
            (copied_severity-same r.export_severity c.read))

named-severity : (n : ℕ) → n ≤ 2 → projected_severity (site_status_name n) ≡ n
unfolding projected_severity status_severity site_status_name
named-severity zero le = refl
named-severity (suc zero) le = refl
named-severity (suc (suc n)) le = ground arith

severity-small : (s : String) → projected_severity s ≤ 2
unfolding projected_severity status_severity
severity-small s = ground arith

floor-small : (s : String) → export_severity_floor s ≤ 2
unfolding export_severity_floor
floor-small s = ground arith

at_least-bounds : (b : Bool) (n : ℕ) → n ≤ 2 → (n ≤ at_least b n) × (at_least b n ≤ 2)
unfolding at_least
at_least-bounds b n le = ground arith

pub node_severity-bounds :
    (now ttl : ℕ) (n : NodeHeartbeat)
    → (projected_severity n.status ≤ node_severity now ttl n)
      × ((export_severity_floor n.export_severity ≤ node_severity now ttl n)
          × (node_severity now ttl n ≤ 2))
unfolding node_severity
node_severity-bounds now ttl n =
    let a =
      at_least-bounds (report_stale n now ttl) (projected_severity n.status)
        (severity-small n.status) in
    let inner : max (at_least (report_stale n now ttl) (projected_severity n.status))
          (export_severity_floor n.export_severity)
        ≤ 2 =
      omega (arith, a.1, floor-small n.export_severity) in
    let b = at_least-bounds (evidence_problem n.evidence) _ inner in
    (omega (arith, a.0, b.0), (omega (arith, b.0), b.1))

most_severe-All :
    (ns : List SiteNode) (s : ℕ)
    → (s ≤ most_severe ns s) × All (λ n. projected_severity n.status ≤ most_severe ns s) ns
unfolding most_severe
most_severe-All [] s = (omega arith, tt)
most_severe-All (n ∷ ns) s =
    let (up, rest) = most_severe-All ns (max s (projected_severity n.status)) in
    (omega (arith, up), (omega (arith, up), rest))

most_severe-small : (ns : List SiteNode) (s : ℕ) → s ≤ 2 → most_severe ns s ≤ 2
unfolding most_severe
most_severe-small [] s le = le
most_severe-small (n ∷ ns) s le =
    most_severe-small ns (max s (projected_severity n.status))
      (omega (arith, severity-small n.status))

-- The projected severity of a device.
abbrev severity_of_node : ℕ → ℕ → String → Map String String → Option NodeHeartbeat → ℕ
severity_of_node now ttl d severities none =
    max severity_degraded (export_severity_floor (severity_of d severities))
severity_of_node now ttl d severities (some n) = node_severity now ttl n

abbrev pub severity_at : ℕ → ℕ → Registry → String → ℕ
severity_at now ttl r d = severity_of_node now ttl d r.export_severity (lookup d r.nodes)

node_at-severity :
    (now ttl : ℕ) (d : String) (severities : Map String String) (o : Option NodeHeartbeat)
    → (projected_severity (node_at now ttl d severities o).status
        ≡ severity_of_node now ttl d severities o)
unfolding unobserved_node observed_node
node_at-severity now ttl d severities none =
    named-severity _ (omega (arith, floor-small (severity_of d severities)))
node_at-severity now ttl d severities (some n) =
    named-severity _ (node_severity-bounds now ttl n).1.1

node_of-severity :
    (now ttl : ℕ) (r : Registry) (d : String)
    → projected_severity (node_of now ttl r d).status ≡ severity_at now ttl r d
node_of-severity now ttl r d = node_at-severity now ttl d r.export_severity (lookup d r.nodes)

map-nodes :
    (now ttl : ℕ) (r : Registry) (ds : List String)
    → Consistent r
    → map
        (project_node now ttl (index_nodes (snapshot r) []) (copied_severity r.export_severity))
        ds
      ≡ map (node_of now ttl r) ds
map-nodes now ttl r [] c = refl
map-nodes now ttl r (d ∷ ds) c = cc (project_node-registry now ttl d r c, map-nodes now ttl r ds c)

-- The site's severity is the greatest of the gateway's and every device's.
abbrev pub greatest : ℕ → ℕ → Registry → List String → ℕ → ℕ
greatest now ttl r [] s = s
greatest now ttl r (d ∷ ds) s = greatest now ttl r ds (max s (severity_at now ttl r d))

most_severe-greatest :
    (now ttl : ℕ) (r : Registry) (ds : List String) (s : ℕ)
    → most_severe (map (node_of now ttl r) ds) s ≡ greatest now ttl r ds s
unfolding most_severe
most_severe-greatest now ttl r [] s = refl
most_severe-greatest now ttl r (d ∷ ds) s =
    most_severe-greatest now ttl r ds (max s (projected_severity (node_of now ttl r d).status))
    ∙ ap (λ n. greatest now ttl r ds (max s n)) (node_of-severity now ttl r d)

pub project-greatest :
    (families : List String) (ttl : ℕ) (expected : List String) (now : ℕ) (gateway : GatewayView)
    (r : Registry)
    → Consistent r
    → (project families ttl expected now gateway r).status
      ≡ site_status_name (greatest now ttl r expected (gateway_severity gateway))
unfolding project snapshot_with_export_severity
project-greatest families ttl expected now gateway r c =
    ap (λ ns. site_status_name (most_severe ns (gateway_severity gateway)))
      (map-nodes now ttl r expected c)
    ∙ ap site_status_name (most_severe-greatest now ttl r expected (gateway_severity gateway))

greatest-All :
    (now ttl : ℕ) (r : Registry) (ds : List String) (s : ℕ)
    → (s ≤ greatest now ttl r ds s)
      × All (λ d. severity_at now ttl r d ≤ greatest now ttl r ds s) ds
greatest-All now ttl r [] s = (omega arith, tt)
greatest-All now ttl r (d ∷ ds) s =
    let (up, rest) = greatest-All now ttl r ds (max s (severity_at now ttl r d)) in
    (omega (arith, up), (omega (arith, up), rest))

-- The device is one of the expected.
abbrev pub Expects : String → List String → Type 0
Expects d [] = ⊥
Expects d (e ∷ es) = (d ≡ e) ⊎ Expects d es

All-Expects : (P : String → Type 0) (d : String) (ds : List String) → Expects d ds → All P ds → P d
All-Expects P d [] expects each = elim expects [ ]
All-Expects P d (e ∷ ds) (inl is) each = subst P (sym is) each.0
All-Expects P d (e ∷ ds) (inr more) each = All-Expects P d ds more each.1

critical-name : (n : ℕ) → 2 ≤ n → site_status_name n ≡ "critical"
unfolding site_status_name
critical-name zero le = ground arith
critical-name (suc zero) le = ground arith
critical-name (suc (suc n)) le = refl

pub project-critical :
    (families : List String) (ttl : ℕ) (expected : List String) (now : ℕ) (gateway : GatewayView)
    (r : Registry) (d : String)
    → Consistent r
    → Expects d expected
    → 2 ≤ severity_at now ttl r d
    → (project families ttl expected now gateway r).status ≡ "critical"
project-critical families ttl expected now gateway r d c expects critical =
    let each = (greatest-All now ttl r expected (gateway_severity gateway)).1 in
    let under =
      All-Expects
        (λ e. severity_at now ttl r e ≤ greatest now ttl r expected (gateway_severity gateway)) d
        expected expects each in
    project-greatest families ttl expected now gateway r c
    ∙ critical-name _ (omega (arith, critical, under))

pub critical-two : (s : String) → s ≡ node_status_critical → projected_severity s ≡ 2
unfolding projected_severity status_severity
critical-two s is = ap (λ (t : String). projected_severity t) is

pub floor-two : (s : String) → s ≡ export_severity_critical → export_severity_floor s ≡ 2
unfolding export_severity_floor
floor-two s is = ap (λ (t : String). export_severity_floor t) is
