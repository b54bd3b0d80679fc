-- ===== src/Site/Registry/Severity.antt =====
-- The severities a run of the registry keeps (internal/site/site.go): critical stays, and a device's
-- severity is the last one read.
use ori_gateway.Base.{
  String, ◌≡◌, refl, ap, ◌∙◌, ◌≢◌, inl, inr, true, some, List, [], ◌∷◌, arith, eq_iff, Bool-cases,
  Option-cases, All, ◌==◌, nat_eq, string_eq,
}
use ori_gateway.Base.Maps.{Map, lookup, insert, lookup-insert}
use ori_gateway.Site.Registry.{
  NodeHeartbeat, Registry, node_status_critical, is_critical, upsert, upsert_posture, severity_of,
  read_severity,
}
use ori_gateway.Site.Registry.Retention.{evict_stale-Left}
use ori_gateway.Site.Registry.Consistency.{
  Consistent, heartbeat, posture, eviction, Event, apply, apply_all, apply-Consistent,
}

-- The node's last heartbeat was critical.
abbrev pub LastCritical : String → Registry → Type 0
LastCritical d r =
    (hb : NodeHeartbeat) × (lookup d r.nodes ≡ some hb) × (hb.status ≡ node_status_critical)

-- Events that bring no heartbeat of the device, and events that bring no reading of its export.
abbrev pub NotFrom : String → Event → Type 0
NotFrom d (heartbeat wall mono hb) = hb.device_id ≢ d
NotFrom d (posture device p) = Unit
NotFrom d (eviction now ttl) = Unit

abbrev pub NotRead : String → Event → Type 0
NotRead d (heartbeat wall mono hb) = Unit
NotRead d (posture device p) = (device ≡ d) → (p.export_severity ≡ "")
NotRead d (eviction now ttl) = Unit

critical-kept : (hb : NodeHeartbeat) → hb.status ≡ node_status_critical → is_critical hb ≡ true
unfolding is_critical
critical-kept hb critical = ground (arith, eq_iff hb.status node_status_critical)

read_severity-unread :
    (device d severity : String) (m : Map String String)
    → ((device ≡ d) → (severity ≡ ""))
    → severity_of d (read_severity device severity m) ≡ severity_of d m
unfolding read_severity severity_of
read_severity-unread device d severity m unread =
    ground (arith, lookup-insert device d severity m, eq_iff device d, eq_iff severity "")

insert-other :
    (k d : String) (h : NodeHeartbeat) (m : Map String NodeHeartbeat)
    → k ≢ d
    → lookup d (insert k h m) ≡ lookup d m
insert-other k d h m other = ground (arith, lookup-insert k d h m, eq_iff k d)

insert-LastCritical :
    (d device : String) (h new : NodeHeartbeat) (m : Map String NodeHeartbeat)
    → lookup device m ≡ some h
    → new.status ≡ h.status
    → (hb : NodeHeartbeat) × (lookup d m ≡ some hb) × (hb.status ≡ node_status_critical)
    → (hb : NodeHeartbeat) × (lookup d (insert device new m) ≡ some hb)
      × (hb.status ≡ node_status_critical)
insert-LastCritical d device h new m was same (hb, found, critical) =
    elim (Bool-cases (device == d)) [
      | inl here ↦
          let is : device ≡ d = (eq_iff device d).0 here in
          let h_is : h ≡ hb = ground arith in
          (
            new,
            ground (arith, lookup-insert device d new m),
            same ∙ (ap (λ (x : NodeHeartbeat). x.status) h_is ∙ critical),
          )
      | inr there ↦
          (hb, insert-other device d new m (ground (arith, eq_iff device d)) ∙ found, critical)
    ]

apply-LastCritical :
    (d : String) (e : Event) (r : Registry)
    → Consistent r
    → NotFrom d e
    → LastCritical d r
    → LastCritical d (apply e r)
unfolding apply upsert upsert_posture
apply-LastCritical d (heartbeat wall mono h) r c other (hb, found, critical) =
    (hb, insert-other h.device_id d _ r.nodes other ∙ found, critical)
apply-LastCritical d (posture device p) r c other last =
    elim (Option-cases (lookup device r.nodes)) [
      | inl absent ↦ rw (absent, upsert_posture) last
      | inr (h, was) ↦
          rw (was, upsert_posture) (insert-LastCritical d device h _ r.nodes was refl last)
    ]
apply-LastCritical d (eviction now ttl) r c other (hb, found, critical) =
    let left = (evict_stale-Left now ttl d r c.distinct).node_left in
    (hb, left ∙ ground (arith, keeps), critical)
  where
    keeps : is_critical hb ≡ true
    keeps = critical-kept hb critical

-- A node whose last heartbeat was critical is never taken out: through any heartbeats of other
-- devices, posture readings and evictions, at any times and with any bounds, it stays in the
-- registry as critical.
pub apply_all-LastCritical :
    (d : String) (es : List Event) (r : Registry)
    → Consistent r
    → All (NotFrom d) es
    → LastCritical d r
    → LastCritical d (apply_all es r)
unfolding apply_all
apply_all-LastCritical d [] r c others last = last
apply_all-LastCritical d (e ∷ es) r c others last =
    apply_all-LastCritical d es (apply e r) (apply-Consistent e r c) others.1
      (apply-LastCritical d e r c others.0 last)

apply-severity :
    (d : String) (e : Event) (r : Registry)
    → Consistent r
    → NotRead d e
    → severity_of d (apply e r).export_severity ≡ severity_of d r.export_severity
unfolding apply upsert upsert_posture
apply-severity d (heartbeat wall mono h) r c unread = refl
apply-severity d (posture device p) r c unread = elim (Option-cases (lookup device r.nodes)) [
  | inl absent ↦
      rw (absent, upsert_posture)
        (read_severity-unread device d p.export_severity r.export_severity unread)
  | inr (h, was) ↦
      rw (was, upsert_posture)
        (read_severity-unread device d p.export_severity r.export_severity unread)
]
apply-severity d (eviction now ttl) r c unread =
    ap (severity_of d) (evict_stale-Left now ttl d r c.distinct).severity_left

pub apply_all-severity :
    (d : String) (es : List Event) (r : Registry)
    → Consistent r
    → All (NotRead d) es
    → severity_of d (apply_all es r).export_severity ≡ severity_of d r.export_severity
unfolding apply_all
apply_all-severity d [] r c unread = refl
apply_all-severity d (e ∷ es) r c unread =
    apply_all-severity d es (apply e r) (apply-Consistent e r c) unread.1
    ∙ apply-severity d e r c unread.0
