-- ===== src/Site/Registry/Retention.antt =====
-- What an eviction removes and what it keeps (`EvictStaleRetainingCritical`, internal/site/site.go).
use ori_gateway.Base.{
  ℕ, String, ◌≡◌, refl, ◌∙◌, Bool, false, not, ◌&&◌, ◌||◌, Option, none, some, [], ◌∷◌, arith,
  eq_iff, if◌then◌else◌, ◌==◌, nat_eq, string_eq,
}
use ori_gateway.Base.Maps.{Map, lookup, has, Distinct, lookup-erase, lookup-insert, erase-Distinct}
use ori_gateway.Site.Registry.{
  NodeHeartbeat, Registry, receipt_stale, is_critical, Eviction, evict_node, evict_nodes,
  evict_stale_retaining_critical,
}

-- The device is evicted, and its silence is reported, on its node.
abbrev pub goes : ℕ → ℕ → Option NodeHeartbeat → Bool
goes now ttl none = false
goes now ttl (some hb) = receipt_stale hb now ttl && not (is_critical hb)

abbrev pub silent_node : ℕ → ℕ → Option NodeHeartbeat → Bool
silent_node now ttl none = false
silent_node now ttl (some hb) = receipt_stale hb now ttl && is_critical hb

-- What an eviction leaves of one device.
pub record Left (now ttl : ℕ) (device : String) (node : Option NodeHeartbeat) (r q : Registry)
    : Type 0 where
  pub node_left :
      lookup device q.nodes ≡ (if goes now ttl node then none else lookup device r.nodes)
  pub track_left :
      lookup device q.evidence ≡ (if goes now ttl node then none else lookup device r.evidence)
  pub silent_left :
      has device q.silent_critical ≡ has device r.silent_critical || silent_node now ttl node
  pub severity_left : q.export_severity ≡ r.export_severity

evict_node-Left :
    (now ttl : ℕ) (device d : String) (hb : NodeHeartbeat) (e : Eviction)
    → Left now ttl d
        (if device == d then some hb else none)
        e.registry
        (evict_node now ttl device hb e).registry
unfolding evict_node
evict_node-Left now ttl device d hb e = record {
  node_left = ground (arith, lookup-erase device d e.registry.nodes);
  track_left = ground (arith, lookup-erase device d e.registry.evidence);
  silent_left =
      ground (arith, lookup-insert device d tt e.registry.silent_critical, eq_iff device d);
  severity_left = ground arith;
}

evict_nodes-Left :
    (now ttl : ℕ) (d : String) (nodes : Map String NodeHeartbeat) (e : Eviction)
    → Distinct nodes
    → Left now ttl d (lookup d nodes) e.registry (evict_nodes now ttl nodes e).registry
unfolding evict_nodes lookup
evict_nodes-Left now ttl d [] e distinct = record {
  node_left = refl;
  track_left = refl;
  silent_left = ground arith;
  severity_left = refl;
}
evict_nodes-Left now ttl d ((device, hb) ∷ nodes) e distinct =
    let first = evict_node-Left now ttl device d hb e in
    let rest = evict_nodes-Left now ttl d nodes (evict_node now ttl device hb e) distinct.1 in
    record {
      node_left = ground (arith, first.node_left, rest.node_left, eq_iff device d);
      track_left = ground (arith, first.track_left, rest.track_left, eq_iff device d);
      silent_left = ground (arith, first.silent_left, rest.silent_left, eq_iff device d);
      severity_left = rest.severity_left ∙ first.severity_left;
    }

-- An eviction decides each device on its own node: it takes out the node and the evidence track of
-- a device that is silent for longer than the bound and not critical, by its heartbeat or its
-- health export, and those only; it marks the devices it finds silent and critical; and it leaves
-- every severity that was read. The nodes hold each device once; the map's order has no effect.
pub evict_stale-Left :
    (now ttl : ℕ) (device : String) (r : Registry)
    → Distinct r.nodes
    → Left now ttl device
        (lookup device r.nodes)
        r
        (evict_stale_retaining_critical now ttl r).registry
unfolding evict_stale_retaining_critical
evict_stale-Left now ttl device r distinct = evict_nodes-Left now ttl device r.nodes _ distinct

evict_node-Distinct :
    (now ttl : ℕ) (device : String) (hb : NodeHeartbeat) (e : Eviction)
    → Distinct e.registry.nodes
    → Distinct (evict_node now ttl device hb e).registry.nodes
unfolding evict_node
evict_node-Distinct now ttl device hb e distinct =
    ground (arith, erase-Distinct device e.registry.nodes)

pub evict_nodes-Distinct :
    (now ttl : ℕ) (nodes : Map String NodeHeartbeat) (e : Eviction)
    → Distinct e.registry.nodes
    → Distinct (evict_nodes now ttl nodes e).registry.nodes
unfolding evict_nodes
evict_nodes-Distinct now ttl [] e distinct = distinct
evict_nodes-Distinct now ttl ((device, hb) ∷ nodes) e distinct =
    evict_nodes-Distinct now ttl nodes (evict_node now ttl device hb e)
      (evict_node-Distinct now ttl device hb e distinct)
