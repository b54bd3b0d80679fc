-- ===== src/Site/Registry.antt =====
-- The registry of node heartbeats (internal/site/site.go). Times of the monotonic clock and of the
-- wall clock are numbers that an operation is given. The posture members that are only carried,
-- and the copies that `Snapshot` makes of shared slices, are left out: a value here is never shared.
pub mod Retention
pub mod Consistency
pub mod Severity
use ori_gateway.Base.{
  ℕ, zero, suc, ◌+◌, ◌-◌, ◌*◌, ◌/◌, ◌%◌, ◌^◌, ◌≤◌, ◌<◌, min, max, String, ◌≡◌, refl, sym, ap, subst,
  ◌∙◌, ◌≢◌, ◌↔◌, ◌⊎◌, inl, inr, Bool, true, false, not, ◌&&◌, ◌||◌, Option, none, some, List, [],
  ◌∷◌, ◌++◌, map, arith, eq_iff, ltb, leb, nat_beq, if-both, if◌then◌else◌, ltb→lt, lt→ltb, leb→le,
  Bool-cases, Option-cases, is_some, length, length-append, drop, any, all, All, Eq, ◌==◌, nat_eq,
  string_eq,
}
use ori_gateway.Base.Maps.{Map, lookup, insert, erase, has}
use ori_gateway.Site.Evidence.{NodeEvidence, EvidenceTrack, new_track, observe, observe_missing}

abbrev pub node_status_healthy : String
node_status_healthy = "healthy"

abbrev pub node_status_degraded : String
node_status_degraded = "degraded"

abbrev pub node_status_critical : String
node_status_critical = "critical"

abbrev pub export_severity_critical : String
export_severity_critical = "critical"

pub record SiteNodePosture : Type 0 where
  pub export_severity : String

pub record NodeHeartbeat : Type 0 where
  pub device_id : String
  pub status : String
  pub last_seen_ms : ℕ
  pub gateway_seen : ℕ
  pub active_triggers : List String
  pub degradation_reasons : Option (List String)
  pub posture : Option SiteNodePosture
  pub evidence : Option NodeEvidence
  pub export_severity : String
  pub received_mono : ℕ
  pub advanced_mono : ℕ

pub record Registry : Type 0 where
  pub nodes : Map String NodeHeartbeat
  pub evidence : Map String EvidenceTrack
  pub export_severity : Map String String
  pub silent_critical : Map String (Unit {0})

abbrev pub new_registry : Registry
new_registry = record { nodes = []; evidence = []; export_severity = []; silent_critical = [] }

-- A missing key of a map of strings reads as the empty string.
unfoldable pub severity_of : String → Map String String → String
severity_of device m = elim (lookup device m) [ none ↦ "" | some s ↦ s ]

unfoldable pub advanced : ℕ → NodeHeartbeat → Option NodeHeartbeat → ℕ
advanced mono hb none = mono
advanced mono hb (some previous) =
    if leb hb.last_seen_ms previous.last_seen_ms then previous.advanced_mono else mono

unfoldable pub track_of : Option EvidenceTrack → EvidenceTrack
track_of none = new_track
track_of (some t) = t

-- The evidence of an accepted heartbeat, and the device's track after it.
unfoldable pub enrich :
    Option NodeEvidence → Option EvidenceTrack → Option EvidenceTrack × Option NodeEvidence
unfolding track_of
enrich (some reported) track =
    let (t, shown) = observe reported (track_of track) in (some t, some shown)
enrich none none = (none, none)
enrich none (some t) = (some t, some (observe_missing t))

abbrev pub put_track :
    String → Option EvidenceTrack → Map String EvidenceTrack → Map String EvidenceTrack
put_track device none m = m
put_track device (some t) m = insert device t m

unfoldable pub upsert : ℕ → ℕ → NodeHeartbeat → Registry → Registry
upsert wall mono hb r =
    let (track, shown) = enrich hb.evidence (lookup hb.device_id r.evidence) in
    record r {
      nodes =
          insert hb.device_id
            (record hb {
              gateway_seen = wall;
              received_mono = mono;
              advanced_mono = advanced mono hb (lookup hb.device_id r.nodes);
              evidence = shown;
              export_severity = severity_of hb.device_id r.export_severity;
            })
            r.nodes;
      evidence = put_track hb.device_id track r.evidence;
      silent_critical = erase hb.device_id r.silent_critical;
    }

unfoldable pub read_severity : String → String → Map String String → Map String String
read_severity device severity m = if severity == "" then m else insert device severity m

unfoldable pub upsert_posture : String → SiteNodePosture → Registry → Registry
upsert_posture device posture r =
    let severities : Map String String =
      read_severity device posture.export_severity r.export_severity in
    elim (lookup device r.nodes) [
      | none ↦ record r { export_severity = severities }
      | some hb ↦ record r {
        export_severity = severities;
        nodes =
            insert device
              (record hb {
                export_severity = severity_of device severities;
                posture = some posture;
              })
              r.nodes;
      }
    ]

unfoldable pub receipt_stale : NodeHeartbeat → ℕ → ℕ → Bool
receipt_stale hb now ttl = ltb (hb.received_mono + ttl) now

unfoldable pub report_stale : NodeHeartbeat → ℕ → ℕ → Bool
report_stale hb now ttl = ltb (hb.advanced_mono + ttl) now

unfoldable pub is_critical : NodeHeartbeat → Bool
is_critical hb =
    (hb.status == node_status_critical) || (hb.export_severity == export_severity_critical)

pub record Eviction : Type 0 where
  pub registry : Registry
  pub evicted : List NodeHeartbeat
  pub retained : List NodeHeartbeat

-- The body of the loop, for one node.
unfoldable pub evict_node : ℕ → ℕ → String → NodeHeartbeat → Eviction → Eviction
evict_node now ttl device hb e =
    if is_critical hb
    then (if receipt_stale hb now ttl && not (has device e.registry.silent_critical)
        then record e {
          registry = record (e.registry) {
            silent_critical = insert device tt e.registry.silent_critical;
          };
          retained = e.retained ++ (hb ∷ []);
        }
        else e)
    else if receipt_stale hb now ttl
    then record e {
      registry = record (e.registry) {
        nodes = erase device e.registry.nodes;
        evidence = erase device e.registry.evidence;
      };
      evicted = e.evicted ++ (hb ∷ []);
    }
    else e

-- The loop over the nodes, in whatever order the map gives them.
unfoldable pub evict_nodes : ℕ → ℕ → Map String NodeHeartbeat → Eviction → Eviction
evict_nodes now ttl [] e = e
evict_nodes now ttl ((device, hb) ∷ nodes) e =
    evict_nodes now ttl nodes (evict_node now ttl device hb e)

unfoldable pub evict_stale_retaining_critical : ℕ → ℕ → Registry → Eviction
evict_stale_retaining_critical now ttl r =
    evict_nodes now ttl r.nodes (record { registry = r; evicted = []; retained = [] })

unfoldable pub evict_stale : ℕ → ℕ → Registry → Registry × List NodeHeartbeat
evict_stale now ttl r =
    let e : Eviction = evict_stale_retaining_critical now ttl r in (e.registry, e.evicted)

unfoldable pub snapshot : Registry → List NodeHeartbeat
snapshot r = map (λ entry. entry.1) r.nodes

-- Only a reading is copied, never an empty severity.
unfoldable pub copied_severity : Map String String → Map String String
copied_severity [] = []
copied_severity ((device, severity) ∷ m) =
    let rest : Map String String = copied_severity m in
    if severity == "" then rest else (device, severity) ∷ rest

unfoldable pub snapshot_with_export_severity : Registry → List NodeHeartbeat × Map String String
snapshot_with_export_severity r = (snapshot r, copied_severity r.export_severity)
