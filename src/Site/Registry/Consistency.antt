-- ===== src/Site/Registry/Consistency.antt =====
-- The registry's operations as events, and the tie between a node and its device's severity
-- (internal/site/site.go).
use ori_gateway.Base.{
  ℕ, String, ◌≡◌, refl, sym, ap, subst, ◌∙◌, ◌≢◌, inl, inr, none, some, List, [], ◌∷◌, arith,
  eq_iff, if-both, Bool-cases, Option-cases, All, ◌==◌, nat_eq, string_eq,
}
use ori_gateway.Base.Maps.{Map, lookup, insert, erase, Distinct, lookup-insert, insert-Distinct}
use ori_gateway.Site.Registry.{
  SiteNodePosture, NodeHeartbeat, Registry, evict_stale_retaining_critical, upsert, upsert_posture,
  severity_of, read_severity,
}
use ori_gateway.Site.Registry.Retention.{evict_stale-Left, evict_nodes-Distinct}

pub data Event : Type 0 where
  heartbeat : (wall mono : ℕ) (hb : NodeHeartbeat) → Event
  posture : (device : String) (p : SiteNodePosture) → Event
  eviction : (now ttl : ℕ) → Event

unfoldable pub apply : Event → Registry → Registry
apply (heartbeat wall mono hb) r = upsert wall mono hb r
apply (posture device p) r = upsert_posture device p r
apply (eviction now ttl) r = (evict_stale_retaining_critical now ttl r).registry

unfoldable pub apply_all : List Event → Registry → Registry
apply_all [] r = r
apply_all (e ∷ es) r = apply_all es (apply e r)

abbrev pub Filed : Map String String → Map String NodeHeartbeat → Type 0
Filed severities m =
    (d : String) (hb : NodeHeartbeat)
    → lookup d m ≡ some hb
    → (hb.device_id ≡ d) × (hb.export_severity ≡ severity_of d severities)

-- Only a reading is recorded, never an empty severity.
abbrev pub NonEmpty : Map String String → Type 0
NonEmpty = All (λ entry. entry.1 ≢ "")

erase-NonEmpty : (k : String) (m : Map String String) → NonEmpty m → NonEmpty (erase k m)
unfolding erase
erase-NonEmpty k [] read = tt
erase-NonEmpty k ((j, v) ∷ m) read =
    if-both NonEmpty (j == k) _ _ (λ _. erase-NonEmpty k m read.1)
      (λ _. (read.0, erase-NonEmpty k m read.1))

read_severity-NonEmpty :
    (device severity : String) (m : Map String String)
    → NonEmpty m
    → NonEmpty (read_severity device severity m)
unfolding read_severity insert
read_severity-NonEmpty device severity m read =
    if-both NonEmpty (severity == "") _ _ (λ _. read)
      (λ some_severity. ((λ e. ground (arith, eq_iff severity "")), erase-NonEmpty device m read))

pub record Consistent (r : Registry) : Type 0 where
  pub distinct : Distinct r.nodes
  pub filed : Filed r.export_severity r.nodes
  pub read : NonEmpty r.export_severity

insert-Filed :
    (severities : Map String String) (k : String) (h : NodeHeartbeat) (m : Map String NodeHeartbeat)
    → h.device_id ≡ k
    → h.export_severity ≡ severity_of k severities
    → ((d : String) (hb : NodeHeartbeat)
        → k ≢ d
        → lookup d m ≡ some hb
        → (hb.device_id ≡ d) × (hb.export_severity ≡ severity_of d severities))
    → Filed severities (insert k h m)
insert-Filed severities k h m named read filed d hb found = elim (Bool-cases (k == d)) [
  | inl same ↦
      let k_is : k ≡ d = (eq_iff k d).0 same in
      let is : hb ≡ h = ground (arith, lookup-insert k d h m) in
      (
        ground arith,
        ap (λ (x : NodeHeartbeat). x.export_severity) is
            ∙ (read ∙ ap (λ x. severity_of x severities) k_is),
      )
  | inr other ↦ filed d hb (ground (arith, eq_iff k d)) (ground (arith, lookup-insert k d h m))
]

upsert-Consistent :
    (wall mono : ℕ) (hb : NodeHeartbeat) (r : Registry)
    → Consistent r
    → Consistent (upsert wall mono hb r)
unfolding upsert
upsert-Consistent wall mono hb r c = record {
  distinct = insert-Distinct hb.device_id _ r.nodes c.distinct;
  filed =
      insert-Filed r.export_severity hb.device_id _ r.nodes refl refl
        (λ d h other found. c.filed d h found);
  read = c.read;
}

read_severity-other :
    (device d severity : String) (m : Map String String)
    → device ≢ d
    → severity_of d (read_severity device severity m) ≡ severity_of d m
unfolding read_severity severity_of
read_severity-other device d severity m other =
    ground (arith, lookup-insert device d severity m, eq_iff device d)

-- No node stands under a device, so what is read of it changes no node.
unobserved-Filed :
    (device severity : String) (m : Map String String) (nodes : Map String NodeHeartbeat)
    → lookup device nodes ≡ none
    → Filed m nodes
    → Filed (read_severity device severity m) nodes
unobserved-Filed device severity m nodes absent filed d hb found =
    let other : device ≢ d = λ e. ground arith in
    (
      (filed d hb found).0,
      (filed d hb found).1 ∙ sym (read_severity-other device d severity m other),
    )

upsert_posture-Consistent :
    (device : String) (p : SiteNodePosture) (r : Registry)
    → Consistent r
    → Consistent (upsert_posture device p r)
unfolding upsert_posture
upsert_posture-Consistent device p r c = elim (Option-cases (lookup device r.nodes)) [
  | inl absent ↦
      rw (absent, upsert_posture)
        (record {
          distinct = c.distinct;
          filed =
              unobserved-Filed device p.export_severity r.export_severity r.nodes absent c.filed;
          read = read_severity-NonEmpty device p.export_severity r.export_severity c.read;
        })
  | inr (hb, found) ↦
      rw (found, upsert_posture)
        (record {
          distinct = insert-Distinct device _ r.nodes c.distinct;
          filed =
              insert-Filed (read_severity device p.export_severity r.export_severity) device _
                r.nodes (c.filed device hb found).0 refl
                (λ d h other was. (
                  (c.filed d h was).0,
                  (c.filed d h was).1
                      ∙ sym
                          (read_severity-other device d p.export_severity r.export_severity other),
                ));
          read = read_severity-NonEmpty device p.export_severity r.export_severity c.read;
        })
]

eviction-Consistent :
    (now ttl : ℕ) (r : Registry)
    → Consistent r
    → Consistent (evict_stale_retaining_critical now ttl r).registry
unfolding evict_stale_retaining_critical
eviction-Consistent now ttl r c = record {
  distinct = evict_nodes-Distinct now ttl r.nodes _ c.distinct;
  filed = λ d hb found.
      let left = evict_stale-Left now ttl d r c.distinct in
      let was : lookup d r.nodes ≡ some hb = ground (arith, left.node_left) in
      ((c.filed d hb was).0, (c.filed d hb was).1 ∙ sym (ap (severity_of d) left.severity_left));
  read = subst NonEmpty (sym (evict_stale-Left now ttl "" r c.distinct).severity_left) c.read;
}

pub apply-Consistent : (e : Event) (r : Registry) → Consistent r → Consistent (apply e r)
unfolding apply
apply-Consistent (heartbeat wall mono hb) r c = upsert-Consistent wall mono hb r c
apply-Consistent (posture device p) r c = upsert_posture-Consistent device p r c
apply-Consistent (eviction now ttl) r c = eviction-Consistent now ttl r c

pub apply_all-Consistent :
    (es : List Event) (r : Registry) → Consistent r → Consistent (apply_all es r)
unfolding apply_all
apply_all-Consistent [] r c = c
apply_all-Consistent (e ∷ es) r c = apply_all-Consistent es (apply e r) (apply-Consistent e r c)
