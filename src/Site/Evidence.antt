-- ===== src/Site/Evidence.antt =====
-- The memory of a device's chain heads (internal/site/evidence.go). The ring is newest last.
pub mod Rollback
use ori_gateway.Base.{
  ℕ, zero, suc, ◌+◌, ◌-◌, ◌*◌, ◌/◌, ◌%◌, ◌^◌, ◌≤◌, ◌<◌, min, max, String, ◌≡◌, refl, sym, ap, subst,
  ◌∙◌, ◌≢◌, ◌↔◌, ◌⊎◌, inl, inr, Bool, true, false, not, ◌&&◌, ◌||◌, Option, none, some, List, [],
  ◌∷◌, ◌++◌, map, arith, eq_iff, ltb, leb, nat_beq, if-both, if◌then◌else◌, ltb→lt, lt→ltb, leb→le,
  Bool-cases, Option-cases, is_some, length, length-append, drop, any, all, All, Eq, ◌==◌, nat_eq,
  string_eq,
}

pub record NodeEvidence : Type 0 where
  pub chain_head_hash : String
  pub attestation_gap_count : ℕ
  pub available : Bool
  pub action_event_type : String
  pub truncation_suspected : Bool
  pub head_regressed : Bool

abbrev pub evidence_head_history_size : ℕ
evidence_head_history_size = 16

pub record EvidenceTrack : Type 0 where
  pub recent_heads : List String
  pub truncation_suspected : Bool
  pub head_regressed : Bool

abbrev pub new_track : EvidenceTrack
new_track = record { recent_heads = []; truncation_suspected = false; head_regressed = false }

unfoldable pub newest : List String → String
newest [] = ""
newest (h ∷ []) = h
newest (h ∷ g ∷ hs) = newest (g ∷ hs)

unfoldable pub before_newest : List String → List String
before_newest [] = []
before_newest (h ∷ []) = []
before_newest (h ∷ g ∷ hs) = h ∷ before_newest (g ∷ hs)

unfoldable pub current_head : EvidenceTrack → String
unfolding newest
current_head t = newest t.recent_heads

unfoldable pub saw_head_before_current : String → EvidenceTrack → Bool
unfolding before_newest
saw_head_before_current head t = any (λ h. h == head) (before_newest t.recent_heads)

unfoldable pub record_head : String → List String → List String
record_head head heads =
    let longer : List String = heads ++ (head ∷ []) in
    if ltb evidence_head_history_size (length longer)
    then drop (length longer - evidence_head_history_size) longer
    else longer

unfoldable pub observe_missing : EvidenceTrack → NodeEvidence
unfolding current_head
observe_missing t = record {
  chain_head_hash = current_head t;
  attestation_gap_count = 0;
  available = false;
  action_event_type = "";
  truncation_suspected = t.truncation_suspected;
  head_regressed = t.head_regressed;
}

-- The track after a head.
unfoldable pub fold_head : String → EvidenceTrack → EvidenceTrack
fold_head head t =
    if head == ""
    then record t { truncation_suspected = t.truncation_suspected || not (current_head t == "") }
    else if head == current_head t
    then t
    else record t {
      recent_heads = record_head head t.recent_heads;
      head_regressed = t.head_regressed || saw_head_before_current head t;
    }

unfoldable pub observe : NodeEvidence → EvidenceTrack → EvidenceTrack × NodeEvidence
unfolding fold_head
observe reported t =
    let t₁ : EvidenceTrack = fold_head (reported.chain_head_hash) t in
    (
      t₁,
      record reported {
        truncation_suspected = t₁.truncation_suspected;
        head_regressed = t₁.head_regressed;
      },
    )
