-- ===== src/Faults.antt =====
-- The fault recorder shared by the stores and the admission path (internal/evidence/faults/faults.go).
pub mod Latest
use ori_gateway.Base.{
  ℕ, zero, suc, ◌+◌, ◌-◌, ◌*◌, ◌/◌, ◌%◌, ◌^◌, ◌≤◌, ◌<◌, min, max, String, ◌≡◌, refl, sym, ap, subst,
  ◌∙◌, ◌≢◌, ◌↔◌, ◌⊎◌, inl, inr, Bool, true, false, not, ◌&&◌, ◌||◌, Option, none, some, List, [],
  ◌∷◌, ◌++◌, map, arith, eq_iff, ltb, leb, if◌then◌else◌, ltb→lt, lt→ltb, leb→le, Bool-cases,
  Option-cases, is_some, length, length-append, drop, any, all, All, Eq, ◌==◌, nat_eq, string_eq,
}
use ori_gateway.Base.Maps.{Map, lookup, insert, erase}
use ori_gateway.Base.Sort.{sort_by, str_ltb}

abbrev pub store_unavailable : String
store_unavailable = "store_unavailable"

abbrev pub device_unconfigured : String
device_unconfigured = "device_unconfigured"

-- fault ↦ the sources that hold it
abbrev pub Recorder : Type 0
Recorder = Map String (Map String Bool)

abbrev pub sources_of : String → Recorder → Map String Bool
sources_of fault r = elim (lookup fault r) [ none ↦ [] | some sources ↦ sources ]

-- `delete(r.active, fault)` where no source is left; the inner map is shared, so the write of what
-- is left is the deletion from it.
unfoldable pub clear : String → String → Recorder → Recorder
unfolding lookup insert erase
clear fault source r = elim (lookup fault r) [
  | none ↦ r
  | some sources ↦ elim (erase source sources) [ [] ↦ erase fault r | left ↦ insert fault left r ]
]

-- `Note`: `true` is an error, which raises the fault, `false` a nil error, which clears it.
unfoldable pub note : String → String → Bool → Recorder → Recorder
unfolding clear lookup insert erase
note fault source failed r =
    if failed
    then insert fault (insert source true (sources_of fault r)) r
    else clear fault source r

unfoldable pub active : Recorder → List String
unfolding sort_by
active r = sort_by str_ltb (map (λ entry. entry.0) r)
