-- ===== src/Site/Degradation/Accepted.antt =====
-- Which reasons are accepted (internal/site/degradation.go, steps 2 to 11).
use ori_gateway.Base.{
  ℕ, suc, ◌≤◌, String, ◌≡◌, refl, sym, ap, subst, ◌∙◌, ◌≢◌, ◌↔◌, ◌⊎◌, inl, inr, true, false, ◌||◌,
  Option, none, some, List, [], ◌∷◌, map, arith, eq_iff, Bool-cases, Option-cases, length, any, All,
  ◌==◌, nat_eq, string_eq,
}
use ori_gateway.Base.Sort.{str_ltb}
use ori_gateway.Site.Registry.{node_status_degraded, node_status_critical}
use ori_gateway.Site.Health.{status_severity}
use ori_gateway.Site.Degradation.{
  max_degradation_reasons, health_snapshot_invalid, reason_severity, Decoded, text, null_value,
  not_text, RawReasons, raw_null, not_array, array, admitted, read_tokens, repeats, out_of_order,
  some_unknown, not_alone, severity_or_zero, understates, check_tokens,
  validate_degradation_reasons,
}

-- The contract's conditions on a list of reasons.
abbrev pub Absent : String → List String → Type 0
Absent t [] = Unit {0}
Absent t (u ∷ us) = (t ≢ u) × Absent t us

abbrev pub Unique : List String → Type 0
Unique [] = Unit {0}
Unique (t ∷ ts) = Absent t ts × Unique ts

abbrev pub InOrder : List String → Type 0
InOrder [] = Unit {0}
InOrder (t ∷ []) = Unit
InOrder (t ∷ u ∷ ts) = (str_ltb u t ≡ false) × InOrder (u ∷ ts)

-- A token of the vocabulary, no more severe than the status.
abbrev pub Covered : String → String → Type 0
Covered status t =
    (n : ℕ) × (m : ℕ) × (reason_severity t ≡ some n) × (status_severity status ≡ some m) × (n ≤ m)

-- The tokens are all of the list before, and none of them is among the seen.
AllAbsent : List String → List String → Type 0
AllAbsent [] ts = Unit
AllAbsent (s ∷ seen) ts = Absent s ts × AllAbsent seen ts

seen-absent :
    (t : String) (ts seen : List String)
    → AllAbsent seen (t ∷ ts)
    → (any (λ s. s == t) seen ≡ false) × AllAbsent seen ts
unfolding AllAbsent
seen-absent t ts [] a = (refl, tt)
seen-absent t ts (s ∷ seen) a =
    (ground (arith, eq_iff s t, seen-absent t ts seen), (a.0.1, (seen-absent t ts seen a.1).1))

absent-seen :
    (t : String) (ts seen : List String)
    → any (λ s. s == t) seen ≡ false
    → AllAbsent seen ts
    → AllAbsent seen (t ∷ ts)
unfolding AllAbsent
absent-seen t ts [] none_seen a = tt
absent-seen t ts (s ∷ seen) none_seen a =
    (((λ e. ground (arith, eq_iff s t)), a.0), absent-seen t ts seen (ground arith) a.1)

repeats-Unique : (seen ts : List String) → repeats seen ts ≡ false → AllAbsent seen ts × Unique ts
unfolding repeats AllAbsent
repeats-Unique seen [] once = (nothing seen, tt)
  where
    nothing : (s : List String) → AllAbsent s []
    nothing [] = tt
    nothing (x ∷ s) = (tt, nothing s)
repeats-Unique seen (t ∷ ts) once =
    let ((t_absent, rest), unique) = repeats-Unique (t ∷ seen) ts (ground arith) in
    (absent-seen t ts seen (ground arith) rest, (t_absent, unique))

Unique-repeats : (seen ts : List String) → AllAbsent seen ts → Unique ts → repeats seen ts ≡ false
unfolding repeats AllAbsent
Unique-repeats seen [] a u = refl
Unique-repeats seen (t ∷ ts) a u =
    let (unseen, rest) = seen-absent t ts seen a in
    ground (arith, Unique-repeats (t ∷ seen) ts (u.0, rest) u.1)

out_of_order_iff : (ts : List String) → (out_of_order ts ≡ false) ↔ InOrder ts
unfolding out_of_order
out_of_order_iff [] = ground arith
out_of_order_iff (t ∷ []) = ground arith
out_of_order_iff (t ∷ u ∷ ts) = ground (arith, out_of_order_iff (u ∷ ts))

known-Covered :
    (status : String) (m : ℕ) (ts : List String)
    → status_severity status ≡ some m
    → some_unknown ts ≡ false
    → understates status ts ≡ false
    → All (Covered status) ts
unfolding some_unknown understates severity_or_zero
known-Covered status m [] is known stated = tt
known-Covered status m (t ∷ ts) is known stated = elim (Option-cases (reason_severity t)) [
  | inl unknown ↦ ground arith
  | inr (n, found) ↦
      ((n, m, found, is, ground arith), known-Covered status m ts is (ground arith) (ground arith))
]

Covered-known :
    (status : String) (ts : List String)
    → All (Covered status) ts
    → (some_unknown ts ≡ false) × (understates status ts ≡ false)
unfolding some_unknown understates severity_or_zero
Covered-known status [] covered = (refl, refl)
Covered-known status (t ∷ ts) ((n, m, found, is, le), rest) =
    ground (arith, Covered-known status ts rest)

read_tokens-text : (ts : List String) → read_tokens (map text ts) ≡ some ts
unfolding read_tokens
read_tokens-text [] = refl
read_tokens-text (t ∷ ts) = ground (arith, read_tokens-text ts)

text-read_tokens :
    (es : List Decoded) (ts : List String) → read_tokens es ≡ some ts → es ≡ map text ts
unfolding read_tokens
text-read_tokens [] ts is = ground arith
text-read_tokens (null_value ∷ es) ts is = ground arith
text-read_tokens (not_text ∷ es) ts is = ground arith
text-read_tokens (text s ∷ es) ts is = elim (Option-cases (read_tokens es)) [
  | inl e ↦ ground arith
  | inr (rest, e) ↦
      let tail = text-read_tokens es rest e in
      let whole : ts ≡ s ∷ rest = ground arith in rw whole (ap (λ l. text s ∷ l) tail)
]

length-text : (ts : List String) → length (map text ts) ≡ length ts
length-text [] = refl
length-text (t ∷ ts) = ap suc (length-text ts)

-- The conditions of the contract on a list of reasons under a status.
pub record Valid (status : String) (tokens : List String) : Type 0 where
  pub bounded : (1 ≤ length tokens) × (length tokens ≤ max_degradation_reasons)
  pub unique : Unique tokens
  pub ordered : InOrder tokens
  pub alone :
      any (λ t. t == health_snapshot_invalid) tokens ≡ true
      → (length tokens ≡ 1) × (status ≡ node_status_critical)
  pub degraded : (status ≡ node_status_degraded) ⊎ (status ≡ node_status_critical)
  pub covered : All (Covered status) tokens

not_alone_iff :
    (status : String) (ts : List String)
    → (not_alone status ts ≡ false) ↔ (
        any (λ t. t == health_snapshot_invalid) ts ≡ true
        → (length ts ≡ 1) × (status ≡ node_status_critical))
unfolding not_alone
not_alone_iff status ts = (
  λ passes present. ground (arith, eq_iff status node_status_critical),
  λ alone. elim (Bool-cases (any (λ t. t == health_snapshot_invalid) ts)) [
    | inl present ↦
        (let (one, is) = alone present in ground (arith, eq_iff status node_status_critical))
    | inr absent ↦ ground arith
  ],
)

status-known :
    (status : String)
    → (status ≡ node_status_degraded) ⊎ (status ≡ node_status_critical)
    → (m : ℕ) × (status_severity status ≡ some m)
unfolding status_severity
status-known status (inl is) = (1, ap (λ (s : String). status_severity s) is)
status-known status (inr is) = (2, ap (λ (s : String). status_severity s) is)

check_tokens-passes :
    (status : String) (ts : List String) (o : Option (List String))
    → check_tokens status ts ≡ admitted o
    → (o ≡ some ts)
      × (repeats [] ts ≡ false)
      × (out_of_order ts ≡ false)
      × (some_unknown ts ≡ false)
      × (not_alone status ts ≡ false)
      × ((status == node_status_degraded) || (status == node_status_critical) ≡ true)
      × (understates status ts ≡ false)
unfolding check_tokens
check_tokens-passes status ts o is = ground arith

check_tokens-Valid :
    (status : String) (ts : List String)
    → 1 ≤ length ts
    → length ts ≤ max_degradation_reasons
    → check_tokens status ts ≡ admitted (some ts)
    → Valid status ts
check_tokens-Valid status ts low high is =
    let (same, once, sorted, known, alone, raised, stated) =
      check_tokens-passes status ts (some ts) is in
    let degraded : (status ≡ node_status_degraded) ⊎ (status ≡ node_status_critical) =
      ground (arith, eq_iff status node_status_degraded, eq_iff status node_status_critical) in
    let (m, severity) = status-known status degraded in
    record {
      bounded = (low, high);
      unique = (repeats-Unique [] ts once).1;
      ordered = (out_of_order_iff ts).0 sorted;
      alone = (not_alone_iff status ts).0 alone;
      degraded = degraded;
      covered = known-Covered status m ts severity known stated;
    }

Valid-check_tokens :
    (status : String) (ts : List String)
    → Valid status ts
    → check_tokens status ts ≡ admitted (some ts)
unfolding check_tokens AllAbsent
Valid-check_tokens status ts v =
    let once = Unique-repeats [] ts tt v.unique in
    let sorted = (out_of_order_iff ts).1 v.ordered in
    let alone = (not_alone_iff status ts).1 v.alone in
    let (known, stated) = Covered-known status ts v.covered in
    let raised : (status == node_status_degraded) || (status == node_status_critical) ≡ true =
      ground (
        arith,
        v.degraded,
        eq_iff status node_status_degraded,
        eq_iff status node_status_critical,
      ) in
    ground arith

array-Valid :
    (es : List Decoded) (status : String) (ts : List String)
    → (validate_degradation_reasons (some (array es)) status ≡ admitted (some ts))
      ↔ ((es ≡ map text ts) × Valid status ts)
unfolding validate_degradation_reasons
array-Valid es status ts = (accepted, λ v. back v.0 v.1)
  where
    accepted :
        validate_degradation_reasons (some (array es)) status ≡ admitted (some ts)
        → (es ≡ map text ts) × Valid status ts
    accepted is = elim (Option-cases (read_tokens es)) [
      | inl e ↦ ground arith
      | inr (rest, e) ↦
          let passes : check_tokens status rest ≡ admitted (some ts) = ground arith in
          let same : ts ≡ rest =
            ground (arith, (check_tokens-passes status rest (some ts) passes).0) in
          let es_is = text-read_tokens es ts (e ∙ ap some (sym same)) in
          let size : length es ≡ length ts = ap length es_is ∙ length-text ts in
          (
            es_is,
            check_tokens-Valid status ts (ground arith) (ground arith)
                (subst (λ l. check_tokens status l ≡ admitted (some ts)) (sym same) passes),
          )
    ]

    back :
        es ≡ map text ts
        → Valid status ts
        → validate_degradation_reasons (some (array es)) status ≡ admitted (some ts)
    back es_is v =
        let size : length es ≡ length ts = ap length es_is ∙ length-text ts in
        let read : read_tokens es ≡ some ts = ap read_tokens es_is ∙ read_tokens-text ts in
        ground (arith, Valid-check_tokens status ts v, v.bounded)

-- An accepted array is never taken for an absent member.
array-present :
    (es : List Decoded) (status : String)
    → validate_degradation_reasons (some (array es)) status ≢ admitted none
unfolding validate_degradation_reasons
array-present es status is = elim (Option-cases (read_tokens es)) [
  | inl e ↦ ground arith
  | inr (ts, e) ↦
      let passes : check_tokens status ts ≡ admitted none = ground arith in
      ground (arith, (check_tokens-passes status ts none passes).0)
]

-- Which value stands for which list of reasons under a status.
abbrev pub Accepts : Option RawReasons → String → Option (List String) → Type 0
Accepts raw status none = raw ≡ none
Accepts raw status (some ts) = (raw ≡ some (array (map text ts))) × Valid status ts

-- Whatever value a heartbeat has for its reasons, it is accepted in two cases only, and always in
-- them: an absent member, accepted as no reasons; and an array of 1 to 32 strings, no two equal, in
-- byte order, each in the vocabulary and no more severe than the status, the fallback token alone on
-- a critical heartbeat, under a degraded or critical status, accepted as those strings. A null, a
-- value that is not an array and an empty array are refused.
pub validate-Valid :
    (raw : Option RawReasons) (status : String) (o : Option (List String))
    → (validate_degradation_reasons raw status ≡ admitted o) ↔ Accepts raw status o
unfolding validate_degradation_reasons
validate-Valid none status none = (λ _. refl, λ _. refl)
validate-Valid none status (some ts) = ((λ is. ground arith), λ a. ground (arith, a.0))
validate-Valid (some raw_null) status none = ((λ is. ground arith), λ a. ground (arith, a))
validate-Valid (some raw_null) status (some ts) = ((λ is. ground arith), λ a. ground (arith, a.0))
validate-Valid (some not_array) status none = ((λ is. ground arith), λ a. ground (arith, a))
validate-Valid (some not_array) status (some ts) = ((λ is. ground arith), λ a. ground (arith, a.0))
validate-Valid (some (array es)) status none =
    ((λ is. absurd (array-present es status is)), λ a. ground (arith, a))
validate-Valid (some (array es)) status (some ts) = (
  (λ is. let (same, v) = (array-Valid es status ts).0 is in (ap (λ l. some (array l)) same, v)),
  λ (same, v). (array-Valid es status ts).1 (array-injective es (map text ts) same, v),
)
  where
    array-injective : (l m : List Decoded) → some (array l) ≡ some (array m) → l ≡ m
    array-injective l m e = ground arith
