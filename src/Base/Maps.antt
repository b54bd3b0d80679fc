-- ===== src/Base/Maps.antt =====
-- Go maps as association lists over keys with decidable equality. A write takes the key's old
-- entry out, so a map made by `insert` and `erase` from the empty one holds each key once.
use ori_gateway.Base.{
  ℕ, ◌+◌, ◌≡◌, refl, ap, Bool, false, List, [], ◌∷◌, Option, none, some, arith, Eq, ◌==◌,
  if◌then◌else◌, is_some, length, suc,
}

abbrev pub Map {ℓ κ} : Type ℓ → Type κ → Type (ℓ ⊔ κ)
Map K V = List (K × V)

module _ {ℓ κ} {K : Type ℓ} {V : Type κ} ⦃e : Eq K⦄ where
  unfoldable pub lookup : K → Map K V → Option V
  lookup k [] = none
  lookup k ((j, v) ∷ m) = if j == k then some v else lookup k m

  unfoldable pub erase : K → Map K V → Map K V
  erase k [] = []
  erase k ((j, v) ∷ m) = if j == k then erase k m else (j, v) ∷ erase k m

  unfoldable pub insert : K → V → Map K V → Map K V
  unfolding erase
  insert k v m = (k, v) ∷ erase k m

  abbrev pub has : K → Map K V → Bool
  has k m = is_some (lookup k m)

  -- Each key stands once.
  abbrev pub Distinct : Map K V → Type 0
  Distinct [] = Unit {0}
  Distinct ((k, v) ∷ m) = (has k m ≡ false) × Distinct m

  pub lookup-erase :
      (k j : K) (m : Map K V) → lookup j (erase k m) ≡ (if k == j then none else lookup j m)
  unfolding lookup erase
  lookup-erase k j [] = ground arith
  lookup-erase k j ((i, w) ∷ m) =
      ground (arith, e.beq_iff k j, e.beq_iff i k, e.beq_iff i j, lookup-erase k j m)

  pub lookup-insert :
      (k j : K) (v : V) (m : Map K V)
      → lookup j (insert k v m) ≡ (if k == j then some v else lookup j m)
  unfolding lookup insert
  lookup-insert k j v m = ground (arith, lookup-erase k j m)

  pub erase_absent : (k : K) (m : Map K V) → lookup k m ≡ none → erase k m ≡ m
  unfolding lookup erase
  erase_absent k [] h = refl
  erase_absent k ((j, v) ∷ m) h = ground (arith, erase_absent k m)

  pub erase-Distinct : (k : K) (m : Map K V) → Distinct m → Distinct (erase k m)
  unfolding lookup erase
  erase-Distinct k [] d = tt
  erase-Distinct k ((j, v) ∷ m) d = ground (arith, erase-Distinct k m d.1, lookup-erase k j m)

  pub insert-Distinct : (k : K) (v : V) (m : Map K V) → Distinct m → Distinct (insert k v m)
  unfolding insert
  insert-Distinct k v m d =
      (ground (arith, lookup-erase k k m, e.beq_iff k k), erase-Distinct k m d)

  -- A sum over the entries.
  unfoldable pub total : (K → V → ℕ) → Map K V → ℕ
  total f [] = 0
  total f ((k, v) ∷ m) = f k v + total f m

  pub total-insert :
      (f : K → V → ℕ) (k : K) (v : V) (m : Map K V)
      → lookup k m ≡ none
      → total f (insert k v m) ≡ f k v + total f m
  unfolding total insert
  total-insert f k v m h = ap (λ n. f k v + total f n) (erase_absent k m h)

  pub total-erase :
      (f : K → V → ℕ) (k : K) (v : V) (m : Map K V)
      → Distinct m
      → lookup k m ≡ some v
      → total f m ≡ f k v + total f (erase k m)
  unfolding total lookup erase
  total-erase f k v [] d h = ground arith
  total-erase f k v ((j, w) ∷ m) d h =
      ground (arith, e.beq_iff j k, total-erase f k v m d.1, erase_absent k m)

  pub length-erase :
      (k : K) (v : V) (m : Map K V)
      → Distinct m
      → lookup k m ≡ some v
      → length m ≡ suc (length (erase k m))
  unfolding lookup erase
  length-erase k v [] d h = ground arith
  length-erase k v ((j, w) ∷ m) d h =
      ground (arith, e.beq_iff j k, length-erase k v m d.1, erase_absent k m)
