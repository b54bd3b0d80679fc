-- ===== src/Base/Sort.antt =====
-- `sort.Slice` as insertion sort: the order of a list under a strict test `less`. The program sorts
-- by tests under which no two of its elements tie, so the stability of the sort does not show.
use Prim.Native.String.{compare}
use text.Mathlib.Text.{is_lt}
use ori_gateway.Base.{
  String, ◌≡◌, refl, Bool, false, List, [], ◌∷◌, if◌then◌else◌, nat_eq, string_eq,
}

module _ {ℓ} {A : Type ℓ} where
  unfoldable pub insert_by : (A → A → Bool) → A → List A → List A
  insert_by less a [] = a ∷ []
  insert_by less a (x ∷ xs) = if less x a then x ∷ insert_by less a xs else a ∷ x ∷ xs

  unfoldable pub sort_by : (A → A → Bool) → List A → List A
  unfolding insert_by
  sort_by less [] = []
  sort_by less (x ∷ xs) = insert_by less x (sort_by less xs)

  -- No later element precedes the first.
  abbrev pub Precedes : (A → A → Bool) → A → List A → Type 0
  Precedes less x [] = Unit {0}
  Precedes less x (y ∷ ys) = less y x ≡ false

  -- Each element comes before the next.
  abbrev pub Ordered : (A → A → Bool) → List A → Type 0
  Ordered less [] = Unit {0}
  Ordered less (x ∷ xs) = Precedes less x xs × Ordered less xs

  pub sort_by-Ordered : (less : A → A → Bool) (xs : List A) → Ordered less xs → sort_by less xs ≡ xs
  unfolding sort_by insert_by
  sort_by-Ordered less [] o = refl
  sort_by-Ordered less (x ∷ []) o = refl
  sort_by-Ordered less (x ∷ y ∷ ys) o = rw (sort_by-Ordered less (y ∷ ys) o.1, o.0, insert_by) refl

-- `<` on texts, by the bytes of their UTF-8.
abbrev pub str_ltb : String → String → Bool
str_ltb a b = is_lt (compare a b)
