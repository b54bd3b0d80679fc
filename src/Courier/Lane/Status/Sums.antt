-- ===== src/Courier/Lane/Status/Sums.antt =====
-- Sums over the lanes that `Status` reads (internal/evidence/courier/worker.go).
use native.Mathlib.Nat.{zero-add}
use ori_gateway.Base.{
  ℕ, ◌+◌, ◌≤◌, ◌<◌, ◌≡◌, refl, sym, ap, subst, ◌∙◌, inl, inr, Bool, true, false, ◌&&◌, none, some,
  List, [], ◌∷◌, arith, Bool-cases, Option-cases, is_some, length, All, ◌==◌, nat_eq, string_eq,
}
use ori_gateway.Base.Maps.{Map, lookup, Distinct, has}
use ori_gateway.Base.Sort.{sort_by, insert_by}
use ori_gateway.Courier.Types.{LaneKey, key_eq, key_beq_iff}
use ori_gateway.Courier.Queue.State.{External, count}
use ori_gateway.Courier.Queue.Model.Items.{Item, tally}
use ori_gateway.Courier.Queue.Model.Rep.{item_lane, one_if, lane_count}
use ori_gateway.Courier.Lane.{DeliveryLane}
use ori_gateway.Courier.Lane.Status.{Lanes, entries_of, lane_state, listed, held_all, is_held}

-- Whether the lane of a key is held.
abbrev pub held_in : LaneKey → Lanes → Bool
held_in k lanes = elim (lookup k lanes) [ none ↦ false | some l ↦ is_some l.held ]

-- The artifacts in held lanes, lane by lane.
unfoldable pub held_sum : (LaneKey → ℕ) → Lanes → ℕ
held_sum n [] = 0
held_sum n ((k, l) ∷ rest) = one_if (is_some l.held) (n k) + held_sum n rest

pub tally-both :
    (f g h : Item → ℕ) (xs : List Item)
    → ((x : Item) → f x + g x ≡ h x)
    → tally f xs + tally g xs ≡ tally h xs
unfolding tally
tally-both f g h [] e = refl
tally-both f g h (x ∷ xs) e = omega (arith, e x, tally-both f g h xs e)

tally-zero : (xs : List Item) → tally (λ x. 0) xs ≡ 0
unfolding tally
tally-zero [] = refl
tally-zero (x ∷ xs) = omega (arith, tally-zero xs)

tally-ext : (f g : Item → ℕ) (xs : List Item) → ((x : Item) → f x ≡ g x) → tally f xs ≡ tally g xs
unfolding tally
tally-ext f g [] e = refl
tally-ext f g (x ∷ xs) e = omega (arith, e x, tally-ext f g xs e)

module _ (k : LaneKey) (l : DeliveryLane) (rest : Lanes) (d : has k rest ≡ false) where
  first-held :
      (j : LaneKey)
      → is_some l.held ≡ true
      → one_if (j == k) 1 + one_if (held_in j rest) 1 ≡ one_if (held_in j ((k, l) ∷ rest)) 1
  unfolding lookup
  first-held j is = elim (Bool-cases (j == k)) [
    | inl same ↦
        let e : j ≡ k = (key_beq_iff j k).0 same in
        subst
          (λ i.
            one_if (i == k) 1 + one_if (held_in i rest) 1 ≡ one_if (held_in i ((k, l) ∷ rest)) 1)
          (sym e) (ground (arith, key_beq_iff k k, is))
    | inr other ↦ ground (arith, key_beq_iff j k, key_beq_iff k j)
  ]

  first-free :
      (j : LaneKey)
      → is_some l.held ≡ false
      → one_if (held_in j rest) 1 ≡ one_if (held_in j ((k, l) ∷ rest)) 1
  unfolding lookup
  first-free j is = elim (Bool-cases (k == j)) [
    | inl same ↦
        let e : k ≡ j = (key_beq_iff k j).0 same in
        subst (λ i. one_if (held_in i rest) 1 ≡ one_if (held_in i ((k, l) ∷ rest)) 1) e
          (ground (arith, key_beq_iff k k, is))
    | inr other ↦ ground (arith, other)
  ]

-- Lane by lane or item by item, the artifacts in held lanes are as many.
pub held_sum-tally :
    (ext : External) (xs : List Item) (lanes : Lanes)
    → Distinct lanes
    → held_sum (lane_count ext xs) lanes
      ≡ tally (λ x. one_if (held_in (item_lane ext x) lanes) 1) xs
unfolding held_sum lookup
held_sum-tally ext xs [] d = sym (tally-zero xs)
held_sum-tally ext xs ((k, l) ∷ rest) d = elim (Bool-cases (is_some l.held)) [
  | inl is ↦ rw is (
      ap (λ n. lane_count ext xs k + n) (held_sum-tally ext xs rest d.1)
      ∙ tally-both _ _ _ xs (λ x. first-held k l rest d.0 (item_lane ext x) is))
  | inr free ↦
      rw (free, zero-add)
        (held_sum-tally ext xs rest d.1
          ∙ tally-ext _ _ xs (λ x. first-free k l rest d.0 (item_lane ext x) free))
]

-- A sum of marks is the length exactly when all are marked.
marked-le : (p : Item → Bool) (xs : List Item) → tally (λ x. one_if (p x) 1) xs ≤ length xs
unfolding tally
marked-le p [] = omega arith
marked-le p (x ∷ xs) = ground (arith, marked-le p xs)

pub marked-All :
    (p : Item → Bool) (xs : List Item)
    → tally (λ x. one_if (p x) 1) xs ≡ length xs
    → All (λ x. p x ≡ true) xs
unfolding tally
marked-All p [] e = tt
marked-All p (x ∷ xs) e =
    (ground (arith, marked-le p xs), marked-All p xs (ground (arith, marked-le p xs)))

pub All-marked :
    (p : Item → Bool) (xs : List Item)
    → All (λ x. p x ≡ true) xs
    → tally (λ x. one_if (p x) 1) xs ≡ length xs
unfolding tally
All-marked p [] a = refl
All-marked p (x ∷ xs) a = ground (arith, a.0, All-marked p xs a.1)

-- What one lane adds to the entries, and whether it is clean or held.
abbrev pub share_of : ℕ → DeliveryLane → ℕ
share_of n l = one_if (is_some (lane_state n l)) n

abbrev pub calm_of : ℕ → DeliveryLane → Bool
calm_of n l = elim (lane_state n l) [ none ↦ true | some s ↦ is_held s ]

abbrev pub share : Map LaneKey ℕ → LaneKey × DeliveryLane → ℕ
share counts e = share_of (count e.0 counts) e.1

abbrev pub calm : Map LaneKey ℕ → LaneKey × DeliveryLane → Bool
calm counts e = calm_of (count e.0 counts) e.1

pub calm-share :
    (n : ℕ) (l : DeliveryLane) → calm_of n l ≡ true → share_of n l ≡ one_if (is_some l.held) n
unfolding lane_state
calm-share n l c = elim (Option-cases l.held) [
  | inl free ↦ ground (arith, free)
  | inr (h, is) ↦ ground (arith, is)
]

pub held-calm : (n : ℕ) (l : DeliveryLane) → (0 < n → is_some l.held ≡ true) → calm_of n l ≡ true
unfolding lane_state
held-calm n l h = elim (Bool-cases (n == 0)) [
  | inl zero_ ↦ ground (arith, zero_)
  | inr some_ ↦
      let held : is_some l.held ≡ true = h (ground arith) in
      elim (Option-cases l.held) [
        | inl free ↦ ground (arith, free)
        | inr (h, is) ↦ ground (arith, is, some_)
      ]
]

module _ (counts : Map LaneKey ℕ) where
  pub listed-cons :
      (e : LaneKey × DeliveryLane) (lanes : Lanes)
      → listed (entries_of counts (e ∷ lanes)) ≡ share counts e + listed (entries_of counts lanes)
  unfolding entries_of listed
  listed-cons (k, l) lanes = elim (Option-cases (lane_state (count k counts) l)) [
    | inl clean ↦ rw (clean, entries_of) (omega arith)
    | inr (s, is) ↦ rw (is, entries_of) refl
  ]

  pub held_all-cons :
      (e : LaneKey × DeliveryLane) (lanes : Lanes)
      → held_all (entries_of counts (e ∷ lanes))
        ≡ (calm counts e && held_all (entries_of counts lanes))
  unfolding entries_of held_all
  held_all-cons (k, l) lanes = elim (Option-cases (lane_state (count k counts) l)) [
    | inl clean ↦ ground (arith, clean)
    | inr (s, is) ↦ ground (arith, is)
  ]

  module _ (less : LaneKey × DeliveryLane → LaneKey × DeliveryLane → Bool) where
    -- Sorting changes neither what the entries sum to nor whether all of them are held.
    listed-insert :
        (e : LaneKey × DeliveryLane) (lanes : Lanes)
        → (listed (entries_of counts (insert_by less e lanes))
            ≡ listed (entries_of counts (e ∷ lanes)))
          × (held_all (entries_of counts (insert_by less e lanes))
              ≡ held_all (entries_of counts (e ∷ lanes)))
    unfolding insert_by
    listed-insert e [] = (refl, refl)
    listed-insert e (x ∷ rest) = elim (Bool-cases (less x e)) [
      | inr here ↦ rw here (refl, refl)
      | inl later ↦ rw later (
        listed-cons x (insert_by less e rest)
            ∙ omega (
              arith,
              (listed-insert e rest).0,
              listed-cons e rest,
              listed-cons x rest,
              listed-cons e (x ∷ rest),
            ),
        ground (
          arith,
          held_all-cons x (insert_by less e rest),
          (listed-insert e rest).1,
          held_all-cons e rest,
          held_all-cons x rest,
          held_all-cons e (x ∷ rest),
        ),
      )
    ]

    pub listed-sort :
        (lanes : Lanes)
        → (listed (entries_of counts (sort_by less lanes)) ≡ listed (entries_of counts lanes))
          × (held_all (entries_of counts (sort_by less lanes)) ≡ held_all (entries_of counts lanes))
    unfolding sort_by
    listed-sort [] = (refl, refl)
    listed-sort (x ∷ rest) =
        let here = listed-insert x (sort_by less rest) in
        let ih = listed-sort rest in
        (
          here.0
              ∙ listed-cons x (sort_by less rest)
              ∙ ap (λ n. share counts x + n) ih.0
              ∙ sym (listed-cons x rest),
          here.1
              ∙ held_all-cons x (sort_by less rest)
              ∙ ap (λ b. calm counts x && b) ih.1
              ∙ sym (held_all-cons x rest),
        )
