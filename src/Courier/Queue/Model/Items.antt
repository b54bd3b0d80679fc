-- ===== src/Courier/Queue/Model/Items.antt =====
-- The ordered list itself: lookup, sums, and removal (the abstract view of queue.go).
use ori_gateway.Base.{
  ℕ, suc, ◌+◌, ◌≤◌, String, ◌≡◌, refl, Option, none, some, List, [], ◌∷◌, ◌++◌, arith, eq_iff,
  if◌then◌else◌, length, ◌==◌, nat_eq, string_eq,
}
use ori_gateway.Courier.Types.{QueueRecord, key_eq}

pub record Item : Type 0 where
  pub entry : QueueRecord
  pub size : ℕ

abbrev pub id_of : Item → String
id_of x = x.entry.id

unfoldable pub find : String → List Item → Option Item
find id [] = none
find id (x ∷ xs) = if id_of x == id then some x else find id xs

unfoldable pub without : String → List Item → List Item
without id [] = []
without id (x ∷ xs) = if id_of x == id then xs else x ∷ without id xs

unfoldable pub tally : (Item → ℕ) → List Item → ℕ
tally f [] = 0
tally f (x ∷ xs) = f x + tally f xs

-- Each id stands once.
abbrev pub Unique : List Item → Type 0
Unique [] = Unit {0}
Unique (x ∷ xs) = (find (id_of x) xs ≡ none) × Unique xs

-- The sequences rise from `lo` on and stay below `hi`.
abbrev pub Rising : ℕ → List Item → ℕ → Type 0
Rising lo [] hi = lo ≤ hi
Rising lo (x ∷ xs) hi = (lo ≤ x.entry.queue_seq) × Rising (suc (x.entry.queue_seq)) xs hi

pub tally-append :
    (f : Item → ℕ) (xs : List Item) (x : Item) → tally f (xs ++ (x ∷ [])) ≡ tally f xs + f x
unfolding tally
tally-append f [] x = omega arith
tally-append f (y ∷ ys) x = omega (arith, tally-append f ys x)

pub tally-without :
    (f : Item → ℕ) (id : String) (xs : List Item) (x : Item)
    → find id xs ≡ some x
    → tally f xs ≡ f x + tally f (without id xs)
unfolding tally find without
tally-without f id [] x h = cc
tally-without f id (y ∷ ys) x h = ground (arith, tally-without f id ys x)

pub find-append :
    (id : String) (xs : List Item) (x : Item)
    → find (id_of x) xs ≡ none
    → find id (xs ++ (x ∷ [])) ≡ (if id_of x == id then some x else find id xs)
unfolding find
find-append id [] x h = refl
find-append id (y ∷ ys) x h = ground (
  arith,
  find-append id ys x,
  eq_iff (id_of x) id,
  eq_iff (id_of y) id,
  eq_iff (id_of y) (id_of x),
)

pub find-without :
    (id j : String) (xs : List Item)
    → Unique xs
    → find j (without id xs) ≡ (if id == j then none else find j xs)
unfolding find without
find-without id j [] u = ground arith
find-without id j (y ∷ ys) u =
    ground (arith, find-without id j ys u.1, eq_iff id j, eq_iff (id_of y) id, eq_iff (id_of y) j)

pub append-Unique :
    (xs : List Item) (x : Item) → find (id_of x) xs ≡ none → Unique xs → Unique (xs ++ (x ∷ []))
unfolding find
append-Unique [] x h u = (refl, tt)
append-Unique (y ∷ ys) x h u = ground (
  arith,
  append-Unique ys x,
  find-append (id_of y) ys x,
  eq_iff (id_of x) (id_of y),
  eq_iff (id_of y) (id_of x),
)

pub without-Unique : (id : String) (xs : List Item) → Unique xs → Unique (without id xs)
unfolding find without
without-Unique id [] u = tt
without-Unique id (y ∷ ys) u =
    ground (arith, without-Unique id ys u.1, find-without id (id_of y) ys u.1)

pub append-Rising :
    (lo : ℕ) (xs : List Item) (x : Item) (hi : ℕ)
    → Rising lo xs hi
    → x.entry.queue_seq ≡ hi
    → Rising lo (xs ++ (x ∷ [])) (hi + 1)
append-Rising lo [] x hi r e = omega arith
append-Rising lo (y ∷ ys) x hi r e = (r.0, append-Rising _ ys x hi r.1 e)

pub Rising-lower :
    (lo lo' : ℕ) (xs : List Item) (hi : ℕ) → lo' ≤ lo → Rising lo xs hi → Rising lo' xs hi
Rising-lower lo lo' [] hi h r = omega arith
Rising-lower lo lo' (x ∷ xs) hi h r = (omega arith, r.1)

pub without-Rising :
    (id : String) (lo : ℕ) (xs : List Item) (hi : ℕ)
    → Rising lo xs hi
    → Rising lo (without id xs) hi
unfolding without
without-Rising id lo [] hi r = r
without-Rising id lo (y ∷ ys) hi r = ground (
  arith,
  without-Rising id (suc (y.entry.queue_seq)) ys hi r.1,
  Rising-lower (suc (y.entry.queue_seq)) lo ys hi,
)

pub length-without :
    (id : String) (xs : List Item) (x : Item)
    → find id xs ≡ some x
    → length xs ≡ suc (length (without id xs))
unfolding find without
length-without id [] x h = cc
length-without id (y ∷ ys) x h = ground (arith, length-without id ys x)

pub find-id : (id : String) (xs : List Item) (x : Item) → find id xs ≡ some x → id_of x ≡ id
unfolding find
find-id id [] x h = cc
find-id id (y ∷ ys) x h = ground (arith, find-id id ys x, eq_iff (id_of y) id)

pub without_absent : (id : String) (xs : List Item) → find id xs ≡ none → without id xs ≡ xs
unfolding find without
without_absent id [] h = refl
without_absent id (y ∷ ys) h = ground (arith, without_absent id ys)
