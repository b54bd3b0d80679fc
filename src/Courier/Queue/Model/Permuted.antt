-- ===== src/Courier/Queue/Model/Permuted.antt =====
-- What a list of items determines in any order: the files of a directory come in the order of their
-- names (`load` of queue.go).
use ori_gateway.Base.{
  ℕ, suc, ◌+◌, String, ◌≡◌, refl, sym, ap, ◌∙◌, List, [], ◌∷◌, arith, eq_iff, All, length, ◌==◌,
  nat_eq, string_eq,
}
use ori_gateway.Courier.Types.{key_eq}
use ori_gateway.Courier.Queue.State.{DurableQueue, External}
use ori_gateway.Courier.Queue.Model.Items.{Item, id_of, find, tally, Unique}
use ori_gateway.Courier.Queue.Model.Rep.{item_lane, one_if}
use ori_gateway.Courier.Queue.Model.Indexed.{Indexed}

-- The same items in another order.
pub data Shuffled : List Item → List Item → Type 0 where
  empty : Shuffled [] []
  keep : (x : Item) {xs ys : List Item} → Shuffled xs ys → Shuffled (x ∷ xs) (x ∷ ys)
  exchange : (x y : Item) {xs : List Item} → Shuffled (x ∷ y ∷ xs) (y ∷ x ∷ xs)
  both : {xs ys zs : List Item} → Shuffled xs ys → Shuffled ys zs → Shuffled xs zs

pub Shuffled-sym : {xs ys : List Item} → Shuffled xs ys → Shuffled ys xs
Shuffled-sym empty = empty
Shuffled-sym (keep x s) = keep x (Shuffled-sym s)
Shuffled-sym (exchange x y) = exchange y x
Shuffled-sym (both s t) = both (Shuffled-sym t) (Shuffled-sym s)

pub tally-Shuffled : (f : Item → ℕ) {xs ys : List Item} → Shuffled xs ys → tally f xs ≡ tally f ys
unfolding tally
tally-Shuffled f empty = refl
tally-Shuffled f (keep x s) = ap (λ n. f x + n) (tally-Shuffled f s)
tally-Shuffled f (exchange x y) = omega arith
tally-Shuffled f (both s t) = tally-Shuffled f s ∙ tally-Shuffled f t

pub length-Shuffled : {xs ys : List Item} → Shuffled xs ys → length xs ≡ length ys
length-Shuffled empty = refl
length-Shuffled (keep x s) = ap suc (length-Shuffled s)
length-Shuffled (exchange x y) = refl
length-Shuffled (both s t) = length-Shuffled s ∙ length-Shuffled t

pub All-Shuffled {κ} :
    (P : Item → Type κ) {xs ys : List Item} → Shuffled xs ys → All P xs → All P ys
All-Shuffled P empty a = a
All-Shuffled P (keep x s) a = (a.0, All-Shuffled P s a.1)
All-Shuffled P (exchange x y) a = (a.1.0, (a.0, a.1.1))
All-Shuffled P (both s t) a = All-Shuffled P t (All-Shuffled P s a)

-- Where the ids are unique they stay so, and each finds the same item.
pub find-Shuffled :
    {xs ys : List Item}
    → Shuffled xs ys
    → Unique xs
    → Unique ys × ((j : String) → find j xs ≡ find j ys)
unfolding find
find-Shuffled empty u = (u, λ j. refl)
find-Shuffled (keep x s) u =
    let (v, same) = find-Shuffled s u.1 in
    ((sym (same (id_of x)) ∙ u.0, v), λ j. ground (arith, same j))
find-Shuffled (exchange x y) u = (
  ground (arith, u.0, u.1.0, eq_iff (id_of x) (id_of y), eq_iff (id_of y) (id_of x)),
  λ j. ground (arith, u.0, eq_iff (id_of x) j, eq_iff (id_of y) j, eq_iff (id_of y) (id_of x)),
)
find-Shuffled (both s t) u =
    let (v, same) = find-Shuffled s u in
    let (w, same') = find-Shuffled t v in (w, λ j. same j ∙ same' j)

pub Indexed-Shuffled :
    (ext : External) (q : DurableQueue) {xs ys : List Item}
    → Shuffled xs ys
    → Indexed ext q xs
    → Indexed ext q ys
Indexed-Shuffled ext q {xs} {ys} s i =
    let (v, same) = find-Shuffled s i.unique in
    record {
      entries = λ id. rw (sym (same id)) (i.entries id);
      sizes = λ id. rw (sym (same id)) (i.sizes id);
      lane_keys = λ id. rw (sym (same id)) (i.lane_keys id);
      entry_count = i.entry_count ∙ length-Shuffled s;
      distinct = i.distinct;
      bytes = i.bytes ∙ tally-Shuffled (λ x. x.size) s;
      lane_items =
          λ j. rw (sym (tally-Shuffled (λ x. one_if (item_lane ext x == j) 1) s)) (i.lane_items j);
      lane_bytes = λ j.
          rw
            (
              sym (tally-Shuffled (λ x. one_if (item_lane ext x == j) 1) s),
              sym (tally-Shuffled (λ x. one_if (item_lane ext x == j) x.size) s),
            )
            (i.lane_bytes j);
      device_items = λ d.
          rw (sym (tally-Shuffled (λ x. one_if ((item_lane ext x).device == d) 1) s))
            (i.device_items d);
      device_bytes = λ d.
          rw
            (
              sym (tally-Shuffled (λ x. one_if ((item_lane ext x).device == d) 1) s),
              sym (tally-Shuffled (λ x. one_if ((item_lane ext x).device == d) x.size) s),
            )
            (i.device_bytes d);
      unique = v;
    }
