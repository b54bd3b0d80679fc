-- ===== src/Courier/Queue/Model/Order.antt =====
-- The delivery order: `sortOrder` keeps a list of rising sequences as it is.
use ori_gateway.Base.{
  ℕ, String, ◌≡◌, none, some, List, [], ◌∷◌, map, arith, eq_iff, All, nat_eq, string_eq,
}
use mathlib.Core.Option
use ori_gateway.Base.Maps.{Map, lookup}
use ori_gateway.Base.Sort.{sort_by, Ordered, sort_by-Ordered}
use ori_gateway.Courier.Types.{QueueRecord}
use ori_gateway.Courier.Queue.State.{precedes, seq_of}
use ori_gateway.Courier.Queue.Model.Items.{Item, id_of, find, Unique, Rising}

found_under :
    (x : Item) (xs ys : List Item)
    → find (id_of x) xs ≡ none
    → All (λ y. find (id_of y) xs ≡ some y) ys
    → All (λ y. find (id_of y) (x ∷ xs) ≡ some y) ys
unfolding find
found_under x xs [] h a = tt
found_under x xs (y ∷ ys) h a =
    (ground (arith, eq_iff (id_of x) (id_of y), a.0), found_under x xs ys h a.1)

pub found-Unique : (xs : List Item) → Unique xs → All (λ y. find (id_of y) xs ≡ some y) xs
unfolding find
found-Unique [] u = tt
found-Unique (x ∷ xs) u =
    (ground (arith, eq_iff (id_of x) (id_of x)), found_under x xs xs u.0 (found-Unique xs u.1))

module _ (entries : Map String QueueRecord) where
  pub seqs_known :
      (xs ys : List Item)
      → ((id : String) → lookup id entries ≡ Option.map (λ x. x.entry) (find id xs))
      → All (λ y. find (id_of y) xs ≡ some y) ys
      → All (λ y. seq_of entries (id_of y) ≡ y.entry.queue_seq) ys
  seqs_known xs [] e a = tt
  seqs_known xs (y ∷ ys) e a = (ground (arith, e (id_of y), a.0), seqs_known xs ys e a.1)

  Rising-Ordered :
      (lo : ℕ) (ys : List Item) (hi : ℕ)
      → Rising lo ys hi
      → All (λ y. seq_of entries (id_of y) ≡ y.entry.queue_seq) ys
      → Ordered (precedes entries) (map id_of ys)
  Rising-Ordered lo [] hi r a = tt
  Rising-Ordered lo (y ∷ []) hi r a = (tt, tt)
  Rising-Ordered lo (y ∷ z ∷ zs) hi r a =
      (ground (arith, a.0, a.1.0, r.1.0), Rising-Ordered _ (z ∷ zs) hi r.1 a.1)

  pub sort_by-Rising :
      (xs : List Item) (lo hi : ℕ)
      → ((id : String) → lookup id entries ≡ Option.map (λ x. x.entry) (find id xs))
      → Unique xs
      → Rising lo xs hi
      → sort_by (precedes entries) (map id_of xs) ≡ map id_of xs
  sort_by-Rising xs lo hi e u r =
      sort_by-Ordered (precedes entries) (map id_of xs)
        (Rising-Ordered lo xs hi r (seqs_known xs xs e (found-Unique xs u)))
