-- ===== src/Courier/Queue/Model/Arranged.antt =====
-- `sortOrder` of queue.go after a load: whatever the order in which the records were read, sorting
-- by sequence gives the one list that rises.
use ori_gateway.Base.{
  ℕ, suc, ◌≤◌, ◌<◌, String, ◌≡◌, refl, sym, ap, ◌∙◌, ◌≢◌, Bool, List, [], ◌∷◌, map, arith, All, ltb,
  nat_eq, string_eq,
}
use ori_gateway.Base.Maps.{Map}
use ori_gateway.Base.Sort.{insert_by, sort_by, Ordered, sort_by-Ordered}
use ori_gateway.Courier.Types.{QueueRecord}
use ori_gateway.Courier.Queue.State.{precedes, seq_of}
use ori_gateway.Courier.Queue.Model.Items.{Item, id_of, Rising}
use ori_gateway.Courier.Queue.Model.Permuted.{Shuffled, empty, keep, exchange, both, All-Shuffled}

abbrev pub earlier : Item → Item → Bool
earlier a b = ltb (a.entry.queue_seq) (b.entry.queue_seq)

-- No item has this sequence.
abbrev pub Fresh : ℕ → List Item → Type 0
Fresh n xs = All (λ y. y.entry.queue_seq ≢ n) xs

-- Each sequence stands once.
abbrev pub Seqs : List Item → Type 0
Seqs [] = Unit {0}
Seqs (x ∷ xs) = Fresh (x.entry.queue_seq) xs × Seqs xs

All-insert_by :
    (P : Item → Type 0) (a : Item) (xs : List Item)
    → P a
    → All P xs
    → All P (insert_by earlier a xs)
unfolding insert_by
All-insert_by P a [] p h = (p, tt)
All-insert_by P a (x ∷ xs) p h = ground (arith, All-insert_by P a xs p h.1)

All-sort_by : (P : Item → Type 0) (xs : List Item) → All P xs → All P (sort_by earlier xs)
unfolding sort_by
All-sort_by P [] h = tt
All-sort_by P (x ∷ xs) h = All-insert_by P x _ h.0 (All-sort_by P xs h.1)

insert_by_swap :
    (a b : Item) (xs : List Item)
    → b.entry.queue_seq ≢ a.entry.queue_seq
    → insert_by earlier a (insert_by earlier b xs) ≡ insert_by earlier b (insert_by earlier a xs)
unfolding insert_by
insert_by_swap a b [] n = ground arith
insert_by_swap a b (x ∷ xs) n = ground (arith, insert_by_swap a b xs n)

-- Sorting forgets the order in which distinct sequences came.
pub sort_by-Shuffled :
    {xs ys : List Item}
    → Shuffled xs ys
    → Seqs xs
    → Seqs ys × (sort_by earlier xs ≡ sort_by earlier ys)
unfolding sort_by
sort_by-Shuffled empty u = (u, refl)
sort_by-Shuffled (keep x s) u =
    let (v, same) = sort_by-Shuffled s u.1 in
    ((All-Shuffled _ s u.0, v), ap (insert_by earlier x) same)
sort_by-Shuffled (exchange x y {xs}) u =
    (((λ e. u.0.0 (sym e), u.1.0), (u.0.1, u.1.1)), insert_by_swap x y (sort_by earlier xs) u.0.0)
sort_by-Shuffled (both s t) u =
    let (v, same) = sort_by-Shuffled s u in
    let (w, same') = sort_by-Shuffled t v in (w, same ∙ same')

Rising-above : (n lo : ℕ) (xs : List Item) (hi : ℕ) → n < lo → Rising lo xs hi → Fresh n xs
Rising-above n lo [] hi l r = tt
Rising-above n lo (x ∷ xs) hi l r =
    (omega (arith, r.0), Rising-above n (suc (x.entry.queue_seq)) xs hi (omega (arith, r.0)) r.1)

pub Rising-Seqs : (lo : ℕ) (xs : List Item) (hi : ℕ) → Rising lo xs hi → Seqs xs
Rising-Seqs lo [] hi r = tt
Rising-Seqs lo (x ∷ xs) hi r = (
  Rising-above (x.entry.queue_seq) (suc (x.entry.queue_seq)) xs hi (omega arith) r.1,
  Rising-Seqs _ xs hi r.1,
)

Rising-earlier : (lo : ℕ) (xs : List Item) (hi : ℕ) → Rising lo xs hi → Ordered earlier xs
Rising-earlier lo [] hi r = tt
Rising-earlier lo (x ∷ []) hi r = (tt, tt)
Rising-earlier lo (x ∷ y ∷ ys) hi r = (ground (arith, r.1.0), Rising-earlier _ (y ∷ ys) hi r.1)

-- A list that rises stays rising below any bound on its sequences.
pub Rising-below :
    (lo : ℕ) (xs : List Item) (hi n : ℕ)
    → Rising lo xs hi
    → lo ≤ n
    → All (λ y. y.entry.queue_seq < n) xs
    → Rising lo xs n
Rising-below lo [] hi n r l a = l
Rising-below lo (x ∷ xs) hi n r l a = (r.0, Rising-below _ xs hi n r.1 a.0 a.1)

module _ (entries : Map String QueueRecord) where
  abbrev pub Known : Item → Type 0
  Known y = seq_of entries (id_of y) ≡ y.entry.queue_seq

  insert_by_ids :
      (a : Item) (xs : List Item)
      → Known a
      → All Known xs
      → Fresh (a.entry.queue_seq) xs
      → insert_by (precedes entries) (id_of a) (map id_of xs) ≡ map id_of (insert_by earlier a xs)
  unfolding insert_by
  insert_by_ids a [] k h f = refl
  insert_by_ids a (x ∷ xs) k h f = ground (arith, k, h.0, f.0, insert_by_ids a xs k h.1 f.1)

  sort_by_ids :
      (xs : List Item)
      → All Known xs
      → Seqs xs
      → sort_by (precedes entries) (map id_of xs) ≡ map id_of (sort_by earlier xs)
  unfolding sort_by
  sort_by_ids [] h u = refl
  sort_by_ids (x ∷ xs) h u =
      ap (insert_by (precedes entries) (id_of x)) (sort_by_ids xs h.1 u.1)
      ∙ insert_by_ids x (sort_by earlier xs) h.0 (All-sort_by Known xs h.1) (All-sort_by _ xs u.0)

  -- The order that the loader sorts is the one that rises.
  pub sort_by-arranged :
      {xs ys : List Item} (lo hi : ℕ)
      → Shuffled xs ys
      → All Known xs
      → Rising lo xs hi
      → sort_by (precedes entries) (map id_of ys) ≡ map id_of xs
  sort_by-arranged {xs} {ys} lo hi s k r =
      let (v, same) = sort_by-Shuffled s (Rising-Seqs lo xs hi r) in
      sort_by_ids ys (All-Shuffled Known s k) v
      ∙ ap (map id_of) (sym same ∙ sort_by-Ordered earlier xs (Rising-earlier lo xs hi r))
