-- ===== src/Courier/Queue/Model/Rep.antt =====
-- How the state of queue.go stands for an ordered list of items.
use ori_gateway.Base.{
  ℕ, ◌+◌, ◌-◌, ◌<◌, String, ◌≡◌, refl, Bool, true, some, List, [], ◌∷◌, ◌++◌, map, arith,
  if◌then◌else◌, length, ◌==◌, nat_eq, string_eq,
}
use mathlib.Core.Option
use ori_gateway.Base.Maps.{lookup, Distinct}
use ori_gateway.Courier.Types.{LaneKey, key_eq}
use ori_gateway.Courier.Queue.State.{DurableQueue, External, record_lane}
use ori_gateway.Courier.Queue.Model.Counters.{Tallied}
use ori_gateway.Courier.Queue.Model.Items.{
  Item, id_of, find, tally, Unique, Rising, without, tally-append, tally-without,
}

abbrev pub item_lane : External → Item → LaneKey
item_lane ext x = record_lane ext x.entry

abbrev pub one_if : Bool → ℕ → ℕ
one_if b n = if b then n else 0

-- The items of a lane, and their bytes.
abbrev pub lane_count : External → List Item → LaneKey → ℕ
lane_count ext xs k = tally (λ x. one_if (item_lane ext x == k) 1) xs

abbrev pub lane_size : External → List Item → LaneKey → ℕ
lane_size ext xs k = tally (λ x. one_if (item_lane ext x == k) x.size) xs

abbrev pub device_count : External → List Item → String → ℕ
device_count ext xs d = tally (λ x. one_if ((item_lane ext x).device == d) 1) xs

abbrev pub device_size : External → List Item → String → ℕ
device_size ext xs d = tally (λ x. one_if ((item_lane ext x).device == d) x.size) xs

-- Every map and counter of the queue is the one that the list determines.
pub record Rep (ext : External) (q : DurableQueue) (xs : List Item) : Type 0 where
  pub entries : (id : String) → lookup id q.entries ≡ Option.map (λ x. x.entry) (find id xs)
  pub sizes : (id : String) → lookup id q.sizes ≡ Option.map (λ x. x.size) (find id xs)
  pub lane_keys : (id : String) → lookup id q.lane_keys ≡ Option.map (item_lane ext) (find id xs)
  pub entry_count : length q.entries ≡ length xs
  pub distinct : Distinct q.entries
  pub order : q.order ≡ map id_of xs
  pub bytes : q.bytes ≡ tally (λ x. x.size) xs
  pub lane_items : Tallied q.lane_items (lane_count ext xs) (lane_count ext xs)
  pub lane_bytes : Tallied q.lane_bytes (lane_count ext xs) (lane_size ext xs)
  pub device_items : Tallied q.device_items (device_count ext xs) (device_count ext xs)
  pub device_bytes : Tallied q.device_bytes (device_count ext xs) (device_size ext xs)
  pub unique : Unique xs
  pub rising : Rising 0 xs q.next_seq

-- A class with no item has no bytes.
pub size_of_empty :
    (p : Item → Bool) (xs : List Item)
    → tally (λ x. one_if (p x) 1) xs ≡ 0
    → tally (λ x. one_if (p x) x.size) xs ≡ 0
unfolding tally
size_of_empty p [] h = refl
size_of_empty p (x ∷ xs) h = ground (arith, size_of_empty p xs)

-- The item of an id counts in its class.
pub class_pos :
    (p : Item → Bool) (id : String) (xs : List Item) (x : Item)
    → find id xs ≡ some x
    → p x ≡ true
    → 0 < tally (λ y. one_if (p y) 1) xs
unfolding find tally
class_pos p id [] x h e = cc
class_pos p id (y ∷ ys) x h e = ground (arith, class_pos p id ys x)

-- How a sum over a class moves when an item comes last, and when one leaves.
pub class-append :
    (p : Item → Bool) (f : Item → ℕ) (xs : List Item) (x : Item)
    → tally (λ y. one_if (p y) (f y)) (xs ++ (x ∷ [])) ≡ (
        if p x
        then tally (λ y. one_if (p y) (f y)) xs + f x
        else tally (λ y. one_if (p y) (f y)) xs)
class-append p f xs x = ground (arith, tally-append (λ y. one_if (p y) (f y)) xs x)

pub class-without :
    (p : Item → Bool) (f : Item → ℕ) (id : String) (xs : List Item) (x : Item)
    → find id xs ≡ some x
    → tally (λ y. one_if (p y) (f y)) (without id xs) ≡ (
        if p x
        then tally (λ y. one_if (p y) (f y)) xs - f x
        else tally (λ y. one_if (p y) (f y)) xs)
class-without p f id xs x h = ground (arith, tally-without (λ y. one_if (p y) (f y)) id xs x h)
