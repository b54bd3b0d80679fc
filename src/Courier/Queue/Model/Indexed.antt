-- ===== src/Courier/Queue/Model/Indexed.antt =====
-- The indices of queue.go over a list of items, whatever the order of delivery, and what a further
-- record makes of them (`indexLocked`).
use ori_gateway.Base.{
  ℕ, ◌+◌, String, ◌≡◌, sym, none, List, [], ◌∷◌, ◌++◌, arith, length, length-append, ◌==◌, nat_eq,
  string_eq,
}
use mathlib.Core.Option
use ori_gateway.Base.Maps.{lookup, insert, Distinct, lookup-insert, insert-Distinct, erase_absent}
use ori_gateway.Courier.Types.{QueueRecord, key_eq}
use ori_gateway.Courier.Queue.State.{DurableQueue, External, index_locked}
use ori_gateway.Courier.Queue.Model.Counters.{Tallied, insert-Tallied}
use ori_gateway.Courier.Queue.Model.Items.{
  Item, id_of, find, tally, Unique, tally-append, find-append, append-Unique,
}
use ori_gateway.Courier.Queue.Model.Rep.{
  Rep, item_lane, lane_count, lane_size, device_count, device_size, size_of_empty, class-append,
}

-- Every map and counter of the queue but its order is the one that the list determines.
pub record Indexed (ext : External) (q : DurableQueue) (xs : List Item) : Type 0 where
  pub entries : (id : String) → lookup id q.entries ≡ Option.map (λ x. x.entry) (find id xs)
  pub sizes : (id : String) → lookup id q.sizes ≡ Option.map (λ x. x.size) (find id xs)
  pub lane_keys : (id : String) → lookup id q.lane_keys ≡ Option.map (item_lane ext) (find id xs)
  pub entry_count : length q.entries ≡ length xs
  pub distinct : Distinct q.entries
  pub bytes : q.bytes ≡ tally (λ x. x.size) xs
  pub lane_items : Tallied q.lane_items (lane_count ext xs) (lane_count ext xs)
  pub lane_bytes : Tallied q.lane_bytes (lane_count ext xs) (lane_size ext xs)
  pub device_items : Tallied q.device_items (device_count ext xs) (device_count ext xs)
  pub device_bytes : Tallied q.device_bytes (device_count ext xs) (device_size ext xs)
  pub unique : Unique xs

pub Rep-Indexed :
    (ext : External) (q : DurableQueue) (xs : List Item) → Rep ext q xs → Indexed ext q xs
Rep-Indexed ext q xs rep = record {
  entries = rep.entries;
  sizes = rep.sizes;
  lane_keys = rep.lane_keys;
  entry_count = rep.entry_count;
  distinct = rep.distinct;
  bytes = rep.bytes;
  lane_items = rep.lane_items;
  lane_bytes = rep.lane_bytes;
  device_items = rep.device_items;
  device_bytes = rep.device_bytes;
  unique = rep.unique;
}

-- The writes that admission and the loader share.
unfoldable pub added : External → QueueRecord → ℕ → DurableQueue → DurableQueue
unfolding insert index_locked
added ext r size q =
    let q₁ : DurableQueue =
      index_locked ext r size
        (record q { entries = insert r.id r q.entries; sizes = insert r.id size q.sizes }) in
    record q₁ { bytes = q₁.bytes + size }

module _ (ext : External) (q : DurableQueue) (xs : List Item) (x : Item) (rep : Indexed ext q xs)
    (absent : find (id_of x) xs ≡ none) where
  xs' : List Item
  xs' = xs ++ (x ∷ [])

  q' : DurableQueue
  q' = added ext (x.entry) (x.size) q

  entries' : (id : String) → lookup id q'.entries ≡ Option.map (λ y. y.entry) (find id xs')
  unfolding q' xs' added
  entries' id = ground (
    arith,
    lookup-insert (id_of x) id (x.entry) (q.entries),
    rep.entries id,
    find-append id xs x absent,
  )

  sizes' : (id : String) → lookup id q'.sizes ≡ Option.map (λ y. y.size) (find id xs')
  unfolding q' xs' added
  sizes' id = ground (
    arith,
    lookup-insert (id_of x) id (x.size) (q.sizes),
    rep.sizes id,
    find-append id xs x absent,
  )

  lane_keys' : (id : String) → lookup id q'.lane_keys ≡ Option.map (item_lane ext) (find id xs')
  unfolding q' xs' added
  lane_keys' id = ground (
    arith,
    lookup-insert (id_of x) id (item_lane ext x) (q.lane_keys),
    rep.lane_keys id,
    find-append id xs x absent,
  )

  entry_count' : length q'.entries ≡ length xs'
  unfolding q' xs' added
  entry_count' = ground (
    arith,
    erase_absent (id_of x) (q.entries),
    rep.entries (id_of x),
    rep.entry_count,
    length-append xs (x ∷ []),
  )

  unique' : Unique xs'
  unfolding xs'
  unique' = append-Unique xs x absent (rep.unique)

  lane_items' : Tallied q'.lane_items (lane_count ext xs') (lane_count ext xs')
  unfolding q' xs' added
  lane_items' =
      insert-Tallied (q.lane_items) (lane_count ext xs) (lane_count ext xs) _ _ (item_lane ext x) 1
        (rep.lane_items) (λ z. z) (λ j. class-append (λ y. item_lane ext y == j) (λ y. 1) xs x)
        (λ j. class-append (λ y. item_lane ext y == j) (λ y. 1) xs x)

  lane_bytes' : Tallied q'.lane_bytes (lane_count ext xs') (lane_size ext xs')
  unfolding q' xs' added
  lane_bytes' =
      insert-Tallied (q.lane_bytes) (lane_count ext xs) (lane_size ext xs) _ _ (item_lane ext x)
        (x.size) (rep.lane_bytes) (size_of_empty (λ y. item_lane ext y == item_lane ext x) xs)
        (λ j. class-append (λ y. item_lane ext y == j) (λ y. 1) xs x)
        (λ j. class-append (λ y. item_lane ext y == j) (λ y. y.size) xs x)

  device_items' : Tallied q'.device_items (device_count ext xs') (device_count ext xs')
  unfolding q' xs' added
  device_items' =
      insert-Tallied (q.device_items) (device_count ext xs) (device_count ext xs) _ _
        ((item_lane ext x).device) 1 (rep.device_items) (λ z. z)
        (λ j. class-append (λ y. (item_lane ext y).device == j) (λ y. 1) xs x)
        (λ j. class-append (λ y. (item_lane ext y).device == j) (λ y. 1) xs x)

  device_bytes' : Tallied q'.device_bytes (device_count ext xs') (device_size ext xs')
  unfolding q' xs' added
  device_bytes' =
      insert-Tallied (q.device_bytes) (device_count ext xs) (device_size ext xs) _ _
        ((item_lane ext x).device) (x.size) (rep.device_bytes)
        (size_of_empty (λ y. (item_lane ext y).device == (item_lane ext x).device) xs)
        (λ j. class-append (λ y. (item_lane ext y).device == j) (λ y. 1) xs x)
        (λ j. class-append (λ y. (item_lane ext y).device == j) (λ y. y.size) xs x)

  -- A further record is indexed with those before it.
  pub added-Indexed : Indexed ext (added ext (x.entry) (x.size) q) (xs ++ (x ∷ []))
  unfolding q' xs' added
  added-Indexed = record {
    entries = entries';
    sizes = sizes';
    lane_keys = lane_keys';
    entry_count = entry_count';
    distinct = insert-Distinct (id_of x) (x.entry) (q.entries) (rep.distinct);
    bytes = rw (rep.bytes) (sym (tally-append (λ y. y.size) xs x));
    lane_items = lane_items';
    lane_bytes = lane_bytes';
    device_items = device_items';
    device_bytes = device_bytes';
    unique = unique';
  }
