-- ===== src/Courier/Queue/Model/Drop.antt =====
-- Retirement takes the item out of the list (`removeLocked`, once the removal is durable).
use ori_gateway.Base.{
  String, ◌≡◌, refl, true, some, List, [], ◌∷◌, map, arith, eq_iff, length, ◌==◌, nat_eq, string_eq,
}
use mathlib.Core.Option
use ori_gateway.Base.Maps.{lookup, lookup-erase, erase-Distinct, length-erase}
use ori_gateway.Courier.Types.{key_eq, key_beq_iff}
use ori_gateway.Courier.Queue.State.{DurableQueue, External, count, key_of}
use ori_gateway.Courier.Queue.Retire.{drop_record, order_without}
use ori_gateway.Courier.Queue.Model.Counters.{Tallied, take_count-Tallied, take_bytes-Tallied}
use ori_gateway.Courier.Queue.Model.Items.{
  Item, id_of, find, without, tally, tally-without, find-without, without-Unique, without-Rising,
  length-without,
}
use ori_gateway.Courier.Queue.Model.Rep.{
  Rep, item_lane, lane_count, lane_size, device_count, device_size, class-without, class_pos,
}

order_without-map :
    (id : String) (xs : List Item) → order_without id (map id_of xs) ≡ map id_of (without id xs)
unfolding order_without without
order_without-map id [] = refl
order_without-map id (x ∷ xs) = ground (arith, order_without-map id xs)

module _ (ext : External) (q : DurableQueue) (xs : List Item) (id : String) (x : Item)
    (rep : Rep ext q xs) (found : find id xs ≡ some x) where
  xs' : List Item
  xs' = without id xs

  q' : DurableQueue
  q' = drop_record id q

  size_known : count id q.sizes ≡ x.size
  size_known = ground (arith, rep.sizes id, found)

  key_known : key_of id q.lane_keys ≡ item_lane ext x
  key_known = ground (arith, rep.lane_keys id, found)

  entries' : (j : String) → lookup j q'.entries ≡ Option.map (λ y. y.entry) (find j xs')
  unfolding q' xs' drop_record
  entries' j =
      ground
        (arith, lookup-erase id j (q.entries), rep.entries j, find-without id j xs (rep.unique))

  sizes' : (j : String) → lookup j q'.sizes ≡ Option.map (λ y. y.size) (find j xs')
  unfolding q' xs' drop_record
  sizes' j =
      ground (arith, lookup-erase id j (q.sizes), rep.sizes j, find-without id j xs (rep.unique))

  lane_keys' : (j : String) → lookup j q'.lane_keys ≡ Option.map (item_lane ext) (find j xs')
  unfolding q' xs' drop_record
  lane_keys' j =
      ground
        (arith, lookup-erase id j (q.lane_keys), rep.lane_keys j, find-without id j xs (rep.unique))

  entry_count' : length q'.entries ≡ length xs'
  unfolding q' xs' drop_record
  entry_count' = ground (
    arith,
    length-erase id (x.entry) (q.entries) (rep.distinct),
    rep.entries id,
    found,
    rep.entry_count,
    length-without id xs x found,
  )

  order' : q'.order ≡ map id_of xs'
  unfolding q' xs' drop_record
  order' = rw (rep.order) (order_without-map id xs)

  bytes' : q'.bytes ≡ tally (λ y. y.size) xs'
  unfolding q' xs' drop_record
  bytes' = omega (arith, rep.bytes, size_known, tally-without (λ y. y.size) id xs x found)

  lane_self : (item_lane ext x == item_lane ext x) ≡ true
  lane_self = (key_beq_iff (item_lane ext x) (item_lane ext x)).1 refl

  device_self : ((item_lane ext x).device == (item_lane ext x).device) ≡ true
  device_self = (eq_iff ((item_lane ext x).device) ((item_lane ext x).device)).1 refl

  lane_items' : Tallied q'.lane_items (lane_count ext xs') (lane_count ext xs')
  unfolding q' xs' drop_record
  lane_items' = rw key_known (
      take_count-Tallied (q.lane_items) (lane_count ext xs) _ (item_lane ext x) (rep.lane_items)
        (class_pos (λ y. item_lane ext y == item_lane ext x) id xs x found lane_self)
        (λ j. class-without (λ y. item_lane ext y == j) (λ y. 1) id xs x found))

  lane_bytes' : Tallied q'.lane_bytes (lane_count ext xs') (lane_size ext xs')
  unfolding q' xs' drop_record
  lane_bytes' =
      rw (key_known, size_known)
        (take_bytes-Tallied (q.lane_items) (q.lane_bytes) (lane_count ext xs) (lane_size ext xs) _ _
          (item_lane ext x) (x.size) (rep.lane_items) (rep.lane_bytes)
          (class_pos (λ y. item_lane ext y == item_lane ext x) id xs x found lane_self)
          (λ j. class-without (λ y. item_lane ext y == j) (λ y. 1) id xs x found)
          (λ j. class-without (λ y. item_lane ext y == j) (λ y. y.size) id xs x found))

  device_items' : Tallied q'.device_items (device_count ext xs') (device_count ext xs')
  unfolding q' xs' drop_record
  device_items' = rw key_known (
      take_count-Tallied (q.device_items) (device_count ext xs) _ ((item_lane ext x).device)
        (rep.device_items)
        (class_pos (λ y. (item_lane ext y).device == (item_lane ext x).device) id xs x found
          device_self)
        (λ j. class-without (λ y. (item_lane ext y).device == j) (λ y. 1) id xs x found))

  device_bytes' : Tallied q'.device_bytes (device_count ext xs') (device_size ext xs')
  unfolding q' xs' drop_record
  device_bytes' =
      rw (key_known, size_known)
        (take_bytes-Tallied (q.device_items) (q.device_bytes) (device_count ext xs)
          (device_size ext xs) _ _ ((item_lane ext x).device) (x.size) (rep.device_items)
          (rep.device_bytes)
          (class_pos (λ y. (item_lane ext y).device == (item_lane ext x).device) id xs x found
            device_self)
          (λ j. class-without (λ y. (item_lane ext y).device == j) (λ y. 1) id xs x found)
          (λ j. class-without (λ y. (item_lane ext y).device == j) (λ y. y.size) id xs x found))

  drop_all : Rep ext q' xs'
  unfolding q' xs' drop_record
  drop_all = record {
    entries = entries';
    sizes = sizes';
    lane_keys = lane_keys';
    entry_count = entry_count';
    distinct = erase-Distinct id (q.entries) (rep.distinct);
    order = order';
    bytes = bytes';
    lane_items = lane_items';
    lane_bytes = lane_bytes';
    device_items = device_items';
    device_bytes = device_bytes';
    unique = without-Unique id xs (rep.unique);
    rising = without-Rising id 0 xs _ (rep.rising);
  }

  -- A retired record leaves the list, and every index follows it.
  pub drop_record-Rep : Rep ext (drop_record id q) (without id xs)
  unfolding q' xs'
  drop_record-Rep = drop_all
