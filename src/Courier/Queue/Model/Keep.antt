-- ===== src/Courier/Queue/Model/Keep.antt =====
-- Admission appends to the list (`insertLocked`, from the committed record on).
use ori_gateway.Base.{◌+◌, ◌≡◌, subst, none, List, [], ◌∷◌, ◌++◌, map, nat_eq, string_eq}
use mathlib.Core.List.{map-append}
use ori_gateway.Base.Maps.{insert}
use ori_gateway.Base.Sort.{sort_by}
use ori_gateway.Courier.Types.{key_eq}
use ori_gateway.Courier.Queue.State.{DurableQueue, External, precedes}
use ori_gateway.Courier.Queue.Admit.{keep_record}
use ori_gateway.Courier.Queue.Model.Items.{Item, id_of, find, Rising, append-Rising}
use ori_gateway.Courier.Queue.Model.Order.{sort_by-Rising}
use ori_gateway.Courier.Queue.Model.Indexed.{Indexed, Rep-Indexed, added, added-Indexed}
use ori_gateway.Courier.Queue.Model.Rep.{Rep}

module _ (ext : External) (q : DurableQueue) (xs : List Item) (x : Item) (rep : Rep ext q xs)
    (absent : find (id_of x) xs ≡ none) (seq : x.entry.queue_seq ≡ q.next_seq) where
  indexed : Indexed ext (added ext (x.entry) (x.size) q) (xs ++ (x ∷ []))
  indexed = added-Indexed ext q xs x (Rep-Indexed ext q xs rep) absent

  rising' : Rising 0 (xs ++ (x ∷ [])) (q.next_seq + 1)
  rising' = append-Rising 0 xs x _ (rep.rising) seq

  order' : (keep_record ext (x.entry) (x.size) q).order ≡ map id_of (xs ++ (x ∷ []))
  unfolding keep_record added
  order' = rw (rep.order) (
      subst
        (λ ids.
          sort_by (precedes (insert (id_of x) (x.entry) (q.entries))) ids
          ≡ map id_of (xs ++ (x ∷ [])))
        (map-append id_of xs (x ∷ []))
        (sort_by-Rising (insert (id_of x) (x.entry) (q.entries)) (xs ++ (x ∷ [])) 0 (q.next_seq + 1)
          (indexed.entries) (indexed.unique) rising'))

  -- A new record goes to the end of the list, and every index follows it.
  pub keep_record-Rep : Rep ext (keep_record ext (x.entry) (x.size) q) (xs ++ (x ∷ []))
  unfolding keep_record added
  keep_record-Rep = record {
    entries = indexed.entries;
    sizes = indexed.sizes;
    lane_keys = indexed.lane_keys;
    entry_count = indexed.entry_count;
    distinct = indexed.distinct;
    order = order';
    bytes = indexed.bytes;
    lane_items = indexed.lane_items;
    lane_bytes = indexed.lane_bytes;
    device_items = indexed.device_items;
    device_bytes = indexed.device_bytes;
    unique = indexed.unique;
    rising = rising';
  }
