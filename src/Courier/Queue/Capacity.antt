-- ===== src/Courier/Queue/Capacity.antt =====
-- Capacity: the bounds that admission keeps, and the room it leaves for a device's registration
-- (`laneShareRefusalLocked` and `insertLocked`).
use ori_gateway.Base.{
  ℕ, ◌+◌, ◌-◌, ◌≤◌, String, ◌≡◌, true, none, List, [], ◌∷◌, arith, length, ◌==◌, nat_eq, string_eq,
}
use ori_gateway.Courier.Types.{Lane, LaneKey, registration, evidence, key_eq, lane_of}
use ori_gateway.Courier.Queue.State.{
  DurableQueue, External, record_lane, count, max_queue_record_bytes, min_device_share_items,
  min_device_share_bytes,
}
use ori_gateway.Courier.Queue.Admit.{lane_share_refusal}
use ori_gateway.Courier.Queue.Model.Items.{Item, tally}
use ori_gateway.Courier.Queue.Model.Rep.{
  Rep, item_lane, one_if, lane_count, lane_size, device_count, device_size, size_of_empty,
}

abbrev pub lane_key : String → Lane → LaneKey
lane_key d l = record { device = d; lane = l }

-- The queue's limits, each device's share, and in the evidence lanes the reserve kept free.
pub record Bounded (ext : External) (q : DurableQueue) (xs : List Item) : Type 0 where
  pub items : length xs ≤ q.max_items
  pub bytes : tally (λ x. x.size) xs ≤ q.max_bytes
  pub device_items : (d : String) → device_count ext xs d ≤ q.share_items
  pub device_bytes : (d : String) → device_size ext xs d ≤ q.share_bytes
  pub reserve_items :
      q.reserved ≡ true → (d : String) → lane_count ext xs (lane_key d evidence) ≤ q.share_items - 1
  pub reserve_bytes :
      q.reserved ≡ true
      → (d : String)
      → lane_size ext xs (lane_key d evidence) ≤ q.share_bytes - max_queue_record_bytes

-- What `openDurableQueue` requires before it reserves shares.
pub record SharesFit (q : DurableQueue) : Type 0 where
  pub items : q.reserved ≡ true → min_device_share_items ≤ q.share_items
  pub bytes : q.reserved ≡ true → min_device_share_bytes ≤ q.share_bytes

module _ {ext : External} {q : DurableQueue} {xs : List Item} (rep : Rep ext q xs) where
  pub count-lane_items : (k : LaneKey) → count k q.lane_items ≡ lane_count ext xs k
  count-lane_items k = ground (arith, rep.lane_items k)

  pub count-lane_bytes : (k : LaneKey) → count k q.lane_bytes ≡ lane_size ext xs k
  count-lane_bytes k =
      ground (arith, rep.lane_bytes k, size_of_empty (λ x. item_lane ext x == k) xs)

  pub count-device_items : (d : String) → count d q.device_items ≡ device_count ext xs d
  count-device_items d = ground (arith, rep.device_items d)

  pub count-device_bytes : (d : String) → count d q.device_bytes ≡ device_size ext xs d
  count-device_bytes d =
      ground (arith, rep.device_bytes d, size_of_empty (λ x. (item_lane ext x).device == d) xs)

two_lanes :
    (ext : External) (x : Item) (d : String) (n : ℕ)
    → one_if ((item_lane ext x).device == d) n
      ≡ one_if (item_lane ext x == lane_key d registration) n
        + one_if (item_lane ext x == lane_key d evidence) n
unfolding record_lane lane_of
two_lanes ext x d n = ground arith

-- A device's items are those of its two lanes.
pub device_split :
    (ext : External) (f : Item → ℕ) (xs : List Item) (d : String)
    → tally (λ x. one_if ((item_lane ext x).device == d) (f x)) xs
      ≡ tally (λ x. one_if (item_lane ext x == lane_key d registration) (f x)) xs
        + tally (λ x. one_if (item_lane ext x == lane_key d evidence) (f x)) xs
unfolding tally
device_split ext f [] d = omega arith
device_split ext f (x ∷ xs) d = omega (arith, two_lanes ext x d (f x), device_split ext f xs d)

module _ (ext : External) (q : DurableQueue) (xs : List Item) where
  -- A queue that stands for a list, with shares reserved that are no smaller than the opening
  -- requires, has room for a device's registration, however full the device's evidence lane is
  -- within its own limit, the share less the reserve: with none of the device's registrations
  -- queued, neither its item share nor its byte share refuses one that is no larger than the
  -- largest record. A device whose evidence was already past that limit when the queue was opened
  -- is not covered.
  pub registration_has_room :
      Rep ext q xs
      → SharesFit q
      → q.reserved ≡ true
      → (d : String) (size : ℕ) → lane_count ext xs (lane_key d evidence) ≤ q.share_items - 1
      → lane_size ext xs (lane_key d evidence) ≤ q.share_bytes - max_queue_record_bytes
      → lane_count ext xs (lane_key d registration) ≡ 0
      → size ≤ max_queue_record_bytes
      → (lane_share_refusal q (lane_key d registration) 0 ≡ none)
        × (lane_share_refusal q (lane_key d registration) size ≡ none)
  unfolding lane_share_refusal
  registration_has_room rep fit res d size in_items in_bytes none_queued small = ground (
    arith,
    count-device_items rep d,
    count-device_bytes rep d,
    device_split ext (λ x. 1) xs d,
    device_split ext (λ x. x.size) xs d,
    in_items,
    in_bytes,
    fit.items res,
    fit.bytes res,
    size_of_empty (λ x. item_lane ext x == lane_key d registration) xs,
  )
