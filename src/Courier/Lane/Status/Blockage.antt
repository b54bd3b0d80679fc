-- ===== src/Courier/Lane/Status/Blockage.antt =====
-- When the gateway says that it is blocked (`Status` of internal/evidence/courier/worker.go).
use ori_gateway.Base.{
  ◌<◌, ◌≡◌, refl, sym, ap, subst, ◌∙◌, ◌↔◌, inl, inr, true, false, some, List, [], ◌∷◌, arith,
  Bool-cases, is_some, length, All, ◌==◌, nat_eq, string_eq,
}
use ori_gateway.Base.Sort.{sort_by}
use ori_gateway.Base.Maps.{lookup, Distinct, has}
use ori_gateway.Faults.{Recorder}
use ori_gateway.Courier.Types.{LaneKey, key_eq, key_beq_iff}
use ori_gateway.Courier.Queue.State.{DurableQueue, External, count, key_ltb}
use ori_gateway.Courier.Queue.Model.Items.{Item, tally}
use ori_gateway.Courier.Queue.Model.Rep.{Rep, item_lane, one_if, lane_count}
use ori_gateway.Courier.Lane.{DeliveryLane}
use ori_gateway.Courier.Lane.Status.{Lanes, entries_of, listed, held_all, status}
use ori_gateway.Courier.Lane.Status.Sums.{
  held_in, held_sum, held_sum-tally, marked-All, All-marked, calm-share, held-calm, listed-cons,
  held_all-cons, listed-sort,
}

lane_found :
    (k : LaneKey) (l : DeliveryLane) (lanes rest : Lanes)
    → has k lanes ≡ false
    → All (λ e. lookup e.0 lanes ≡ some e.1) rest
    → All (λ e. lookup e.0 ((k, l) ∷ lanes) ≡ some e.1) rest
unfolding lookup
lane_found k l lanes [] d a = tt
lane_found k l lanes ((j, m) ∷ rest) d a =
    (ground (arith, key_beq_iff k j, a.0), lane_found k l lanes rest d a.1)

lanes_found : (lanes : Lanes) → Distinct lanes → All (λ e. lookup e.0 lanes ≡ some e.1) lanes
unfolding lookup
lanes_found [] d = tt
lanes_found ((k, l) ∷ rest) d =
    (ground (arith, key_beq_iff k k), lane_found k l rest rest d.0 (lanes_found rest d.1))

module _ (ext : External) (q : DurableQueue) (xs : List Item) (rep : Rep ext q xs) where
  pending_count : (k : LaneKey) → count k q.lane_items ≡ lane_count ext xs k
  pending_count k = ground (arith, rep.lane_items k)

  listed-held_sum :
      (lanes : Lanes)
      → held_all (entries_of q.lane_items lanes) ≡ true
      → listed (entries_of q.lane_items lanes) ≡ held_sum (lane_count ext xs) lanes
  unfolding held_sum entries_of listed
  listed-held_sum [] h = refl
  listed-held_sum ((k, l) ∷ rest) h =
      let both = held_all-cons q.lane_items (k, l) rest in
      listed-cons q.lane_items (k, l) rest
      ∙ omega (
        arith,
        listed-held_sum rest (ground (arith, both)),
        calm-share (count k q.lane_items) l (ground (arith, both))
            ∙ ap (one_if (is_some l.held)) (pending_count k),
      )

  lane_marked :
      (lanes : Lanes) (ys : List Item) (k : LaneKey)
      → All (λ x. held_in (item_lane ext x) lanes ≡ true) ys
      → 0 < lane_count ext ys k
      → held_in k lanes ≡ true
  unfolding tally
  lane_marked lanes [] k a p = absurd (omega arith)
  lane_marked lanes (y ∷ ys) k a p = elim (Bool-cases (item_lane ext y == k)) [
    | inl same ↦ subst (λ j. held_in j lanes ≡ true) ((key_beq_iff (item_lane ext y) k).0 same) a.0
    | inr other ↦ lane_marked lanes ys k a.1 (ground (arith, other))
  ]

  held_all-marked :
      (lanes rest : Lanes)
      → All (λ x. held_in (item_lane ext x) lanes ≡ true) xs
      → All (λ e. lookup e.0 lanes ≡ some e.1) rest
      → held_all (entries_of q.lane_items rest) ≡ true
  unfolding held_all entries_of
  held_all-marked lanes [] a f = refl
  held_all-marked lanes ((k, l) ∷ rest) a f = ground (
    arith,
    held_all-cons q.lane_items (k, l) rest,
    held-calm (count k q.lane_items) l
        (λ some_. ground (arith, lane_marked lanes xs k a, pending_count k, f.0)),
    held_all-marked lanes rest a f.1,
  )

  -- The gateway says that it is blocked exactly when something is queued and the lane of each queued
  -- artifact is held, for whatever lanes there are besides and in whatever order they stand.
  pub status-blocked :
      (lanes : Lanes) (recorder : Recorder)
      → Distinct lanes
      → ((status q lanes recorder).blocked ≡ true)
        ↔ ((0 < length xs) × All (λ x. held_in (item_lane ext x) lanes ≡ true) xs)
  unfolding status
  status-blocked lanes recorder d = (to, from)
    where
      sorted :
          (listed (entries_of q.lane_items (sort_by (λ a b. key_ltb a.0 b.0) lanes))
            ≡ listed (entries_of q.lane_items lanes))
          × (held_all (entries_of q.lane_items (sort_by (λ a b. key_ltb a.0 b.0) lanes))
              ≡ held_all (entries_of q.lane_items lanes))
      sorted = listed-sort q.lane_items (λ a b. key_ltb a.0 b.0) lanes

      to :
          (status q lanes recorder).blocked ≡ true
          → (0 < length xs) × All (λ x. held_in (item_lane ext x) lanes ≡ true) xs
      to b =
          let held : held_all (entries_of q.lane_items lanes) ≡ true = ground (arith, sorted.1) in
          let total : listed (entries_of q.lane_items lanes) ≡ length xs =
            ground (arith, sorted.0, rep.entry_count) in
          (
            ground (arith, rep.entry_count),
            marked-All (λ x. held_in (item_lane ext x) lanes) xs
                (sym (held_sum-tally ext xs lanes d) ∙ sym (listed-held_sum lanes held) ∙ total),
          )

      from :
          (0 < length xs) × All (λ x. held_in (item_lane ext x) lanes ≡ true) xs
          → (status q lanes recorder).blocked ≡ true
      from (p, a) =
          let held : held_all (entries_of q.lane_items lanes) ≡ true =
            held_all-marked lanes lanes a (lanes_found lanes d) in
          let total : listed (entries_of q.lane_items lanes) ≡ length xs =
            listed-held_sum lanes held
            ∙ held_sum-tally ext xs lanes d
            ∙ All-marked (λ x. held_in (item_lane ext x) lanes) xs a in
          ground (arith, sorted.0, sorted.1, held, total, rep.entry_count)
