-- ===== src/Courier/Queue/Delivery.antt =====
-- The delivery order: what `PeekLane` offers, and what never changes it.
use ori_gateway.Base.{
  ℕ, String, ◌≡◌, refl, sym, ap, ◌∙◌, ◌≢◌, Bool, false, Option, none, some, List, [], ◌∷◌, ◌++◌,
  map, arith, if◌then◌else◌, All, ◌==◌, nat_eq, string_eq,
}
use mathlib.Core.Option
use ori_gateway.Base.Maps.{lookup}
use ori_gateway.Courier.Types.{
  Bytes, ArtifactType, LaneKey, key_eq, key_beq_iff, QueueRecord, QueuedArtifact, record_artifact,
}
use ori_gateway.Courier.Queue.Disk.{Write, committed}
use ori_gateway.Courier.Queue.State.{
  DurableQueue, External, QueueError, artifact_id, key_of, peek_in, peek_lane, record_lane,
  note_store,
}
use ori_gateway.Courier.Queue.Admit.{write_record, new_record, keep_record, enqueue_or_find}
use ori_gateway.Courier.Queue.Retire.{RetireIo, remove}
use ori_gateway.Courier.Queue.Cases.{Guards, admit_cases}
use ori_gateway.Courier.Queue.Admission.{write_record-Rep}
use ori_gateway.Courier.Queue.Retirement.{Retired, remove-Retired}
use ori_gateway.Courier.Queue.Model.Items.{Item, id_of, find, without, without_absent}
use ori_gateway.Courier.Queue.Model.Order.{found-Unique}
use ori_gateway.Courier.Queue.Model.Keep.{keep_record-Rep}
use ori_gateway.Courier.Queue.Model.Rep.{Rep, item_lane}

unfoldable pub first : (Item → Bool) → List Item → Option Item
first p [] = none
first p (x ∷ xs) = if p x then some x else first p xs

abbrev pub artifact_of : Item → QueuedArtifact
artifact_of x = record_artifact (x.entry)

pub first-append :
    (p : Item → Bool) (xs : List Item) (x : Item)
    → first p (xs ++ (x ∷ []))
      ≡ (elim (first p xs) [ some y ↦ some y | none ↦ if p x then some x else none ])
unfolding first
first-append p [] x = ground arith
first-append p (y ∷ ys) x = ground (arith, first-append p ys x)

-- Taking out an item that is not wanted changes no first.
pub first-without :
    (p : Item → Bool) (id : String) (xs : List Item) (x : Item)
    → find id xs ≡ some x
    → p x ≡ false
    → first p (without id xs) ≡ first p xs
unfolding first without find
first-without p id [] x f n = refl
first-without p id (y ∷ ys) x f n = ground (arith, first-without p id ys x)

module _ (ext : External) (q : DurableQueue) (xs : List Item) (rep : Rep ext q xs) where
  peek_in-first :
      (key : LaneKey) (ys : List Item)
      → All (λ y. find (id_of y) xs ≡ some y) ys
      → peek_in (λ id. key_of id q.lane_keys == key) q.entries (map id_of ys)
        ≡ Option.map artifact_of (first (λ y. item_lane ext y == key) ys)
  unfolding peek_in first
  peek_in-first key [] a = refl
  peek_in-first key (y ∷ ys) a =
      ground (arith, rep.lane_keys (id_of y), rep.entries (id_of y), a.0, peek_in-first key ys a.1)

  -- A lane offers the oldest item of the list that is in it.
  pub peek_lane-first :
      (key : LaneKey)
      → peek_lane key q ≡ Option.map artifact_of (first (λ y. item_lane ext y == key) xs)
  unfolding peek_lane
  peek_lane-first key = rw (rep.order) (peek_in-first key xs (found-Unique xs rep.unique))

module _ (ext : External) (q : DurableQueue) (xs : List Item) (rep : Rep ext q xs)
    (key : LaneKey) where
  -- What an admission leaves as it was: an offered head, and every lane but the artifact's own.
  abbrev Undisturbed : LaneKey → DurableQueue → Type 0
  Undisturbed own q' =
      ((a : QueuedArtifact) → peek_lane key q ≡ some a → peek_lane key q' ≡ some a)
      × (own ≢ key → peek_lane key q' ≡ peek_lane key q)

  same_list : (own : LaneKey) (q' : DurableQueue) → Rep ext q' xs → Undisturbed own q'
  same_list own q' rep' =
      let e : peek_lane key q' ≡ peek_lane key q =
        peek_lane-first ext q' xs rep' key ∙ sym (peek_lane-first ext q xs rep key) in
      (λ a h. e ∙ h, λ _. e)

  longer_list :
      (x : Item) (q' : DurableQueue)
      → Rep ext q' (xs ++ (x ∷ []))
      → Undisturbed (item_lane ext x) q'
  longer_list x q' rep' = (
    λ a h. ground (
      arith,
      peek_lane-first ext q' (xs ++ (x ∷ [])) rep' key,
      peek_lane-first ext q xs rep key,
      first-append (λ y. item_lane ext y == key) xs x,
    ),
    λ n. ground (
      arith,
      peek_lane-first ext q' (xs ++ (x ∷ [])) rep' key,
      peek_lane-first ext q xs rep key,
      first-append (λ y. item_lane ext y == key) xs x,
      key_beq_iff (item_lane ext x) key,
    ),
  )

  -- No admission moves the head of a lane that has one, and none changes what any other lane than
  -- the artifact's own offers.
  pub admission_undisturbed :
      (w : Write) (now : ℕ) (kind : ArtifactType) (payload : Bytes)
      → ((a : QueuedArtifact)
          → peek_lane key q ≡ some a
          → peek_lane key (enqueue_or_find ext w now kind payload q).0 ≡ some a)
        × (record_lane ext (new_record q kind payload (artifact_id ext kind payload) now) ≢ key
            → peek_lane key (enqueue_or_find ext w now kind payload q).0 ≡ peek_lane key q)
  admission_undisturbed w now kind payload =
      admit_cases (λ r. Undisturbed own r.0) ext w now kind payload q (λ e. same_list own q rep)
        (λ w' size g. same_list own _ (write_record-Rep w' _ rep)) kept
        (λ e _ _ _. same_list own q rep)
    where
      r : QueueRecord
      r = new_record q kind payload (artifact_id ext kind payload) now

      own : LaneKey
      own = record_lane ext r

      none_found :
          (f : Option Item)
          → lookup r.id q.entries ≡ Option.map (λ x. x.entry) f
          → lookup r.id q.entries ≡ none
          → f ≡ none
      none_found none e h = refl
      none_found (some x) e h = cc

      kept :
          (size : ℕ)
          → Guards ext q r size
          → Undisturbed own (keep_record ext r size (write_record committed r q))
      kept size g =
          longer_list (record { entry = r; size = size }) _
            (keep_record-Rep ext (write_record committed r q) xs (record { entry = r; size = size })
              (write_record-Rep committed r rep)
              (none_found (find r.id xs) (rep.entries r.id) g.absent) (unfold note_store in refl))

  -- A retirement, failed or not, changes nothing of what a lane offers whose record it is not.
  pub removal_undisturbed :
      (io : RetireIo) (id : String)
      → ((x : Item) → find id xs ≡ some x → item_lane ext x ≢ key)
      → peek_lane key (remove ext io id q).0 ≡ peek_lane key q
  removal_undisturbed io id other =
      by_result (remove ext io id q) (remove-Retired ext xs id io q rep)
    where
      unchanged :
          (f : Option Item)
          → find id xs ≡ f
          → first (λ y. item_lane ext y == key) (without id xs)
            ≡ first (λ y. item_lane ext y == key) xs
      unchanged none e = ap (first (λ y. item_lane ext y == key)) (without_absent id xs e)
      unchanged (some x) e =
          first-without (λ y. item_lane ext y == key) id xs x e
            (ground (arith, other x e, key_beq_iff (item_lane ext x) key))

      by_result :
          (r : DurableQueue × Option QueueError)
          → Retired ext xs id q r
          → peek_lane key r.0 ≡ peek_lane key q
      by_result (q', some e) rep' =
          peek_lane-first ext q' xs rep' key ∙ sym (peek_lane-first ext q xs rep key)
      by_result (q', none) t =
          peek_lane-first ext q' (without id xs) t.0 key
          ∙ ap (Option.map artifact_of) (unchanged (find id xs) refl)
          ∙ sym (peek_lane-first ext q xs rep key)
