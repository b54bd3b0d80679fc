-- ===== src/Courier/Lane/Flight.antt =====
-- What the channel has been given stays the lane's head until its answer
-- (internal/evidence/courier/worker.go).
use ori_gateway.Base.{
  ℕ, String, ◌≡◌, refl, sym, subst, ◌∙◌, inl, inr, Bool, true, false, Option, none, some, List, [],
  ◌∷◌, ◌++◌, arith, Bool-cases, Option-cases, nat_eq, string_eq,
}
use ori_gateway.Courier.Types.{LaneKey, key_eq, QueuedArtifact, Bytes, ArtifactType}
use ori_gateway.Courier.Queue.State.{DurableQueue, External, QueueError, peek_lane, artifact_id}
use ori_gateway.Courier.Queue.Disk.{Write}
use ori_gateway.Courier.Queue.Admit.{Outcome, queued, refused, enqueue_or_find}
use ori_gateway.Courier.Queue.Retire.{RetireIo, remove}
use ori_gateway.Courier.Queue.Admission.{Admitted, enqueue_or_find-Admitted}
use ori_gateway.Courier.Queue.Retirement.{Retired, remove-Retired}
use ori_gateway.Courier.Queue.Delivery.{first, artifact_of, peek_lane-first}
use ori_gateway.Courier.Queue.Model.Items.{Item, without}
use ori_gateway.Courier.Queue.Model.Rep.{Rep}
use ori_gateway.Courier.Backoff.{Settings}
use ori_gateway.Courier.Lane.{
  Failure, DeliveryLane, holds_id, adopt_durable_hold, adopted_head, release_held_unless,
  begin_attempt,
}
use ori_gateway.Courier.Lane.Attempt.{AttemptIo, Answer, Finished, finish_attempt}
use ori_gateway.Courier.Lane.Loop.{after_success}
use ori_gateway.Courier.Lane.Store.{
  Heads, in_lane, enqueue-Heads, remove-Heads, hold-Heads, set_backoff-Heads, clear-Heads, hold-Rep,
  set_backoff-Rep, clear-Rep,
}
use ori_gateway.Courier.Lane.Run.{
  System, flight_of, Step, turned, began, answered_with, failed_with, succeeded, handed_off,
  admitted, retired_elsewhere, hold_written, backoff_written, backoff_cleared, restarted, Run,
  still, quiet, sends,
}
use ori_gateway.Courier.Lane.Blocked.{adopt-key, event-SameHold, failure-SameHold}
use ori_gateway.Courier.Lane.Retained.{Settled, finish-Settled}

-- The queue stands for a list of items.
abbrev pub Listed : External → DurableQueue → Type 0
Listed ext q = (xs : List Item) × Rep ext q xs

-- What is in flight, if anything, is the head of the lane.
abbrev pub InFlight : External → LaneKey → DurableQueue → Option QueuedArtifact → Type 0
InFlight ext key q none = Unit {0}
InFlight ext key q (some a) = (x : Item) × Heads ext key x q × (a ≡ artifact_of x)

pub record Steady (ext : External) (s : System) : Type 0 where
  pub listed : Listed ext s.queue
  pub flight : InFlight ext s.lane.key s.queue s.flight

module _ (ext : External) where
  InFlight-keeps :
      (key : LaneKey) (q r : DurableQueue) (o : Option QueuedArtifact)
      → ((x : Item) → Heads ext key x q → Heads ext key x r)
      → InFlight ext key q o
      → InFlight ext key r o
  InFlight-keeps key q r none keeps f = tt
  InFlight-keeps key q r (some a) keeps (x, h, e) = (x, keeps x h, e)

  enqueue-Listed :
      (w : Write) (now : ℕ) (kind : ArtifactType) (payload : Bytes) (q : DurableQueue)
      → Listed ext q
      → Listed ext (enqueue_or_find ext w now kind payload q).0
  enqueue-Listed w now kind payload q (xs, rep) =
      by_outcome (enqueue_or_find ext w now kind payload q)
        (enqueue_or_find-Admitted ext q xs rep w now kind payload)
    where
      by_outcome :
          (r : DurableQueue × Outcome)
          → Admitted ext q xs (artifact_id ext kind payload) kind payload r
          → Listed ext r.0
      by_outcome (q', queued a true) t = (xs, subst (λ s. Rep ext s xs) (sym t.0) rep)
      by_outcome (q', queued a false) t = (xs ++ (t.0 ∷ []), t.2)
      by_outcome (q', refused e) t = (xs, t)

  remove-Listed :
      (io : RetireIo) (id : String) (q : DurableQueue)
      → Listed ext q
      → Listed ext (remove ext io id q).0
  remove-Listed io id q (xs, rep) =
      by_result (remove ext io id q) (remove-Retired ext xs id io q rep)
    where
      by_result : (r : DurableQueue × Option QueueError) → Retired ext xs id q r → Listed ext r.0
      by_result (q', some e) t = (xs, t)
      by_result (q', none) t = (without id xs, t.0)

  finish-Listed :
      (domain : String → Bool) (io : AttemptIo) (reply : Answer) (a : QueuedArtifact)
      (l : DeliveryLane) (q : DurableQueue)
      → Listed ext q
      → Listed ext (finish_attempt ext domain io reply a l q).queue
  finish-Listed domain io reply a l q (xs, rep) =
      by_end (finish_attempt ext domain io reply a l q)
        (finish_attempt ext domain io reply a l q).failure
        (finish-Settled ext domain xs a l q rep io reply)
    where
      by_end : (f : Finished) (e : Option Failure) → Settled ext xs a reply f e → Listed ext f.queue
      by_end f (some e) t = (xs, t)
      by_end f none t = (without a.id xs, t.3)

  -- What an attempt gives to the channel is the lane's head.
  began-InFlight :
      (q : DurableQueue) (l : DeliveryLane)
      → Listed ext q
      → ((begin_attempt ext q l).0.key ≡ l.key)
        × InFlight ext l.key q (flight_of (begin_attempt ext q l).1)
  unfolding begin_attempt adopted_head release_held_unless
  began-InFlight q l (xs, rep) = elim (Option-cases (first (in_lane ext l.key) xs)) [
    | inl empty ↦
        let peek : peek_lane l.key q ≡ none =
          peek_lane-first ext q xs rep l.key ∙ ground (arith, empty) in
        rw (peek, adopted_head) (refl, tt)
    | inr (x, found) ↦
        let peek : peek_lane l.key q ≡ some (artifact_of x) =
          peek_lane-first ext q xs rep l.key ∙ ground (arith, found) in
        let l' : DeliveryLane = record l { wake = false } in
        rw (peek, adopted_head)
          (elim (Bool-cases
            (holds_id (artifact_of x).id (adopt_durable_hold ext (artifact_of x) q l'))) [
              | inl here ↦ rw here (adopt-key ext (artifact_of x) q l', tt)
              | inr free ↦ rw free (adopt-key ext (artifact_of x) q l', (x, (xs, rep, found), refl))
            ])
  ]

  keep-Steady :
      (s : System) (l : DeliveryLane)
      → l.key ≡ s.lane.key
      → Steady ext s
      → Steady ext (record s { lane = l })
  keep-Steady s l same h = record {
    listed = h.listed;
    flight = subst (λ k. InFlight ext k s.queue s.flight) (sym same) h.flight;
  }

  store-Steady :
      (s : System) (r : DurableQueue)
      → Listed ext r
      → ((x : Item) → Heads ext s.lane.key x s.queue → Heads ext s.lane.key x r)
      → Steady ext s
      → Steady ext (record s { queue = r })
  store-Steady s r lists keeps h = record {
    listed = lists;
    flight = InFlight-keeps s.lane.key s.queue r s.flight keeps h.flight;
  }

  module _ (domain : String → Bool) (w : Settings) (reminder : ℕ) where
    step-Steady :
        (s r : System) (sent : Option QueuedArtifact)
        → Step ext domain w reminder s sent r
        → Steady ext s
        → Steady ext r
    step-Steady _ _ _ (turned at e s) h =
        keep-Steady s _ (event-SameHold ext w reminder at e s.lane).0 h
    step-Steady _ _ _ (began s idle) h =
        let b = began-InFlight s.queue s.lane h.listed in
        record {
          listed = h.listed;
          flight =
              subst (λ k. InFlight ext k s.queue (flight_of (begin_attempt ext s.queue s.lane).1))
                (sym b.0) b.1;
        }
    step-Steady _ _ _ (answered_with io reply a s busy) h = record {
      listed = finish-Listed domain io reply a s.lane s.queue h.listed;
      flight = tt;
    }
    step-Steady _ _ _ (failed_with at after e s) h =
        keep-Steady s _ (failure-SameHold ext w reminder at after e s.lane).0 h
    step-Steady _ _ _ (succeeded delivered s) h = keep-Steady s _ (unfold after_success in refl) h
    step-Steady _ _ _ (handed_off s) h = keep-Steady s _ refl h
    step-Steady _ _ _ (admitted io now kind payload s) h =
        store-Steady s _ (enqueue-Listed io now kind payload s.queue h.listed)
          (λ x. enqueue-Heads ext s.lane.key x io now kind payload s.queue) h
    step-Steady _ _ _ (retired_elsewhere io id s other) h =
        store-Steady s _ (remove-Listed io id s.queue h.listed)
          (λ x. remove-Heads ext s.lane.key x io id s.queue other) h
    step-Steady _ _ _ (hold_written io r s) h =
        store-Steady s _ (h.listed.0, hold-Rep io r s.queue h.listed.1)
          (λ x. hold-Heads ext s.lane.key x io r s.queue) h
    step-Steady _ _ _ (backoff_written io r s) h =
        store-Steady s _ (h.listed.0, set_backoff-Rep io r s.queue h.listed.1)
          (λ x. set_backoff-Heads ext s.lane.key x io r s.queue) h
    step-Steady _ _ _ (backoff_cleared io id s) h =
        store-Steady s _ (h.listed.0, clear-Rep io id s.queue h.listed.1)
          (λ x. clear-Heads ext s.lane.key x io id s.queue) h
    step-Steady _ _ _ (restarted at now q s stored same holds) h = record {
      listed = (h.listed.0, same h.listed.0 h.listed.1);
      flight = tt;
    }

    -- Whatever the lane and the other tasks do, in any order, the queue keeps standing for an
    -- ordered list, and the artifact that the channel has been given is the head of the lane until
    -- it is answered: no admission and no other lane takes its place; provided the run starts so. A
    -- restart in the run is by assumption one whose opening gives a queue that stands for the same
    -- list and has the same holds, that of the lane among them; it gives up the artifact that was
    -- sent.
    pub run-Steady :
        (s r : System) (sent : List QueuedArtifact)
        → Run ext domain w reminder s sent r
        → Steady ext s
        → Steady ext r
    run-Steady _ _ _ (still s) h = h
    run-Steady _ _ _ (quiet s r t sent step rest) h =
        run-Steady r t sent rest (step-Steady s r none step h)
    run-Steady _ _ _ (sends s r t a sent step rest) h =
        run-Steady r t sent rest (step-Steady s r (some a) step h)
