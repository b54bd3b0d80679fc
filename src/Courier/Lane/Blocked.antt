-- ===== src/Courier/Lane/Blocked.antt =====
-- A refused head is not sent again (internal/evidence/courier/worker.go).
use ori_gateway.Base.{
  ℕ, ◌/◌, String, ◌≡◌, refl, sym, ap, subst, ◌∙◌, ◌⊎◌, inl, inr, Bool, true, false, Option, none,
  some, List, [], arith, eq_iff, Bool-cases, Option-cases, nat_eq, string_eq,
}
use ori_gateway.Base.Maps.{lookup}
use ori_gateway.Courier.Types.{key_eq, QueuedArtifact, HoldRecord, record_artifact}
use ori_gateway.Courier.Queue.Disk.{Write}
use ori_gateway.Courier.Queue.State.{DurableQueue, External, key_of, peek_lane}
use ori_gateway.Courier.Queue.Delivery.{artifact_of}
use ori_gateway.Courier.Queue.Model.Items.{Item, id_of}
use ori_gateway.Courier.Sidecars.Valid.{hold_record}
use ori_gateway.Courier.Sidecars.{hold_for, hold_sidecar, hold_record_version}
use ori_gateway.Courier.Backoff.{Settings, millisecond}
use ori_gateway.Courier.Lane.{
  Failure, channel_unavailable, channel_refused, channel_permanent_refusal, channel_receiver_state,
  head_held, runtime_sink, malformed_response, queue_retirement, HeldHead, DeliveryLane, new_lane,
  holds_id, adopt_durable_hold, adopted_head, release_held_unless, blocked, begin_attempt,
  hold_head,
}
use ori_gateway.Courier.Lane.Attempt.{
  AttemptIo, answered, DeliveryResult, finish_attempt, finish_refused,
}
use ori_gateway.Courier.Lane.Loop.{
  Readings, Event, woken, timer_fired, on_event, after_failure, after_success, restore,
}
use ori_gateway.Courier.Lane.Store.{
  Heads, Heads-peek, Heads-key, enqueue-Heads, remove-Heads, hold-Heads, set_backoff-Heads,
  clear-Heads, enqueue-holds, hold-lookup, set_backoff-holds, clear-holds, remove-hold,
}
use ori_gateway.Courier.Lane.Run.{
  System, finished, flight_of, StoredHold, Step, turned, began, answered_with, failed_with,
  succeeded, handed_off, admitted, retired_elsewhere, hold_written, backoff_written,
  backoff_cleared, restarted, Run, still, quiet, sends,
}

-- The lane's head is `x`, nothing is in flight, and the hold on `x` is in memory or in the store.
pub record Refused (ext : External) (x : Item) (s : System) : Type 0 where
  pub head : Heads ext s.lane.key x s.queue
  pub nothing_sent : s.flight ≡ none
  pub noted : (holds_id (id_of x) s.lane ≡ true) ⊎ StoredHold (id_of x) s.queue

contradicted {ℓ} : {A : Type ℓ} {a : A} → ◌≡◌ {A = Option A} (some a) none → ⊥
contradicted e = cc

module _ (ext : External) where
  -- What an adoption leaves of the hold of an id.
  pub adopt-key :
      (a : QueuedArtifact) (q : DurableQueue) (l : DeliveryLane)
      → (adopt_durable_hold ext a q l).key ≡ l.key
  unfolding adopt_durable_hold
  adopt-key a q l = ground arith

  -- The turns of the loop leave the key and the hold.
  abbrev pub SameHold : DeliveryLane → DeliveryLane → Type 0
  SameHold l l' = (l'.key ≡ l.key) × (l'.held ≡ l.held)

  pub event-SameHold :
      (w : Settings) (reminder : ℕ) (at : Readings) (e : Event) (l : DeliveryLane)
      → SameHold l (on_event w reminder at e l).0
  unfolding on_event
  event-SameHold w reminder at woken l = (refl, refl)
  event-SameHold w reminder at timer_fired l = ground arith

  pub failure-SameHold :
      (w : Settings) (reminder : ℕ) (at after : Readings) (e : Failure) (l : DeliveryLane)
      → SameHold l (after_failure ext w reminder at after e l).lane
  unfolding after_failure
  failure-SameHold w reminder at after head_held l = (refl, refl)
  failure-SameHold w reminder at after channel_permanent_refusal l = (refl, refl)
  failure-SameHold w reminder at after channel_receiver_state l = (refl, refl)
  failure-SameHold w reminder at after channel_unavailable l = (refl, refl)
  failure-SameHold w reminder at after (channel_refused floor) l = (refl, refl)
  failure-SameHold w reminder at after runtime_sink l = (refl, refl)
  failure-SameHold w reminder at after malformed_response l = (refl, refl)
  failure-SameHold w reminder at after queue_retirement l = (refl, refl)

  pub restore-key :
      (w : Settings) (at : Readings) (now : ℕ) (q : DurableQueue) (l : DeliveryLane)
      → (restore ext w at now q l).0.key ≡ l.key
  unfolding restore adopted_head
  restore-key w at now q l = ground (arith, Option-cases (peek_lane l.key q))

module _ (ext : External) (x : Item) where
  adopt-holds_id :
      (q : DurableQueue) (l : DeliveryLane)
      → (holds_id (id_of x) l ≡ true) ⊎ StoredHold (id_of x) q
      → holds_id (id_of x) (adopt_durable_hold ext (artifact_of x) q l) ≡ true
  unfolding adopt_durable_hold record_artifact hold_for
  adopt-holds_id q l (inl here) = rw here here
  adopt-holds_id q l (inr (r, found, named)) = elim (Bool-cases (holds_id (id_of x) l)) [
    | inl here ↦ rw here here
    | inr absent ↦
        rw absent (rw (found, adopt_durable_hold) ((eq_iff r.queue_record (id_of x)).1 named))
  ]

  -- Behind the hold nothing is sent, and the hold is in memory.
  begin-blocked :
      (q : DurableQueue) (l : DeliveryLane)
      → Heads ext l.key x q
      → (holds_id (id_of x) l ≡ true) ⊎ StoredHold (id_of x) q
      → ((begin_attempt ext q l).1 ≡ blocked)
        × ((begin_attempt ext q l).0.key ≡ l.key)
        × (holds_id (id_of x) (begin_attempt ext q l).0 ≡ true)
  unfolding begin_attempt adopted_head release_held_unless record_artifact
  begin-blocked q l h noted =
      let l' : DeliveryLane =
        adopt_durable_hold ext (artifact_of x) q (record l { wake = false }) in
      let here : holds_id (id_of x) l' ≡ true =
        adopt-holds_id q (record l { wake = false }) noted in
      rw (Heads-peek ext l.key x q h, adopted_head)
        (rw here (refl, adopt-key ext (artifact_of x) q (record l { wake = false }), here))

  same-Refused :
      (s : System) (l : DeliveryLane)
      → SameHold ext s.lane l
      → Refused ext x s
      → Refused ext x (record s { lane = l })
  same-Refused s l same f = record {
    head = subst (λ k. Heads ext k x s.queue) (sym same.0) f.head;
    nothing_sent = f.nothing_sent;
    noted = elim f.noted [ inl here ↦ inl (rw (same.1) here) | inr stored ↦ inr stored ];
  }

  -- A store that keeps the lane's head and the hold of the id.
  store-Refused :
      (s : System) (q : DurableQueue)
      → Heads ext s.lane.key x q
      → (StoredHold (id_of x) s.queue → StoredHold (id_of x) q)
      → Refused ext x s
      → Refused ext x (record s { queue = q })
  store-Refused s q h keeps f = record {
    head = h;
    nothing_sent = f.nothing_sent;
    noted = elim f.noted [ inl here ↦ inl here | inr stored ↦ inr (keeps stored) ];
  }

  hold-StoredHold :
      (w : Write) (given : HoldRecord) (q : DurableQueue)
      → StoredHold (id_of x) q
      → StoredHold (id_of x) (hold_sidecar ext w given q).0
  hold-StoredHold w given q (r, found, named) = elim (hold-lookup ext w given (id_of x) q) [
    | inl same ↦ (r, same ∙ found, named)
    | inr (k, fresh) ↦ (record given { v = hold_record_version }, fresh, k)
  ]

  in_memory :
      (l : DeliveryLane)
      → holds_id (id_of x) l ≡ true
      → (h : HeldHead) × (l.held ≡ some h) × (h.hold.queue_record ≡ id_of x)
  in_memory l here = elim (Option-cases l.held) [
    | inl absent ↦ cc
    | inr (h, is) ↦ (h, is, ground (arith, eq_iff h.hold.queue_record (id_of x)))
  ]

  module _ (domain : String → Bool) (w : Settings) (reminder : ℕ) where
    step-Refused :
        (s r : System) (sent : Option QueuedArtifact)
        → Step ext domain w reminder s sent r
        → Refused ext x s
        → Refused ext x r × (sent ≡ none)
    step-Refused _ _ _ (turned at e s) f =
        (same-Refused s _ (event-SameHold ext w reminder at e s.lane) f, refl)
    step-Refused _ _ _ (began s idle) f =
        let b = begin-blocked s.queue s.lane f.head f.noted in
        (
          record {
            head = subst (λ k. Heads ext k x s.queue) (sym b.1) f.head;
            nothing_sent = ap flight_of b.0;
            noted = inl b.2;
          },
          ap flight_of b.0,
        )
    step-Refused _ _ _ (answered_with io reply a s busy) f =
        absurd (contradicted (sym busy ∙ f.nothing_sent))
    step-Refused _ _ _ (failed_with at after e s) f =
        (same-Refused s _ (failure-SameHold ext w reminder at after e s.lane) f, refl)
    step-Refused _ _ _ (succeeded delivered s) f =
        (same-Refused s _ (unfold after_success in (refl, refl)) f, refl)
    step-Refused _ _ _ (handed_off s) f = (same-Refused s _ (refl, refl) f, refl)
    step-Refused _ _ _ (admitted io now kind payload s) f = (
      store-Refused s _ (enqueue-Heads ext s.lane.key x io now kind payload s.queue f.head)
          (λ (r, found, named). (
            r,
            ap (lookup (id_of x)) (enqueue-holds ext io now kind payload s.queue) ∙ found,
            named,
          ))
          f,
      refl,
    )
    step-Refused _ _ _ (retired_elsewhere io id s other) f = (
      store-Refused s _ (remove-Heads ext s.lane.key x io id s.queue other f.head)
          (λ (r, found, named). (
            r,
            remove-hold id (id_of x)
                  (λ same. other (
                    ap (λ i. key_of i s.queue.lane_keys) same
                    ∙ Heads-key ext s.lane.key x s.queue f.head))
                  ext io s.queue
                ∙ found,
            named,
          ))
          f,
      refl,
    )
    step-Refused _ _ _ (hold_written io r s) f = (
      store-Refused s _ (hold-Heads ext s.lane.key x io r s.queue f.head)
          (hold-StoredHold io r s.queue) f,
      refl,
    )
    step-Refused _ _ _ (backoff_written io r s) f = (
      store-Refused s _ (set_backoff-Heads ext s.lane.key x io r s.queue f.head)
          (λ (h, found, named).
            (h, ap (lookup (id_of x)) (set_backoff-holds io r s.queue) ∙ found, named))
          f,
      refl,
    )
    step-Refused _ _ _ (backoff_cleared io id s) f = (
      store-Refused s _ (clear-Heads ext s.lane.key x io id s.queue f.head)
          (λ (h, found, named).
            (h, ap (lookup (id_of x)) (clear-holds io id s.queue) ∙ found, named))
          f,
      refl,
    )
    step-Refused _ _ _ (restarted at now q s stored same holds) f = (
      record {
        head =
            subst (λ k. Heads ext k x q) (sym (restore-key ext w at now q (new_lane s.lane.key)))
              (f.head.0, same f.head.0 f.head.1, f.head.2);
        nothing_sent = refl;
        noted = inr (
            reopened (elim f.noted [
              | inr kept ↦ kept
              | inl here ↦
                  let (h, is, named) = in_memory s.lane here in
                  subst (λ i. StoredHold i s.queue) named (stored h is)
            ]));
      },
      refl,
    )
      where
        reopened : StoredHold (id_of x) s.queue → StoredHold (id_of x) q
        reopened (r, found, named) = (r, holds (id_of x) ∙ found, named)

    run-Refused :
        (s r : System) (sent : List QueuedArtifact)
        → Run ext domain w reminder s sent r
        → Refused ext x s
        → sent ≡ []
    run-Refused _ _ _ (still s) f = refl
    run-Refused _ _ _ (quiet s r t sent step rest) f =
        run-Refused r t sent rest (step-Refused s r none step f).0
    run-Refused _ _ _ (sends s r t a sent step rest) f =
        absurd (contradicted ((step-Refused s r (some a) step f).1))

    hold-Refused :
        (io : AttemptIo) (result : DeliveryResult) (s : System)
        → result.accepted ≡ false
        → result.retriable ≡ false
        → result.receiver_state ≡ false
        → Heads ext s.lane.key x s.queue
        → Refused ext x (finished ext domain w reminder io (answered result) (artifact_of x) s)
    unfolding finish_attempt finish_refused hold_head hold_record record_artifact
    hold-Refused io result s refused_ final bytes h =
        rw (refused_, final, bytes)
          (record {
            head =
                hold-Heads ext s.lane.key x io.hold_write
                  (hold_record ext (artifact_of x) result.refusal_status result.refusal_reason
                    (io.now / millisecond))
                  s.queue h;
            nothing_sent = refl;
            noted = inl ((eq_iff (id_of x) (id_of x)).1 refl);
          })

    -- Once the authority has refused a lane's head for good, the lane sends nothing more: not when it
    -- is woken, on its timer, after a failure, while other artifacts are admitted, other lanes retire
    -- theirs and sidecars are written, and not after a restart whose opening gives back the same
    -- list of records and the same holds, the lane's among them - in any order, for as long as the
    -- process and its successors run.
    pub refused-never_sent :
        (io : AttemptIo) (result : DeliveryResult) (s r : System) (sent : List QueuedArtifact)
        → result.accepted ≡ false
        → result.retriable ≡ false
        → result.receiver_state ≡ false
        → Heads ext s.lane.key x s.queue
        → Run ext domain w reminder
            (finished ext domain w reminder io (answered result) (artifact_of x) s)
            sent
            r
        → sent ≡ []
    refused-never_sent io result s r sent refused_ final bytes h run =
        run-Refused _ r sent run (hold-Refused io result s refused_ final bytes h)
