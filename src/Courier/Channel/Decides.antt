-- ===== src/Courier/Channel/Decides.antt =====
-- The refusal policy decides what a lane does with a response (internal/evidence/courier/channel.go and
-- worker.go against internal/evidence/refusal/refusal.go).
use ori_gateway.Base.{
  ℕ, ◌/◌, String, ◌≡◌, refl, sym, subst, ◌∙◌, ◌≢◌, ◌⊎◌, inl, inr, Bool, some, nat_eq, string_eq,
}
use ori_gateway.Refusal.{policy, Class, hold, handoff, backoff}
use ori_gateway.Courier.Types.{QueuedArtifact}
use ori_gateway.Courier.Queue.State.{DurableQueue, External}
use ori_gateway.Courier.Backoff.{millisecond}
use ori_gateway.Courier.Sidecars.Valid.{hold_record}
use ori_gateway.Courier.Lane.{
  channel_refused, channel_receiver_state, channel_permanent_refusal, malformed_response,
  DeliveryLane, HeldHead, hold_head,
}
use ori_gateway.Courier.Lane.Attempt.{
  Answer, DeliveryResult, no_answer, answered, unrecognised_outcome, Finished, AttemptIo,
  finish_attempt, finish_refused,
}
use ori_gateway.Courier.Channel.{Response, ChannelResponse, read_response, refused_result}
use ori_gateway.Courier.Channel.Forms.{WellFormed}
use ori_gateway.Courier.Channel.Classes.{
  Carries, Classified, Says-read, read_response-Classified, read_response-Says,
}

answers_differ : (r : DeliveryResult) → unrecognised_outcome ≡ answered r → ⊥
answers_differ r e = cc

-- What a refusal of a class makes of an attempt. A hold is in the lane's memory with the artifact's
-- name, whether or not its sidecar was written; else the lane's hold and the queue are as they were.
abbrev pub Decided :
    Class → ℕ → ℕ → QueuedArtifact → DeliveryLane → DurableQueue → Finished → Type 0
Decided hold retry now queued l q f =
    (f.failure ≡ some channel_permanent_refusal)
    × (h : HeldHead) × (f.lane.held ≡ some h)
    × (h.hold.queue_record ≡ queued.id)
    × (h.hold.first_held_at_ms ≡ now / millisecond)
Decided handoff retry now queued l q f =
    (f.failure ≡ some channel_receiver_state) × (f.lane.held ≡ l.held) × (f.queue ≡ q)
Decided backoff retry now queued l q f =
    (f.failure ≡ some (channel_refused retry)) × (f.lane.held ≡ l.held) × (f.queue ≡ q)

module _ (ext : External) (domain : String → Bool) (io : AttemptIo) (queued : QueuedArtifact)
    (l : DeliveryLane) (q : DurableQueue) where
  refused-Decided :
      (status : ℕ) (reason : String) (retry : ℕ)
      → Decided
          (policy status reason)
          retry
          io.now
          queued
          l
          q
          (finish_attempt ext domain io (answered (refused_result status reason retry)) queued l q)
  unfolding finish_attempt finish_refused hold_head hold_record
  refused-Decided status reason retry = by_class (policy status reason) refl
    where
      by_class :
          (c : Class)
          → policy status reason ≡ c
          → Decided c retry io.now queued l q (
              finish_attempt ext domain io
                (answered (refused_result status reason retry))
                queued
                l
                q)
      by_class hold e = rw (e, finish_refused) (refl, _, refl, refl, refl)
      by_class handoff e = rw (e, finish_refused) (refl, refl, refl)
      by_class backoff e = rw (e, finish_refused) (refl, refl, refl)

  -- A response other than a 200 ends the attempt in one of two ways. If its body is well formed for
  -- its status, as the policy has it for the status and reason: held in the lane under the
  -- artifact's name from the time of the attempt, waiting for a handoff, or backed off by the wait
  -- that the response asks for. If it is not, as malformed, with the lane's hold and the queue as
  -- they were.
  pub response-decides :
      (resp : Response) (digest : String)
      → resp.status ≢ 200
      → let f = finish_attempt ext domain io (read_response resp digest) queued l q in
        ((wire : ChannelResponse) × (retry : ℕ) × Carries resp wire
          × WellFormed resp wire digest retry
          × Decided (policy resp.status wire.reason) retry io.now queued l q f)
        ⊎ (((wire : ChannelResponse) (retry : ℕ)
              → Carries resp wire
              → WellFormed resp wire digest retry
              → ⊥)
            × (f.failure ≡ some malformed_response)
            × (f.lane.held ≡ l.held)
            × (f.queue ≡ q))
  unfolding finish_attempt
  response-decides resp digest other = by_answer (read_response resp digest) refl
    where
      Ends : Answer → Type 0
      Ends a =
          let f = finish_attempt ext domain io a queued l q in
          ((wire : ChannelResponse) × (retry : ℕ) × Carries resp wire
            × WellFormed resp wire digest retry
            × Decided (policy resp.status wire.reason) retry io.now queued l q f)
          ⊎ (((wire : ChannelResponse) (retry : ℕ)
                → Carries resp wire
                → WellFormed resp wire digest retry
                → ⊥)
              × (f.failure ≡ some malformed_response)
              × (f.lane.held ≡ l.held)
              × (f.queue ≡ q))

      by_answer : (a : Answer) → read_response resp digest ≡ a → Ends a
      by_answer no_answer e =
          absurd (subst (Classified resp digest) e (read_response-Classified resp digest))
      by_answer unrecognised_outcome e = inr (
        (λ wire retry carries w.
            let read = Says-read resp digest _ (wire, carries, inr (retry, w, refl)) in
            answers_differ _ (sym e ∙ read)),
        refl,
        refl,
        refl,
      )
      by_answer (answered result) e =
          let (wire, carries, says) = (read_response-Says resp digest result).0 e in
          elim says [
            | inl (artifacts, accepted, is) ↦ absurd (other accepted.0)
            | inr (retry, w, is) ↦ inl (
              wire,
              retry,
              carries,
              w,
              subst
                  (λ r.
                    Decided (policy resp.status wire.reason) retry io.now queued l q
                      (finish_attempt ext domain io (answered r) queued l q))
                  (sym is) (refused-Decided resp.status wire.reason retry),
            )
          ]
