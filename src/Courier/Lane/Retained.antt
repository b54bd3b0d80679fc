-- ===== src/Courier/Lane/Retained.antt =====
-- What leaves a lane, and when (`deliverHead` of internal/evidence/courier/worker.go).
use ori_gateway.Base.{
  ℕ, suc, ◌/◌, ◌≤◌, String, ◌≡◌, refl, sym, ap, ◌∙◌, ◌⊎◌, inl, inr, Bool, true, false, not, ◌&&◌,
  ◌||◌, Option, none, some, List, [], ◌∷◌, map, arith, eq_iff, if-both, Bool-cases, Option-cases,
  is_some, length, ◌==◌, nat_eq, string_eq,
}
use ori_gateway.Courier.Types.{QueuedArtifact}
use ori_gateway.Courier.Routing.{Json}
use ori_gateway.Courier.Queue.State.{DurableQueue, External, QueueError}
use ori_gateway.Courier.Queue.Retire.{remove}
use ori_gateway.Courier.Queue.Retirement.{Retired, remove-Retired}
use ori_gateway.Courier.Queue.Model.Items.{Item, without}
use ori_gateway.Courier.Queue.Model.Rep.{Rep}
use ori_gateway.Courier.Sidecars.{max_safe_integer}
use ori_gateway.Courier.Authority.{
  AuthorityArtifact, Outbound, AuthorityRouting, is_receipt, is_envelope, bad_range, in_range,
  decode_outbound, decode_authority, authority_routing_projection, validate_authority_routing,
  valid_authority_artifact_type,
}
use ori_gateway.Courier.Sidecars.Valid.{hold_record}
use ori_gateway.Courier.Backoff.{millisecond}
use ori_gateway.Courier.Lane.{Failure, DeliveryLane, hold_head}
use ori_gateway.Courier.Lane.Store.{hold-Rep}
use ori_gateway.Courier.Lane.Attempt.{
  DeliveryResult, Answer, no_answer, unrecognised_outcome, answered, AttemptIo, Finished, stage,
  stages_all, route_returned, finish_refused, retire_delivered, retired_as, settle, finish_accepted,
  finish_attempt,
}

-- A delivery receipt of the authority for the device of an envelope, with the envelope's sequence in
-- its range.
pub record Covering (json : Json) (queued : QueuedArtifact) (b : AuthorityArtifact) : Type 0 where
  pub outbound : Outbound
  pub routing : AuthorityRouting
  pub lo : ℕ
  pub hi : ℕ
  pub sent_as : decode_outbound json queued.payload ≡ some outbound
  pub returned_as : decode_authority json b.payload ≡ some routing
  pub receipt : is_receipt b.kind ≡ true
  pub same_device : routing.device ≡ outbound.device
  pub from_lo : routing.from_seq ≡ some lo
  pub to_hi : routing.to_seq ≡ some hi
  pub above : lo ≤ outbound.local_seq
  pub below : outbound.local_seq ≤ hi
  pub from_one : 1 ≤ lo
  pub safe : hi ≤ max_safe_integer

-- One of a list is so.
abbrev pub Some : {A : Type 0} → (A → Type 0) → List A → Type 0
Some P [] = ⊥
Some P (b ∷ rest) = P b ⊎ Some P rest

not_found : {A : Type 0} {a : A} → ◌≡◌ {A = Option A} none (some a) → ⊥
not_found e = cc

covering_range :
    (n : ℕ) (f t : Option ℕ)
    → bad_range f t ≡ false
    → in_range n f t ≡ true
    → (lo : ℕ) × (hi : ℕ) × (f ≡ some lo)
      × (t ≡ some hi)
      × (lo ≤ n)
      × (n ≤ hi)
      × (1 ≤ lo)
      × (hi ≤ max_safe_integer)
covering_range n none t b i = cc
covering_range n (some lo) none b i = cc
covering_range n (some lo) (some hi) b i =
    (lo, hi, refl, refl, ground arith, ground arith, ground arith, ground arith)

module _ (ext : External) (domain : String → Bool) (queued : QueuedArtifact) where
  projection_parts :
      (b : AuthorityArtifact) (routing : AuthorityRouting)
      → authority_routing_projection ext.json domain b.kind b.payload ≡ some routing
      → is_receipt b.kind ≡ true
      → (decode_authority ext.json b.payload ≡ some routing)
        × (bad_range routing.from_seq routing.to_seq ≡ false)
  unfolding authority_routing_projection
  projection_parts b routing e receipt = elim (Option-cases (decode_authority ext.json b.payload)) [
    | inl bad ↦ absurd (not_found (rw (bad, authority_routing_projection) at e))
    | inr (found, is) ↦ ground (arith, rw (is, authority_routing_projection) at e)
  ]

  covers-Covering :
      (b : AuthorityArtifact) (device : String)
      → validate_authority_routing ext.json domain queued b ≡ some (device, true)
      → Covering ext.json queued b
  unfolding validate_authority_routing
  covers-Covering b device e = elim (Option-cases (decode_outbound ext.json queued.payload)) [
    | inl bad ↦ absurd (not_found (rw (bad, validate_authority_routing) at e))
    | inr (outbound, sent) ↦
        let f = rw (sent, validate_authority_routing) at e in
        elim (Option-cases (authority_routing_projection ext.json domain b.kind b.payload)) [
          | inl bad ↦ absurd (ground (arith, bad))
          | inr (routing, is) ↦
              let g = rw (is, validate_authority_routing) at f in
              let facts : (is_receipt b.kind ≡ true)
                  × (routing.device ≡ outbound.device)
                  × (in_range outbound.local_seq routing.from_seq routing.to_seq ≡ true) =
                ground (arith, eq_iff routing.device outbound.device) in
              let parts = projection_parts b routing is facts.0 in
              let (lo, hi, from_lo, to_hi, above, below, one, safe) =
                covering_range outbound.local_seq routing.from_seq routing.to_seq parts.1 facts.2 in
              record {
                outbound = outbound;
                routing = routing;
                lo = lo;
                hi = hi;
                sent_as = sent;
                returned_as = parts.0;
                receipt = facts.0;
                same_device = facts.1;
                from_lo = from_lo;
                to_hi = to_hi;
                above = above;
                below = below;
                from_one = one;
                safe = safe;
              }
        ]
  ]

  by_cover :
      (b : AuthorityArtifact) (rest : List AuthorityArtifact) (device : String)
      (covers covered : Bool)
      → validate_authority_routing ext.json domain queued b ≡ some (device, covers)
      → (covered ≡ true → Some (Covering ext.json queued) rest)
      → (covers || covered) ≡ true
      → Some (Covering ext.json queued) (b ∷ rest)
  by_cover b rest device true covered valid later on = inl (covers-Covering b device valid)
  by_cover b rest device false covered valid later on = inr (later on)

  route-routed :
      (returned routed : List AuthorityArtifact) (covered : Bool)
      → route_returned ext domain queued returned ≡ some (routed, covered)
      → (map (λ b. b.payload) routed ≡ map (λ b. b.payload) returned)
        × (covered ≡ true → Some (Covering ext.json queued) returned)
  unfolding route_returned
  route-routed [] routed covered e = (ground arith, λ c. cc)
  route-routed (b ∷ rest) routed covered e =
      elim (Bool-cases (length b.payload == 0 || not (valid_authority_artifact_type b.kind))) [
        | inl bad ↦ absurd (not_found (rw (bad, route_returned) at e))
        | inr fine ↦
            let f = rw (fine, route_returned) at e in
            elim (Option-cases (validate_authority_routing ext.json domain queued b)) [
              | inl bad ↦ absurd (not_found (rw (bad, route_returned) at f))
              | inr ((device, covers), valid) ↦
                  let g = rw (valid, route_returned) at f in
                  elim (Option-cases (route_returned ext domain queued rest)) [
                    | inl bad ↦ absurd (not_found (rw (bad, route_returned) at g))
                    | inr ((routed', covered'), is) ↦
                        let h = rw (is, route_returned) at g in
                        let ih = route-routed rest routed' covered' is in
                        let same : (routed
                              ≡ record { kind = b.kind; device = device; payload = b.payload }
                                ∷ routed')
                            × (covered ≡ (covers || covered')) =
                          ground (arith, h) in
                        (
                          ap (map (λ c. c.payload)) same.0 ∙ ap (λ ps. b.payload ∷ ps) ih.0,
                          λ on. by_cover b rest device covers covered' valid ih.1 (sym same.1 ∙ on),
                        )
                  ]
            ]
      ]

stage_complete :
    (sink : ℕ → Bool) (i : ℕ) (routed : List AuthorityArtifact)
    → (stage sink i routed).1 ≡ true
    → (stage sink i routed).0 ≡ routed
unfolding stage
stage_complete sink i [] e = refl
stage_complete sink i (a ∷ rest) e = ground (arith, stage_complete sink (suc i) rest)

-- An artifact that leaves was accepted: the list loses it, what the authority returned is staged in
-- its order and bytes, and an envelope has a receipt that covers it. Any error leaves the list.
abbrev pub Settled :
    External → List Item → QueuedArtifact → Answer → Finished → Option Failure → Type 0
Settled ext xs queued a f (some e) = Rep ext f.queue xs
Settled ext xs queued a f none =
    (result : DeliveryResult) × (a ≡ answered result)
    × (result.accepted ≡ true)
    × Rep ext f.queue (without queued.id xs)
    × (map (λ b. b.payload) f.staged ≡ map (λ b. b.payload) result.authority_artifacts)
    × (is_envelope queued.kind ≡ true → Some (Covering ext.json queued) result.authority_artifacts)

module _ (ext : External) (domain : String → Bool) (xs : List Item) (queued : QueuedArtifact)
    (l : DeliveryLane) (q : DurableQueue) (rep : Rep ext q xs) (io : AttemptIo) where
  abbrev Ends : Answer → Finished → Type 0
  Ends a f = Settled ext xs queued a f f.failure

  refused-Settled :
      (result : DeliveryResult)
      → Ends (answered result) (finish_refused ext domain io result queued l q)
  unfolding finish_refused hold_head
  refused-Settled result =
      if-both (Ends (answered result)) result.retriable _ _ (λ _. rep)
        (λ _.
          if-both (Ends (answered result)) result.receiver_state _ _ (λ _. rep)
            (λ _.
              hold-Rep io.hold_write
                (hold_record ext queued result.refusal_status result.refusal_reason
                  (io.now / millisecond))
                q rep))

  retire-Settled :
      (result : DeliveryResult) (staged : List AuthorityArtifact)
      → result.accepted ≡ true
      → map (λ b. b.payload) staged ≡ map (λ b. b.payload) result.authority_artifacts
      → (is_envelope queued.kind ≡ true
          → Some (Covering ext.json queued) result.authority_artifacts)
      → Ends (answered result) (retire_delivered ext domain io staged queued l q)
  unfolding retire_delivered
  retire-Settled result staged yes_ same covers =
      by_removal (remove ext io.retire queued.id q)
        (remove-Retired ext xs queued.id io.retire q rep)
    where
      by_removal :
          (r : DurableQueue × Option QueueError)
          → Retired ext xs queued.id q r
          → Ends (answered result) (retired_as staged queued l r)
      by_removal (q', some e) t = t
      by_removal (q', none) t = (result, refl, yes_, t.0, same, covers)

  stages_all-same :
      (sink : Option (ℕ → Bool)) (routed : List AuthorityArtifact)
      → (stages_all sink routed).1 ≡ true
      → (stages_all sink routed).0 ≡ routed
  stages_all-same none [] e = refl
  stages_all-same none (b ∷ rest) e = ground arith
  stages_all-same (some sink) routed e = stage_complete sink 0 routed e

  accepted-Settled :
      (result : DeliveryResult)
      → result.accepted ≡ true
      → Ends (answered result) (finish_accepted ext domain io result queued l q)
  unfolding finish_accepted
  accepted-Settled result yes_ =
      if-both (Ends (answered result))
        (not (length result.authority_artifacts == 0) && not (is_some io.sink)) _ _ (λ _. rep)
        (λ _.
          by_route (route_returned ext domain queued result.authority_artifacts)
            (route-routed ext domain queued result.authority_artifacts))
    where
      by_route :
          (o : Option (List AuthorityArtifact × Bool))
          → ((routed : List AuthorityArtifact) (covered : Bool)
              → o ≡ some (routed, covered)
              → (map (λ b. b.payload) routed ≡ map (λ b. b.payload) result.authority_artifacts)
                × (covered ≡ true → Some (Covering ext.json queued) result.authority_artifacts))
          → Ends (answered result) (settle ext domain io queued l q o)
      by_route none facts = rep
      by_route (some (routed, covered)) facts =
          if-both (Ends (answered result)) (is_envelope queued.kind && not covered) _ _ (λ _. rep)
            (λ covers.
              if-both (Ends (answered result)) (not (stages_all io.sink routed).1) _ _ (λ _. rep)
                (λ complete.
                  retire-Settled result (stages_all io.sink routed).0 yes_
                    (ap (map (λ b. b.payload))
                        (stages_all-same io.sink routed (ground (arith, complete)))
                      ∙ (facts routed covered refl).0)
                    (λ envelope. (facts routed covered refl).1 (ground (arith, covers, envelope)))))

  -- After any answer of the channel, the artifact has left the list exactly when the attempt has no
  -- error, and then the authority accepted it, all that it returned is staged with its bytes
  -- unchanged, and an envelope has a receipt of its own device whose range holds its sequence; with
  -- an error the list is as it was, whatever the files, the sink and the store did.
  pub finish-Settled : (a : Answer) → Ends a (finish_attempt ext domain io a queued l q)
  unfolding finish_attempt
  finish-Settled no_answer = rep
  finish-Settled unrecognised_outcome = rep
  finish-Settled (answered result) =
      if-both (Ends (answered result)) (not result.accepted) _ _ (λ _. refused-Settled result)
        (λ yes_. accepted-Settled result (ground (arith, yes_)))
