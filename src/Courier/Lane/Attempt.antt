-- ===== src/Courier/Lane/Attempt.antt =====
-- The rest of an attempt once the channel has answered (`deliverHead` of
-- internal/evidence/courier/worker.go, and `DeliveryResult` of courier.go).
use ori_gateway.Base.{
  ℕ, suc, String, Bool, true, false, not, ◌&&◌, ◌||◌, Option, none, some, List, [], ◌∷◌,
  if◌then◌else◌, length, is_some, ◌==◌, nat_eq, string_eq,
}
use ori_gateway.Refusal.{recorded_reason, unrecognised}
use ori_gateway.Courier.Types.{ArtifactType, anchor_registration, QueuedArtifact}
use ori_gateway.Courier.Queue.Disk.{Write}
use ori_gateway.Courier.Queue.State.{DurableQueue, External, QueueError}
use ori_gateway.Courier.Queue.Retire.{RetireIo, remove}
use ori_gateway.Courier.Authority.{
  AuthorityArtifact, valid_authority_artifact_type, validate_authority_routing, is_envelope,
}
use ori_gateway.Courier.Lane.{
  Failure, channel_unavailable, channel_refused, channel_permanent_refusal, channel_receiver_state,
  runtime_sink, malformed_response, queue_retirement, DeliveryLane, no_artifact, hold_head,
}

pub record DeliveryResult : Type 0 where
  pub accepted : Bool
  pub retriable : Bool
  pub retry_after : ℕ
  pub receiver_state : Bool
  pub refusal_status : ℕ
  pub refusal_reason : String
  pub authority_artifacts : List AuthorityArtifact

-- What `EvidenceChannel.Deliver` answers: an error, one of which is ErrUnrecognisedOutcome, or a
-- result.
pub data Answer : Type 0 where
  no_answer unrecognised_outcome : Answer
  answered : DeliveryResult → Answer

-- What the store, the sink and the clock answer in one attempt. `sink` is `none` where the worker has
-- none, and says for each call of `Store`, by its number, whether it returned nil.
pub record AttemptIo : Type 0 where
  pub sink : Option (ℕ → Bool)
  pub hold_write : Write
  pub retire : RetireIo
  pub now : ℕ

-- An attempt's end: the state, the artifacts staged, the error if any, and whether the evidence lane
-- of the device is handed off to.
pub record Finished : Type 0 where
  pub lane : DeliveryLane
  pub queue : DurableQueue
  pub staged : List AuthorityArtifact
  pub failure : Option Failure
  pub handoff : Bool

abbrev pub is_anchor : ArtifactType → Bool
is_anchor anchor_registration = true
is_anchor _ = false

abbrev pub with_reason : String → DeliveryLane → DeliveryLane
with_reason reason l = record l { attempt_reason = reason }

-- The artifact stays, with the reason recorded.
abbrev pub fails :
    Failure → String → List AuthorityArtifact → DeliveryLane → DurableQueue → Finished
fails e reason staged l q = record {
  lane = with_reason reason l;
  queue = q;
  staged = staged;
  failure = some e;
  handoff = false;
}

-- The sink's calls in order, up to the first error: what was staged, and whether all was.
unfoldable pub stage : (ℕ → Bool) → ℕ → List AuthorityArtifact → List AuthorityArtifact × Bool
stage sink i [] = ([], true)
stage sink i (a ∷ rest) =
    let further : List AuthorityArtifact × Bool = stage sink (suc i) rest in
    if sink i then (a ∷ further.0, further.1) else ([], false)

abbrev pub stages_all : Option (ℕ → Bool) → List AuthorityArtifact → List AuthorityArtifact × Bool
stages_all none routed = ([], length routed == 0)
stages_all (some sink) routed = stage sink 0 routed

-- What the store's answer to the removal makes of the attempt.
abbrev pub retired_as :
    List AuthorityArtifact
    → QueuedArtifact
    → DeliveryLane
    → DurableQueue × Option QueueError
    → Finished
retired_as staged queued l (q, some e) = record {
  lane = l;
  queue = q;
  staged = staged;
  failure = some queue_retirement;
  handoff = false;
}
retired_as staged queued l (q, none) = record {
  lane = record l {
    timing = record l.timing { attempts = 0; attempted_id = "" };
    attempted = no_artifact;
  };
  queue = q;
  staged = staged;
  failure = none;
  handoff = is_anchor queued.kind;
}

module _ (ext : External) (domain : String → Bool) where
  -- The loop over the returned artifacts: those to stage, with their devices, and whether one covers
  -- the envelope. `none` is a malformed answer.
  unfoldable pub route_returned :
      QueuedArtifact → List AuthorityArtifact → Option (List AuthorityArtifact × Bool)
  unfolding valid_authority_artifact_type validate_authority_routing
  route_returned queued [] = some ([], false)
  route_returned queued (a ∷ rest) =
      if length a.payload == 0 || not (valid_authority_artifact_type a.kind)
      then none
      else elim (validate_authority_routing ext.json domain queued a) [
        | none ↦ none
        | some (device, covers) ↦ elim (route_returned queued rest) [
          | none ↦ none
          | some (routed, covered) ↦ some (
            record { kind = a.kind; device = device; payload = a.payload } ∷ routed,
            covers || covered,
          )
        ]
      ]

  -- A refusal: its class decides between a back-off, a wait for a handoff and a hold.
  unfoldable pub finish_refused :
      AttemptIo → DeliveryResult → QueuedArtifact → DeliveryLane → DurableQueue → Finished
  unfolding recorded_reason hold_head
  finish_refused io result queued l q =
      let reason = recorded_reason result.refusal_status result.refusal_reason in
      if result.retriable
      then fails (channel_refused result.retry_after) reason [] l q
      else if result.receiver_state
      then fails channel_receiver_state reason [] l q
      else let (q', l') =
          hold_head ext io.hold_write io.now queued result.refusal_status result.refusal_reason q
            (with_reason reason l) in
        record {
          lane = l';
          queue = q';
          staged = [];
          failure = some channel_permanent_refusal;
          handoff = false;
        }

  -- The retirement of an artifact whose acceptance is complete.
  unfoldable pub retire_delivered :
      AttemptIo → List AuthorityArtifact → QueuedArtifact → DeliveryLane → DurableQueue → Finished
  unfolding remove
  retire_delivered io staged queued l q =
      retired_as staged queued l (remove ext io.retire queued.id q)

  -- From the returned artifacts' routing on.
  abbrev pub settle :
      AttemptIo
      → QueuedArtifact
      → DeliveryLane
      → DurableQueue
      → Option (List AuthorityArtifact × Bool)
      → Finished
  settle io queued l q none = fails malformed_response unrecognised [] l q
  settle io queued l q (some (routed, covered)) =
      if is_envelope queued.kind && not covered
      then fails malformed_response unrecognised [] l q
      else let (staged, complete) = stages_all io.sink routed in
        if not complete
        then fails runtime_sink unrecognised staged l q
        else retire_delivered io staged queued l q

  unfoldable pub finish_accepted :
      AttemptIo → DeliveryResult → QueuedArtifact → DeliveryLane → DurableQueue → Finished
  unfolding route_returned retire_delivered stage
  finish_accepted io result queued l q =
      if not (length result.authority_artifacts == 0) && not (is_some io.sink)
      then fails runtime_sink l.attempt_reason [] l q
      else settle io queued l q (route_returned queued result.authority_artifacts)

  -- `deliverHead` from the channel's answer on.
  unfoldable pub finish_attempt :
      AttemptIo → Answer → QueuedArtifact → DeliveryLane → DurableQueue → Finished
  unfolding finish_refused finish_accepted
  finish_attempt io no_answer queued l q = fails channel_unavailable l.attempt_reason [] l q
  finish_attempt io unrecognised_outcome queued l q = fails malformed_response unrecognised [] l q
  finish_attempt io (answered result) queued l q =
      if not result.accepted
      then finish_refused io result queued l q
      else finish_accepted io result queued l q
