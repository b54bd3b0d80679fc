-- ===== src/Courier/Ingress/Return.antt =====
-- The custody acknowledgement of an envelope, staged in the return queue (`Store` of return_queue.go
-- and the end of `Handle` of runtime_ingress.go).
use ori_gateway.Base.{
  String, Bool, true, false, not, ◌&&◌, ◌||◌, Option, none, some, List, ltb, if◌then◌else◌, ◌==◌,
  nat_eq, string_eq,
}
use ori_gateway.Courier.Types.{Bytes, ArtifactType}
use ori_gateway.Courier.Routing.{ok, err, decode_device}
use ori_gateway.Courier.Authority.{inbound_custody_acknowledgement, AuthorityArtifact}
use ori_gateway.Courier.Custody.{Acknowledgement}
use ori_gateway.Courier.Queue.State.{DurableQueue, External}
use ori_gateway.Courier.Queue.Admit.{enqueue_or_find}
use ori_gateway.Courier.Ingress.{
  Effect, custody_not_built, Ingress, IngressIo, Codec, Handled, max_authority_artifact_bytes,
  return_type, note_admission, admission_custody_source, was_queued, note_admitted, custody_stored,
}

module _ (ext : External) (codec : Codec) where
  abbrev pub store_as :
      IngressIo → AuthorityArtifact → Option ArtifactType → DurableQueue → DurableQueue × Bool
  store_as io artifact none q = (q, false)
  store_as io artifact (some kind) q = elim (codec.canonical_size artifact.payload) [
    | none ↦ (q, false)
    | some size ↦
        if ltb max_authority_artifact_bytes size
        then (q, false)
        else was_queued
            (enqueue_or_find ext io.returns_write io.returns_now kind artifact.payload q)
  ]

  abbrev pub routed_to : AuthorityArtifact → Bool
  routed_to artifact = elim (decode_device ext.json artifact.payload) [
    | err e ↦ false
    | ok device ↦ not (device == "") && device == artifact.device
  ]

  -- `Store` of the return queue, with whether it returned nil.
  unfoldable pub store : IngressIo → AuthorityArtifact → DurableQueue → DurableQueue × Bool
  unfolding decode_device enqueue_or_find
  store io artifact q =
      if not (routed_to artifact) || not (codec.forwardable artifact)
      then (q, false)
      else store_as io artifact (return_type artifact.kind) q

  abbrev pub stage_custody : IngressIo → String → List Effect → Ingress → Option Bytes → Handled
  stage_custody io device before s none = record {
    state = note_admission admission_custody_source true s;
    effects = before;
    failure = some custody_not_built;
  }
  stage_custody io device before s (some text) = custody_stored io device before s (
      store io (record { kind = inbound_custody_acknowledgement; device = device; payload = text })
        s.returns)

  abbrev pub return_custody :
      IngressIo → String → List Effect → Ingress → Option Acknowledgement → Handled
  return_custody io device before s none = record {
    state = note_admitted io device s;
    effects = before;
    failure = none;
  }
  return_custody io device before s (some ack) =
      stage_custody io device before s (codec.canonical_acknowledgement ack)
