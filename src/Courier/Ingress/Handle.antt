-- ===== src/Courier/Ingress/Handle.antt =====
-- One outbound carriage from its check to its acknowledgement (`Handle` of runtime_ingress.go and
-- `Admit` of courier.go).
use ori_gateway.Base.{
  ℕ, String, Bool, true, false, not, Option, none, some, List, [], ◌∷◌, ◌++◌, if◌then◌else◌, length,
  all, ◌==◌, nat_eq, string_eq,
}
use ori_gateway.Faults.{note}
use ori_gateway.Courier.Types.{Bytes, type_name, QueuedArtifact}
use ori_gateway.Courier.Routing.{Members, ok, err, decode_routing, decode_device, string_member}
use ori_gateway.Courier.Authority.{is_envelope, decode_outbound, validate_artifact_routing_fields}
use ori_gateway.Courier.Sidecars.{payload_digest}
use ori_gateway.Courier.Devices.{note_unconfigured_device, note_admitted_device}
use ori_gateway.Courier.Custody.{Acknowledgement, Signer, acknowledge}
use ori_gateway.Courier.Queue.State.{DurableQueue, External, unconfigured_device}
use ori_gateway.Courier.Queue.Admit.{Outcome, queued, refused, enqueue, is_configured}
use ori_gateway.Courier.Ingress.{
  CustodyStep, no_custody, custody_undecodable, custody_unbuilt, custody_built, OutboundCarriage,
  OutboundAck, handed_off, acknowledged, handoff_queue_full, Effect, unconfigured_carriage,
  malformed_carriage, ack_not_published, admission_error, custody_not_built, Ingress, IngressIo,
  Codec, Handled, artifact_type_of, carriage_members, is_known, is_full, note_admission,
  admission_queue_source, admission_custody_source, without_effect, note_unconfigured, handoff_of,
}
use ori_gateway.Courier.Ingress.Return.{return_custody, store}

module _ (ext : External) (codec : Codec) where
  abbrev pub carriage_from : Members → Option OutboundCarriage
  carriage_from ms = elim (string_member ext.json "device_id" ms) [
    | err e ↦ none
    | ok device ↦ elim (string_member ext.json "artifact_type" ms) [
      | err e ↦ none
      | ok kind ↦ elim (string_member ext.json "artifact_b64" ms) [
        | err e ↦ none
        | ok text ↦ elim (codec.base64 text) [
          | none ↦ none
          | some artifact ↦
              if length artifact == 0
              then none
              else some (record {
                device_id = device;
                artifact_type = artifact_type_of kind;
                artifact = artifact;
              })
        ]
      ]
    ]
  ]

  -- The strict decode of a carriage and of its bytes.
  unfoldable pub decode_carriage : Bytes → Option OutboundCarriage
  unfolding decode_routing string_member type_name
  decode_carriage payload = elim (decode_routing ext.json carriage_members payload) [
    | err e ↦ none
    | ok ms ↦ if not (all is_known ms) then none else carriage_from ms
  ]

  abbrev pub outbound_ack : OutboundCarriage → String → String → String → ℕ → OutboundAck
  outbound_ack c device outcome reason at = record {
    device_id = device;
    artifact_type = c.artifact_type;
    artifact_digest = payload_digest ext c.artifact;
    outcome = outcome;
    reason = reason;
    acknowledged_at_ms = at;
  }

  -- A refusal with its acknowledgement.
  abbrev pub refuse_carriage :
      IngressIo → String → OutboundCarriage → String → List Effect → Ingress → Handled
  refuse_carriage io device c reason before s = record {
    state = s;
    effects =
        if io.ack_published
        then before ++ (acknowledged (outbound_ack c device "refused" reason io.now) ∷ [])
        else before;
    failure = if io.ack_published then none else some ack_not_published;
  }

  -- From the completed admission on: the acknowledgement, and the custody of an envelope.
  unfoldable pub complete_admission :
      IngressIo
      → String
      → OutboundCarriage
      → QueuedArtifact
      → Option Acknowledgement
      → List Effect
      → Ingress
      → Handled
  unfolding note store note_admitted_device
  complete_admission io device c a custody before s =
      let s₁ : Ingress = note_admission admission_queue_source false s in
      let ack : Effect = acknowledged (outbound_ack c device "queued" "" a.enqueued_at_ms) in
      if not io.ack_published
      then record { state = s₁; effects = before; failure = some ack_not_published }
      else return_custody ext codec io device (before ++ (ack ∷ [])) s₁ custody

  abbrev pub built_or_not : Option Acknowledgement → CustodyStep
  built_or_not none = custody_unbuilt
  built_or_not (some ack) = custody_built ack

  abbrev pub custody_for : Option Signer → OutboundCarriage → QueuedArtifact → CustodyStep
  custody_for none c a = no_custody
  custody_for (some signer) c a =
      if not (is_envelope c.artifact_type)
      then no_custody
      else elim (decode_outbound ext.json c.artifact) [
        | none ↦ custody_undecodable
        | some routing ↦ built_or_not (
            acknowledge signer routing.device routing.local_seq (payload_digest ext c.artifact)
              a.enqueued_at_ms)
      ]

  abbrev pub after_queued :
      IngressIo
      → String
      → OutboundCarriage
      → QueuedArtifact
      → List Effect
      → Ingress
      → CustodyStep
      → Handled
  after_queued io device c a before s custody_undecodable = record {
    state = note_admission admission_queue_source true s;
    effects = before;
    failure = some admission_error;
  }
  after_queued io device c a before s custody_unbuilt = record {
    state =
        note_admission admission_custody_source true
          (note_admission admission_queue_source false s);
    effects = before;
    failure = some custody_not_built;
  }
  after_queued io device c a before s no_custody = complete_admission io device c a none before s
  after_queued io device c a before s (custody_built ack) =
      complete_admission io device c a (some ack) before s

  -- What the queue's answer makes of the carriage.
  unfoldable pub after_admit :
      (String → Bool)
      → Option Signer
      → IngressIo
      → String
      → OutboundCarriage
      → Ingress
      → DurableQueue × Outcome
      → Handled
  unfolding note note_unconfigured_device complete_admission decode_outbound acknowledge
  after_admit valid signer io device c s (q, queued a held) =
      after_queued io device c a (handoff_of device held) (record s { outbound = q })
        (custody_for signer c a)
  after_admit valid signer io device c s (q, refused unconfigured_device) =
      without_effect unconfigured_carriage
        (note_unconfigured valid io device (record s { outbound = q }))
  after_admit valid signer io device c s (q, refused e) =
      if is_full e
      then refuse_carriage io device c "queue_full" (handed_off device handoff_queue_full ∷ [])
          (record s { outbound = q })
      else without_effect admission_error
          (note_admission admission_queue_source true (record s { outbound = q }))

  -- The checks on a decoded carriage: `some` is the reason of its refusal.
  unfoldable pub carriage_refusal : (String → Bool) → String → OutboundCarriage → Option String
  unfolding decode_device validate_artifact_routing_fields
  carriage_refusal domain device c =
      if not (c.device_id == device)
      then some "binding_mismatch"
      else elim (decode_device ext.json c.artifact) [
        | err e ↦ some "malformed"
        | ok named ↦
            if named == ""
            then some "malformed"
            else if not (named == device)
            then some "binding_mismatch"
            else elim (validate_artifact_routing_fields ext.json domain c.artifact_type
                c.artifact) [ some e ↦ some "malformed" | none ↦ none ]
      ]

  abbrev pub admit_checked :
      (String → Bool)
      → Option Signer
      → IngressIo
      → String
      → OutboundCarriage
      → Ingress
      → Option String
      → Handled
  admit_checked valid signer io device c s (some reason) = refuse_carriage io device c reason [] s
  admit_checked valid signer io device c s none =
      after_admit valid signer io device c s
        (enqueue ext io.outbound_write io.now c.artifact_type c.artifact s.outbound)

  abbrev pub handle_decoded :
      (String → Bool)
      → (String → Bool)
      → Option Signer
      → IngressIo
      → String
      → Ingress
      → Option OutboundCarriage
      → Handled
  handle_decoded domain valid signer io device s none = without_effect malformed_carriage s
  handle_decoded domain valid signer io device s (some c) =
      admit_checked valid signer io device c s (carriage_refusal domain device c)

  -- `Handle`, from the device that its topic names. `domain` is `RoutingDeviceID` of the queue,
  -- `valid` is `validRoutingDeviceID`.
  unfoldable pub handle :
      (String → Bool)
      → (String → Bool)
      → Option Signer
      → IngressIo
      → String
      → Bytes
      → Ingress
      → Handled
  unfolding decode_carriage carriage_refusal enqueue after_admit note_unconfigured_device
  handle domain valid signer io device payload s =
      if not (is_configured s.outbound device)
      then without_effect unconfigured_carriage (note_unconfigured valid io device s)
      else handle_decoded domain valid signer io device s (decode_carriage payload)
