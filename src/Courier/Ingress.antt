-- ===== src/Courier/Ingress.antt =====
-- The runtime's side of the courier: its state, what one outbound carriage does, and the parts it
-- meets (internal/evidence/courier/runtime_ingress.go). The admission faults are a recorder of their own: no store raises that fault.
pub mod Return
pub mod Handle
pub mod Evidence
use ori_gateway.Base.{
  ℕ, String, Bool, true, false, not, ◌&&◌, ◌||◌, Option, none, some, List, [], ◌∷◌, ◌++◌, ltb,
  if◌then◌else◌, length, any, all, ◌==◌, nat_eq, string_eq,
}
use ori_gateway.Faults.{Recorder, note}
use ori_gateway.Courier.Types.{
  Bytes, ArtifactType, delivery_envelope, anchor_registration, checkpoint, delivery_receipt,
  epoch_confirmation, custody_acknowledgement, other, type_name, QueuedArtifact,
}
use ori_gateway.Courier.Routing.{
  Value, Members, ok, err, decode_routing, decode_device, string_member,
}
use ori_gateway.Courier.Authority.{
  AuthorityArtifactType, authority_delivery_receipt, authority_epoch_confirmation,
  inbound_custody_acknowledgement, other_authority, AuthorityArtifact, is_envelope, decode_outbound,
  validate_artifact_routing_fields,
}
use ori_gateway.Courier.Sidecars.{payload_digest}
use ori_gateway.Courier.Devices.{
  Unconfigured, DevicesIo, note_unconfigured_device, note_admitted_device,
}
use ori_gateway.Courier.Custody.{Acknowledgement, Signer, acknowledge}
use ori_gateway.Courier.Queue.Disk.{Write}
use ori_gateway.Courier.Queue.State.{
  DurableQueue, External, QueueError, unconfigured_device, item_limit, byte_limit,
  device_item_limit, device_byte_limit,
}
use ori_gateway.Courier.Queue.Admit.{
  Outcome, queued, refused, enqueue, enqueue_or_find, is_configured,
}

abbrev pub admission_failed : String
admission_failed = "admission_failed"

abbrev pub admission_queue_source : String
admission_queue_source = "admission.queue"

abbrev pub admission_custody_source : String
admission_custody_source = "admission.custody"

-- `artifact_b64` is decoded.
pub record OutboundCarriage : Type 0 where
  pub device_id : String
  pub artifact_type : ArtifactType
  pub artifact : Bytes

pub record OutboundAck : Type 0 where
  pub device_id : String
  pub artifact_type : ArtifactType
  pub artifact_digest : String
  pub outcome : String
  pub reason : String
  pub acknowledged_at_ms : ℕ

pub data HandoffKind : Type 0 where
  handoff_admitted handoff_queue_full : HandoffKind

-- What the ingress does to the other parts, in order.
pub data Effect : Type 0 where
  handed_off : String → HandoffKind → Effect
  acknowledged : OutboundAck → Effect
  returns_woken : Effect

pub data IngressError : Type 0 where
  unconfigured_carriage malformed_carriage ack_not_published admission_error : IngressError
  custody_not_built custody_not_queued : IngressError

-- What `Admit` makes beside the queued artifact: no custody, one whose envelope cannot be decoded
-- again, one that cannot be built, or an acknowledgement.
pub data CustodyStep : Type 0 where
  no_custody custody_undecodable custody_unbuilt : CustodyStep
  custody_built : Acknowledgement → CustodyStep

pub record Ingress : Type 0 where
  pub outbound : DurableQueue
  pub unconfigured : Unconfigured
  pub returns : DurableQueue
  pub faults : Recorder

-- What one call meets: the two stores' writes, the clocks, the devices' file, and whether an
-- acknowledgement is signed, encoded and published.
pub record IngressIo : Type 0 where
  pub outbound_write : Write
  pub returns_write : Write
  pub devices : DevicesIo
  pub now : ℕ
  pub returns_now : ℕ
  pub ack_published : Bool

-- Code that the ingress calls: encoding/base64, the member rule on an inbound message with the
-- artifact (`inboundMemberRefusal`), the length of canonical text (`canonicaljson`), and the
-- canonical text of an acknowledgement.
pub record Codec : Type 0 where
  pub base64 : String → Option Bytes
  pub forwardable : AuthorityArtifact → Bool
  pub canonical_size : Bytes → Option ℕ
  pub canonical_acknowledgement : Acknowledgement → Option Bytes

pub record Handled : Type 0 where
  pub state : Ingress
  pub effects : List Effect
  pub failure : Option IngressError

abbrev pub max_authority_artifact_bytes : ℕ
max_authority_artifact_bytes = 1048576

-- `ArtifactType(text)`.
abbrev pub artifact_type_of : String → ArtifactType
artifact_type_of s =
    if s == type_name delivery_envelope
    then delivery_envelope
    else if s == type_name anchor_registration
    then anchor_registration
    else if s == type_name checkpoint
    then checkpoint
    else if s == type_name delivery_receipt
    then delivery_receipt
    else if s == type_name epoch_confirmation
    then epoch_confirmation
    else if s == type_name custody_acknowledgement
    then custody_acknowledgement
    else other s

abbrev pub carriage_members : List String
carriage_members = "device_id" ∷ "artifact_type" ∷ "artifact_b64" ∷ []

abbrev pub is_known : String × Value → Bool
is_known (name, value) = any (λ m. m == name) carriage_members

-- The errors of a queue that is full.
abbrev pub is_full : QueueError → Bool
is_full item_limit = true
is_full byte_limit = true
is_full device_item_limit = true
is_full device_byte_limit = true
is_full _ = false

-- The artifact type under which the return queue keeps an authority artifact.
abbrev pub return_type : AuthorityArtifactType → Option ArtifactType
return_type authority_delivery_receipt = some delivery_receipt
return_type authority_epoch_confirmation = some epoch_confirmation
return_type inbound_custody_acknowledgement = some custody_acknowledgement
return_type (other_authority s) = none

abbrev pub note_admission : String → Bool → Ingress → Ingress
note_admission source failed s = record s { faults = note admission_failed source failed s.faults }

abbrev pub was_queued : DurableQueue × Outcome → DurableQueue × Bool
was_queued (q, queued a held) = (q, true)
was_queued (q, refused e) = (q, false)

abbrev pub without_effect : IngressError → Ingress → Handled
without_effect e s = record { state = s; effects = []; failure = some e }

abbrev pub note_admitted : IngressIo → String → Ingress → Ingress
note_admitted io device s =
    let (q, u) = note_admitted_device io.devices device s.outbound s.unconfigured in
    record s { outbound = q; unconfigured = u }

abbrev pub note_unconfigured : (String → Bool) → IngressIo → String → Ingress → Ingress
note_unconfigured valid io device s =
    let (q, u, done) = note_unconfigured_device valid io.devices device s.outbound s.unconfigured in
    record s { outbound = q; unconfigured = u }

-- The custody acknowledgement once it is in canonical text: queued in the returns.
abbrev pub custody_stored :
    IngressIo → String → List Effect → Ingress → DurableQueue × Bool → Handled
custody_stored io device before s (q, false) = record {
  state = note_admission admission_custody_source true (record s { returns = q });
  effects = before;
  failure = some custody_not_queued;
}
custody_stored io device before s (q, true) = record {
  state =
      note_admitted io device
        (note_admission admission_custody_source false (record s { returns = q }));
  effects = before ++ (returns_woken ∷ []);
  failure = none;
}

abbrev pub handoff_of : String → Bool → List Effect
handoff_of device true = []
handoff_of device false = handed_off device handoff_admitted ∷ []
