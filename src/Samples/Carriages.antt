-- ===== src/Samples/Carriages.antt =====
-- A registration that a runtime carries to the gateway (internal/evidence/courier/runtime_ingress.go).
use mathlib.Core.Option.{some-injective}
use ori_gateway.Base.{
  ◌≡◌, refl, sym, ◌∙◌, subst, true, Option, none, some, [], ◌∷◌, arith, nat_beq, if◌then◌else◌,
  ◌==◌, nat_eq, string_eq,
}
use ori_gateway.Base.Maps.{lookup}
use ori_gateway.Courier.Types.{Bytes, anchor_registration, type_name}
use ori_gateway.Courier.Routing.{
  text, Members, decode_routing, refuse_members, match_members, string_member, decode_text,
}
use ori_gateway.Courier.Devices.{no_devices}
use ori_gateway.Courier.Queue.Disk.{committed, removed}
use ori_gateway.Courier.Queue.State.{External}
use ori_gateway.Courier.Queue.Custody.{NoCollision}
use ori_gateway.Courier.Ingress.{Ingress, IngressIo, Codec, OutboundCarriage}
use ori_gateway.Courier.Ingress.Handle.{decode_carriage, handle}
use ori_gateway.Courier.Ingress.Evidence.{AllEvidenced, handle-AllEvidenced}
use ori_gateway.Samples.Stores.{sample_external, sample_members, empty_queue, one_queue, pump_bytes}

-- A payload that starts with 2 is a carriage of the pump's registration.
abbrev carried_members : Bytes → Option Members
carried_members [] = none
carried_members (b ∷ bytes) =
    if nat_beq b 2
    then some (
        ("device_id", text true "pump")
        ∷ ("artifact_type", text true "anchor_registration")
        ∷ ("artifact_b64", text true "AQc=")
        ∷ [])
    else sample_members (b ∷ bytes)

abbrev carrying_external : External
carrying_external = record sample_external {
  json = record { members = carried_members; equal_fold = λ a b. a == b };
}

abbrev sample_codec : Codec
sample_codec = record {
  base64 = λ encoded. if encoded == "AQc=" then some pump_bytes else none;
  forwardable = λ artifact. true;
  canonical_size = λ bytes. some 2;
  canonical_acknowledgement = λ ack. none;
}

abbrev sample_ingress : Ingress
sample_ingress = record {
  outbound = one_queue;
  unconfigured = no_devices;
  returns = empty_queue;
  faults = [];
}

abbrev sample_io : IngressIo
sample_io = record {
  outbound_write = committed;
  returns_write = committed;
  devices = record { write = committed; removal = removed };
  now = 9;
  returns_now = 9;
  ack_published = true;
}

abbrev pump_carriage : OutboundCarriage
pump_carriage = record {
  device_id = "pump";
  artifact_type = anchor_registration;
  artifact = pump_bytes;
}

pump_carried : decode_carriage carrying_external sample_codec (2 ∷ []) ≡ some pump_carriage
unfolding decode_carriage decode_routing refuse_members match_members string_member decode_text
    type_name lookup
pump_carried = refl

pump_alone :
    (c : OutboundCarriage)
    → decode_carriage carrying_external sample_codec (2 ∷ []) ≡ some c
    → NoCollision carrying_external one_queue c.artifact_type c.artifact
unfolding lookup
pump_alone c e =
    subst (λ d. NoCollision carrying_external one_queue d.artifact_type d.artifact)
      (some-injective pump_carriage c (sym pump_carried ∙ e)) (λ r h. ground arith)

handle-AllEvidenced_example : AllEvidenced carrying_external sample_ingress.outbound.entries (
    handle carrying_external sample_codec
      (λ device. true)
      (λ device. true)
      none
      sample_io
      "pump"
      (2 ∷ [])
      sample_ingress)
handle-AllEvidenced_example =
    handle-AllEvidenced carrying_external sample_codec (λ device. true) (λ device. true) none
      sample_io "pump" (2 ∷ []) sample_ingress pump_alone
