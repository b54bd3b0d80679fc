-- ===== src/Courier/Types.antt =====
-- The data of the courier: artifact types, lanes and the records of the durable queue
-- (internal/evidence/courier/queue.go and hold.go).
use ori_gateway.Base.{
  ℕ, String, ◌≡◌, ◌↔◌, Bool, true, false, ◌&&◌, ◌||◌, Option, List, [], arith, eq_iff, Eq, ◌==◌,
  nat_eq, string_eq,
}

abbrev pub Bytes : Type 0
Bytes = List ℕ

-- `ArtifactType` is an open string type; `other` is every text that is no constant of it.
pub data ArtifactType : Type 0 where
  delivery_envelope anchor_registration checkpoint : ArtifactType
  delivery_receipt epoch_confirmation custody_acknowledgement : ArtifactType
  other : String → ArtifactType

unfoldable pub valid_outbound_artifact_type : ArtifactType → Bool
valid_outbound_artifact_type delivery_envelope = true
valid_outbound_artifact_type anchor_registration = true
valid_outbound_artifact_type checkpoint = true
valid_outbound_artifact_type _ = false

abbrev is_return_type : ArtifactType → Bool
is_return_type delivery_receipt = true
is_return_type epoch_confirmation = true
is_return_type custody_acknowledgement = true
is_return_type _ = false

unfoldable pub valid_queue_artifact_type : ArtifactType → Bool
unfolding valid_outbound_artifact_type
valid_queue_artifact_type kind = valid_outbound_artifact_type kind || is_return_type kind

unfoldable pub type_name : ArtifactType → String
type_name delivery_envelope = "delivery_envelope"
type_name anchor_registration = "anchor_registration"
type_name checkpoint = "checkpoint"
type_name delivery_receipt = "delivery_receipt"
type_name epoch_confirmation = "epoch_confirmation"
type_name custody_acknowledgement = "custody_acknowledgement"
type_name (other s) = s

abbrev pub type_eq : ArtifactType → ArtifactType → Bool
type_eq a b = type_name a == type_name b

-- `no_lane` is the zero value of the string type, which no record has.
pub data Lane : Type 0 where
  registration evidence no_lane : Lane

pub Lane-discrete : Discrete Lane
Lane-discrete = hlevel

abbrev pub lane_eq : Lane → Lane → Bool
lane_eq registration registration = true
lane_eq evidence evidence = true
lane_eq no_lane no_lane = true
lane_eq _ _ = false

pub record LaneKey : Type 0 where
  pub device : String
  pub lane : Lane

abbrev pub key_beq : LaneKey → LaneKey → Bool
key_beq a b = a.device == b.device && lane_eq a.lane b.lane

pub key_beq_iff : (a b : LaneKey) → (key_beq a b ≡ true) ↔ (a ≡ b)
key_beq_iff a b = ground (arith, eq_iff a.device b.device)

instance abbrev pub key_eq : Eq LaneKey
key_eq = record { beq = key_beq; beq_iff = key_beq_iff }

unfoldable pub lane_of : ArtifactType → Lane
lane_of anchor_registration = registration
lane_of _ = evidence

pub record QueueRecord : Type 0 where
  pub v : ℕ
  pub id : String
  pub kind : ArtifactType
  pub queue_seq : ℕ
  pub enqueued_at_ms : ℕ
  pub payload : Bytes

pub record QueuedArtifact : Type 0 where
  pub id : String
  pub kind : ArtifactType
  pub payload : Bytes
  pub enqueued_at_ms : ℕ

-- What a read of the map of records gives for a missing id.
abbrev pub zero_record : QueueRecord
zero_record = record {
  v = 0;
  id = "";
  kind = other "";
  queue_seq = 0;
  enqueued_at_ms = 0;
  payload = [];
}

-- The copy of the payload's bytes is the payload.
unfoldable pub record_artifact : QueueRecord → QueuedArtifact
record_artifact r = record {
  id = r.id;
  kind = r.kind;
  payload = r.payload;
  enqueued_at_ms = r.enqueued_at_ms;
}

pub record HoldRecord : Type 0 where
  pub v : ℕ
  pub queue_record : String
  pub artifact_digest : String
  pub artifact_type : ArtifactType
  pub refusal_status : ℕ
  pub reason : String
  pub first_held_at_ms : ℕ
  pub acknowledged : Bool

pub record BackoffRecord : Type 0 where
  pub v : ℕ
  pub queue_record : String
  pub not_before_ms : ℕ
  pub attempts : ℕ
  pub retry_after_ms : Option ℕ
