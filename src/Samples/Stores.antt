-- ===== src/Samples/Stores.antt =====
-- A queue with one registration, as `OpenDurableQueue` and one admission leave it
-- (internal/evidence/courier/queue.go).
use ori_gateway.Base.{
  ◌+◌, ◌≡◌, refl, true, false, Option, none, some, List, [], ◌∷◌, arith, nat_beq, if◌then◌else◌,
  length, any, ◌==◌, nat_eq, string_eq,
}
use ori_gateway.Base.Maps.{lookup, insert, erase}
use ori_gateway.Courier.Types.{
  Bytes, anchor_registration, LaneKey, registration, key_eq, QueueRecord, lane_of, record_artifact,
  type_name, valid_queue_artifact_type, valid_outbound_artifact_type,
}
use ori_gateway.Courier.Routing.{
  text, Members, record_device, decode_device, decode_routing, refuse_members, match_members,
  string_member, decode_text,
}
use ori_gateway.Courier.Queue.Disk.{committed, write_file}
use ori_gateway.Courier.Queue.State.{
  DurableQueue, External, record_lane, artifact_id, index_locked, note_store, sort_order,
}
use ori_gateway.Courier.Queue.Admit.{
  queued, enqueue_or_find, insert_locked, commit_record, lane_share_refusal, keep_record,
}
use ori_gateway.Faults.{note, clear}
use ori_gateway.Base.Sort.{sort_by, insert_by}
use ori_gateway.Courier.Queue.Model.Items.{Item, find, tally}
use ori_gateway.Courier.Queue.Model.Rep.{Rep}

-- A payload that starts with 1 is the pump's, any other one names no device.
abbrev pub sample_members : Bytes → Option Members
sample_members [] = none
sample_members (b ∷ bytes) =
    if nat_beq b 1 then some (("device_id", text true "pump") ∷ []) else none

abbrev pub sample_external : External
sample_external = record {
  json = record { members = sample_members; equal_fold = λ a b. a == b };
  sha256_hex = λ bytes. if any (λ b. b == 7) bytes then "digest_7" else "digest_other";
  encoded_size = λ r. some (100 + length r.payload);
}

abbrev pub empty_queue : DurableQueue
empty_queue = record {
  max_items = 8;
  max_bytes = 12000000;
  reserved = true;
  configured = some ("pump" ∷ []);
  share_items = 4;
  share_bytes = 6000000;
  entries = [];
  holds = [];
  backoffs = [];
  sizes = [];
  order = [];
  bytes = 0;
  next_seq = 1;
  lane_keys = [];
  lane_items = [];
  lane_bytes = [];
  device_items = [];
  device_bytes = [];
  faults = [];
  fault_source = "outbound";
  disk = record { records = []; hold_files = []; backoff_files = [] };
}

pub empty_queue-Rep : Rep sample_external empty_queue []
unfolding find lookup tally
empty_queue-Rep = record {
  entries = λ id. refl;
  sizes = λ id. refl;
  lane_keys = λ id. refl;
  entry_count = refl;
  distinct = tt;
  order = refl;
  bytes = refl;
  lane_items = λ j. refl;
  lane_bytes = λ j. refl;
  device_items = λ j. refl;
  device_bytes = λ j. refl;
  unique = tt;
  rising = omega arith;
}

abbrev pub pump_bytes : Bytes
pump_bytes = 1 ∷ 7 ∷ []

abbrev pub pump_record : QueueRecord
pump_record = record {
  v = 1;
  id = "digest_7";
  kind = anchor_registration;
  queue_seq = 1;
  enqueued_at_ms = 5;
  payload = pump_bytes;
}

abbrev pub pump_lane : LaneKey
pump_lane = record { device = "pump"; lane = registration }

abbrev pub one_queue : DurableQueue
one_queue = record empty_queue {
  entries = ("digest_7", pump_record) ∷ [];
  sizes = ("digest_7", 102) ∷ [];
  order = "digest_7" ∷ [];
  bytes = 102;
  next_seq = 2;
  lane_keys = ("digest_7", pump_lane) ∷ [];
  lane_items = (pump_lane, 1) ∷ [];
  lane_bytes = (pump_lane, 102) ∷ [];
  device_items = ("pump", 1) ∷ [];
  device_bytes = ("pump", 102) ∷ [];
  disk = record { records = ("digest_7", pump_record) ∷ []; hold_files = []; backoff_files = [] };
}

-- The queue is what an admission makes of the empty one.
one_queue-admitted :
    enqueue_or_find sample_external committed 5 anchor_registration pump_bytes empty_queue
    ≡ (one_queue, queued (record_artifact pump_record) false)
unfolding artifact_id type_name lookup enqueue_or_find insert_locked commit_record
    lane_share_refusal record_lane record_device decode_device decode_routing refuse_members
    match_members string_member decode_text keep_record write_file index_locked insert erase
    note_store sort_order sort_by insert_by valid_queue_artifact_type valid_outbound_artifact_type
    lane_of note clear
one_queue-admitted = refl

abbrev pub one_items : List Item
one_items = record { entry = pump_record; size = 102 } ∷ []

pub one_queue-Rep : Rep sample_external one_queue one_items
unfolding find lookup tally record_lane record_device decode_device decode_routing refuse_members
    match_members string_member decode_text lane_of
one_queue-Rep = record {
  entries = λ id. ground arith;
  sizes = λ id. ground arith;
  lane_keys = λ id. ground arith;
  entry_count = refl;
  distinct = (refl, tt);
  order = refl;
  bytes = refl;
  lane_items = λ j. ground arith;
  lane_bytes = λ j. ground arith;
  device_items = λ j. ground arith;
  device_bytes = λ j. ground arith;
  unique = (refl, tt);
  rising = (omega arith, omega arith);
}
