-- ===== src/Samples/Queues.antt =====
-- The theorems of the durable queue at the sample queues (internal/evidence/courier).
use ori_gateway.Base.{◌≡◌, refl, true, none, some, [], ◌∷◌, arith, eq_iff, ◌==◌, nat_eq, string_eq}
use mathlib.Core.Option
use ori_gateway.Base.Maps.{lookup}
use ori_gateway.Refusal.{policy, hold}
use ori_gateway.Courier.Types.{
  Bytes, delivery_envelope, anchor_registration, registration, key_eq, BackoffRecord,
  record_artifact, lane_of, type_name, valid_queue_artifact_type, valid_outbound_artifact_type,
}
use ori_gateway.Courier.Queue.Disk.{committed, unsynced, lost, removed, unconfirmed}
use ori_gateway.Courier.Queue.State.{record_lane, artifact_id, peek_lane, restore_failed}
use ori_gateway.Courier.Queue.Admit.{lane_share_refusal, enqueue_or_find, queued}
use ori_gateway.Courier.Queue.Retire.{RetireIo, remove}
use ori_gateway.Courier.Queue.Model.Items.{tally}
use ori_gateway.Courier.Queue.Model.Rep.{item_lane}
use ori_gateway.Courier.Queue.Capacity.{Bounded, SharesFit, lane_key, registration_has_room}
use ori_gateway.Courier.Queue.Limits.{Sound, enqueue_or_find-Sound}
use ori_gateway.Courier.Queue.Admission.{Admitted, enqueue_or_find-Admitted}
use ori_gateway.Courier.Queue.Custody.{
  Durable, NoCollision, InCustody, Repeats, enqueue_or_find-Durable, enqueue_or_find-InCustody,
  enqueue_or_find_again,
}
use ori_gateway.Courier.Queue.Retirement.{Retired, remove-Retired}
use ori_gateway.Courier.Queue.Unrestored.{unrestored, unrestored-answered}
use ori_gateway.Courier.Queue.Delivery.{peek_lane-first, first, artifact_of}
use ori_gateway.Courier.Sidecars.{
  set_backoff, load_backoffs, validate_hold_record, validate_backoff_record, version_of,
}
use ori_gateway.Courier.Sidecars.Valid.{hold_record, hold_record-valid}
use ori_gateway.Courier.Sidecars.Orphans.{Backed, remove-Backed}
use ori_gateway.Courier.Sidecars.Unsynced.{all_removed, unsynced_backoff_orphan}
use ori_gateway.Samples.Stores.{
  sample_external, empty_queue, empty_queue-Rep, pump_bytes, pump_record, pump_lane, one_queue,
  one_items, one_queue-Rep,
}

abbrev envelope_bytes : Bytes
envelope_bytes = 1 ∷ 9 ∷ []

enqueue_or_find-Admitted_example :
    Admitted sample_external one_queue one_items
      (artifact_id sample_external delivery_envelope envelope_bytes)
      delivery_envelope
      envelope_bytes
      (enqueue_or_find sample_external committed 6 delivery_envelope envelope_bytes one_queue)
enqueue_or_find-Admitted_example =
    enqueue_or_find-Admitted sample_external one_queue one_items one_queue-Rep committed 6
      delivery_envelope envelope_bytes

one_queue-SharesFit : SharesFit one_queue
one_queue-SharesFit = record { items = λ r. omega arith; bytes = λ r. omega arith }

one_queue-Bounded : Bounded sample_external one_queue one_items
unfolding tally record_lane lane_of
one_queue-Bounded = record {
  items = omega arith;
  bytes = omega arith;
  device_items = λ d. ground arith;
  device_bytes = λ d. ground arith;
  reserve_items = λ r d. ground arith;
  reserve_bytes = λ r d. ground arith;
}

enqueue_or_find-Sound_example :
    Sound sample_external
      (enqueue_or_find sample_external unsynced 6 delivery_envelope envelope_bytes one_queue).0
enqueue_or_find-Sound_example =
    enqueue_or_find-Sound sample_external unsynced 6 delivery_envelope envelope_bytes one_queue
      (one_items, one_queue-Rep, one_queue-Bounded, one_queue-SharesFit)

empty_queue-SharesFit : SharesFit empty_queue
empty_queue-SharesFit = record { items = λ r. omega arith; bytes = λ r. omega arith }

registration_has_room_example :
    (lane_share_refusal empty_queue (lane_key "pump" registration) 0 ≡ none)
    × (lane_share_refusal empty_queue (lane_key "pump" registration) 1398303 ≡ none)
unfolding tally
registration_has_room_example =
    registration_has_room sample_external empty_queue [] empty_queue-Rep empty_queue-SharesFit refl
      "pump" 1398303 (omega arith) (omega arith) refl (omega arith)

one_queue-Durable : Durable sample_external one_queue
unfolding lookup
one_queue-Durable = record {
  on_disk = λ id h. h;
  named = λ id h. ground (arith, eq_iff "digest_7" id);
}

enqueue_or_find-Durable_example :
    Durable sample_external
      (enqueue_or_find sample_external committed 6 delivery_envelope envelope_bytes one_queue).0
enqueue_or_find-Durable_example =
    enqueue_or_find-Durable sample_external one_queue one_queue-Durable committed 6
      delivery_envelope envelope_bytes

no_collision : NoCollision sample_external one_queue anchor_registration pump_bytes
unfolding lookup
no_collision r h = ground arith

enqueue_or_find-InCustody_example :
    InCustody
      (artifact_id sample_external anchor_registration pump_bytes)
      pump_bytes
      one_queue
      (enqueue_or_find sample_external lost 6 anchor_registration pump_bytes one_queue)
enqueue_or_find-InCustody_example =
    enqueue_or_find-InCustody sample_external one_queue lost 6 anchor_registration pump_bytes
      no_collision

enqueue_or_find_again_example :
    Repeats sample_external
      (enqueue_or_find sample_external lost 9 anchor_registration pump_bytes)
      (enqueue_or_find sample_external committed 5 anchor_registration pump_bytes empty_queue)
enqueue_or_find_again_example =
    enqueue_or_find_again sample_external committed lost 5 9 anchor_registration pump_bytes
      empty_queue

abbrev sample_io : RetireIo
sample_io = record {
  hold_file = removed;
  backoff_file = removed;
  record_file = unconfirmed;
  restore = committed;
}

remove-Retired_example :
    Retired sample_external one_items "digest_7" one_queue
      (remove sample_external sample_io "digest_7" one_queue)
remove-Retired_example =
    remove-Retired sample_external one_items "digest_7" sample_io one_queue one_queue-Rep

peek_lane-first_example :
    peek_lane pump_lane one_queue
    ≡ Option.map artifact_of (first (λ y. item_lane sample_external y == pump_lane) one_items)
peek_lane-first_example =
    peek_lane-first sample_external one_queue one_items one_queue-Rep pump_lane

one_queue-Backed : Backed one_queue
unfolding lookup
one_queue-Backed = record {
  hold_known = λ id h. h;
  backoff_known = λ id h. h;
  hold_beside = λ id h. ground arith;
  backoff_beside = λ id h. ground arith;
}

remove-Backed_example : Backed (remove sample_external sample_io "digest_7" one_queue).0
remove-Backed_example =
    remove-Backed "digest_7" sample_external sample_io one_queue one_queue-Backed

abbrev sample_backoff : BackoffRecord
sample_backoff = record {
  v = 0;
  queue_record = "digest_7";
  not_before_ms = 900;
  attempts = 2;
  retry_after_ms = some 30;
}

sample_backoff-valid :
    validate_backoff_record (record sample_backoff { v = version_of (some 30) }) ≡ none
unfolding validate_backoff_record
sample_backoff-valid = refl

one_queue-found :
    (lookup "digest_7" one_queue.entries ≡ some pump_record)
    × (lookup "digest_7" one_queue.backoffs ≡ none)
unfolding lookup
one_queue-found = (refl, refl)

unsynced_backoff_orphan_example :
    let q₁ = (set_backoff unsynced sample_backoff one_queue).0 in
    let (q₂, e) = remove sample_external all_removed "digest_7" q₁ in
    (e ≡ none) × (load_backoffs (q₂.disk.records) (q₂.disk.backoff_files) ≡ none)
unsynced_backoff_orphan_example =
    unsynced_backoff_orphan sample_external sample_backoff one_queue pump_record 102
      one_queue-found.0 refl one_queue-found.1 sample_backoff-valid

held_policy : policy 409 "identity_conflict" ≡ hold
unfolding policy
held_policy = refl

hold_record-valid_example :
    validate_hold_record sample_external
      (hold_record sample_external (record_artifact pump_record) 409 "identity_conflict" 700)
      pump_record
    ≡ none
hold_record-valid_example =
    hold_record-valid sample_external pump_record 409 "identity_conflict" 700 held_policy
      (omega arith) (omega arith)

pump_found :
    lookup (artifact_id sample_external anchor_registration pump_bytes) one_queue.entries
    ≡ some pump_record
unfolding lookup artifact_id type_name
pump_found = refl

pump_valid : valid_queue_artifact_type anchor_registration ≡ true
unfolding valid_queue_artifact_type valid_outbound_artifact_type
pump_valid = refl

unrestored-answered_example :
    let id = artifact_id sample_external anchor_registration pump_bytes in
    let (q₁, e) = remove sample_external unrestored id one_queue in
    let (q₂, answer) =
      enqueue_or_find sample_external committed 6 anchor_registration pump_bytes q₁ in
    (e ≡ some restore_failed)
    × (answer ≡ queued (record_artifact pump_record) true)
    × (lookup id (q₂.disk.records) ≡ none)
unrestored-answered_example =
    unrestored-answered sample_external anchor_registration pump_bytes one_queue pump_record 102
      committed 6 pump_found refl pump_valid refl
