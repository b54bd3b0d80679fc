-- ===== src/Samples/Deliveries.antt =====
-- A registration offered to the authority: refused for good, accepted, backed off, and waiting
-- (internal/evidence/courier/worker.go and channel.go).
use ori_gateway.Base.{
  none, ℕ, ◌+◌, ◌≤◌, ◌<◌, min, String, ◌≡◌, refl, ◌↔◌, ◌⊎◌, Bool, true, false, some, List, [], ◌∷◌,
  arith, All, length, nat_eq, string_eq,
}
use ori_gateway.Base.Maps.{lookup}
use ori_gateway.Refusal.{policy}
use ori_gateway.Courier.Types.{key_eq, lane_of, QueuedArtifact}
use ori_gateway.Courier.Routing.{
  record_device, decode_device, decode_routing, refuse_members, match_members, string_member,
  decode_text,
}
use ori_gateway.Courier.Queue.Disk.{committed, lost, removed}
use ori_gateway.Courier.Queue.State.{record_lane}
use ori_gateway.Courier.Queue.Delivery.{first, artifact_of}
use ori_gateway.Courier.Queue.Model.Items.{Item}
use ori_gateway.Courier.Queue.Model.Rep.{item_lane}
use ori_gateway.Courier.Sidecars.{max_backoff_attempts}
use ori_gateway.Courier.Backoff.{
  until_due, schedule_backoff, set_deadlines, backoff_delay, double_up, ceil_milli, wait_bound,
  persisted,
}
use ori_gateway.Courier.Backoff.Deadlines.{full_delay}
use ori_gateway.Courier.Lane.{channel_refused, channel_receiver_state, malformed_response, new_lane}
use ori_gateway.Courier.Lane.Attempt.{answered, AttemptIo, finish_attempt}
use ori_gateway.Courier.Lane.Loop.{
  Readings, Event, woken, timer_fired, attempt, wait, on_event, after_failure, note_stall,
}
use ori_gateway.Courier.Lane.Run.{System, finished, handed_off, Run, still, quiet}
use ori_gateway.Courier.Lane.Store.{Heads}
use ori_gateway.Courier.Lane.Blocked.{refused-never_sent}
use ori_gateway.Courier.Lane.Retained.{Settled, finish-Settled}
use ori_gateway.Courier.Lane.Flight.{Steady, run-Steady}
use ori_gateway.Courier.Lane.Turns.{watch, timers_only, failure-rests, handoff-answered}
use ori_gateway.Courier.Lane.Status.{Lanes, status}
use ori_gateway.Courier.Lane.Status.Sums.{held_in}
use ori_gateway.Courier.Lane.Status.Blockage.{status-blocked}
use ori_gateway.Courier.Channel.{
  Response, ChannelResponse, accepted_result, refused_result, read_response,
}
use ori_gateway.Courier.Channel.Forms.{WellFormed}
use ori_gateway.Courier.Channel.Classes.{Carries, Says, read_response-Says}
use ori_gateway.Courier.Channel.Decides.{Decided, response-decides}
use ori_gateway.Samples.Stores.{
  sample_external, one_queue, one_items, one_queue-Rep, pump_record, pump_lane,
}
use ori_gateway.Samples.Lanes.{sample_settings}

abbrev any_device : String → Bool
any_device device = true

abbrev pump_item : Item
pump_item = record { entry = pump_record; size = 102 }

abbrev pump_artifact : QueuedArtifact
pump_artifact = artifact_of pump_item

abbrev sample_io : AttemptIo
sample_io = record {
  sink = some (λ i. true);
  hold_write = lost;
  retire = record {
    hold_file = removed;
    backoff_file = removed;
    record_file = removed;
    restore = committed;
  };
  now = 7000000;
}

abbrev in_flight : System
in_flight = record { lane = new_lane pump_lane; queue = one_queue; flight = some pump_artifact }

pump-Heads : Heads sample_external pump_lane pump_item one_queue
unfolding first record_lane record_device decode_device decode_routing refuse_members match_members
    string_member decode_text lane_of
pump-Heads = (one_items, one_queue-Rep, refl)

abbrev after_refusal : System
after_refusal =
    finished sample_external any_device sample_settings 60 sample_io
      (answered (refused_result 400 "malformed" 0)) pump_artifact in_flight

abbrev sample_run :
    Run sample_external any_device sample_settings 60 after_refusal []
      (record after_refusal { lane = record after_refusal.lane { wake = true } })
sample_run = quiet after_refusal _ _ [] (handed_off after_refusal) (still _)

refused-never_sent_example : ◌≡◌ {A = List QueuedArtifact} [] []
unfolding policy
refused-never_sent_example =
    refused-never_sent sample_external pump_item any_device sample_settings 60 sample_io
      (refused_result 400 "malformed" 0) in_flight _ [] refl refl refl pump-Heads sample_run

finish-Settled_example :
    let f =
      finish_attempt sample_external any_device sample_io
        (answered (accepted_result []))
        pump_artifact
        (new_lane pump_lane)
        one_queue in
    Settled sample_external one_items pump_artifact (answered (accepted_result [])) f f.failure
finish-Settled_example =
    finish-Settled sample_external any_device one_items pump_artifact (new_lane pump_lane) one_queue
      one_queue-Rep sample_io (answered (accepted_result []))

in_flight-Steady : Steady sample_external in_flight
in_flight-Steady = record {
  listed = (one_items, one_queue-Rep);
  flight = (pump_item, pump-Heads, refl);
}

abbrev woken_run :
    Run sample_external any_device sample_settings 60 in_flight []
      (record in_flight { lane = record in_flight.lane { wake = true } })
woken_run = quiet in_flight _ _ [] (handed_off in_flight) (still _)

run-Steady_example :
    Steady sample_external (record in_flight { lane = record in_flight.lane { wake = true } })
run-Steady_example =
    run-Steady sample_external any_device sample_settings 60 in_flight _ [] woken_run
      in_flight-Steady

abbrev at_start : Readings
at_start = record { wall = 1000000000; mono = 1000000000 }

abbrev after_ten : Readings
after_ten = record { wall = 11000000000; mono = 11000000000 }

abbrev sample_turns : List (Event × Readings)
sample_turns = (woken, record { wall = 2000000000; mono = 2000000000 }) ∷ []

failure-rests_example :
    1000000000 + full_delay sample_settings (min 1 max_backoff_attempts) 8000000000 ≤ 11000000000
unfolding on_event watch after_failure note_stall until_due schedule_backoff set_deadlines
    backoff_delay double_up ceil_milli wait_bound persisted
failure-rests_example =
    failure-rests sample_external sample_settings 60 at_start at_start (channel_refused 8000000000)
      (new_lane pump_lane) sample_turns timer_fired after_ten refl (omega arith) refl

handoff-answered_example :
    let l =
      watch sample_settings 60
        (timers_only (at_start ∷ after_ten ∷ []))
        (after_failure sample_external sample_settings 60 at_start at_start channel_receiver_state
          (new_lane pump_lane)).lane in
    ((on_event sample_settings 60 after_ten timer_fired l).2 ≡ wait (some 60))
    × ((on_event sample_settings 60 after_ten woken l).2 ≡ attempt)
handoff-answered_example =
    handoff-answered sample_external sample_settings 60 at_start at_start (new_lane pump_lane)
      (at_start ∷ after_ten ∷ []) after_ten

abbrev held_lanes : Lanes
held_lanes = (pump_lane, after_refusal.lane) ∷ []

status-blocked_example : ((status one_queue held_lanes []).blocked ≡ true) ↔ (
    (0 < length one_items)
    × All (λ x. held_in (item_lane sample_external x) held_lanes ≡ true) one_items)
unfolding lookup
status-blocked_example =
    status-blocked sample_external one_queue one_items one_queue-Rep held_lanes [] (refl, tt)

abbrev sample_wire : ChannelResponse
sample_wire = record {
  v = 1;
  artifact_digest = "digest_7";
  outcome = "refused";
  reason = "conflict";
  retriable = true;
  authority_artifacts = [];
}

abbrev sample_response : Response
sample_response = record {
  status = 409;
  oversized = false;
  json_type = true;
  body = some sample_wire;
  retry_after = [];
}

read_response-Says_example :
    (read_response sample_response "digest_7" ≡ answered (refused_result 409 "conflict" 0))
    ↔ Says sample_response "digest_7" (refused_result 409 "conflict" 0)
read_response-Says_example =
    read_response-Says sample_response "digest_7" (refused_result 409 "conflict" 0)

response-decides_example :
    let f =
      finish_attempt sample_external any_device sample_io
        (read_response sample_response "digest_7")
        pump_artifact
        (new_lane pump_lane)
        one_queue in
    ((wire : ChannelResponse) × (retry : ℕ) × Carries sample_response wire
      × WellFormed sample_response wire "digest_7" retry
      × Decided
          (policy 409 wire.reason)
          retry
          sample_io.now
          pump_artifact
          (new_lane pump_lane)
          one_queue
          f)
    ⊎ (((wire : ChannelResponse) (retry : ℕ)
          → Carries sample_response wire
          → WellFormed sample_response wire "digest_7" retry
          → ⊥)
        × (f.failure ≡ some malformed_response)
        × (f.lane.held ≡ none)
        × (f.queue ≡ one_queue))
response-decides_example =
    response-decides sample_external any_device sample_io pump_artifact (new_lane pump_lane)
      one_queue sample_response "digest_7" (λ e. ground arith)
