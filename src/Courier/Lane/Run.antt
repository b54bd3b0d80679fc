-- ===== src/Courier/Lane/Run.antt =====
-- A lane among the other tasks of the process, and across restarts
-- (internal/evidence/courier/worker.go). Each turn of the loop, each part of an attempt, each
-- admission, each retirement in another lane and each write of a sidecar is a step of its own, in any
-- order; a step carries what the channel is given to send.
use ori_gateway.Base.{
  ℕ, String, ◌≡◌, ◌≢◌, Bool, true, Option, none, some, List, [], ◌∷◌, nat_eq, string_eq,
}
use ori_gateway.Base.Maps.{lookup}
use ori_gateway.Courier.Types.{
  Bytes, ArtifactType, key_eq, QueuedArtifact, HoldRecord, BackoffRecord,
}
use ori_gateway.Courier.Queue.Disk.{Write, Removal}
use ori_gateway.Courier.Queue.State.{DurableQueue, External, key_of}
use ori_gateway.Courier.Queue.Admit.{enqueue_or_find}
use ori_gateway.Courier.Queue.Retire.{RetireIo, remove, clear_backoff}
use ori_gateway.Courier.Queue.Model.Items.{Item}
use ori_gateway.Courier.Queue.Model.Rep.{Rep}
use ori_gateway.Courier.Sidecars.{hold_sidecar, set_backoff}
use ori_gateway.Courier.Backoff.{Settings}
use ori_gateway.Courier.Lane.{
  Failure, HeldHead, DeliveryLane, new_lane, Begun, sending, begin_attempt,
}
use ori_gateway.Courier.Lane.Attempt.{AttemptIo, Answer, finish_attempt}
use ori_gateway.Courier.Lane.Loop.{Readings, Event, on_event, after_failure, after_success, restore}

-- `flight` is the artifact that the channel has been given and not yet answered.
pub record System : Type 0 where
  pub lane : DeliveryLane
  pub queue : DurableQueue
  pub flight : Option QueuedArtifact

abbrev pub flight_of : Begun → Option QueuedArtifact
flight_of (sending a) = some a
flight_of _ = none

-- The store has a hold for this record, which names it.
abbrev pub StoredHold : String → DurableQueue → Type 0
StoredHold id q = (r : HoldRecord) × (lookup id q.holds ≡ some r) × (r.queue_record ≡ id)

-- A hold that the lane has in memory is in the store too.
abbrev pub HoldStored : System → Type 0
HoldStored s = (h : HeldHead) → s.lane.held ≡ some h → StoredHold h.hold.queue_record s.queue

module _ (ext : External) (domain : String → Bool) (w : Settings) (reminder : ℕ) where
  abbrev pub begun : System → System
  begun s = record {
    lane = (begin_attempt ext s.queue s.lane).0;
    queue = s.queue;
    flight = flight_of (begin_attempt ext s.queue s.lane).1;
  }

  abbrev pub finished : AttemptIo → Answer → QueuedArtifact → System → System
  finished io answer a s =
      let f = finish_attempt ext domain io answer a s.lane s.queue in
      record { lane = f.lane; queue = f.queue; flight = none }

  pub data Step : System → Option QueuedArtifact → System → Type 0 where
    turned :
        (at : Readings) (e : Event) (s : System)
        → Step s none (record s { lane = (on_event w reminder at e s.lane).0 })
    began :
        (s : System)
        → s.flight ≡ none
        → Step s (flight_of (begin_attempt ext s.queue s.lane).1) (begun s)
    answered_with :
        (io : AttemptIo) (answer : Answer) (a : QueuedArtifact) (s : System)
        → s.flight ≡ some a
        → Step s none (finished io answer a s)
    failed_with :
        (at after : Readings) (e : Failure) (s : System)
        → Step s none (record s { lane = (after_failure ext w reminder at after e s.lane).lane })
    succeeded :
        (delivered : Bool) (s : System)
        → Step s none (record s { lane = (after_success w delivered s.lane).lane })
    handed_off : (s : System) → Step s none (record s { lane = record s.lane { wake = true } })
    admitted :
        (io : Write) (now : ℕ) (kind : ArtifactType) (payload : Bytes) (s : System)
        → Step s none (record s { queue = (enqueue_or_find ext io now kind payload s.queue).0 })
    retired_elsewhere :
        (io : RetireIo) (id : String) (s : System)
        → key_of id s.queue.lane_keys ≢ s.lane.key
        → Step s none (record s { queue = (remove ext io id s.queue).0 })
    hold_written :
        (io : Write) (r : HoldRecord) (s : System)
        → Step s none (record s { queue = (hold_sidecar ext io r s.queue).0 })
    backoff_written :
        (io : Write) (r : BackoffRecord) (s : System)
        → Step s none (record s { queue = (set_backoff io r s.queue).0 })
    backoff_cleared :
        (io : Removal) (id : String) (s : System)
        → Step s none (record s { queue = (clear_backoff io id s.queue).0 })
    -- A restart whose opening succeeds on an intact directory: the new queue stands for the same
    -- list (`Open.Reload`) and has the same holds, among them that of the lane. Its back-offs may be
    -- others. A restart that refuses the directory, or finds less in it, is not a step.
    restarted :
        (at : Readings) (now : ℕ) (q : DurableQueue) (s : System)
        → HoldStored s
        → ((xs : List Item) → Rep ext s.queue xs → Rep ext q xs)
        → ((id : String) → lookup id q.holds ≡ lookup id s.queue.holds)
        → Step s none (record {
          lane = (restore ext w at now q (new_lane s.lane.key)).0;
          queue = q;
          flight = none;
        })

  -- A run, with what was sent in it.
  pub data Run : System → List QueuedArtifact → System → Type 0 where
    still : (s : System) → Run s [] s
    quiet :
        (s r t : System) (sent : List QueuedArtifact) → Step s none r → Run r sent t → Run s sent t
    sends :
        (s r t : System) (a : QueuedArtifact) (sent : List QueuedArtifact)
        → Step s (some a) r
        → Run r sent t
        → Run s (a ∷ sent) t
