-- ===== src/Samples/Openings.antt =====
-- A directory with one record, its back-off and the files that a load passes, and the openings of it
-- (internal/evidence/courier/queue.go).
use ori_gateway.Base.{
  ℕ, zero, suc, String, ◌≡◌, refl, true, false, none, some, List, [], ◌∷◌, arith, nat_eq, string_eq,
}
use ori_gateway.Base.Maps.{lookup, insert, erase}
use ori_gateway.Courier.Types.{
  Bytes, BackoffRecord, delivery_envelope, valid_queue_artifact_type, valid_outbound_artifact_type,
  type_name,
}
use ori_gateway.Courier.Queue.Disk.{committed, lost}
use ori_gateway.Courier.Queue.State.{artifact_id}
use ori_gateway.Courier.Queue.Admit.{enqueue_or_find}
use ori_gateway.Courier.Queue.Model.Items.{tally}
use ori_gateway.Courier.Queue.Model.Permuted.{keep, empty}
use ori_gateway.Courier.Sidecars.{load_holds, load_backoffs, validate_backoff_record}
use ori_gateway.Courier.Queue.Open.Names.{classify}
use ori_gateway.Courier.Queue.Open.{DirEntry, Decoders, read_private, read_sidecars}
use ori_gateway.Courier.Queue.Open.Options.{
  QueueOptions, OpenIo, options_refusal, fresh_queue, device_set, open_durable_queue,
}
use ori_gateway.Courier.Queue.Open.Listing.{
  Recorded, Lists, end_of_directory, a_record, another_file, hold_files, backoff_files,
  unconfigured_file_of,
}
use ori_gateway.Courier.Queue.Open.Sorted.{SidecarFiles}
use ori_gateway.Courier.Queue.Open.Reload.{Reopened, open-Reopened}
use ori_gateway.Courier.Queue.Open.Kept.{Kept, enqueue_or_find-Kept}
use ori_gateway.Samples.Stores.{sample_external, pump_record, one_queue, one_items, one_queue-Rep}

abbrev zeros : ℕ → Bytes
zeros zero = []
zeros (suc n) = 0 ∷ zeros n

abbrev pump_backoff : BackoffRecord
pump_backoff = record {
  v = 1;
  queue_record = "digest_7";
  not_before_ms = 70000;
  attempts = 2;
  retry_after_ms = none;
}

abbrev sample_decoders : Decoders
sample_decoders = record {
  records = λ raw. some pump_record;
  hold_records = λ raw. none;
  backoff_records = λ raw. some pump_backoff;
  unconfigured_records = λ raw. none;
}

abbrev file_named : String → Bytes → DirEntry
file_named name raw = record {
  name = name;
  is_dir = false;
  info = some (record { regular = true; private = true });
  raw = some raw;
  removable = true;
}

abbrev backoff_entry : DirEntry
backoff_entry = file_named ".ori-evidence-backoff-digest_7" []

abbrev pump_file : DirEntry
pump_file = file_named "digest_7.json" (zeros 102)

abbrev unfinished : DirEntry
unfinished = file_named ".ori-evidence-queue-tmp-41" []

abbrev sample_directory : List DirEntry
sample_directory = backoff_entry ∷ unfinished ∷ pump_file ∷ []

abbrev sample_options : QueueOptions
sample_options = record {
  directory = "/var/lib/ori/outbound";
  max_items = 8;
  max_bytes = 12000000;
  devices = "pump" ∷ [];
  reserve_device_shares = true;
  faults = [];
  fault_source = "outbound";
}

abbrev sample_io : OpenIo
sample_io = record {
  prepared = true;
  entries = some sample_directory;
  probe_read = true;
  probe_random = true;
  probe_write = lost;
}

pump_listed : Lists sample_decoders sample_directory one_items
unfolding classify read_private
pump_listed = another_file backoff_entry tt (
    another_file unfinished refl (
      a_record
        (record {
          raw = zeros 102;
          kind = refl;
          name = refl;
          readable = refl;
          decoded = refl;
          size = refl;
        })
        end_of_directory))

pump-Recorded : Recorded sample_external (record { entry = pump_record; size = 102 })
unfolding artifact_id valid_queue_artifact_type valid_outbound_artifact_type type_name
pump-Recorded = record {
  version = refl;
  seq_positive = omega arith;
  time_positive = omega arith;
  kind = refl;
  payload = λ h. omega (arith, h);
  identity = refl;
}

sample_sidecars :
    SidecarFiles sample_external sample_decoders
      (one_queue.entries)
      sample_directory
      []
      (("digest_7", pump_backoff) ∷ [])
unfolding hold_files backoff_files unconfigured_file_of classify read_sidecars read_private
    load_holds load_backoffs validate_backoff_record lookup insert erase
sample_sidecars = record {
  hold_records = [];
  backoff_records = ("digest_7", pump_backoff) ∷ [];
  holds_read = refl;
  holds_loaded = refl;
  backoffs_read = refl;
  backoffs_loaded = refl;
  none_noted = refl;
}

options_accepted : options_refusal sample_options true ≡ none
unfolding options_refusal fresh_queue device_set
options_accepted = refl

open-Reopened_example :
    Reopened sample_external one_queue one_items []
      (("digest_7", pump_backoff) ∷ [])
      (open_durable_queue sample_external (λ device. true) sample_decoders sample_options sample_io)
unfolding tally
open-Reopened_example =
    open-Reopened sample_external (λ device. true) sample_decoders one_queue one_items one_items
      sample_options sample_io sample_directory [] (("digest_7", pump_backoff) ∷ []) one_queue-Rep
      (pump-Recorded, tt) (keep _ empty) pump_listed sample_sidecars options_accepted refl
      (omega arith) (omega arith)

enqueue_or_find-Kept_example :
    Kept sample_external
      (enqueue_or_find sample_external committed 6 delivery_envelope (1 ∷ 9 ∷ []) one_queue).0
enqueue_or_find-Kept_example =
    enqueue_or_find-Kept sample_external one_queue
      (one_items, one_queue-Rep, (pump-Recorded, tt), omega arith) committed 6 delivery_envelope
      (1 ∷ 9 ∷ [])
