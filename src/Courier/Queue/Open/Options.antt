-- ===== src/Courier/Queue/Open/Options.antt =====
-- The options of a queue and the shares that they make (`QueueOptions`, `openDurableQueue` and
-- `OpenDurableQueue` of queue.go).
use ori_gateway.Base.{
  ℕ, ◌/◌, String, inl, inr, Bool, not, ◌&&◌, ◌||◌, Option, none, some, List, [], ◌∷◌, ltb,
  if◌then◌else◌, length, any, all, ◌==◌, nat_eq, string_eq,
}
use ori_gateway.Faults.{Recorder}
use ori_gateway.Courier.Types.{valid_outbound_artifact_type}
use ori_gateway.Courier.Queue.Disk.{Write}
use ori_gateway.Courier.Queue.State.{
  DurableQueue, External, entry_of, min_device_share_items, min_device_share_bytes,
}
use ori_gateway.Courier.Devices.{probe}
use ori_gateway.Courier.Queue.Open.{
  DirEntry, Decoders, OpenError, directory_missing, items_not_positive, bytes_not_positive,
  directory_not_private, shares_without_devices, share_below_minimum, authority_artifact_queued,
  Opened, load,
}

-- `directory` is cleaned. A bound that is not positive is 0.
pub record QueueOptions : Type 0 where
  pub directory : String
  pub max_items : ℕ
  pub max_bytes : ℕ
  pub devices : List String
  pub reserve_device_shares : Bool
  pub faults : Recorder
  pub fault_source : String

-- What the file system answers to an opening: `ensurePrivateQueueDirectory`, os.ReadDir and the
-- probe's operations.
pub record OpenIo : Type 0 where
  pub prepared : Bool
  pub entries : Option (List DirEntry)
  pub probe_read : Bool
  pub probe_random : Bool
  pub probe_write : Write

-- The set of configured devices: each once.
unfoldable pub device_set : List String → List String → List String
device_set found [] = found
device_set found (d ∷ rest) =
    if any (λ x. x == d) found then device_set found rest else device_set (d ∷ found) rest

abbrev pub configured_devices : QueueOptions → Option (List String)
configured_devices opts =
    if length opts.devices == 0 then none else some (device_set [] opts.devices)

-- The number of configured devices.
abbrev pub device_total : QueueOptions → ℕ
device_total opts = length (device_set [] opts.devices)

-- The queue before its directory is read.
unfoldable pub fresh_queue : QueueOptions → DurableQueue
unfolding device_set
fresh_queue opts = record {
  max_items = opts.max_items;
  max_bytes = opts.max_bytes;
  reserved = opts.reserve_device_shares;
  configured = configured_devices opts;
  share_items =
      if opts.reserve_device_shares then opts.max_items / device_total opts else opts.max_items;
  share_bytes =
      if opts.reserve_device_shares then opts.max_bytes / device_total opts else opts.max_bytes;
  entries = [];
  holds = [];
  backoffs = [];
  sizes = [];
  order = [];
  bytes = 0;
  next_seq = 1;
  lane_keys = [];
  lane_items = [];
  lane_bytes = [];
  device_items = [];
  device_bytes = [];
  faults = opts.faults;
  fault_source = opts.fault_source;
  disk = record { records = []; hold_files = []; backoff_files = [] };
}

-- The checks before the directory is read.
unfoldable pub options_refusal : QueueOptions → Bool → Option OpenError
unfolding device_set fresh_queue
options_refusal opts prepared =
    if opts.directory == "." || opts.directory == ""
    then some directory_missing
    else if opts.max_items == 0
    then some items_not_positive
    else if opts.max_bytes == 0
    then some bytes_not_positive
    else if not prepared
    then some directory_not_private
    else if opts.reserve_device_shares && device_total opts == 0
    then some shares_without_devices
    else if opts.reserve_device_shares
        && (ltb q.share_items min_device_share_items || ltb q.share_bytes min_device_share_bytes)
    then some share_below_minimum
    else none
  where
    q : DurableQueue
    q = fresh_queue opts

abbrev pub probed : OpenIo → Opened → Opened
probed io (inl refusal) = inl refusal
probed io (inr (q, u)) = inr (probe io.probe_read io.probe_random io.probe_write q, u)

abbrev pub all_outbound : DurableQueue → Bool
all_outbound q = all (λ id. valid_outbound_artifact_type (entry_of id q.entries).kind) q.order

abbrev pub outbound_only : Opened → Opened
outbound_only (inl refusal) = inl refusal
outbound_only (inr (q, u)) = if all_outbound q then inr (q, u) else inl authority_artifact_queued

module _ (ext : External) where
  -- `openDurableQueue`. A failed probe is the store's fault and no refusal.
  unfoldable pub open_durable_queue : (String → Bool) → Decoders → QueueOptions → OpenIo → Opened
  unfolding options_refusal fresh_queue load probe
  open_durable_queue domain ds opts io = elim (options_refusal opts io.prepared) [
    | some refusal ↦ inl refusal
    | none ↦ probed io (load ext domain ds io.entries (fresh_queue opts))
  ]

  -- `OpenDurableQueue`.
  unfoldable pub open_outbound_queue : (String → Bool) → Decoders → QueueOptions → OpenIo → Opened
  unfolding open_durable_queue
  open_outbound_queue domain ds opts io = outbound_only (open_durable_queue domain ds opts io)
