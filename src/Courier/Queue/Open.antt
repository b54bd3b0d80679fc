-- ===== src/Courier/Queue/Open.antt =====
-- Opening a queue: what the directory holds becomes the queue's state (`OpenDurableQueue`,
-- `openDurableQueue` and `load` of queue.go, with the readers of hold.go).
pub mod Names
pub mod Options
pub mod Listing
pub mod Kept
pub mod Fold
pub mod Sorted
pub mod Reload
use Prim.Native.String.{◌++◌ as str_append}
use ori_gateway.Base.{
  ℕ, ◌+◌, ◌/◌, String, ◌⊎◌, inl, inr, Bool, true, false, not, ◌&&◌, ◌||◌, Option, none, some, List,
  [], ◌∷◌, ◌++◌, ltb, leb, if◌then◌else◌, length, any, all, ◌==◌, nat_eq, string_eq,
}
use ori_gateway.Base.Maps.{Map, lookup, insert, has}
use ori_gateway.Faults.{Recorder}
use ori_gateway.Courier.Types.{
  Bytes, QueueRecord, HoldRecord, BackoffRecord, valid_queue_artifact_type,
  valid_outbound_artifact_type,
}
use ori_gateway.Courier.Queue.Disk.{Write}
use ori_gateway.Courier.Queue.State.{
  DurableQueue, External, artifact_id, index_locked, sort_order, entry_of, min_device_share_items,
  min_device_share_bytes,
}
use ori_gateway.Courier.Queue.Open.Names.{
  EntryKind, skipped, unconfigured_file, hold_file, backoff_file, unfinished_file, stray_entry,
  record_file, classify, record_file_name,
}
use ori_gateway.Courier.Sidecars.{load_holds, load_backoffs}
use ori_gateway.Courier.Devices.{
  Unconfigured, UnconfiguredRecord, no_devices, load_unconfigured, probe,
}

pub record FileInfo : Type 0 where
  pub regular : Bool
  pub private : Bool

-- One entry of the directory, with what the calls about it answer: `info` is `none` where the file
-- cannot be inspected, `raw` where it cannot be read, and `removable` is whether os.Remove succeeds.
pub record DirEntry : Type 0 where
  pub name : String
  pub is_dir : Bool
  pub info : Option FileInfo
  pub raw : Option Bytes
  pub removable : Bool

-- encoding/json's decoders of the four kinds of file, `none` for bytes that they refuse. A number
-- that is not positive is read as 0.
pub record Decoders : Type 0 where
  pub records : Bytes → Option QueueRecord
  pub hold_records : Bytes → Option HoldRecord
  pub backoff_records : Bytes → Option BackoffRecord
  pub unconfigured_records : Bytes → Option UnconfiguredRecord

pub data OpenError : Type 0 where
  directory_missing items_not_positive bytes_not_positive directory_not_private : OpenError
  shares_without_devices share_below_minimum : OpenError
  directory_unreadable unfinished_kept entry_unexpected : OpenError
  file_not_inspected file_not_regular file_not_private file_unreadable : OpenError
  record_corrupt record_refused identity_mismatch name_mismatch : OpenError
  record_twice sequence_twice bounds_exceeded : OpenError
  hold_refused backoff_refused unconfigured_refused authority_artifact_queued : OpenError

-- The loop's state. A sidecar's entry stands with the id in its name.
pub record Loading : Type 0 where
  pub queue : DurableQueue
  pub seen : List ℕ
  pub hold_entries : List (String × DirEntry)
  pub backoff_entries : List (String × DirEntry)
  pub unconfigured_entry : Option DirEntry

abbrev pub inspected : FileInfo → Option Bytes → OpenError ⊎ Bytes
inspected info raw =
    if not info.regular
    then inl file_not_regular
    else if not info.private
    then inl file_not_private
    else elim raw [ none ↦ inl file_unreadable | some bytes ↦ inr bytes ]

-- `readPrivateSidecar`, and the same checks of a record's file.
unfoldable pub read_private : DirEntry → OpenError ⊎ Bytes
read_private e = elim e.info [ none ↦ inl file_not_inspected | some info ↦ inspected info e.raw ]

-- The loop of `loadHolds` and of `loadBackoffs`, up to the decoded records.
unfoldable pub read_sidecars {ℓ} :
    {A : Type ℓ} → (Bytes → Option A) → List (String × DirEntry) → Option (Map String A)
unfolding read_private
read_sidecars decode [] = some []
read_sidecars decode ((id, e) ∷ rest) = elim (read_private e) [
  | inl refusal ↦ none
  | inr raw ↦ elim (decode raw) [
    | none ↦ none
    | some r ↦ elim (read_sidecars decode rest) [
      | none ↦ none
      | some files ↦ some ((id, r) ∷ files)
    ]
  ]
]

abbrev pub Opened : Type 0
Opened = OpenError ⊎ (DurableQueue × Unconfigured)

abbrev pub loading_from : DurableQueue → Loading
loading_from q = record {
  queue = q;
  seen = [];
  hold_entries = [];
  backoff_entries = [];
  unconfigured_entry = none;
}

module _ (ext : External) where
  -- The checks of one decoded record, in their order.
  unfoldable pub record_refusal : String → QueueRecord → Loading → Option OpenError
  unfolding lookup artifact_id
  record_refusal name r s =
      if not (r.v == 1)
        || r.queue_seq == 0
        || r.enqueued_at_ms == 0
        || not (valid_queue_artifact_type r.kind)
        || length r.payload == 0
      then some record_refused
      else if not (r.id == artifact_id ext r.kind r.payload)
      then some identity_mismatch
      else if not (name == record_file_name r.id)
      then some name_mismatch
      else if has r.id s.queue.entries
      then some record_twice
      else if any (λ n. n == r.queue_seq) s.seen
      then some sequence_twice
      else none

  -- The writes to the queue's maps for one record that is read. The queue's view of its directory
  -- has the file.
  unfoldable pub take_record : QueueRecord → ℕ → DurableQueue → DurableQueue
  unfolding insert index_locked
  take_record r size q =
      let q₁ : DurableQueue = record q {
        entries = insert r.id r q.entries;
        sizes = insert r.id size q.sizes;
      } in
      let q₂ : DurableQueue = index_locked ext r size q₁ in
      record q₂ {
        order = q₂.order ++ (r.id ∷ []);
        bytes = q₂.bytes + size;
        next_seq = if leb q₂.next_seq r.queue_seq then r.queue_seq + 1 else q₂.next_seq;
        disk = record (q₂.disk) { records = insert r.id r (q₂.disk.records) };
      }

  abbrev pub accept_record : QueueRecord → ℕ → Loading → Option OpenError → OpenError ⊎ Loading
  accept_record r size s (some refusal) = inl refusal
  accept_record r size s none =
      inr (record s { queue = take_record r size s.queue; seen = r.queue_seq ∷ s.seen })

  abbrev pub check_decoded : String → ℕ → Loading → Option QueueRecord → OpenError ⊎ Loading
  check_decoded name size s none = inl record_corrupt
  check_decoded name size s (some r) = accept_record r size s (record_refusal name r s)

  abbrev pub decode_record : Decoders → String → Loading → OpenError ⊎ Bytes → OpenError ⊎ Loading
  decode_record ds name s (inl refusal) = inl refusal
  decode_record ds name s (inr raw) = check_decoded name (length raw) s (ds.records raw)

  abbrev pub load_kind : Decoders → DirEntry → Loading → EntryKind → OpenError ⊎ Loading
  load_kind ds e s skipped = inr s
  load_kind ds e s unconfigured_file = inr (record s { unconfigured_entry = some e })
  load_kind ds e s (hold_file id) =
      inr (record s { hold_entries = s.hold_entries ++ ((id, e) ∷ []) })
  load_kind ds e s (backoff_file id) =
      inr (record s { backoff_entries = s.backoff_entries ++ ((id, e) ∷ []) })
  load_kind ds e s unfinished_file = if e.removable then inr s else inl unfinished_kept
  load_kind ds e s stray_entry = inl entry_unexpected
  load_kind ds e s record_file = decode_record ds e.name s (read_private e)

  -- The body of the loop over the directory.
  unfoldable pub load_entry : Decoders → DirEntry → Loading → OpenError ⊎ Loading
  unfolding classify read_private record_refusal take_record
  load_entry ds e s = load_kind ds e s (classify e.name e.is_dir)

  unfoldable pub load_entries : Decoders → List DirEntry → Loading → OpenError ⊎ Loading
  unfolding load_entry
  load_entries ds [] s = inr s
  load_entries ds (e ∷ rest) s = elim (load_entry ds e s) [
    | inl refusal ↦ inl refusal
    | inr s' ↦ load_entries ds rest s'
  ]

  -- `loadHolds` and `loadBackoffs`: the sidecars beside the records that were read.
  unfoldable pub load_sidecars : Decoders → Loading → DurableQueue → OpenError ⊎ DurableQueue
  unfolding read_sidecars load_holds load_backoffs
  load_sidecars ds s q = elim (read_sidecars ds.hold_records s.hold_entries) [
    | none ↦ inl hold_refused
    | some hold_files ↦ elim (load_holds ext q.entries hold_files) [
      | none ↦ inl hold_refused
      | some holds ↦ elim (read_sidecars ds.backoff_records s.backoff_entries) [
        | none ↦ inl backoff_refused
        | some backoff_files ↦ elim (load_backoffs q.entries backoff_files) [
          | none ↦ inl backoff_refused
          | some backoffs ↦ inr (record q {
            holds = holds;
            backoffs = backoffs;
            disk = record (q.disk) { hold_files = hold_files; backoff_files = backoff_files };
          })
        ]
      ]
    ]
  ]

  abbrev pub unconfigured_from : (String → Bool) → Option UnconfiguredRecord → DurableQueue → Opened
  unconfigured_from domain none q = inl unconfigured_refused
  unconfigured_from domain (some r) q = elim (load_unconfigured domain r q) [
    | none ↦ inl unconfigured_refused
    | some loaded ↦ inr loaded
  ]

  abbrev pub with_unconfigured :
      (String → Bool) → Decoders → Option DirEntry → OpenError ⊎ DurableQueue → Opened
  with_unconfigured domain ds entry (inl refusal) = inl refusal
  with_unconfigured domain ds none (inr q) = inr (q, no_devices)
  with_unconfigured domain ds (some e) (inr q) = elim (read_private e) [
    | inl refusal ↦ inl refusal
    | inr raw ↦ unconfigured_from domain (ds.unconfigured_records raw) q
  ]

  -- `load` from the end of its loop on.
  unfoldable pub finish_load : (String → Bool) → Decoders → Loading → Opened
  unfolding sort_order load_sidecars read_private load_unconfigured
  finish_load domain ds s =
      let q : DurableQueue = sort_order s.queue in
      if ltb q.max_items (length q.entries) || ltb q.max_bytes q.bytes
      then inl bounds_exceeded
      else with_unconfigured domain ds s.unconfigured_entry (load_sidecars ds s q)

  -- `dir` is the directory's entries in the order of their names, `none` where it cannot be read.
  unfoldable pub load : (String → Bool) → Decoders → Option (List DirEntry) → DurableQueue → Opened
  unfolding load_entries finish_load
  load domain ds none q = inl directory_unreadable
  load domain ds (some entries) q = elim (load_entries ds entries (loading_from q)) [
    | inl refusal ↦ inl refusal
    | inr s ↦ finish_load domain ds s
  ]
