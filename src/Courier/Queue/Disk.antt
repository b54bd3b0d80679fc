-- ===== src/Courier/Queue/Disk.antt =====
-- The queue directory: one file for each record and each sidecar, named after the record's id, and
-- the outcomes of the file operations on them (`writeFileAtomicRaw`, os.Remove, SyncDirectory).
use ori_gateway.Base.{String, Bool, true, false, nat_eq, string_eq}
use ori_gateway.Base.Maps.{Map, insert, erase}
use ori_gateway.Courier.Types.{QueueRecord, HoldRecord, BackoffRecord}

pub record Disk : Type 0 where
  pub records : Map String QueueRecord
  pub hold_files : Map String HoldRecord
  pub backoff_files : Map String BackoffRecord

-- An atomic write commits, fails before the rename, or fails at the directory sync after it.
pub data Write : Type 0 where
  committed lost unsynced : Write

-- A removal commits, fails at the unlink, or fails at the directory sync after it.
pub data Removal : Type 0 where
  removed kept unconfirmed : Removal

abbrev pub write_failed : Write → Bool
write_failed committed = false
write_failed _ = true

abbrev pub removal_failed : Removal → Bool
removal_failed removed = false
removal_failed _ = true

module _ {ℓ} {V : Type ℓ} where
  unfoldable pub write_file : Write → String → V → Map String V → Map String V
  write_file lost name v files = files
  write_file _ name v files = insert name v files

  unfoldable pub remove_file : Removal → String → Map String V → Map String V
  remove_file kept name files = files
  remove_file _ name files = erase name files
