-- ===== src/Courier/Queue/Retire.antt =====
-- Retirement: `Remove`, `removeLocked`, `removeHoldLocked`, `removeBackoffLocked` and
-- `ClearBackoff` (queue.go and hold.go).
use ori_gateway.Base.{
  ℕ, ◌-◌, String, Bool, true, false, not, Option, none, some, List, [], ◌∷◌, if◌then◌else◌, is_some,
  ◌==◌, nat_eq, string_eq,
}
use ori_gateway.Base.Maps.{lookup, erase, has}
use ori_gateway.Courier.Types.{QueueRecord}
use ori_gateway.Courier.Queue.Disk.{
  Write, Removal, removed, kept, unconfirmed, write_failed, removal_failed, remove_file,
}
use ori_gateway.Courier.Queue.State.{
  DurableQueue, External, QueueError, encode_failed, store_failed, restore_failed,
  artifact_not_found, count, note_store, unindex_locked,
}
use ori_gateway.Courier.Queue.Admit.{write_record}

-- What the file operations of one retirement answer, in the order they run.
pub record RetireIo : Type 0 where
  pub hold_file : Removal
  pub backoff_file : Removal
  pub record_file : Removal
  pub restore : Write

unfoldable pub remove_hold_locked : Removal → String → DurableQueue → DurableQueue × Bool
unfolding lookup erase remove_file
remove_hold_locked io id q =
    if not (has id q.holds)
    then (q, true)
    else let q₁ : DurableQueue = record q {
      disk = record (q.disk) { hold_files = remove_file io id (q.disk.hold_files) };
    } in
      if removal_failed io then (q₁, false) else (record q₁ { holds = erase id q.holds }, true)

unfoldable pub remove_backoff_locked : Removal → String → DurableQueue → DurableQueue × Bool
unfolding lookup erase remove_file
remove_backoff_locked io id q =
    if not (has id q.backoffs)
    then (q, true)
    else let q₁ : DurableQueue = record q {
      disk = record (q.disk) { backoff_files = remove_file io id (q.disk.backoff_files) };
    } in
      if removal_failed io
      then (q₁, false)
      else (record q₁ { backoffs = erase id q.backoffs }, true)

-- The first occurrence of an id leaves the order.
unfoldable pub order_without : String → List String → List String
order_without id [] = []
order_without id (x ∷ xs) = if x == id then xs else x ∷ order_without id xs

-- The writes to the queue's maps once the record's removal is durable.
unfoldable pub drop_record : String → DurableQueue → DurableQueue
unfolding lookup erase unindex_locked order_without
drop_record id q =
    let size : ℕ = count id q.sizes in
    let q₁ : DurableQueue =
      unindex_locked id size
        (record q { entries = erase id q.entries; sizes = erase id q.sizes }) in
    record q₁ { order = order_without id q₁.order; bytes = q₁.bytes - size }

abbrev after_unlink : Removal → String → DurableQueue → DurableQueue
after_unlink m id q = record q {
  disk = record (q.disk) { records = remove_file m id (q.disk.records) };
}

-- The unlink of the record's file, and the restore when its directory entry is not confirmed.
unfoldable pub unlink_record :
    Removal → Write → QueueRecord → String → DurableQueue → DurableQueue × Option QueueError
unfolding remove_file
unlink_record kept restore r id q = (after_unlink kept id q, some store_failed)
unlink_record unconfirmed restore r id q = (
  write_record restore r (after_unlink unconfirmed id q),
  some (if write_failed restore then restore_failed else store_failed),
)
unlink_record removed restore r id q = (drop_record id (after_unlink removed id q), none)

unfoldable pub remove_backoff_then :
    RetireIo → QueueRecord → String → DurableQueue → DurableQueue × Option QueueError
remove_backoff_then io r id q =
    let (q₁, done) = remove_backoff_locked (io.backoff_file) id q in
    if not done
    then (q₁, some store_failed)
    else unlink_record (io.record_file) (io.restore) r id q₁

unfoldable pub remove_locked :
    External → RetireIo → String → DurableQueue → DurableQueue × Option QueueError
unfolding lookup
remove_locked ext io id q = elim (lookup id q.entries) [
  | none ↦ (q, some artifact_not_found)
  | some r ↦
      if not (is_some (ext.encoded_size r))
      then (q, some encode_failed)
      else let (q₁, done) = remove_hold_locked (io.hold_file) id q in
        if not done then (q₁, some store_failed) else remove_backoff_then io r id q₁
]

-- Every error but a missing record raises the store's fault.
abbrev pub raises_fault : Option QueueError → Bool
raises_fault none = false
raises_fault (some artifact_not_found) = false
raises_fault (some _) = true

unfoldable pub remove :
    External → RetireIo → String → DurableQueue → DurableQueue × Option QueueError
remove ext io id q = let (q₁, e) = remove_locked ext io id q in (note_store (raises_fault e) q₁, e)

unfoldable pub clear_backoff : Removal → String → DurableQueue → DurableQueue × Bool
unfolding lookup
clear_backoff io id q =
    if not (has id q.backoffs)
    then (q, true)
    else let (q₁, done) = remove_backoff_locked io id q in (note_store (not done) q₁, done)
