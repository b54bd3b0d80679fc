-- ===== src/Courier/Sidecars/Unsynced.antt =====
-- A back-off file written without its directory synced (`SetBackoff`, `Remove` and `loadBackoffs`).
use ori_gateway.Base.{
  ℕ, String, ◌≡◌, refl, inl, inr, true, none, some, [], ◌∷◌, arith, eq_iff, Bool-cases, nat_eq,
  string_eq,
}
use ori_gateway.Base.Maps.{Map, lookup, has, lookup-insert, lookup-erase}
use ori_gateway.Courier.Types.{QueueRecord, BackoffRecord}
use ori_gateway.Courier.Queue.Disk.{removed, committed, unsynced}
use ori_gateway.Courier.Queue.State.{DurableQueue, External, note_store}
use ori_gateway.Courier.Queue.Retire.{
  RetireIo, remove_hold_locked, remove_backoff_locked, unlink_record, remove_backoff_then,
  remove_locked, remove, drop_record,
}
use ori_gateway.Courier.Sidecars.{set_backoff, validate_backoff_record, load_backoffs, version_of}

-- The io of a retirement on which every file operation succeeds.
abbrev pub all_removed : RetireIo
all_removed = record {
  hold_file = removed;
  backoff_file = removed;
  record_file = removed;
  restore = committed;
}

-- A file that names no record refuses the load.
load_needs_entry :
    (entries : Map String QueueRecord) (files : Map String BackoffRecord) (id : String)
    → has id files ≡ true
    → lookup id entries ≡ none
    → load_backoffs entries files ≡ none
unfolding load_backoffs lookup
load_needs_entry entries [] id h n = cc
load_needs_entry entries ((j, r) ∷ files) id h n =
    ground (arith, load_needs_entry entries files id, eq_iff j id)

unsynced_facts :
    (b : BackoffRecord) (q : DurableQueue) (r : QueueRecord)
    → lookup b.queue_record q.entries ≡ some r
    → validate_backoff_record (record b { v = version_of b.retry_after_ms }) ≡ none
    → let q₁ = (set_backoff unsynced b q).0 in
      (q₁.entries ≡ q.entries)
      × (q₁.backoffs ≡ q.backoffs)
      × (has b.queue_record (q₁.disk.backoff_files) ≡ true)
unfolding set_backoff note_store
unsynced_facts b q r found valid =
    rw (found, set_backoff)
      (rw (valid, set_backoff)
        (
          refl,
          refl,
          ground (
            arith,
            lookup-insert b.queue_record b.queue_record
                (record b { v = version_of b.retry_after_ms }) (q.disk.backoff_files),
            eq_iff b.queue_record b.queue_record,
          ),
        ))

-- With no back-off in memory, a retirement leaves the back-off files as they are.
all_removed_facts :
    (ext : External) (id : String) (q : DurableQueue) (r : QueueRecord) (size : ℕ)
    → lookup id q.entries ≡ some r
    → ext.encoded_size r ≡ some size
    → lookup id q.backoffs ≡ none
    → let (q', e) = remove ext all_removed id q in
      (e ≡ none)
      × (q'.disk.backoff_files ≡ q.disk.backoff_files)
      × (lookup id (q'.disk.records) ≡ none)
unfolding remove remove_locked remove_backoff_then remove_hold_locked remove_backoff_locked
    unlink_record drop_record note_store
all_removed_facts ext id q r size found enc fresh =
    rw (found, remove_locked)
      (rw enc (elim (Bool-cases (has id q.holds)) [
        | inl h ↦ rw h (
            rw (fresh, remove_backoff_locked)
              (refl, refl, ground (arith, lookup-erase id id (q.disk.records), eq_iff id id)))
        | inr h ↦ rw h (
            rw (fresh, remove_backoff_locked)
              (refl, refl, ground (arith, lookup-erase id id (q.disk.records), eq_iff id id)))
      ]))

-- A back-off whose write fails at the directory sync leaves its file behind: the map of back-offs
-- does not name it, so a later retirement of the record succeeds without removing the file, and the
-- files then refuse the queue when it is opened again.
pub unsynced_backoff_orphan :
    (ext : External) (b : BackoffRecord) (q : DurableQueue) (r : QueueRecord) (size : ℕ)
    → lookup b.queue_record q.entries ≡ some r
    → ext.encoded_size r ≡ some size
    → lookup b.queue_record q.backoffs ≡ none
    → validate_backoff_record (record b { v = version_of b.retry_after_ms }) ≡ none
    → let q₁ = (set_backoff unsynced b q).0 in
      let (q₂, e) = remove ext all_removed b.queue_record q₁ in
      (e ≡ none) × (load_backoffs (q₂.disk.records) (q₂.disk.backoff_files) ≡ none)
unsynced_backoff_orphan ext b q r size found enc fresh valid =
    let (same, known, left) = unsynced_facts b q r found valid in
    let (done, same_files, gone) =
      all_removed_facts ext b.queue_record (set_backoff unsynced b q).0 r size
        (ground (arith, same)) enc (ground (arith, known)) in
    (done, load_needs_entry _ _ b.queue_record (ground (arith, same_files, left)) gone)
