-- ===== src/Courier/Queue/Unrestored.antt =====
-- A record whose removal was not confirmed and could not be restored (`Remove` and `Enqueue`).
use ori_gateway.Base.{
  ℕ, String, ◌≡◌, refl, ap, true, false, none, some, arith, eq_iff, length, ◌==◌, nat_eq, string_eq,
  ◌∙◌,
}
use ori_gateway.Base.Maps.{lookup, lookup-erase}
use ori_gateway.Courier.Types.{
  Bytes, ArtifactType, QueueRecord, record_artifact, valid_queue_artifact_type,
}
use ori_gateway.Courier.Queue.Disk.{Write, removed, unconfirmed, lost, write_file, remove_file}
use ori_gateway.Courier.Queue.State.{
  DurableQueue, External, artifact_id, note_store, restore_failed,
}
use ori_gateway.Courier.Queue.Admit.{queued, enqueue_or_find}
use ori_gateway.Courier.Queue.Custody.{held_again}
use ori_gateway.Courier.Queue.Retire.{
  RetireIo, remove_hold_locked, remove_backoff_locked, unlink_record, remove_backoff_then,
  remove_locked, remove,
}

-- The unlink happens and its directory is not synced, and then the restore fails.
abbrev pub unrestored : RetireIo
unrestored = record {
  hold_file = removed;
  backoff_file = removed;
  record_file = unconfirmed;
  restore = lost;
}

hold_facts :
    (id : String) (q : DurableQueue)
    → ((remove_hold_locked removed id q).1 ≡ true)
      × ((remove_hold_locked removed id q).0.entries ≡ q.entries)
unfolding remove_hold_locked
hold_facts id q = ground arith

backoff_facts :
    (id : String) (q : DurableQueue)
    → ((remove_backoff_locked removed id q).1 ≡ true)
      × ((remove_backoff_locked removed id q).0.entries ≡ q.entries)
unfolding remove_backoff_locked
backoff_facts id q = ground arith

unlink_facts :
    (r : QueueRecord) (id : String) (q : DurableQueue)
    → let (q', e) = unlink_record unconfirmed lost r id q in
      (e ≡ some restore_failed) × (q'.entries ≡ q.entries) × (lookup id (q'.disk.records) ≡ none)
unfolding unlink_record note_store write_file remove_file
unlink_facts r id q = (refl, refl, ground (arith, lookup-erase id id q.disk.records, eq_iff id id))

unrestored_facts :
    (ext : External) (id : String) (q : DurableQueue) (r : QueueRecord) (size : ℕ)
    → lookup id q.entries ≡ some r
    → ext.encoded_size r ≡ some size
    → let (q', e) = remove ext unrestored id q in
      (e ≡ some restore_failed) × (q'.entries ≡ q.entries) × (lookup id (q'.disk.records) ≡ none)
unfolding remove remove_locked remove_backoff_then note_store unlink_record
unrestored_facts ext id q r size found enc =
    let q₁ : DurableQueue = (remove_hold_locked removed id q).0 in
    let (held, same) = hold_facts id q in
    let (backed, same') = backoff_facts id q₁ in
    let (failed, kept, gone) = unlink_facts r id (remove_backoff_locked removed id q₁).0 in
    rw (found, remove_locked) (rw enc (rw held (rw backed (failed, kept ∙ same' ∙ same, gone))))

-- After a removal that was not confirmed and whose restore failed, the record is an entry without a
-- file; and the same bytes, offered again, are answered as queued all the same, at any clock and
-- whatever a write would answer, with no file written.
pub unrestored-answered :
    (ext : External) (kind : ArtifactType) (payload : Bytes) (q : DurableQueue) (r : QueueRecord)
    (size : ℕ) (w : Write) (now : ℕ)
    → lookup (artifact_id ext kind payload) q.entries ≡ some r
    → ext.encoded_size r ≡ some size
    → valid_queue_artifact_type kind ≡ true
    → (length payload == 0) ≡ false
    → let id : String = artifact_id ext kind payload in
      let (q₁, e) = remove ext unrestored id q in
      let (q₂, answer) = enqueue_or_find ext w now kind payload q₁ in
      (e ≡ some restore_failed)
      × (answer ≡ queued (record_artifact r) true)
      × (lookup id (q₂.disk.records) ≡ none)
unrestored-answered ext kind payload q r size w now found enc valid filled =
    let id : String = artifact_id ext kind payload in
    let (failed, same, gone) = unrestored_facts ext id q r size found enc in
    let q₁ : DurableQueue = (remove ext unrestored id q).0 in
    let again = held_again ext w now kind payload q₁ r valid filled (ap (lookup id) same ∙ found) in
    (failed, ap (λ o. o.1) again, ap (λ o. lookup id (o.0.disk.records)) again ∙ gone)
