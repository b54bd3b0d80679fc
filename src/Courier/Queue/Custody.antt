-- ===== src/Courier/Queue/Custody.antt =====
-- What an answered admission promises (`Enqueue`): the exact bytes, and the same answer when asked
-- again.
use ori_gateway.Base.{
  ℕ, String, ◌≡◌, refl, ◌⊎◌, inl, inr, true, false, none, some, arith, eq_iff, length, ◌==◌, nat_eq,
  string_eq,
}
use ori_gateway.Base.Maps.{lookup, lookup-insert}
use ori_gateway.Courier.Types.{
  Bytes, ArtifactType, QueueRecord, record_artifact, valid_queue_artifact_type,
}
use ori_gateway.Courier.Queue.Disk.{Write, committed, lost, unsynced, write_file}
use ori_gateway.Courier.Queue.State.{DurableQueue, External, artifact_id, note_store}
use ori_gateway.Courier.Queue.Admit.{
  Outcome, queued, refused, write_record, new_record, keep_record, enqueue_or_find,
}
use ori_gateway.Courier.Queue.Cases.{admit_cases}

-- Every entry has its file, every entry is named by its own bytes.
pub record Durable (ext : External) (q : DurableQueue) : Type 0 where
  pub on_disk :
      (id : String) {r : QueueRecord}
      → lookup id q.entries ≡ some r
      → lookup id q.disk.records ≡ some r
  pub named : (id : String) {r : QueueRecord} → lookup id q.entries ≡ some r → r.id ≡ id

-- No queued record of other bytes has the name of these.
abbrev pub NoCollision : External → DurableQueue → ArtifactType → Bytes → Type 0
NoCollision ext q kind payload =
    (r : QueueRecord)
    → lookup (artifact_id ext kind payload) q.entries ≡ some r
    → r.payload ≡ payload

-- The answer is an entry of exactly these bytes: one that this call has written to its file, or one
-- that was held before, which the call leaves with the whole queue as it was. A refusal leaves the
-- entries.
abbrev pub InCustody : String → Bytes → DurableQueue → DurableQueue × Outcome → Type 0
InCustody id payload before (q', queued a held) =
    (r : QueueRecord) × (lookup id q'.entries ≡ some r)
    × (r.payload ≡ payload)
    × (a ≡ record_artifact r)
    × (((held ≡ false) × (lookup id (q'.disk.records) ≡ some r)) ⊎ ((held ≡ true) × (q' ≡ before)))
InCustody id payload before (q', refused e) = q'.entries ≡ before.entries

module _ (ext : External) (q : DurableQueue) (d : Durable ext q) where
  fail-Durable :
      (w : Write) (r : QueueRecord)
      → lookup r.id q.entries ≡ none
      → Durable ext (write_record w r q)
  unfolding note_store write_file
  fail-Durable committed r n = record {
    on_disk = λ id h.
        ground (arith, lookup-insert r.id id r (q.disk.records), d.on_disk id h, eq_iff r.id id);
    named = d.named;
  }
  fail-Durable lost r n = record { on_disk = d.on_disk; named = d.named }
  fail-Durable unsynced r n = record {
    on_disk = λ id h.
        ground (arith, lookup-insert r.id id r (q.disk.records), d.on_disk id h, eq_iff r.id id);
    named = d.named;
  }

  keep-Durable :
      (r : QueueRecord) (size : ℕ)
      → Durable ext (keep_record ext r size (write_record committed r q))
  unfolding keep_record note_store write_file
  keep-Durable r size = record {
    on_disk = λ id {r = r'} h. ground (
      arith,
      lookup-insert r.id id r (q.disk.records),
      lookup-insert r.id id r (q.entries),
      d.on_disk id {r = r'},
    );
    named = λ id {r = r'} h.
        ground (arith, lookup-insert r.id id r (q.entries), d.named id {r = r'}, eq_iff r.id id);
  }

  -- An admission keeps every entry on disk under its own name, on every path.
  pub enqueue_or_find-Durable :
      (w : Write) (now : ℕ) (kind : ArtifactType) (payload : Bytes)
      → Durable ext (enqueue_or_find ext w now kind payload q).0
  enqueue_or_find-Durable w now kind payload =
      admit_cases (λ r. Durable ext r.0) ext w now kind payload q (λ e. d)
        (λ w' size g. fail-Durable w' _ g.absent) (λ size g. keep-Durable _ size) (λ e _ _ _. d)

module _ (ext : External) (q : DurableQueue) where
  failed-entries : (w : Write) (r : QueueRecord) → (write_record w r q).entries ≡ q.entries
  unfolding note_store
  failed-entries w r = ground arith

  -- An admission that answers with an artifact names an entry with exactly the bytes that were
  -- offered. If it was not held before, its file is then on disk with those bytes; if it was, the
  -- queue and its files are left as they were. One that is refused leaves the entries. Provided that
  -- no queued record of other bytes has the digest of these; what the file operations answer does
  -- not matter.
  pub enqueue_or_find-InCustody :
      (w : Write) (now : ℕ) (kind : ArtifactType) (payload : Bytes)
      → NoCollision ext q kind payload
      → InCustody
          (artifact_id ext kind payload)
          payload
          q
          (enqueue_or_find ext w now kind payload q)
  enqueue_or_find-InCustody w now kind payload free =
      admit_cases (InCustody id payload q) ext w now kind payload q (λ e. refl)
        (λ w' size g. failed-entries w' _)
        (λ size g. kept (new_record q kind payload id now) size refl refl)
        (λ e h _ _. (e, h, free e h, refl, inr (refl, refl)))
    where
      id : String
      id = artifact_id ext kind payload

      kept :
          (r : QueueRecord) (size : ℕ)
          → r.id ≡ id
          → r.payload ≡ payload
          → InCustody id payload q (
            keep_record ext r size (write_record committed r q),
            queued (record_artifact r) false,
          )
      kept r size named bytes = (
        r,
        unfold keep_record note_store in
            ground (arith, named, lookup-insert r.id id r (q.entries), eq_iff r.id id),
        bytes,
        refl,
        inl (
          refl,
          unfold keep_record note_store write_file in
              ground (arith, named, lookup-insert r.id id r (q.disk.records), eq_iff r.id id),
        ),
      )

module _ (ext : External) where
  pub held_again :
      (w : Write) (now : ℕ) (kind : ArtifactType) (payload : Bytes) (q : DurableQueue)
      (r : QueueRecord)
      → valid_queue_artifact_type kind ≡ true
      → (length payload == 0) ≡ false
      → lookup (artifact_id ext kind payload) q.entries ≡ some r
      → enqueue_or_find ext w now kind payload q ≡ (q, queued (record_artifact r) true)
  unfolding enqueue_or_find
  held_again w now kind payload q r valid filled h = rw (valid, filled, h, enqueue_or_find) refl

  -- The answers that a repeated call must give.
  abbrev pub Repeats : (DurableQueue → DurableQueue × Outcome) → DurableQueue × Outcome → Type 0
  Repeats again (q', queued a held) = again q' ≡ (q', queued a true)
  Repeats again (q', refused e) = Unit {0}

  -- Once an admission has answered with an artifact, offering the same bytes again answers with
  -- the same artifact, already held, and changes nothing: also when the queue is full by then, the
  -- clock has moved or the store fails.
  pub enqueue_or_find_again :
      (w w' : Write) (now now' : ℕ) (kind : ArtifactType) (payload : Bytes) (q : DurableQueue)
      → Repeats
          (enqueue_or_find ext w' now' kind payload)
          (enqueue_or_find ext w now kind payload q)
  enqueue_or_find_again w w' now now' kind payload q =
      admit_cases (Repeats (enqueue_or_find ext w' now' kind payload)) ext w now kind payload q
        (λ e. tt) (λ _ size g. tt)
        (λ size g.
          held_again w' now' kind payload _ _ g.valid g.not_empty
            (stands (new_record q kind payload (artifact_id ext kind payload) now) size))
        (λ e h valid filled. held_again w' now' kind payload q e valid filled h)
    where
      stands :
          (r : QueueRecord) (size : ℕ)
          → lookup r.id (keep_record ext r size (write_record committed r q)).entries ≡ some r
      stands r size =
          unfold keep_record note_store in
          ground (arith, lookup-insert r.id r.id r (q.entries), eq_iff r.id r.id)
