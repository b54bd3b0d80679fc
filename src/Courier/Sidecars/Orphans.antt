-- ===== src/Courier/Sidecars/Orphans.antt =====
-- Sidecar files and the records they stand beside, through a retirement (`Remove`).
use ori_gateway.Base.{
  String, ◌≡◌, sym, subst, inl, inr, Bool, true, false, not, Option, some, arith, eq_iff,
  if◌then◌else◌, Bool-cases, Option-cases, is_some, ◌==◌, nat_eq, string_eq,
}
use ori_gateway.Base.Maps.{Map, lookup, erase, has, lookup-erase}
use ori_gateway.Courier.Types.{QueueRecord}
use ori_gateway.Courier.Queue.Disk.{
  Write, Removal, removed, kept, unconfirmed, remove_file, removal_failed,
}
use ori_gateway.Courier.Queue.State.{
  DurableQueue, External, QueueError, note_store, store_failed, encode_failed,
}
use ori_gateway.Courier.Queue.Admit.{write_record}
use ori_gateway.Courier.Queue.Retire.{
  RetireIo, remove_hold_locked, remove_backoff_locked, unlink_record, remove_backoff_then,
  remove_locked, remove, drop_record,
}

-- Every sidecar file is known in memory, and every sidecar in memory stands beside an entry.
pub record Backed (q : DurableQueue) : Type 0 where
  pub hold_known : (id : String) → has id (q.disk.hold_files) ≡ true → has id q.holds ≡ true
  pub backoff_known :
      (id : String) → has id (q.disk.backoff_files) ≡ true → has id q.backoffs ≡ true
  pub hold_beside : (id : String) → has id q.holds ≡ true → has id q.entries ≡ true
  pub backoff_beside : (id : String) → has id q.backoffs ≡ true → has id q.entries ≡ true

has-erase {ℓ} :
    {V : Type ℓ} (k j : String) (m : Map String V)
    → has j (erase k m) ≡ (if k == j then false else has j m)
has-erase k j m = ground (arith, lookup-erase k j m)

module _ (id : String) where
  hold-Backed : (m : Removal) (q : DurableQueue) → Backed q → Backed (remove_hold_locked m id q).0
  unfolding remove_hold_locked
  hold-Backed m q b = elim (Bool-cases (has id (q.holds))) [
    | inr absent ↦ rw absent b
    | inl present ↦ rw present (by_outcome m)
  ]
    where
      by_outcome :
          (m : Removal)
          → let p : DurableQueue × Bool =
              if removal_failed m
              then (
                record q {
                  disk = record (q.disk) { hold_files = remove_file m id (q.disk.hold_files) };
                },
                false,
              )
              else (
                record q {
                  disk = record (q.disk) { hold_files = remove_file m id (q.disk.hold_files) };
                  holds = erase id (q.holds);
                },
                true,
              ) in
            Backed p.0
      by_outcome removed = record {
        hold_known = λ j h.
            ground
              (arith, has-erase id j (q.holds), has-erase id j (q.disk.hold_files), b.hold_known j);
        backoff_known = b.backoff_known;
        hold_beside = λ j h. ground (arith, has-erase id j (q.holds), b.hold_beside j);
        backoff_beside = b.backoff_beside;
      }
      by_outcome kept = record {
        hold_known = b.hold_known;
        backoff_known = b.backoff_known;
        hold_beside = b.hold_beside;
        backoff_beside = b.backoff_beside;
      }
      by_outcome unconfirmed = record {
        hold_known = λ j h. ground (arith, has-erase id j (q.disk.hold_files), b.hold_known j);
        backoff_known = b.backoff_known;
        hold_beside = b.hold_beside;
        backoff_beside = b.backoff_beside;
      }

  hold_gone :
      (m : Removal) (q : DurableQueue)
      → (remove_hold_locked m id q).1 ≡ true
      → has id ((remove_hold_locked m id q).0.holds) ≡ false
  unfolding remove_hold_locked
  hold_gone m q h = ground (arith, has-erase id id (q.holds), eq_iff id id)

  backoff-Backed :
      (m : Removal) (q : DurableQueue) → Backed q → Backed (remove_backoff_locked m id q).0
  unfolding remove_backoff_locked
  backoff-Backed m q b = elim (Bool-cases (has id (q.backoffs))) [
    | inr absent ↦ rw absent b
    | inl present ↦ rw present (by_outcome m)
  ]
    where
      by_outcome :
          (m : Removal)
          → let p : DurableQueue × Bool =
              if removal_failed m
              then (
                record q {
                  disk = record (q.disk) {
                    backoff_files = remove_file m id (q.disk.backoff_files);
                  };
                },
                false,
              )
              else (
                record q {
                  disk = record (q.disk) {
                    backoff_files = remove_file m id (q.disk.backoff_files);
                  };
                  backoffs = erase id (q.backoffs);
                },
                true,
              ) in
            Backed p.0
      by_outcome removed = record {
        backoff_known = λ j h. ground (
          arith,
          has-erase id j (q.backoffs),
          has-erase id j (q.disk.backoff_files),
          b.backoff_known j,
        );
        hold_known = b.hold_known;
        backoff_beside = λ j h. ground (arith, has-erase id j (q.backoffs), b.backoff_beside j);
        hold_beside = b.hold_beside;
      }
      by_outcome kept = record {
        hold_known = b.hold_known;
        backoff_known = b.backoff_known;
        hold_beside = b.hold_beside;
        backoff_beside = b.backoff_beside;
      }
      by_outcome unconfirmed = record {
        backoff_known =
            λ j h. ground (arith, has-erase id j (q.disk.backoff_files), b.backoff_known j);
        hold_known = b.hold_known;
        hold_beside = b.hold_beside;
        backoff_beside = b.backoff_beside;
      }

  backoff_gone :
      (m : Removal) (q : DurableQueue)
      → (remove_backoff_locked m id q).1 ≡ true
      → (has id ((remove_backoff_locked m id q).0.backoffs) ≡ false)
        × ((remove_backoff_locked m id q).0.holds ≡ q.holds)
  unfolding remove_backoff_locked
  backoff_gone m q h = (ground (arith, has-erase id id (q.backoffs), eq_iff id id), ground arith)

  note-Backed : (b : Bool) (q : DurableQueue) → Backed q → Backed (note_store b q)
  unfolding note_store
  note-Backed true q b = record {
    hold_known = b.hold_known;
    backoff_known = b.backoff_known;
    hold_beside = b.hold_beside;
    backoff_beside = b.backoff_beside;
  }
  note-Backed false q b = b

  write-Backed :
      (w : Write) (r : QueueRecord) (q : DurableQueue) → Backed q → Backed (write_record w r q)
  write-Backed w r q b = note-Backed _ _ (record {
    hold_known = b.hold_known;
    backoff_known = b.backoff_known;
    hold_beside = b.hold_beside;
    backoff_beside = b.backoff_beside;
  })

  unlink-Backed :
      (m : Removal) (w : Write) (r : QueueRecord) (q : DurableQueue)
      → Backed q
      → has id (q.holds) ≡ false
      → has id (q.backoffs) ≡ false
      → Backed (unlink_record m w r id q).0
  unfolding unlink_record
  unlink-Backed kept w r q b h g = record {
    hold_known = b.hold_known;
    backoff_known = b.backoff_known;
    hold_beside = b.hold_beside;
    backoff_beside = b.backoff_beside;
  }
  unlink-Backed unconfirmed w r q b h g = write-Backed w r _ (record {
    hold_known = b.hold_known;
    backoff_known = b.backoff_known;
    hold_beside = b.hold_beside;
    backoff_beside = b.backoff_beside;
  })
  unlink-Backed removed w r q b h g =
      unfold drop_record in
      record {
        hold_known = b.hold_known;
        backoff_known = b.backoff_known;
        hold_beside =
            λ j k. ground (arith, has-erase id j (q.entries), b.hold_beside j, eq_iff id j);
        backoff_beside =
            λ j k. ground (arith, has-erase id j (q.entries), b.backoff_beside j, eq_iff id j);
      }

  -- If every sidecar file is known in memory, and every sidecar in memory stands beside an entry,
  -- then both are so after a retirement too, wherever it stops and whatever its file operations
  -- answer. A back-off whose directory sync failed leaves a file that memory does not know, and the
  -- condition then does not hold.
  pub remove-Backed :
      (ext : External) (io : RetireIo) (q : DurableQueue) → Backed q → Backed (remove ext io id q).0
  unfolding remove remove_locked
  remove-Backed ext io q b = note-Backed _ _ (elim (Option-cases (lookup id q.entries)) [
    | inl n ↦ rw (n, remove_locked) b
    | inr (r, found) ↦ rw (found, remove_locked) (entry r)
  ])
    where
      past_backoff :
          (r : QueueRecord) (q : DurableQueue)
          → Backed q
          → has id q.holds ≡ false
          → Backed (remove_backoff_then io r id q).0
      past_backoff r q b h =
          unfold remove_backoff_then in
          elim (Bool-cases (remove_backoff_locked (io.backoff_file) id q).1) [
            | inr failed ↦ rw failed (backoff-Backed (io.backoff_file) q b)
            | inl done ↦ rw done (
                unlink-Backed (io.record_file) (io.restore) r _
                  (backoff-Backed (io.backoff_file) q b)
                  (subst (λ m. has id m ≡ false) (sym (backoff_gone (io.backoff_file) q done).1) h)
                  (backoff_gone (io.backoff_file) q done).0)
          ]

      entry :
          (r : QueueRecord)
          → let p : DurableQueue × Option QueueError =
              (if not (is_some (ext.encoded_size r))
                then (q, some encode_failed)
                else let (q₁, done) = remove_hold_locked (io.hold_file) id q in
                  if not done then (q₁, some store_failed) else remove_backoff_then io r id q₁) in
            Backed p.0
      entry r = elim (Option-cases (ext.encoded_size r)) [
        | inl bad ↦ rw bad b
        | inr (n, fine) ↦ rw fine (elim (Bool-cases (remove_hold_locked (io.hold_file) id q).1) [
          | inr failed ↦ rw failed (hold-Backed (io.hold_file) q b)
          | inl done ↦
              rw done (
                past_backoff r _ (hold-Backed (io.hold_file) q b) (hold_gone (io.hold_file) q done))
        ])
      ]
