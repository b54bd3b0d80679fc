-- ===== src/Courier/Queue/Open/Kept.antt =====
-- The records that admission writes are ones that a later opening reads back (`insertLocked` against
-- the checks of `load`, queue.go).
use ori_gateway.Base.{ℕ, ◌<◌, refl, List, [], ◌∷◌, ◌++◌, arith, All, All-append, nat_eq, string_eq}
use ori_gateway.Courier.Types.{Bytes, ArtifactType, QueueRecord}
use ori_gateway.Courier.Queue.Disk.{Write, committed, lost, unsynced}
use ori_gateway.Courier.Queue.State.{DurableQueue, External, artifact_id, note_store}
use ori_gateway.Courier.Queue.Admit.{enqueue_or_find, new_record, keep_record, write_record}
use ori_gateway.Courier.Queue.Cases.{Guards, admit_cases}
use ori_gateway.Courier.Queue.Admission.{write_record-Rep, absent_item}
use ori_gateway.Courier.Queue.Model.Items.{Item}
use ori_gateway.Courier.Queue.Model.Keep.{keep_record-Rep}
use ori_gateway.Courier.Queue.Model.Rep.{Rep}
use ori_gateway.Courier.Queue.Open.Listing.{Recorded}

-- The queue stands for a list of records that the loader's checks accept, and the next sequence is
-- one of them.
abbrev pub Kept : External → DurableQueue → Type 0
Kept ext q = (xs : List Item) × Rep ext q xs × All (Recorded ext) xs × (0 < q.next_seq)

module _ (ext : External) (q : DurableQueue) (k : Kept ext q) where
  written-Kept : (w : Write) (r : QueueRecord) → Kept ext (write_record w r q)
  unfolding note_store
  written-Kept committed r = (k.0, write_record-Rep committed r k.1, k.2, k.3)
  written-Kept lost r = (k.0, write_record-Rep lost r k.1, k.2, k.3)
  written-Kept unsynced r = (k.0, write_record-Rep unsynced r k.1, k.2, k.3)

  kept_next :
      (r : QueueRecord) (size : ℕ)
      → 0 < (keep_record ext r size (write_record committed r q)).next_seq
  unfolding keep_record note_store
  kept_next r size = omega arith

  -- Every admission, whatever it answers, leaves a queue whose records all pass the checks of a
  -- later load: version, sequence, time, type, payload and the id that is the digest of the bytes.
  pub enqueue_or_find-Kept :
      (w : Write) (now : ℕ) (kind : ArtifactType) (payload : Bytes)
      → Kept ext (enqueue_or_find ext w now kind payload q).0
  unfolding note_store
  enqueue_or_find-Kept w now kind payload =
      admit_cases (λ r. Kept ext r.0) ext w now kind payload q (λ e. k)
        (λ w' size g. written-Kept w' _) (λ size g. kept size g) (λ e _ _ _. k)
    where
      added_item : ℕ → Item
      added_item size = record {
        entry = new_record q kind payload (artifact_id ext kind payload) now;
        size = size;
      }

      kept :
          (size : ℕ)
          → Guards ext q (new_record q kind payload (artifact_id ext kind payload) now) size
          → Kept ext (
              keep_record ext (new_record q kind payload (artifact_id ext kind payload) now) size (
                write_record committed
                  (new_record q kind payload (artifact_id ext kind payload) now)
                  q))
      kept size g = (
        k.0 ++ (added_item size ∷ []),
        keep_record-Rep ext (write_record committed (added_item size).entry q) k.0 (added_item size)
            (write_record-Rep committed _ k.1) (absent_item ext q k.0 k.1 _ g.absent) refl,
        All-append (Recorded ext) k.0 (added_item size) k.2 (record {
          version = refl;
          seq_positive = k.3;
          time_positive = ground (arith, g.timed);
          kind = g.valid;
          payload = ground (arith, g.not_empty);
          identity = refl;
        }),
        kept_next _ size,
      )
