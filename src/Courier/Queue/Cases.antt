-- ===== src/Courier/Queue/Cases.antt =====
-- The paths of one admission (`enqueueOrFind` and `insertLocked`), as a rule for what holds of its
-- result.
use ori_gateway.Base.{
  ℕ, ◌+◌, String, ◌≡◌, inl, inr, true, false, none, some, ltb, leb, if◌then◌else◌, Bool-cases,
  Option-cases, length, ◌==◌, nat_eq, string_eq,
}
use ori_gateway.Base.Maps.{lookup}
use ori_gateway.Courier.Types.{
  Bytes, ArtifactType, key_eq, QueueRecord, record_artifact, valid_queue_artifact_type,
}
use ori_gateway.Courier.Routing.{record_device}
use ori_gateway.Courier.Queue.Disk.{Write, committed, lost, unsynced, write_failed}
use ori_gateway.Courier.Queue.State.{
  DurableQueue, External, QueueError, store_failed, artifact_id, record_lane,
}
use ori_gateway.Courier.Queue.Admit.{
  Outcome, queued, refused, write_record, new_record, keep_record, commit_record, insert_locked,
  enqueue_or_find, lane_share_refusal, is_configured,
}

-- The guards that an admission has passed when it writes its record.
pub record Guards (ext : External) (q : DurableQueue) (r : QueueRecord) (size : ℕ) : Type 0 where
  pub absent : lookup r.id q.entries ≡ none
  pub configured : is_configured q (record_device ext.json r.payload) ≡ true
  pub items : leb q.max_items (length q.entries) ≡ false
  pub share : lane_share_refusal q (record_lane ext r) 0 ≡ none
  pub encoded : ext.encoded_size r ≡ some size
  pub bytes : ltb q.max_bytes (q.bytes + size) ≡ false
  pub byte_share : lane_share_refusal q (record_lane ext r) size ≡ none
  pub valid : valid_queue_artifact_type r.kind ≡ true
  pub not_empty : (length r.payload == 0) ≡ false
  pub timed : (r.enqueued_at_ms == 0) ≡ false

module _ {ℓ} (P : DurableQueue × Outcome → Type ℓ) (ext : External) (w : Write) (now : ℕ)
    (kind : ArtifactType) (payload : Bytes) (q : DurableQueue) where
  abbrev id : String
  id = artifact_id ext kind payload

  abbrev r : QueueRecord
  r = new_record q kind payload id now

  module _ (refuse : (e : QueueError) → P (q, refused e))
      (fail : (w : Write) (size : ℕ)
        → Guards ext q r size
        → P (write_record w r q, refused store_failed))
      (keep : (size : ℕ)
        → Guards ext q r size
        → P (
          keep_record ext r size (write_record committed r q),
          queued (record_artifact r) false,
        )) where
    write_cases :
        (w : Write) (size : ℕ)
        → Guards ext q r size
        → P (
            if write_failed w
            then (write_record w r q, refused store_failed)
            else (keep_record ext r size (write_record w r q), queued (record_artifact r) false))
    write_cases committed size g = keep size g
    write_cases lost size g = fail lost size g
    write_cases unsynced size g = fail unsynced size g

    insert_cases :
        lookup id q.entries ≡ none
        → valid_queue_artifact_type kind ≡ true
        → (length payload == 0) ≡ false
        → P (insert_locked ext w now kind payload id q)
    unfolding insert_locked commit_record record_lane
    insert_cases absent valid filled =
        elim (Bool-cases (is_configured q (record_device ext.json payload))) [
          | inr stranger ↦ rw stranger (refuse _)
          | inl known ↦ rw known (elim (Bool-cases (leb q.max_items (length q.entries))) [
            | inl full ↦ rw full (refuse _)
            | inr room ↦ rw room (elim (Option-cases (lane_share_refusal q (record_lane ext r) 0)) [
              | inr (e, no_share) ↦ rw (no_share, insert_locked) (refuse _)
              | inl share ↦
                  rw (share, insert_locked)
                    (elim (Bool-cases (now == 0)) [
                      | inl early ↦ rw early (refuse _)
                      | inr later ↦ rw later (elim (Option-cases (ext.encoded_size r)) [
                        | inl bad ↦ rw (bad, insert_locked) (refuse _)
                        | inr (size, enc) ↦
                            rw (enc, insert_locked)
                              (elim (Bool-cases (ltb q.max_bytes (q.bytes + size))) [
                                | inl over ↦ rw over (refuse _)
                                | inr under ↦
                                    rw under
                                      (elim (Option-cases
                                        (lane_share_refusal q (record_lane ext r) size)) [
                                          | inr (e, no_bytes) ↦
                                              rw (no_bytes, commit_record) (refuse _)
                                          | inl ok ↦
                                              rw (ok, commit_record)
                                                (write_cases w size (record {
                                                  absent = absent;
                                                  configured = known;
                                                  items = room;
                                                  share = share;
                                                  encoded = enc;
                                                  bytes = under;
                                                  byte_share = ok;
                                                  valid = valid;
                                                  not_empty = filled;
                                                  timed = later;
                                                }))
                                        ])
                              ])
                      ])
                    ])
            ])
          ])
        ]

    pub admit_cases :
        ((e : QueueRecord)
          → lookup id q.entries ≡ some e
          → valid_queue_artifact_type kind ≡ true
          → (length payload == 0) ≡ false
          → P (q, queued (record_artifact e) true))
        → P (enqueue_or_find ext w now kind payload q)
    unfolding enqueue_or_find
    admit_cases found = elim (Bool-cases (valid_queue_artifact_type kind)) [
      | inr bad ↦ rw bad (refuse _)
      | inl valid ↦ rw valid (elim (Bool-cases (length payload == 0)) [
        | inl empty ↦ rw empty (refuse _)
        | inr filled ↦ rw filled (elim (Option-cases (lookup id q.entries)) [
          | inl absent ↦ rw (absent, enqueue_or_find) (insert_cases absent valid filled)
          | inr (e, held) ↦ rw (held, enqueue_or_find) (found e held valid filled)
        ])
      ])
    ]
