-- ===== src/Courier/Ingress/Evidence.antt =====
-- What the ingress acknowledges as queued (`Handle` of runtime_ingress.go).
use ori_gateway.Base.{
  ℕ, String, ◌≡◌, refl, sym, ap, subst, ◌∙◌, ◌≢◌, ◌⊎◌, inl, inr, Bool, true, false, not, ◌&&◌,
  Option, none, some, List, [], ◌∷◌, ◌++◌, arith, eq_iff, length, All, All-append, ◌==◌, nat_eq,
  string_eq, if-both,
}
use ori_gateway.Base.Maps.{Map, lookup, erase, has}
use ori_gateway.Courier.Types.{
  Bytes, ArtifactType, QueueRecord, QueuedArtifact, record_artifact, valid_outbound_artifact_type,
}
use ori_gateway.Courier.Custody.{Acknowledgement, Signer}
use ori_gateway.Courier.Devices.{
  Unconfigured, DevicesIo, write_unconfigured, note_admitted_device, fall_if_none,
}
use ori_gateway.Courier.Sidecars.{payload_digest}
use ori_gateway.Courier.Queue.Disk.{Write, Disk, write_failed, removal_failed}
use ori_gateway.Courier.Queue.State.{
  DurableQueue, External, artifact_id, note_store, item_limit, byte_limit, device_item_limit,
  device_byte_limit, unsupported_type, empty_payload, bad_clock, encode_failed, store_failed,
  artifact_not_found, restore_failed, invalid_record, unconfigured_device,
}
use ori_gateway.Courier.Queue.Admit.{
  Outcome, queued, refused, enqueue, enqueue_or_find, is_configured,
}
use ori_gateway.Courier.Queue.Custody.{NoCollision, InCustody, enqueue_or_find-InCustody}
use ori_gateway.Courier.Ingress.{
  CustodyStep, no_custody, custody_undecodable, custody_unbuilt, custody_built, OutboundCarriage,
  handed_off, acknowledged, returns_woken, handoff_queue_full, Effect, Ingress, IngressIo, Codec,
  Handled, note_admission, admission_queue_source, admission_custody_source, note_admitted,
  custody_stored, handoff_of,
}
use ori_gateway.Courier.Ingress.Return.{stage_custody, return_custody}
use ori_gateway.Courier.Ingress.Handle.{
  decode_carriage, refuse_carriage, complete_admission, custody_for, after_queued, after_admit,
  carriage_refusal, admit_checked, handle_decoded, handle,
}

-- What a queue holds: its entries and its files.
abbrev pub Stored : Type 0
Stored = Map String QueueRecord × Disk

abbrev pub stored : DurableQueue → Stored
stored q = (q.entries, q.disk)

-- The entry that an acknowledgement is about, in its file or among the entries `before`.
abbrev pub FiledAs : External → Map String QueueRecord → Stored → String → ℕ → Type 0
FiledAs ext before (entries, disk) digest at =
    (id : String) × (r : QueueRecord) × (lookup id entries ≡ some r)
    × (digest ≡ payload_digest ext r.payload)
    × (at ≡ r.enqueued_at_ms)
    × ((lookup id disk.records ≡ some r) ⊎ (lookup id before ≡ some r))

-- Of an effect: an acknowledgement that says queued names such an entry.
abbrev pub Evidenced : External → Map String QueueRecord → Stored → Effect → Type 0
Evidenced ext before d (acknowledged ack) =
    ack.outcome ≡ "queued" → FiledAs ext before d ack.artifact_digest ack.acknowledged_at_ms
Evidenced ext before d (handed_off device kind) = Unit {0}
Evidenced ext before d returns_woken = Unit {0}

-- The same of an answered admission, with exactly the bytes that were offered.
abbrev pub Filed : External → Map String QueueRecord → Bytes → DurableQueue × Outcome → Type 0
Filed ext before payload (q, queued a held) =
    FiledAs ext before (stored q) (payload_digest ext payload) a.enqueued_at_ms
Filed ext before payload (q, refused e) = Unit {0}

module _ (ext : External) (q : DurableQueue) where
  enqueue-Filed :
      (w : Write) (now : ℕ) (kind : ArtifactType) (payload : Bytes)
      → NoCollision ext q kind payload
      → Filed ext q.entries payload (enqueue_or_find ext w now kind payload q)
  unfolding record_artifact
  enqueue-Filed w now kind payload free =
      by_answer (enqueue_or_find ext w now kind payload q)
        (enqueue_or_find-InCustody ext q w now kind payload free)
    where
      id : String
      id = artifact_id ext kind payload

      by_answer :
          (o : DurableQueue × Outcome) → InCustody id payload q o → Filed ext q.entries payload o
      by_answer (q', refused e) c = tt
      by_answer (q', queued a held) (r, entry, bytes, named, inl (new, file)) = (
        id,
        r,
        entry,
        ap (payload_digest ext) (sym bytes),
        ap (λ b. b.enqueued_at_ms) named,
        inl file,
      )
      by_answer (q', queued a held) (r, entry, bytes, named, inr (old, same)) = (
        id,
        r,
        entry,
        ap (payload_digest ext) (sym bytes),
        ap (λ b. b.enqueued_at_ms) named,
        inr (ap (λ p. lookup id p.entries) (sym same) ∙ entry),
      )

note_store-stored : (b : Bool) (q : DurableQueue) → stored (note_store b q) ≡ stored q
unfolding note_store
note_store-stored true q = refl
note_store-stored false q = refl

-- The record of unconfigured devices stands beside the queue's own files.
write_unconfigured-stored :
    (io : DevicesIo) (q : DurableQueue) (u : Unconfigured)
    → stored (write_unconfigured io q u).0 ≡ stored q
unfolding write_unconfigured
write_unconfigured-stored io q u =
    if-both (λ (p : DurableQueue × Unconfigured × Bool). stored p.0 ≡ stored q)
      (length u.devices == 0 && not u.overflow) _ _
      (λ _. note_store-stored (removal_failed io.removal) q)
      (λ _. note_store-stored (write_failed io.write) q)

fall_if_none-stored :
    (p : DurableQueue × Unconfigured × Bool) → stored (fall_if_none p).0 ≡ stored p.0
fall_if_none-stored (q, u, false) = refl
fall_if_none-stored (q, u, true) =
    if-both (λ (p : DurableQueue × Unconfigured). stored p.0 ≡ stored q)
      (length u.devices == 0 && not u.overflow) _ _ (λ _. refl) (λ _. refl)

note_admitted-stored :
    (io : IngressIo) (device : String) (s : Ingress)
    → stored (note_admitted io device s).outbound ≡ stored s.outbound
unfolding note_admitted_device
note_admitted-stored io device s =
    if-both (λ (p : DurableQueue × Unconfigured). stored p.0 ≡ stored s.outbound)
      (not (has device s.unconfigured.devices)) _ _ (λ _. refl)
      (λ _.
        let u : Unconfigured = record (s.unconfigured) {
          devices = erase device s.unconfigured.devices;
        } in
        fall_if_none-stored (write_unconfigured io.devices s.outbound u)
        ∙ write_unconfigured-stored io.devices s.outbound u)

refused_not_queued : ◌≢◌ {A = String} "refused" "queued"
refused_not_queued e = ground (arith, eq_iff "refused" "queued", e)

module _ (ext : External) where
  abbrev pub AllEvidenced : Map String QueueRecord → Handled → Type 0
  AllEvidenced before h = All (Evidenced ext before (stored h.state.outbound)) h.effects

module _ (ext : External) (codec : Codec) (old : Map String QueueRecord) where
  refuse_carriage-AllEvidenced :
      (io : IngressIo) (device : String) (c : OutboundCarriage) (reason : String)
      (before : List Effect) (s : Ingress)
      → All (Evidenced ext old (stored s.outbound)) before
      → AllEvidenced ext old (refuse_carriage ext codec io device c reason before s)
  refuse_carriage-AllEvidenced io device c reason before s b =
      if-both (λ es. All (Evidenced ext old (stored s.outbound)) es) io.ack_published _ _
        (λ _.
          All-append (Evidenced ext old (stored s.outbound)) before _ b
            (λ e. absurd (refused_not_queued e)))
        (λ _. b)

  custody_stored-AllEvidenced :
      (io : IngressIo) (device : String) (before : List Effect) (s : Ingress)
      (answer : DurableQueue × Bool)
      → All (Evidenced ext old (stored s.outbound)) before
      → AllEvidenced ext old (custody_stored io device before s answer)
  custody_stored-AllEvidenced io device before s (q, false) b = b
  custody_stored-AllEvidenced io device before s (q, true) b =
      let s₁ = note_admission admission_custody_source false (record s { returns = q }) in
      subst (λ d. All (Evidenced ext old d) (before ++ (returns_woken ∷ [])))
        (sym (note_admitted-stored io device s₁))
        (All-append (Evidenced ext old (stored s.outbound)) before _ b tt)

  stage_custody-AllEvidenced :
      (io : IngressIo) (device : String) (before : List Effect) (s : Ingress) (text : Option Bytes)
      → All (Evidenced ext old (stored s.outbound)) before
      → AllEvidenced ext old (stage_custody ext codec io device before s text)
  stage_custody-AllEvidenced io device before s none b = b
  stage_custody-AllEvidenced io device before s (some text) b =
      custody_stored-AllEvidenced io device before s _ b

  return_custody-AllEvidenced :
      (io : IngressIo) (device : String) (before : List Effect) (s : Ingress)
      (custody : Option Acknowledgement)
      → All (Evidenced ext old (stored s.outbound)) before
      → AllEvidenced ext old (return_custody ext codec io device before s custody)
  return_custody-AllEvidenced io device before s none b =
      subst (λ d. All (Evidenced ext old d) before) (sym (note_admitted-stored io device s)) b
  return_custody-AllEvidenced io device before s (some ack) b =
      stage_custody-AllEvidenced io device before s (codec.canonical_acknowledgement ack) b

  complete-AllEvidenced :
      (io : IngressIo) (device : String) (c : OutboundCarriage) (a : QueuedArtifact)
      (custody : Option Acknowledgement) (before : List Effect) (s : Ingress)
      → All (Evidenced ext old (stored s.outbound)) before
      → FiledAs ext old (stored s.outbound) (payload_digest ext c.artifact) a.enqueued_at_ms
      → AllEvidenced ext old (complete_admission ext codec io device c a custody before s)
  unfolding complete_admission
  complete-AllEvidenced io device c a custody before s b filed =
      if-both (AllEvidenced ext old) (not io.ack_published) _ _ (λ _. b)
        (λ _.
          return_custody-AllEvidenced io device _ (note_admission admission_queue_source false s)
            custody (All-append (Evidenced ext old (stored s.outbound)) before _ b (λ _. filed)))

  after_queued-AllEvidenced :
      (io : IngressIo) (device : String) (c : OutboundCarriage) (a : QueuedArtifact)
      (before : List Effect) (s : Ingress) (custody : CustodyStep)
      → All (Evidenced ext old (stored s.outbound)) before
      → FiledAs ext old (stored s.outbound) (payload_digest ext c.artifact) a.enqueued_at_ms
      → AllEvidenced ext old (after_queued ext codec io device c a before s custody)
  after_queued-AllEvidenced io device c a before s custody_undecodable b filed = b
  after_queued-AllEvidenced io device c a before s custody_unbuilt b filed = b
  after_queued-AllEvidenced io device c a before s no_custody b filed =
      complete-AllEvidenced io device c a none before s b filed
  after_queued-AllEvidenced io device c a before s (custody_built ack) b filed =
      complete-AllEvidenced io device c a (some ack) before s b filed

  handoff_of-Evidenced :
      (d : Stored) (device : String) (held : Bool)
      → All (Evidenced ext old d) (handoff_of device held)
  handoff_of-Evidenced d device true = tt
  handoff_of-Evidenced d device false = (tt, tt)

  after_admit-AllEvidenced :
      (valid : String → Bool) (signer : Option Signer) (io : IngressIo) (device : String)
      (c : OutboundCarriage) (s : Ingress) (answer : DurableQueue × Outcome)
      → Filed ext old c.artifact answer
      → AllEvidenced ext old (after_admit ext codec valid signer io device c s answer)
  unfolding after_admit
  after_admit-AllEvidenced valid signer io device c s (q, queued a held) filed =
      after_queued-AllEvidenced io device c a (handoff_of device held) (record s { outbound = q })
        (custody_for ext codec signer c a) (handoff_of-Evidenced (stored q) device held) filed
  after_admit-AllEvidenced valid signer io device c s (q, refused item_limit) f =
      refuse_carriage-AllEvidenced io device c "queue_full"
        (handed_off device handoff_queue_full ∷ []) (record s { outbound = q }) (tt, tt)
  after_admit-AllEvidenced valid signer io device c s (q, refused byte_limit) f =
      refuse_carriage-AllEvidenced io device c "queue_full"
        (handed_off device handoff_queue_full ∷ []) (record s { outbound = q }) (tt, tt)
  after_admit-AllEvidenced valid signer io device c s (q, refused device_item_limit) f =
      refuse_carriage-AllEvidenced io device c "queue_full"
        (handed_off device handoff_queue_full ∷ []) (record s { outbound = q }) (tt, tt)
  after_admit-AllEvidenced valid signer io device c s (q, refused device_byte_limit) f =
      refuse_carriage-AllEvidenced io device c "queue_full"
        (handed_off device handoff_queue_full ∷ []) (record s { outbound = q }) (tt, tt)
  after_admit-AllEvidenced valid signer io device c s (q, refused unsupported_type) f = tt
  after_admit-AllEvidenced valid signer io device c s (q, refused empty_payload) f = tt
  after_admit-AllEvidenced valid signer io device c s (q, refused bad_clock) f = tt
  after_admit-AllEvidenced valid signer io device c s (q, refused encode_failed) f = tt
  after_admit-AllEvidenced valid signer io device c s (q, refused store_failed) f = tt
  after_admit-AllEvidenced valid signer io device c s (q, refused artifact_not_found) f = tt
  after_admit-AllEvidenced valid signer io device c s (q, refused restore_failed) f = tt
  after_admit-AllEvidenced valid signer io device c s (q, refused invalid_record) f = tt
  after_admit-AllEvidenced valid signer io device c s (q, refused unconfigured_device) f = tt

module _ (ext : External) (codec : Codec) where
  admit_checked-AllEvidenced :
      (valid : String → Bool) (signer : Option Signer) (io : IngressIo) (device : String)
      (c : OutboundCarriage) (s : Ingress) (refusal : Option String)
      → NoCollision ext s.outbound c.artifact_type c.artifact
      → AllEvidenced ext s.outbound.entries
          (admit_checked ext codec valid signer io device c s refusal)
  unfolding enqueue
  admit_checked-AllEvidenced valid signer io device c s (some reason) free =
      refuse_carriage-AllEvidenced ext codec s.outbound.entries io device c reason [] s tt
  admit_checked-AllEvidenced valid signer io device c s none free =
      after_admit-AllEvidenced ext codec s.outbound.entries valid signer io device c s _ (
        if-both (Filed ext s.outbound.entries c.artifact)
          (not (valid_outbound_artifact_type c.artifact_type)) _ _ (λ _. tt)
          (λ _.
            enqueue-Filed ext s.outbound io.outbound_write io.now c.artifact_type c.artifact free))

  handle_decoded-AllEvidenced :
      (domain valid : String → Bool) (signer : Option Signer) (io : IngressIo) (device : String)
      (s : Ingress) (carriage : Option OutboundCarriage)
      → ((c : OutboundCarriage)
          → carriage ≡ some c
          → NoCollision ext s.outbound c.artifact_type c.artifact)
      → AllEvidenced ext s.outbound.entries
          (handle_decoded ext codec domain valid signer io device s carriage)
  handle_decoded-AllEvidenced domain valid signer io device s none free = tt
  handle_decoded-AllEvidenced domain valid signer io device s (some c) free =
      admit_checked-AllEvidenced valid signer io device c s
        (carriage_refusal ext codec domain device c) (free c refl)

  -- Whatever carriage the ingress handles and whatever its stores, clocks and publisher answer, an
  -- acknowledgement that it publishes as queued names, by digest and by time, an entry that the
  -- queue then has; and unless that entry was there before the carriage came, its file is on disk
  -- with the bytes of that digest. Provided that no queued record of other bytes has the name of the
  -- artifact that the carriage carries.
  pub handle-AllEvidenced :
      (domain valid : String → Bool) (signer : Option Signer) (io : IngressIo) (device : String)
      (payload : Bytes) (s : Ingress)
      → ((c : OutboundCarriage)
          → decode_carriage ext codec payload ≡ some c
          → NoCollision ext s.outbound c.artifact_type c.artifact)
      → AllEvidenced ext s.outbound.entries
          (handle ext codec domain valid signer io device payload s)
  unfolding handle
  handle-AllEvidenced domain valid signer io device payload s free =
      if-both (AllEvidenced ext s.outbound.entries) (not (is_configured s.outbound device)) _ _
        (λ _. tt)
        (λ _.
          handle_decoded-AllEvidenced domain valid signer io device s
            (decode_carriage ext codec payload) free)
