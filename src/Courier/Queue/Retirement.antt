-- ===== src/Courier/Queue/Retirement.antt =====
-- What `Remove` does to the list, the files and the sidecars, on every path.
use ori_gateway.Base.{
  String, ◌≡◌, refl, ap, ◌∙◌, inl, inr, Bool, true, false, not, Option, none, some, List, arith,
  eq_iff, if◌then◌else◌, Bool-cases, Option-cases, is_some, nat_eq, string_eq,
}
use ori_gateway.Base.Maps.{Map, lookup, erase, lookup-erase, has}
use ori_gateway.Courier.Types.{QueueRecord}
use ori_gateway.Courier.Queue.Disk.{
  Write, Removal, removed, kept, unconfirmed, remove_file, removal_failed,
}
use ori_gateway.Courier.Queue.State.{
  DurableQueue, External, QueueError, note_store, store_failed, encode_failed,
}
use ori_gateway.Courier.Queue.Retire.{
  RetireIo, remove_hold_locked, remove_backoff_locked, unlink_record, remove_backoff_then,
  remove_locked, remove, drop_record,
}
use ori_gateway.Courier.Queue.Model.Items.{Item, find, without}
use ori_gateway.Courier.Queue.Model.Rep.{Rep}
use ori_gateway.Courier.Queue.Model.Drop.{drop_record-Rep}
use ori_gateway.Courier.Queue.Admission.{Rep-outside, write_record-Rep}

-- A retirement that succeeds takes exactly its record out of the list, with its file and both of
-- its sidecars; one that fails leaves the list.
abbrev pub Retired :
    External → List Item → String → DurableQueue → DurableQueue × Option QueueError → Type 0
Retired ext xs id q (q', none) =
    Rep ext q' (without id xs)
    × (lookup id (q'.disk.records) ≡ none)
    × (lookup id (q'.holds) ≡ none)
    × (lookup id (q'.backoffs) ≡ none)
    × (lookup id (q'.disk.hold_files)
        ≡ (if has id q.holds then none else lookup id (q.disk.hold_files)))
    × (lookup id (q'.disk.backoff_files)
        ≡ (if has id q.backoffs then none else lookup id (q.disk.backoff_files)))
Retired ext xs id q (q', some e) = Rep ext q' xs

module _ (ext : External) (xs : List Item) (id : String) where
  note-Retired :
      (b : Bool) (q₀ q : DurableQueue) (e : Option QueueError)
      → Retired ext xs id q₀ (q, e)
      → Retired ext xs id q₀ (note_store b q, e)
  unfolding note_store
  note-Retired true q₀ q none t = (Rep-outside _ _ _ _ t.0, t.1, t.2, t.3, t.4, t.5)
  note-Retired true q₀ q (some e) t = Rep-outside _ _ _ _ t
  note-Retired false q₀ q e t = t

  unlink-Retired :
      (m : Removal) (restore : Write) (r : QueueRecord) (q₀ q : DurableQueue) (x : Item)
      → Rep ext q xs
      → find id xs ≡ some x
      → lookup id (q.holds) ≡ none
      → lookup id (q.backoffs) ≡ none
      → lookup id (q.disk.hold_files)
        ≡ (if has id q₀.holds then none else lookup id (q₀.disk.hold_files))
      → lookup id (q.disk.backoff_files)
        ≡ (if has id q₀.backoffs then none else lookup id (q₀.disk.backoff_files))
      → Retired ext xs id q₀ (unlink_record m restore r id q)
  unfolding unlink_record remove_file
  unlink-Retired kept restore r q₀ q x rep found h b hf bf = Rep-outside _ _ _ _ rep
  unlink-Retired unconfirmed restore r q₀ q x rep found h b hf bf =
      write_record-Rep restore r (Rep-outside _ _ _ _ rep)
  unlink-Retired removed restore r q₀ q x rep found h b hf bf = (
    drop_record-Rep ext _ xs id x (Rep-outside _ _ _ _ rep) found,
    unfold drop_record in ground (arith, lookup-erase id id (q.disk.records), eq_iff id id),
    unfold drop_record in h,
    unfold drop_record in b,
    unfold drop_record in hf,
    unfold drop_record in bf,
  )

  erased_gone {ℓ} : {A : Type ℓ} (m : Map String A) → lookup id (erase id m) ≡ none
  erased_gone m = ground (arith, lookup-erase id id m, eq_iff id id)

  -- A sidecar that was removed is neither in memory nor, if memory knew it, in its file.
  abbrev BackoffGone : DurableQueue → DurableQueue → Type 0
  BackoffGone q q' =
      (lookup id (q'.backoffs) ≡ none)
      × (lookup id (q'.disk.backoff_files)
          ≡ (if has id q.backoffs then none else lookup id (q.disk.backoff_files)))

  abbrev HoldGone : DurableQueue → DurableQueue → Type 0
  HoldGone q q' =
      (lookup id (q'.holds) ≡ none)
      × (lookup id (q'.disk.hold_files)
          ≡ (if has id q.holds then none else lookup id (q.disk.hold_files)))

  -- What a sidecar's removal leaves.
  backoff_step :
      (m : Removal) (q : DurableQueue)
      → Rep ext q xs
      → let (q', done) = remove_backoff_locked m id q in
        Rep ext q' xs
        × (q'.holds ≡ q.holds)
        × (q'.disk.hold_files ≡ q.disk.hold_files)
        × (done ≡ true → BackoffGone q q')
  unfolding remove_backoff_locked
  backoff_step m q rep = elim (Bool-cases (has id (q.backoffs))) [
    | inr absent ↦ rw absent (rep, refl, refl, λ _. (ground arith, refl))
    | inl present ↦ rw present (by_outcome m)
  ]
    where
      by_outcome :
          (m : Removal)
          → let p : DurableQueue × Bool =
              if removal_failed m
              then (
                record q {
                  disk = record (q.disk) {
                    backoff_files = remove_file m id (q.disk.backoff_files);
                  };
                },
                false,
              )
              else (
                record q {
                  disk = record (q.disk) {
                    backoff_files = remove_file m id (q.disk.backoff_files);
                  };
                  backoffs = erase id (q.backoffs);
                },
                true,
              ) in
            Rep ext p.0 xs
            × (p.0.holds ≡ q.holds)
            × (p.0.disk.hold_files ≡ q.disk.hold_files)
            × (p.1 ≡ true
                → (lookup id (p.0.backoffs) ≡ none) × (lookup id (p.0.disk.backoff_files) ≡ none))
      by_outcome removed = (
        Rep-outside _ _ _ _ rep,
        refl,
        refl,
        λ _. (erased_gone (q.backoffs), erased_gone (q.disk.backoff_files)),
      )
      by_outcome kept = (Rep-outside _ _ _ _ rep, refl, refl, λ e. cc)
      by_outcome unconfirmed = (Rep-outside _ _ _ _ rep, refl, refl, λ e. cc)

  hold_step :
      (m : Removal) (q : DurableQueue)
      → Rep ext q xs
      → let (q', done) = remove_hold_locked m id q in
        Rep ext q' xs
        × (q'.backoffs ≡ q.backoffs)
        × (q'.disk.backoff_files ≡ q.disk.backoff_files)
        × (done ≡ true → HoldGone q q')
  unfolding remove_hold_locked
  hold_step m q rep = elim (Bool-cases (has id (q.holds))) [
    | inr absent ↦ rw absent (rep, refl, refl, λ _. (ground arith, refl))
    | inl present ↦ rw present (by_outcome m)
  ]
    where
      by_outcome :
          (m : Removal)
          → let p : DurableQueue × Bool =
              if removal_failed m
              then (
                record q {
                  disk = record (q.disk) { hold_files = remove_file m id (q.disk.hold_files) };
                },
                false,
              )
              else (
                record q {
                  disk = record (q.disk) { hold_files = remove_file m id (q.disk.hold_files) };
                  holds = erase id (q.holds);
                },
                true,
              ) in
            Rep ext p.0 xs
            × (p.0.backoffs ≡ q.backoffs)
            × (p.0.disk.backoff_files ≡ q.disk.backoff_files)
            × (p.1 ≡ true
                → (lookup id (p.0.holds) ≡ none) × (lookup id (p.0.disk.hold_files) ≡ none))
      by_outcome removed = (
        Rep-outside _ _ _ _ rep,
        refl,
        refl,
        λ _. (erased_gone (q.holds), erased_gone (q.disk.hold_files)),
      )
      by_outcome kept = (Rep-outside _ _ _ _ rep, refl, refl, λ e. cc)
      by_outcome unconfirmed = (Rep-outside _ _ _ _ rep, refl, refl, λ e. cc)

  backoff-Retired :
      (io : RetireIo) (r : QueueRecord) (q₀ q : DurableQueue) (x : Item)
      → Rep ext q xs
      → find id xs ≡ some x
      → q.backoffs ≡ q₀.backoffs
      → q.disk.backoff_files ≡ q₀.disk.backoff_files
      → HoldGone q₀ q
      → Retired ext xs id q₀ (remove_backoff_then io r id q)
  unfolding remove_backoff_then
  backoff-Retired io r q₀ q x rep found same_map same_files (h, hf) =
      let (rep', same, files, gone) = backoff_step (io.backoff_file) q rep in
      elim (Bool-cases (remove_backoff_locked (io.backoff_file) id q).1) [
        | inr failed ↦ rw (failed, remove_backoff_then) rep'
        | inl done ↦
            rw (done, remove_backoff_then)
              (unlink-Retired (io.record_file) (io.restore) r q₀ _ x rep' found
                (ap (λ m. lookup id m) same ∙ h) (gone done).0 (ap (λ m. lookup id m) files ∙ hf)
                ((gone done).1
                  ∙ ap (λ m. if has id m then none else lookup id (q.disk.backoff_files)) same_map
                  ∙ ap (λ m. if has id q₀.backoffs then none else lookup id m) same_files))
      ]

  -- A retirement that succeeds takes exactly its record out of the list and its file off the disk,
  -- with the hold and the back-off of the record in memory, and the sidecar file of each that
  -- memory knew; a sidecar file that memory did not know is left as it was. A retirement that
  -- fails, on any path, leaves the list.
  pub remove-Retired :
      (io : RetireIo) (q : DurableQueue) → Rep ext q xs → Retired ext xs id q (remove ext io id q)
  unfolding remove remove_locked
  remove-Retired io q rep = note-Retired _ q _ _ (elim (Option-cases (find id xs)) [
    | inl n ↦ rw (rep.entries id, n, remove_locked) rep
    | inr (x, found) ↦ rw (rep.entries id, found, remove_locked) (entry x found)
  ])
    where
      entry :
          (x : Item)
          → find id xs ≡ some x
          → Retired ext xs id q (
              if not (is_some (ext.encoded_size (x.entry)))
              then (q, some encode_failed)
              else let (q₁, done) = remove_hold_locked (io.hold_file) id q in
                if not done
                then (q₁, some store_failed)
                else remove_backoff_then io (x.entry) id q₁)
      entry x found = elim (Option-cases (ext.encoded_size (x.entry))) [
        | inl bad ↦ rw bad rep
        | inr (n, fine) ↦ rw fine (
            let (rep', same, files, gone) = hold_step (io.hold_file) q rep in
            elim (Bool-cases (remove_hold_locked (io.hold_file) id q).1) [
              | inr failed ↦ rw failed rep'
              | inl done ↦
                  rw done (backoff-Retired io (x.entry) q _ x rep' found same files (gone done))
            ])
      ]
