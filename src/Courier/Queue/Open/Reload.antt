-- ===== src/Courier/Queue/Open/Reload.antt =====
-- Reopening a queue gives the queue that was: `openDurableQueue` of queue.go on the files of one.
use ori_gateway.Base.{
  ℕ, ◌≤◌, String, ◌≡◌, refl, sym, subst, ◌∙◌, inl, inr, Bool, false, none, some, List, [], arith,
  ltb, length, All, nat_eq, string_eq,
}
use ori_gateway.Base.Maps.{Map, lookup}
use ori_gateway.Courier.Types.{HoldRecord, BackoffRecord, LaneKey, key_eq}
use ori_gateway.Courier.Queue.State.{DurableQueue, External, sort_order, peek_lane}
use ori_gateway.Courier.Queue.Delivery.{peek_lane-first}
use ori_gateway.Courier.Queue.Admission.{Rep-outside}
use ori_gateway.Courier.Queue.Model.Items.{Item, find, tally}
use ori_gateway.Courier.Queue.Model.Rep.{Rep}
use ori_gateway.Courier.Queue.Model.Permuted.{Shuffled, Shuffled-sym, All-Shuffled, find-Shuffled}
use ori_gateway.Courier.Queue.Model.Arranged.{sort_by-Shuffled, Rising-Seqs}
use ori_gateway.Courier.Devices.{Unconfigured, no_devices, probe}
use ori_gateway.Courier.Queue.Open.{
  DirEntry, Decoders, Loading, load_sidecars, finish_load, load, load_entries, loading_from, Opened,
}
use ori_gateway.Courier.Queue.Open.Listing.{Recorded, Lists, Reading, Apart-empty, or_earlier-left}
use ori_gateway.Courier.Queue.Open.Fold.{load_entries-Reading}
use ori_gateway.Courier.Queue.Open.Options.{
  QueueOptions, OpenIo, options_refusal, fresh_queue, open_durable_queue,
}
use ori_gateway.Courier.Queue.Open.Sorted.{sorted-Rep, SidecarFiles, with_sidecars, sidecars-loaded}

finish-loaded :
    (ext : External) (domain : String → Bool) (ds : Decoders) (s : Loading) (q' : DurableQueue)
    → ltb (sort_order s.queue).max_items (length (sort_order s.queue).entries) ≡ false
    → ltb (sort_order s.queue).max_bytes (sort_order s.queue).bytes ≡ false
    → load_sidecars ext ds s (sort_order s.queue) ≡ inr q'
    → s.unconfigured_entry ≡ none
    → finish_load ext domain ds s ≡ inr (q', no_devices)
unfolding finish_load
finish-loaded ext domain ds s q' few small sidecars none_noted =
    rw (few, small, sidecars, none_noted) refl

load-finishes :
    (ext : External) (domain : String → Bool) (ds : Decoders) (dir : List DirEntry)
    (q : DurableQueue) (s : Loading)
    → load_entries ext ds dir (loading_from q) ≡ inr s
    → load ext domain ds (some dir) q ≡ finish_load ext domain ds s
unfolding load
load-finishes ext domain ds dir q s run = rw (run, load) refl

opening-loads :
    (ext : External) (domain : String → Bool) (ds : Decoders) (opts : QueueOptions) (io : OpenIo)
    (dir : List DirEntry) (q : DurableQueue) (u : Unconfigured)
    → options_refusal opts io.prepared ≡ none
    → io.entries ≡ some dir
    → load ext domain ds (some dir) (fresh_queue opts) ≡ inr (q, u)
    → open_durable_queue ext domain ds opts io
      ≡ inr (probe io.probe_read io.probe_random io.probe_write q, u)
unfolding open_durable_queue
opening-loads ext domain ds opts io dir q u accepted listed loads =
    rw (accepted, listed, loads, open_durable_queue) refl

fresh-Reading :
    (ext : External) (opts : QueueOptions)
    → Reading ext (fresh_queue opts) (loading_from (fresh_queue opts)) []
unfolding fresh_queue find lookup tally
fresh-Reading ext opts = record {
  indexed = record {
    entries = λ id. refl;
    sizes = λ id. refl;
    lane_keys = λ id. refl;
    entry_count = refl;
    distinct = tt;
    bytes = refl;
    lane_items = λ j. refl;
    lane_bytes = λ j. refl;
    device_items = λ j. refl;
    device_bytes = λ j. refl;
    unique = tt;
  };
  order = refl;
  on_disk = λ id. refl;
  below = tt;
  unseen = λ n f. refl;
  max_items = refl;
  max_bytes = refl;
}

-- An opening that answers with the queue of the list: each lane offers what it offered, the holds
-- and the back-offs are those of the files, and each entry has its file.
abbrev pub Reopened :
    External
    → DurableQueue
    → List Item
    → Map String HoldRecord
    → Map String BackoffRecord
    → Opened
    → Type 0
Reopened ext q xs holds backoffs (inl refusal) = ⊥
Reopened ext q xs holds backoffs (inr (q', u)) =
    Rep ext q' xs
    × ((key : LaneKey) → peek_lane key q' ≡ peek_lane key q)
    × (q'.holds ≡ holds)
    × (q'.backoffs ≡ backoffs)
    × ((id : String) → lookup id q'.disk.records ≡ lookup id q.entries)

-- The queue that an opening gives, once its directory is read.
sidecars-Reopened :
    (ext : External) (ds : Decoders) (q q₀ : DurableQueue) (s : Loading) {xs ys : List Item}
    {dir : List DirEntry} {holds : Map String HoldRecord} {backoffs : Map String BackoffRecord}
    (files : SidecarFiles ext ds q.entries dir holds backoffs) (io : OpenIo)
    → Rep ext q xs
    → Reading ext q₀ s ys
    → Rep ext (sort_order s.queue) xs
    → Reopened ext q xs holds backoffs (
        inr (
          probe io.probe_read io.probe_random io.probe_write
              (with_sidecars files (sort_order s.queue)),
          no_devices,
        ))
unfolding probe sort_order
sidecars-Reopened ext ds q q₀ s {xs} files io rep reading sorted =
    let again = Rep-outside _ _ _ _ sorted in
    (
      again,
      λ key. peek_lane-first ext _ xs again key ∙ sym (peek_lane-first ext q xs rep key),
      refl,
      refl,
      λ id. reading.on_disk id ∙ sorted.entries id ∙ sym (rep.entries id),
    )

within : (m n m' n' : ℕ) → m' ≡ m → n' ≡ n → n ≤ m → ltb m' n' ≡ false
within m n m' n' e e' h = ground arith

module _ (ext : External) (domain : String → Bool) (ds : Decoders) (q : DurableQueue)
    (xs ys : List Item) (opts : QueueOptions) (io : OpenIo) (dir : List DirEntry) where
  sorted_max_items :
      {s : Loading} {zs : List Item}
      → Reading ext (fresh_queue opts) s zs
      → (sort_order s.queue).max_items ≡ opts.max_items
  unfolding sort_order fresh_queue
  sorted_max_items r = r.max_items

  sorted_max_bytes :
      {s : Loading} {zs : List Item}
      → Reading ext (fresh_queue opts) s zs
      → (sort_order s.queue).max_bytes ≡ opts.max_bytes
  unfolding sort_order fresh_queue
  sorted_max_bytes r = r.max_bytes

  -- A queue that is closed and opened again, under bounds that hold its records, on a directory
  -- whose files are those of its records, in any order, with valid sidecars: the opening succeeds,
  -- and the queue it gives stands for the same ordered list.
  pub open-Reopened :
      (holds : Map String HoldRecord) (backoffs : Map String BackoffRecord)
      → Rep ext q xs
      → All (Recorded ext) xs
      → Shuffled xs ys
      → Lists ds dir ys
      → SidecarFiles ext ds q.entries dir holds backoffs
      → options_refusal opts io.prepared ≡ none
      → io.entries ≡ some dir
      → length xs ≤ opts.max_items
      → tally (λ x. x.size) xs ≤ opts.max_bytes
      → Reopened ext q xs holds backoffs (open_durable_queue ext domain ds opts io)
  open-Reopened holds backoffs rep recorded shuffled lists files accepted listed few small =
      let (u, _) = find-Shuffled shuffled rep.unique in
      let (v, _) = sort_by-Shuffled shuffled (Rising-Seqs 0 xs _ rep.rising) in
      let (s, run, reading, beside) =
        load_entries-Reading ext ds (fresh_queue opts) (loading_from (fresh_queue opts)) [] lists
          (All-Shuffled (Recorded ext) shuffled recorded) (fresh-Reading ext opts) (Apart-empty ys)
          u v in
      let sorted =
        sorted-Rep ext ds (fresh_queue opts) s _ reading (Shuffled-sym shuffled) shuffled
          rep.rising in
      let q' = with_sidecars files (sort_order s.queue) in
      let loads =
        load-finishes ext domain ds dir (fresh_queue opts) s run
        ∙ finish-loaded ext domain ds s q'
            (within opts.max_items (length xs) _ _ (sorted_max_items reading) sorted.entry_count
              few)
            (within opts.max_bytes (tally (λ x. x.size) xs) _ _ (sorted_max_bytes reading)
              sorted.bytes small)
            (sidecars-loaded ext ds s (fresh_queue opts) q (sort_order s.queue) files beside
              (λ id. sorted.entries id ∙ sym (rep.entries id)))
            (beside.unconfigured ∙ or_earlier-left _ ∙ files.none_noted) in
      subst (Reopened ext q xs holds backoffs)
        (sym (opening-loads ext domain ds opts io dir q' no_devices accepted listed loads))
        (sidecars-Reopened ext ds q (fresh_queue opts) s files io rep reading sorted)
