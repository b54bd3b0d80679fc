-- ===== src/Courier/Queue/Open/Sorted.antt =====
-- What a loading leaves once it is sorted, and the sidecars beside it (`load`, `loadHolds` and
-- `loadBackoffs`).
use ori_gateway.Base.{
  ℕ, String, ◌≡◌, refl, inr, none, some, List, [], ◌∷◌, arith, nat_eq, string_eq,
}
use ori_gateway.Base.Maps.{Map, lookup}
use ori_gateway.Courier.Types.{QueueRecord, HoldRecord, BackoffRecord, key_eq}
use ori_gateway.Courier.Queue.State.{DurableQueue, External, sort_order}
use ori_gateway.Courier.Queue.Model.Items.{Item, Rising}
use ori_gateway.Courier.Queue.Model.Order.{found-Unique, seqs_known}
use ori_gateway.Courier.Queue.Model.Rep.{Rep}
use ori_gateway.Courier.Queue.Model.Permuted.{Shuffled, All-Shuffled, Indexed-Shuffled}
use ori_gateway.Courier.Queue.Model.Arranged.{Rising-below, sort_by-arranged}
use ori_gateway.Courier.Sidecars.{load_holds, load_backoffs}
use ori_gateway.Courier.Queue.Open.{
  DirEntry, Decoders, Loading, read_sidecars, load_sidecars, loading_from,
}
use ori_gateway.Courier.Queue.Open.Listing.{
  Reading, Beside, hold_files, backoff_files, unconfigured_file_of,
}

module _ (entries entries' : Map String QueueRecord)
    (same : (id : String) → lookup id entries ≡ lookup id entries') where
  load_holds_same :
      (ext : External) (files : Map String HoldRecord)
      → load_holds ext entries files ≡ load_holds ext entries' files
  unfolding load_holds
  load_holds_same ext [] = refl
  load_holds_same ext ((id, r) ∷ files) = ground (arith, same id, load_holds_same ext files)

  load_backoffs_same :
      (files : Map String BackoffRecord)
      → load_backoffs entries files ≡ load_backoffs entries' files
  unfolding load_backoffs
  load_backoffs_same [] = refl
  load_backoffs_same ((id, r) ∷ files) = ground (arith, same id, load_backoffs_same files)

module _ (ext : External) (ds : Decoders) (q₀ : DurableQueue) where
  -- A loading that has read the files of a list, sorted, is the queue of the list that rises.
  pub sorted-Rep :
      (s : Loading) {xs ys : List Item} (hi : ℕ)
      → Reading ext q₀ s ys
      → Shuffled ys xs
      → Shuffled xs ys
      → Rising 0 xs hi
      → Rep ext (sort_order s.queue) xs
  unfolding sort_order
  sorted-Rep s {xs} {ys} hi r down up rise =
      let i = Indexed-Shuffled ext s.queue down r.indexed in
      record {
        entries = i.entries;
        sizes = i.sizes;
        lane_keys = i.lane_keys;
        entry_count = i.entry_count;
        distinct = i.distinct;
        order = rw (r.order) (
            sort_by-arranged s.queue.entries 0 hi up
              (seqs_known s.queue.entries xs xs i.entries (found-Unique xs i.unique)) rise);
        bytes = i.bytes;
        lane_items = i.lane_items;
        lane_bytes = i.lane_bytes;
        device_items = i.device_items;
        device_bytes = i.device_bytes;
        unique = i.unique;
        rising = Rising-below 0 xs hi _ rise (omega arith) (All-Shuffled _ down r.below);
      }

-- The sidecar files of a directory, decoded, with the holds and the back-offs that they give beside
-- the records of a queue. No device was noted as unconfigured.
pub record SidecarFiles (ext : External) (ds : Decoders) (entries : Map String QueueRecord)
    (dir : List DirEntry) (holds : Map String HoldRecord) (backoffs : Map String BackoffRecord)
    : Type 0 where
  pub hold_records : Map String HoldRecord
  pub backoff_records : Map String BackoffRecord
  pub holds_read : read_sidecars ds.hold_records (hold_files dir) ≡ some hold_records
  pub holds_loaded : load_holds ext entries hold_records ≡ some holds
  pub backoffs_read : read_sidecars ds.backoff_records (backoff_files dir) ≡ some backoff_records
  pub backoffs_loaded : load_backoffs entries backoff_records ≡ some backoffs
  pub none_noted : unconfigured_file_of dir ≡ none

abbrev pub with_sidecars :
    {ext : External} {ds : Decoders} {entries : Map String QueueRecord} {dir : List DirEntry}
    {holds : Map String HoldRecord} {backoffs : Map String BackoffRecord}
    → SidecarFiles ext ds entries dir holds backoffs
    → DurableQueue
    → DurableQueue
with_sidecars {holds = holds} {backoffs = backoffs} f q = record q {
  holds = holds;
  backoffs = backoffs;
  disk = record (q.disk) { hold_files = f.hold_records; backoff_files = f.backoff_records };
}

module _ (ext : External) (ds : Decoders) (s : Loading) (q₀ q q' : DurableQueue)
    {dir : List DirEntry} {holds : Map String HoldRecord} {backoffs : Map String BackoffRecord}
    (f : SidecarFiles ext ds q.entries dir holds backoffs)
    (b : Beside
      (hold_files dir)
      (backoff_files dir)
      (unconfigured_file_of dir)
      (loading_from q₀)
      s) where
  pub sidecars-loaded :
      ((id : String) → lookup id q'.entries ≡ lookup id q.entries)
      → load_sidecars ext ds s q' ≡ inr (with_sidecars f q')
  unfolding load_sidecars
  sidecars-loaded same =
      rw
        (
          b.holds,
          f.holds_read,
          load_holds_same q'.entries q.entries same ext f.hold_records,
          f.holds_loaded,
          b.backoffs,
          f.backoffs_read,
          load_backoffs_same q'.entries q.entries same f.backoff_records,
          f.backoffs_loaded,
          load_sidecars,
        )
        refl
