-- ===== src/Courier/Queue/Open/Listing.antt =====
-- A directory that holds one file for each item of a list, and the queue while `load` (queue.go)
-- reads it.
use mathlib.Core.List.{append_assoc, append-nil}
use ori_gateway.Base.{
  ℕ, ◌≤◌, ◌<◌, String, ◌≡◌, refl, sym, ap, ◌∙◌, ◌≢◌, inr, Bool, true, false, Option, none, some,
  List, [], ◌∷◌, ◌++◌, map, arith, eq_iff, All, any, length, ◌==◌, nat_eq, string_eq,
}
use ori_gateway.Base.Maps.{lookup}
use ori_gateway.Courier.Types.{Bytes, valid_queue_artifact_type}
use ori_gateway.Courier.Queue.State.{DurableQueue, External, artifact_id}
use ori_gateway.Courier.Queue.Model.Items.{Item, id_of, find, find-append}
use ori_gateway.Courier.Queue.Model.Indexed.{Indexed}
use ori_gateway.Courier.Queue.Model.Arranged.{Fresh}
use ori_gateway.Courier.Queue.Open.Names.{
  EntryKind, skipped, unconfigured_file, hold_file, backoff_file, unfinished_file, stray_entry,
  record_file, classify, record_file_name,
}
use ori_gateway.Courier.Queue.Open.{DirEntry, Decoders, Loading, read_private}

-- The file of an item: its name, and bytes that decode to the record.
pub record FileOf (ds : Decoders) (e : DirEntry) (x : Item) : Type 0 where
  pub raw : Bytes
  pub kind : classify e.name e.is_dir ≡ record_file
  pub name : e.name ≡ record_file_name (id_of x)
  pub readable : read_private e ≡ inr raw
  pub decoded : ds.records raw ≡ some x.entry
  pub size : length raw ≡ x.size

-- A record as admission writes it.
pub record Recorded (ext : External) (x : Item) : Type 0 where
  pub version : x.entry.v ≡ 1
  pub seq_positive : 0 < x.entry.queue_seq
  pub time_positive : 0 < x.entry.enqueued_at_ms
  pub kind : valid_queue_artifact_type (x.entry.kind) ≡ true
  pub payload : length x.entry.payload ≢ 0
  pub identity : x.entry.id ≡ artifact_id ext (x.entry.kind) (x.entry.payload)

-- An entry that holds no record and that the loop passes: a file of another kind, or an unfinished
-- write that can be removed.
abbrev pub Passed : Bool → EntryKind → Type 0
Passed removable skipped = Unit {0}
Passed removable unconfigured_file = Unit {0}
Passed removable (hold_file id) = Unit {0}
Passed removable (backoff_file id) = Unit {0}
Passed removable unfinished_file = removable ≡ true
Passed removable stray_entry = ⊥
Passed removable record_file = ⊥

-- The directory's entries, and the items whose files are among them, in the directory's order.
pub data Lists (ds : Decoders) : List DirEntry → List Item → Type 0 where
  end_of_directory : Lists ds [] []
  a_record :
      {e : DirEntry} {x : Item} {es : List DirEntry} {xs : List Item}
      → FileOf ds e x
      → Lists ds es xs
      → Lists ds (e ∷ es) (x ∷ xs)
  another_file :
      (e : DirEntry) {es : List DirEntry} {xs : List Item}
      → Passed e.removable (classify e.name e.is_dir)
      → Lists ds es xs
      → Lists ds (e ∷ es) xs

-- The queue while it is read.
pub record Reading (ext : External) (q₀ : DurableQueue) (s : Loading) (xs : List Item)
    : Type 0 where
  pub indexed : Indexed ext s.queue xs
  pub order : s.queue.order ≡ map id_of xs
  pub on_disk : (id : String) → lookup id s.queue.disk.records ≡ lookup id s.queue.entries
  pub below : All (λ y. y.entry.queue_seq < s.queue.next_seq) xs
  pub unseen : (n : ℕ) → Fresh n xs → any (λ m. m == n) s.seen ≡ false
  pub max_items : s.queue.max_items ≡ q₀.max_items
  pub max_bytes : s.queue.max_bytes ≡ q₀.max_bytes

-- No item of `ys` shares its id or its sequence with one of `xs`.
abbrev pub Apart : List Item → List Item → Type 0
Apart xs ys = All (λ y. (find (id_of y) xs ≡ none) × Fresh (y.entry.queue_seq) xs) ys

pub Apart-empty : (ys : List Item) → Apart [] ys
unfolding find
Apart-empty [] = tt
Apart-empty (y ∷ ys) = ((refl, tt), Apart-empty ys)

pub Fresh-append :
    (n : ℕ) (xs : List Item) (y : Item)
    → Fresh n xs
    → y.entry.queue_seq ≢ n
    → Fresh n (xs ++ (y ∷ []))
Fresh-append n [] y f e = (e, tt)
Fresh-append n (x ∷ xs) y f e = (f.0, Fresh-append n xs y f.1 e)

pub Fresh-before : (n : ℕ) (xs : List Item) (y : Item) → Fresh n (xs ++ (y ∷ [])) → Fresh n xs
Fresh-before n [] y f = tt
Fresh-before n (x ∷ xs) y f = (f.0, Fresh-before n xs y f.1)

pub Fresh-last :
    (n : ℕ) (xs : List Item) (y : Item) → Fresh n (xs ++ (y ∷ [])) → y.entry.queue_seq ≢ n
Fresh-last n [] y f = f.0
Fresh-last n (x ∷ xs) y f = Fresh-last n xs y f.1

pub Apart-append :
    (xs : List Item) (y : Item) (ys : List Item)
    → find (id_of y) xs ≡ none
    → find (id_of y) ys ≡ none
    → Fresh (y.entry.queue_seq) ys
    → Apart xs ys
    → Apart (xs ++ (y ∷ [])) ys
unfolding find
Apart-append xs y [] a u f p = tt
Apart-append xs y (z ∷ zs) a u f p = (
  (
    ground (
      arith,
      find-append (id_of z) xs y a,
      p.0.0,
      eq_iff (id_of y) (id_of z),
      eq_iff (id_of z) (id_of y),
    ),
    Fresh-append (z.entry.queue_seq) xs y (p.0.1) (λ e. f.0 (sym e)),
  ),
  Apart-append xs y zs a (ground (arith, u)) f.1 p.1,
)

pub below-append :
    (n m : ℕ) (xs : List Item) (y : Item)
    → All (λ z. z.entry.queue_seq < n) xs
    → n ≤ m
    → y.entry.queue_seq < m
    → All (λ z. z.entry.queue_seq < m) (xs ++ (y ∷ []))
below-append n m [] y a l h = (h, tt)
below-append n m (x ∷ xs) y a l h = (omega (arith, a.0), below-append n m xs y a.1 l h)

-- The sidecars of a directory: the entries that the loop sets aside, in their order.
abbrev pub hold_named : EntryKind → DirEntry → List (String × DirEntry)
hold_named (hold_file id) e = (id, e) ∷ []
hold_named _ e = []

abbrev pub backoff_named : EntryKind → DirEntry → List (String × DirEntry)
backoff_named (backoff_file id) e = (id, e) ∷ []
backoff_named _ e = []

abbrev pub unconfigured_named : EntryKind → DirEntry → Option DirEntry
unconfigured_named unconfigured_file e = some e
unconfigured_named _ e = none

-- The later of two entries.
abbrev pub or_earlier : Option DirEntry → Option DirEntry → Option DirEntry
or_earlier e none = e
or_earlier e (some e') = some e'

unfoldable pub hold_files : List DirEntry → List (String × DirEntry)
unfolding classify
hold_files [] = []
hold_files (e ∷ es) = hold_named (classify e.name e.is_dir) e ++ hold_files es

unfoldable pub backoff_files : List DirEntry → List (String × DirEntry)
unfolding classify
backoff_files [] = []
backoff_files (e ∷ es) = backoff_named (classify e.name e.is_dir) e ++ backoff_files es

unfoldable pub unconfigured_file_of : List DirEntry → Option DirEntry
unfolding classify
unconfigured_file_of [] = none
unconfigured_file_of (e ∷ es) =
    or_earlier (unconfigured_named (classify e.name e.is_dir) e) (unconfigured_file_of es)

-- What a stretch of the directory adds to the sidecars set aside.
pub record Beside (hs bs : List (String × DirEntry)) (u : Option DirEntry) (s s' : Loading)
    : Type 0 where
  pub holds : s'.hold_entries ≡ s.hold_entries ++ hs
  pub backoffs : s'.backoff_entries ≡ s.backoff_entries ++ bs
  pub unconfigured : s'.unconfigured_entry ≡ or_earlier s.unconfigured_entry u

pub Beside-refl : (s : Loading) → Beside [] [] none s s
Beside-refl s = record {
  holds = sym (append-nil _);
  backoffs = sym (append-nil _);
  unconfigured = refl;
}

pub or_earlier-left : (e : Option DirEntry) → or_earlier none e ≡ e
or_earlier-left none = refl
or_earlier-left (some e) = refl

or_earlier_assoc :
    (a b c : Option DirEntry) → or_earlier (or_earlier a b) c ≡ or_earlier a (or_earlier b c)
or_earlier_assoc a none none = refl
or_earlier_assoc a (some b) none = refl
or_earlier_assoc a none (some c) = refl
or_earlier_assoc a (some b) (some c) = refl

pub Beside-then :
    (hs bs : List (String × DirEntry)) (u : Option DirEntry) (hs' bs' : List (String × DirEntry))
    (u' : Option DirEntry) {s s₁ s' : Loading}
    → Beside hs bs u s s₁
    → Beside hs' bs' u' s₁ s'
    → Beside (hs ++ hs') (bs ++ bs') (or_earlier u u') s s'
Beside-then hs bs u hs' bs' u' {s} b c = record {
  holds = c.holds ∙ ap (λ l. l ++ hs') b.holds ∙ append_assoc s.hold_entries hs hs';
  backoffs = c.backoffs ∙ ap (λ l. l ++ bs') b.backoffs ∙ append_assoc s.backoff_entries bs bs';
  unconfigured =
      c.unconfigured
      ∙ ap (λ e. or_earlier e u') b.unconfigured
      ∙ or_earlier_assoc s.unconfigured_entry u u';
}
