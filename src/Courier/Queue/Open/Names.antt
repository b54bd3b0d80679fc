-- ===== src/Courier/Queue/Open/Names.antt =====
-- The names of the files in a queue's directory, and what `load` of queue.go takes each for.
use Prim.Native.Char.{code}
use Prim.Native.String.{◌++◌ as str_append}
use ori_gateway.Base.{
  String, ◌≡◌, refl, Bool, false, not, ◌||◌, Option, none, some, is_some, if◌then◌else◌, ◌==◌,
  nat_eq, string_eq,
}

-- What is left of a text after a prefix (strings.HasPrefix with strings.TrimPrefix).
unfoldable pub after_prefix : String → String → Option String
after_prefix String.[] s = some s
after_prefix (String.◌∷◌ c p) String.[] = none
after_prefix (String.◌∷◌ c p) (String.◌∷◌ d s) =
    let rest : Option String = after_prefix p s in if code c == code d then rest else none

-- strings.HasSuffix, the suffix first.
unfoldable pub has_suffix : String → String → Bool
has_suffix suffix String.[] = suffix == ""
has_suffix suffix (String.◌∷◌ c s) = (String.◌∷◌ c s == suffix) || has_suffix suffix s

abbrev pub queue_file_suffix : String
queue_file_suffix = ".json"

abbrev pub queue_marker_name : String
queue_marker_name = ".ori-evidence-queue-v1"

abbrev pub queue_temp_prefix : String
queue_temp_prefix = ".ori-evidence-queue-tmp-"

abbrev pub hold_file_prefix : String
hold_file_prefix = ".ori-evidence-hold-"

abbrev pub backoff_file_prefix : String
backoff_file_prefix = ".ori-evidence-backoff-"

-- `FilePrefix` of internal/evidence/signingclock.
abbrev pub signing_mark_prefix : String
signing_mark_prefix = ".ori-signed-at-"

abbrev pub probe_file_name : String
probe_file_name = ".ori-evidence-probe"

abbrev pub unconfigured_file_name : String
unconfigured_file_name = ".ori-evidence-unconfigured"

-- A sidecar's kind carries the id in its name.
pub data EntryKind : Type 0 where
  skipped unconfigured_file unfinished_file stray_entry record_file : EntryKind
  hold_file backoff_file : String → EntryKind

-- The tests on an entry's name, in the loop's order.
unfoldable pub classify : String → Bool → EntryKind
unfolding after_prefix has_suffix
classify name is_dir =
    if name == queue_marker_name
      || is_some (after_prefix signing_mark_prefix name)
      || name == probe_file_name
    then skipped
    else if name == unconfigured_file_name
    then unconfigured_file
    else elim (after_prefix hold_file_prefix name) [
      | some id ↦ hold_file id
      | none ↦ elim (after_prefix backoff_file_prefix name) [
        | some id ↦ backoff_file id
        | none ↦
            if is_some (after_prefix queue_temp_prefix name)
            then unfinished_file
            else if is_dir || not (has_suffix queue_file_suffix name)
            then stray_entry
            else record_file
      ]
    ]

abbrev pub record_file_name : String → String
record_file_name id = str_append id queue_file_suffix

test_record : classify "digest_7.json" false ≡ record_file
unfolding classify
test_record = refl

test_hold : classify ".ori-evidence-hold-digest_7" false ≡ hold_file "digest_7"
unfolding classify
test_hold = refl
