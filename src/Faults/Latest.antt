-- ===== src/Faults/Latest.antt =====
-- When a fault is active (internal/evidence/faults/faults.go).
use ori_gateway.Base.{
  String, ◌≡◌, refl, sym, ap, ◌∙◌, ◌≢◌, ◌↔◌, inl, inr, Bool, true, false, ◌&&◌, some, List, [], ◌∷◌,
  arith, eq_iff, if◌then◌else◌, Option-cases, ◌==◌, nat_eq, string_eq,
}
use ori_gateway.Base.Maps.{Map, lookup, insert, erase, has, lookup-erase, lookup-insert}
use ori_gateway.Faults.{Recorder, sources_of, clear, note}

pub record Noted : Type 0 where
  pub fault : String
  pub source : String
  pub failed : Bool

unfoldable pub note_all : List Noted → Recorder → Recorder
note_all [] r = r
note_all (n ∷ ns) r = note_all ns (note n.fault n.source n.failed r)

-- What the source said last of the fault: `false` where it said nothing.
abbrev pub latest : String → String → Bool → List Noted → Bool
latest fault source before [] = before
latest fault source before (n ∷ ns) =
    latest fault source (if (n.fault == fault) && (n.source == source) then n.failed else before) ns

abbrev pub holds : String → String → Recorder → Bool
holds fault source r = has source (sources_of fault r)

erase-has :
    (s s' : String) (m : Map String Bool)
    → has s' (erase s m) ≡ (if s == s' then false else has s' m)
erase-has s s' m = ground (arith, lookup-erase s s' m)

sources-insert :
    (f f' : String) (m : Map String Bool) (r : Recorder)
    → sources_of f' (insert f m r) ≡ (if f == f' then m else sources_of f' r)
sources-insert f f' m r = ground (arith, lookup-insert f f' m r)

sources-erase :
    (f f' : String) (r : Recorder)
    → sources_of f' (erase f r) ≡ (if f == f' then [] else sources_of f' r)
sources-erase f f' r = ground (arith, lookup-erase f f' r)

clear-sources :
    (f s : String) (r : Recorder) (f' : String)
    → sources_of f' (clear f s r) ≡ (if f == f' then erase s (sources_of f r) else sources_of f' r)
unfolding clear erase
clear-sources f s r f' = elim (Option-cases (lookup f r)) [
  | inl absent ↦ rw (absent, clear) (ground (arith, absent, eq_iff f f'))
  | inr (m, found) ↦
      rw (found, clear)
        (by_left (erase s m)
          ∙ ap (λ l. if f == f' then erase s l else sources_of f' r) (sym (held m found)))
]
  where
    held : (m : Map String Bool) → lookup f r ≡ some m → sources_of f r ≡ m
    held m found = rw (found, sources_of) refl

    by_left :
        (m' : Map String Bool)
        → sources_of f' (elim m' [ [] ↦ erase f r | x ∷ xs ↦ insert f (x ∷ xs) r ])
          ≡ (if f == f' then m' else sources_of f' r)
    by_left [] = sources-erase f f' r
    by_left (x ∷ xs) = sources-insert f f' (x ∷ xs) r

note-holds :
    (f s : String) (failed : Bool) (r : Recorder) (f' s' : String)
    → holds f' s' (note f s failed r) ≡ (if (f == f') && (s == s') then failed else holds f' s' r)
unfolding note
note-holds f s true r f' s' = ground (
  arith,
  sources-insert f f' (insert s true (sources_of f r)) r,
  lookup-insert s s' true (sources_of f r),
  eq_iff f f',
)
note-holds f s false r f' s' =
    ground (arith, clear-sources f s r f', erase-has s s' (sources_of f r), eq_iff f f')

-- After any sequence of reports, a source holds a fault exactly when its last report of that fault
-- was a failure, whatever the other sources and faults reported.
pub note_all-latest :
    (f s : String) (ns : List Noted) (r : Recorder)
    → holds f s (note_all ns r) ≡ latest f s (holds f s r) ns
unfolding note_all
note_all-latest f s [] r = refl
note_all-latest f s (n ∷ ns) r =
    note_all-latest f s ns (note n.fault n.source n.failed r)
    ∙ ap (λ b. latest f s b ns) (note-holds n.fault n.source n.failed r f s)

-- No fault stands without a source.
abbrev pub Grounded : Recorder → Type 0
Grounded r = (f : String) → lookup f r ≢ some []

clear-Grounded : (f s : String) (r : Recorder) → Grounded r → Grounded (clear f s r)
unfolding clear
clear-Grounded f s r g f' = elim (Option-cases (lookup f r)) [
  | inl absent ↦ rw (absent, clear) (g f')
  | inr (m, found) ↦ rw (found, clear) (by_left (erase s m))
]
  where
    by_left :
        (m' : Map String Bool)
        → lookup f' (elim m' [ [] ↦ erase f r | x ∷ xs ↦ insert f (x ∷ xs) r ]) ≢ some []
    by_left [] is = ground (arith, lookup-erase f f' r, g f')
    by_left (x ∷ xs) is = ground (arith, lookup-insert f f' (x ∷ xs) r, g f')

note-Grounded :
    (f s : String) (failed : Bool) (r : Recorder) → Grounded r → Grounded (note f s failed r)
unfolding note insert
note-Grounded f s true r g f' is =
    ground (arith, lookup-insert f f' (insert s true (sources_of f r)) r, g f')
note-Grounded f s false r g f' is = clear-Grounded f s r g f' is

pub note_all-Grounded : (ns : List Noted) (r : Recorder) → Grounded r → Grounded (note_all ns r)
unfolding note_all
note_all-Grounded [] r g = g
note_all-Grounded (n ∷ ns) r g =
    note_all-Grounded ns (note n.fault n.source n.failed r)
      (note-Grounded n.fault n.source n.failed r g)

some-source : (m : Map String Bool) → m ≢ [] → (s : String) × (has s m ≡ true)
unfolding lookup
some-source [] some_entry = elim (some_entry refl) [ ]
some-source ((s, b) ∷ m) some_entry = (s, ground (arith, eq_iff s s))

-- A fault is active after a sequence of reports from an empty recorder exactly when some source's
-- last report of it was a failure.
pub note_all-active :
    (f : String) (ns : List Noted)
    → (has f (note_all ns []) ≡ true) ↔ ((s : String) × (latest f s false ns ≡ true))
unfolding lookup
note_all-active f ns = (to, from)
  where
    to : has f (note_all ns []) ≡ true → (s : String) × (latest f s false ns ≡ true)
    to active = elim (Option-cases (lookup f (note_all ns []))) [
      | inl absent ↦ ground arith
      | inr (m, found) ↦
          let (s, held) =
            some-source m
              (λ empty. note_all-Grounded ns [] (λ g e. ground arith) f (found ∙ ap some empty)) in
          (s, sym (note_all-latest f s ns []) ∙ ground arith)
    ]

    from : (s : String) × (latest f s false ns ≡ true) → has f (note_all ns []) ≡ true
    from (s, failed) = ground (arith, note_all-latest f s ns [])
