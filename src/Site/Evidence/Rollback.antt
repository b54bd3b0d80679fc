-- ===== src/Site/Evidence/Rollback.antt =====
-- What the memory of heads detects (internal/site/evidence.go).
use ori_gateway.Base.{
  ℕ, zero, suc, ◌+◌, ◌-◌, ◌≤◌, ◌<◌, String, ◌≡◌, refl, sym, ap, subst, ◌∙◌, ◌≢◌, true, List, [],
  ◌∷◌, ◌++◌, arith, eq_iff, ltb, if-both, length, length-append, drop, any, ◌==◌, nat_eq, string_eq,
}
use ori_gateway.Site.Evidence.{
  NodeEvidence, EvidenceTrack, evidence_head_history_size, newest, before_newest, current_head,
  saw_head_before_current, record_head, fold_head, observe,
}

unfoldable pub observe_all : List NodeEvidence → EvidenceTrack → EvidenceTrack
observe_all [] t = t
observe_all (e ∷ es) t = observe_all es (observe e t).0

-- The head is one of the ring's last `k + 1`.
abbrev pub Recent : String → ℕ → List String → Type 0
Recent h k heads =
    (pre : List String) × (post : List String) × (heads ≡ pre ++ (h ∷ post)) × (length post ≤ k)

drop-append : (n : ℕ) (xs ys : List String) → n ≤ length xs → drop n (xs ++ ys) ≡ drop n xs ++ ys
drop-append zero xs ys le = refl
drop-append (suc n) [] ys le = ground arith
drop-append (suc n) (x ∷ xs) ys le = drop-append n xs ys (omega arith)

append_assoc : (xs ys zs : List String) → (xs ++ ys) ++ zs ≡ xs ++ (ys ++ zs)
append_assoc [] ys zs = refl
append_assoc (x ∷ xs) ys zs = ap (λ l. x ∷ l) (append_assoc xs ys zs)

record_head-Recent :
    (h g : String) (k : ℕ) (heads : List String)
    → suc k < evidence_head_history_size
    → Recent h k heads
    → Recent h (suc k) (record_head g heads)
unfolding record_head
record_head-Recent h g k heads small (pre, post, is, short) =
    let longer : heads ++ (g ∷ []) ≡ pre ++ (h ∷ (post ++ (g ∷ []))) =
      ap (λ l. l ++ (g ∷ [])) is ∙ append_assoc pre (h ∷ post) (g ∷ []) in
    let tail : length (post ++ (g ∷ [])) ≤ suc k = omega (arith, length-append post (g ∷ [])) in
    let total : length (heads ++ (g ∷ [])) ≡ length pre + suc (length (post ++ (g ∷ []))) =
      ap length longer ∙ length-append pre (h ∷ (post ++ (g ∷ []))) in
    if-both (Recent h (suc k)) (ltb evidence_head_history_size (length (heads ++ (g ∷ [])))) _ _
      (λ over. (
        drop (length (heads ++ (g ∷ [])) - evidence_head_history_size) pre,
        post ++ (g ∷ []),
        ap (drop (length (heads ++ (g ∷ [])) - evidence_head_history_size)) longer
            ∙ drop-append (length (heads ++ (g ∷ [])) - evidence_head_history_size) pre
                (h ∷ (post ++ (g ∷ []))) (ground arith),
        tail,
      ))
      (λ room. (pre, post ++ (g ∷ []), longer, tail))

Recent-up : (h : String) (k : ℕ) (heads : List String) → Recent h k heads → Recent h (suc k) heads
Recent-up h k heads (pre, post, is, short) = (pre, post, is, omega (arith, short))

fold_head-Recent :
    (h g : String) (k : ℕ) (t : EvidenceTrack)
    → suc k < evidence_head_history_size
    → Recent h k t.recent_heads
    → Recent h (suc k) (fold_head g t).recent_heads
unfolding fold_head
fold_head-Recent h g k t small r =
    if-both (λ (u : EvidenceTrack). Recent h (suc k) u.recent_heads) (g == "") _ _
      (λ _. Recent-up h k t.recent_heads r)
      (λ _.
        if-both (λ (u : EvidenceTrack). Recent h (suc k) u.recent_heads) (g == current_head t) _ _
          (λ _. Recent-up h k t.recent_heads r)
          (λ _. record_head-Recent h g k t.recent_heads small r))

observe_all-Recent :
    (h : String) (es : List NodeEvidence) (k : ℕ) (t : EvidenceTrack)
    → k + length es < evidence_head_history_size
    → Recent h k t.recent_heads
    → Recent h (k + length es) (observe_all es t).recent_heads
unfolding observe_all observe
observe_all-Recent h [] k t small r = subst (λ n. Recent h n t.recent_heads) (omega arith) r
observe_all-Recent h (e ∷ es) k t small r =
    subst (λ n. Recent h n (observe_all es (fold_head e.chain_head_hash t)).recent_heads)
      (omega arith)
      (observe_all-Recent h es (suc k) (fold_head e.chain_head_hash t) (omega (arith, small))
        (fold_head-Recent h e.chain_head_hash k t (omega (arith, small)) r))

newest-append :
    (pre : List String) (h : String) (post : List String)
    → newest (pre ++ (h ∷ post)) ≡ newest (h ∷ post)
unfolding newest
newest-append [] h post = refl
newest-append (p ∷ []) h post = refl
newest-append (p ∷ q ∷ pre) h post = newest-append (q ∷ pre) h post

before-append :
    (pre : List String) (h g : String) (post : List String)
    → any (λ x. x == h) (before_newest (pre ++ (h ∷ g ∷ post))) ≡ true
unfolding before_newest
before-append [] h g post = ground (arith, eq_iff h h)
before-append (p ∷ []) h g post = ground (arith, eq_iff h h)
before-append (p ∷ q ∷ pre) h g post = ground (arith, before-append (q ∷ pre) h g post)

Recent-seen :
    (h : String) (k : ℕ) (t : EvidenceTrack)
    → Recent h k t.recent_heads
    → current_head t ≢ h
    → saw_head_before_current h t ≡ true
unfolding current_head saw_head_before_current newest
Recent-seen h k t (pre, [], is, short) moved =
    elim (moved (ap newest is ∙ newest-append pre h [])) [ ]
Recent-seen h k t (pre, g ∷ post, is, short) moved =
    ap (λ l. any (λ x. x == h) (before_newest l)) is ∙ before-append pre h g post

fold_head-flags :
    (g : String) (t : EvidenceTrack)
    → ((t.truncation_suspected ≡ true → (fold_head g t).truncation_suspected ≡ true))
      × ((t.head_regressed ≡ true → (fold_head g t).head_regressed ≡ true))
unfolding fold_head
fold_head-flags g t = (λ is. ground arith, λ is. ground arith)

-- Suspicion is never cleared: a report after any further reports still carries each flag.
pub observe_all-flags :
    (es : List NodeEvidence) (e : NodeEvidence) (t : EvidenceTrack)
    → let shown : NodeEvidence = (observe e (observe_all es t)).1 in
      (t.truncation_suspected ≡ true → shown.truncation_suspected ≡ true)
      × (t.head_regressed ≡ true → shown.head_regressed ≡ true)
unfolding observe_all observe
observe_all-flags [] e t = fold_head-flags e.chain_head_hash t
observe_all-flags (f ∷ es) e t =
    let more = fold_head-flags f.chain_head_hash t in
    let rest = observe_all-flags es e (fold_head f.chain_head_hash t) in
    (λ is. rest.0 (more.0 is), λ is. rest.1 (more.1 is))

newest-split :
    (h : String) (heads : List String)
    → newest heads ≡ h
    → h ≢ ""
    → (pre : List String) × (heads ≡ pre ++ (h ∷ []))
unfolding newest
newest-split h [] is some_head = elim (some_head (sym is)) [ ]
newest-split h (g ∷ []) is some_head = ([], ap (λ x. x ∷ []) is)
newest-split h (g ∷ f ∷ heads) is some_head =
    let (pre, split) = newest-split h (f ∷ heads) is some_head in (g ∷ pre, ap (λ l. g ∷ l) split)

record_head-newest : (h : String) (heads : List String) → Recent h 0 (record_head h heads)
unfolding record_head
record_head-newest h heads =
    if-both (Recent h 0) (ltb evidence_head_history_size (length (heads ++ (h ∷ [])))) _ _
      (λ over. (
        drop (length (heads ++ (h ∷ [])) - evidence_head_history_size) heads,
        [],
        drop-append (length (heads ++ (h ∷ [])) - evidence_head_history_size) heads (h ∷ [])
            (ground (arith, length-append heads (h ∷ []))),
        omega arith,
      ))
      (λ room. (heads, [], refl, omega arith))

fold_head-newest :
    (h : String) (t : EvidenceTrack) → h ≢ "" → Recent h 0 (fold_head h t).recent_heads
unfolding fold_head current_head
fold_head-newest h t some_head =
    if-both (λ (u : EvidenceTrack). Recent h 0 u.recent_heads) (h == "") _ _
      (λ bad. elim (some_head ((eq_iff h "").0 bad)) [ ])
      (λ _.
        if-both (λ (u : EvidenceTrack). Recent h 0 u.recent_heads) (h == current_head t) _ _
          (λ same.
            let (pre, split) =
              newest-split h t.recent_heads (sym ((eq_iff h (current_head t)).0 same)) some_head in
            (pre, [], split, omega arith))
          (λ _. record_head-newest h t.recent_heads))

fold_head-flagged :
    (h : String) (t : EvidenceTrack)
    → h ≢ ""
    → current_head t ≢ h
    → saw_head_before_current h t ≡ true
    → (fold_head h t).head_regressed ≡ true
unfolding fold_head
fold_head-flagged h t some_head moved seen = ground (arith, eq_iff h "", eq_iff h (current_head t))

-- A rollback is detected: when a device has reported a head, then at most 15 more reports of any
-- kind, after which its current head is another, a report of the first head again is flagged as a
-- regression, whatever the device had reported before.
pub rollback-flagged :
    (e e' : NodeEvidence) (es : List NodeEvidence) (t : EvidenceTrack)
    → e.chain_head_hash ≢ ""
    → e'.chain_head_hash ≡ e.chain_head_hash
    → length es < evidence_head_history_size
    → current_head (observe_all es (observe e t).0) ≢ e.chain_head_hash
    → (observe e' (observe_all es (observe e t).0)).1.head_regressed ≡ true
unfolding observe
rollback-flagged e e' es t some_head again few moved =
    let ring =
      observe_all-Recent e.chain_head_hash es 0 (fold_head e.chain_head_hash t) (omega (arith, few))
        (fold_head-newest e.chain_head_hash t some_head) in
    let late = observe_all es (fold_head e.chain_head_hash t) in
    let seen = Recent-seen e.chain_head_hash (0 + length es) late ring moved in
    rw again (fold_head-flagged e.chain_head_hash late some_head moved seen)

Recent-newest : (h : String) (heads : List String) → Recent h 0 heads → newest heads ≡ h
unfolding newest
Recent-newest h heads (pre, [], is, short) = ap newest is ∙ newest-append pre h []
Recent-newest h heads (pre, g ∷ post, is, short) = ground arith

fold_head-headed :
    (g : String) (t : EvidenceTrack) → current_head t ≢ "" → current_head (fold_head g t) ≢ ""
unfolding fold_head current_head
fold_head-headed g t headed =
    if-both (λ (u : EvidenceTrack). newest u.recent_heads ≢ "") (g == "") _ _ (λ _. headed)
      (λ some_head.
        if-both (λ (u : EvidenceTrack). newest u.recent_heads ≢ "") (g == current_head t) _ _
          (λ _. headed)
          (λ _ is. ground (
            arith,
            Recent-newest g (record_head g t.recent_heads) (record_head-newest g t.recent_heads),
            eq_iff g "",
          )))

observe_all-headed :
    (es : List NodeEvidence) (t : EvidenceTrack)
    → current_head t ≢ ""
    → current_head (observe_all es t) ≢ ""
unfolding observe_all observe
observe_all-headed [] t headed = headed
observe_all-headed (e ∷ es) t headed =
    observe_all-headed es (fold_head e.chain_head_hash t)
      (fold_head-headed e.chain_head_hash t headed)

fold_head-truncated :
    (h : String) (t : EvidenceTrack)
    → h ≡ ""
    → current_head t ≢ ""
    → (fold_head h t).truncation_suspected ≡ true
unfolding fold_head
fold_head-truncated h t empty headed = ground (arith, eq_iff h "", eq_iff (current_head t) "")

-- A truncation is detected: once a device has reported a head, a report of an empty chain is
-- flagged, whatever it reported between, however often.
pub truncation-flagged :
    (e e' : NodeEvidence) (es : List NodeEvidence) (t : EvidenceTrack)
    → e.chain_head_hash ≢ ""
    → e'.chain_head_hash ≡ ""
    → (observe e' (observe_all es (observe e t).0)).1.truncation_suspected ≡ true
unfolding observe current_head
truncation-flagged e e' es t some_head empty =
    let headed : current_head (fold_head e.chain_head_hash t) ≢ "" = λ is. some_head (
      sym (Recent-newest e.chain_head_hash _ (fold_head-newest e.chain_head_hash t some_head))
      ∙ is) in
    fold_head-truncated e'.chain_head_hash _ empty
      (observe_all-headed es (fold_head e.chain_head_hash t) headed)
