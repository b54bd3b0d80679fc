-- ===== src/Samples/Receivers.antt =====
-- The theorems of the replay state at a receiver of two keys (internal/mqttauth/replay.go).
use ori_gateway.Base.{
  ℕ, ◌≤◌, ◌≡◌, refl, sym, subst, inl, inr, true, false, Option, none, some, List, [], ◌∷◌, arith,
  eq_iff, leb, if◌then◌else◌, leb→le, Bool-cases, Option-cases, All, nat_eq, string_eq,
}
use ori_gateway.Base.Maps.{lookup, insert, erase}
use ori_gateway.Auth.Replay.{
  ReplayState, recheck, check, drop_at, drop_key, restart, evict, prune_rounds, prune, hold_key,
  check_fresh_and_record, recorded, refused, Refusal,
}
use ori_gateway.Auth.Replay.KeyHeap.{Held, Heap, In}
use ori_gateway.Auth.Replay.Invariant.{Good}
use ori_gateway.Auth.Replay.Steps.{verified, restarted, Later, now, next, recorded-never_again}
use ori_gateway.Auth.Replay.Fresh.{Pruned, NoneDue, prune-Pruned, Binds, check-prune}
use ori_gateway.Auth.Replay.Bound.{Within, check_fresh_and_record-Within}

abbrev first_least : (Held → ℕ) → List Held → Option Held
first_least f [] = none
first_least f (h ∷ hs) = elim (first_least f hs) [
  | none ↦ some h
  | some m ↦ if leb (f h) (f m) then some h else some m
]

first_least-some :
    (f : Held → ℕ) (h : Held) (hs : List Held) → (x : Held) × (first_least f (h ∷ hs) ≡ some x)
first_least-some f h hs = elim (Option-cases (first_least f hs)) [
  | inl e ↦ (h, ground arith)
  | inr (m, e) ↦ elim (Bool-cases (leb (f h) (f m))) [
    | inl le ↦ (h, ground arith)
    | inr gt ↦ (m, ground arith)
  ]
]

first_least-In : (f : Held → ℕ) (hs : List Held) (h : Held) → first_least f hs ≡ some h → In h hs
first_least-In f [] h is = ground arith
first_least-In f (x ∷ xs) h is = elim (Option-cases (first_least f xs)) [
  | inl e ↦ inl (ground arith)
  | inr (m, e) ↦ elim (Bool-cases (leb (f x) (f m))) [
    | inl le ↦ inl (ground arith)
    | inr gt ↦ inr (first_least-In f xs h (ground arith))
  ]
]

All-le :
    (f : Held → ℕ) (a b : ℕ) (hs : List Held)
    → a ≤ b
    → All (λ x. b ≤ f x) hs
    → All (λ x. a ≤ f x) hs
All-le f a b [] le each = tt
All-le f a b (x ∷ xs) le each = (omega (arith, each.0), All-le f a b xs le each.1)

first_least-none : (f : Held → ℕ) (hs : List Held) → first_least f hs ≡ none → hs ≡ []
first_least-none f [] is = refl
first_least-none f (x ∷ xs) is = let (y, some_is) = first_least-some f x xs in ground arith

first_least-le :
    (f : Held → ℕ) (hs : List Held) (h : Held) → first_least f hs ≡ some h → All (λ x. f h ≤ f x) hs
first_least-le f [] h is = tt
first_least-le f (x ∷ xs) h is = elim (Option-cases (first_least f xs)) [
  | inl e ↦
      (let same : x ≡ h = ground arith in
        (
          subst (λ y. f y ≤ f x) same (omega arith),
          subst (λ l. All (λ y. f h ≤ f y) l) (sym (first_least-none f xs e)) tt,
        ))
  | inr (m, e) ↦ elim (Bool-cases (leb (f x) (f m))) [
    | inl le ↦
        (let same : x ≡ h = ground arith in
          (
            subst (λ y. f y ≤ f x) same (omega arith),
            All-le f (f h) (f m) xs (subst (λ y. f y ≤ f m) same (leb→le (f x) (f m) le))
                (first_least-le f xs m e),
          ))
    | inr gt ↦
        (let same : m ≡ h = ground arith in
          (
            subst (λ y. f y ≤ f x) same (ground arith),
            subst (λ y. All (λ x. f y ≤ f x) xs) same (first_least-le f xs m e),
          ))
  ]
]

abbrev first_heap : Heap
first_heap = record {
  least = first_least;
  least_some = first_least-some;
  least_in = first_least-In;
  least_le = first_least-le;
}

abbrev fresh_state : ReplayState
fresh_state = record {
  skew = 300;
  ttl = 0;
  stores = true;
  floor = 1000;
  stored_floor = none;
  keys = [];
  max_keys = 1;
}

fresh_state-Good : Good fresh_state
unfolding lookup
fresh_state-Good = record { once = tt; retained = λ k h found. ground arith; reach = tt }

fresh-recorded :
    (check_fresh_and_record first_heap "key_1" 1000 1100 none fresh_state).1 ≡ recorded false
unfolding check_fresh_and_record prune prune_rounds check recheck lookup
fresh-recorded = refl

-- Another key evicts the first, and the receiver then starts again.
abbrev after_first : ReplayState
after_first = (check_fresh_and_record first_heap "key_1" 1000 1100 none fresh_state).0

abbrev after_second : ReplayState
after_second = (check_fresh_and_record first_heap "key_2" 1050 1120 none after_first).0

second-Later : Later first_heap after_first (restart 1150 300 after_second)
unfolding check_fresh_and_record prune prune_rounds check recheck lookup hold_key insert erase evict
    drop_key drop_at
second-Later =
    next after_first after_second (restart 1150 300 after_second)
      (verified "key_2" 1050 1120 none after_first)
      (next after_second (restart 1150 300 after_second) (restart 1150 300 after_second)
        (restarted 1150 300 after_second refl) (now (restart 1150 300 after_second)))

recorded-never_again_example :
    (e : Refusal) × ((check_fresh_and_record first_heap "key_1" 1000 1160 none
        (restart 1150 300 after_second)).1
      ≡ refused e)
recorded-never_again_example =
    recorded-never_again first_heap fresh_state "key_1" 1000 1100 none false fresh_state-Good
      fresh-recorded (restart 1150 300 after_second) second-Later 1160 none

-- A state with a key that is due at 1400 and one that is not.
abbrev old_key : Held
old_key = record { key = "key_1"; signed_at = 1000; received_at = 1100; drop_time = 1301 }

abbrev new_key : Held
new_key = record { key = "key_2"; signed_at = 1200; received_at = 1210; drop_time = 1501 }

abbrev two_keys : ReplayState
two_keys = record fresh_state { keys = ("key_2", new_key) ∷ ("key_1", old_key) ∷ []; max_keys = 2 }

two_keys-Good : Good two_keys
unfolding lookup
two_keys-Good = record {
  once = (refl, (refl, tt));
  retained = λ k h found. ground (arith, eq_iff "key_1" k, eq_iff "key_2" k);
  reach = tt;
}

prune-Pruned_example :
    Pruned 1400 two_keys (prune first_heap 1400 two_keys)
    × NoneDue 1400 (prune first_heap 1400 two_keys).keys
prune-Pruned_example = prune-Pruned first_heap 1400 two_keys two_keys-Good

two_keys-Binds : Binds "key_2" 1200 two_keys.keys
unfolding lookup
two_keys-Binds h found = ground arith

check-prune_example :
    check "key_2" 1200 1400 (prune first_heap 1400 two_keys) ≡ check "key_2" 1200 1400 two_keys
check-prune_example = check-prune first_heap "key_2" 1200 1400 two_keys two_keys-Good two_keys-Binds

check_fresh_and_record-Within_example :
    Within 2 (check_fresh_and_record first_heap "key_3" 1250 1260 none two_keys).0
check_fresh_and_record-Within_example =
    check_fresh_and_record-Within first_heap "key_3" 1250 1260 none 2 two_keys two_keys-Good
      (refl, λ p. omega arith)
