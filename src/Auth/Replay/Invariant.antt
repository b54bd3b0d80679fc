-- ===== src/Auth/Replay/Invariant.antt =====
-- What the replay state keeps: each key once, under its own name, retained while its envelope can
-- still be fresh, and the floor at or above the stored one.
use ori_gateway.Base.{
  ℕ, ◌+◌, ◌≤◌, ◌<◌, String, ◌≡◌, refl, sym, ap, subst, ◌∙◌, ◌⊎◌, inl, inr, Option, none, some, [],
  ◌∷◌, arith, eq_iff, ltb, if◌then◌else◌, Bool-cases, ◌==◌, nat_eq, string_eq,
}
use ori_gateway.Base.Maps.{Map, lookup, erase, has, Distinct, lookup-erase, erase-Distinct}
use ori_gateway.Auth.Replay.{ReplayState, drop_at, raise_stored, drop_key, redate}
use ori_gateway.Auth.Replay.KeyHeap.{Held, Heap, values, In}

abbrev pub Reach : Option ℕ → ℕ → Type 0
Reach none floor = Unit
Reach (some f) floor = f ≤ floor

abbrev pub Kept : ℕ → Map String Held → Type 0
Kept skew m =
    (k : String) (h : Held) → lookup k m ≡ some h → (h.key ≡ k) × (h.signed_at + skew < h.drop_time)

pub record Good (s : ReplayState) : Type 0 where
  pub once : Distinct s.keys
  pub retained : Kept s.skew s.keys
  pub reach : Reach s.stored_floor s.floor

-- An envelope that was accepted: its key is held with its signing time, or the stored floor has
-- risen past that time.
abbrev pub Below : ℕ → Option ℕ → Type 0
Below n none = ⊥
Below n (some f) = n < f

abbrev pub HeldAs : String → ℕ → Map String Held → Type 0
HeldAs key signed_at m = (h : Held) × (lookup key m ≡ some h) × (h.signed_at ≡ signed_at)

abbrev pub Spent : String → ℕ → ReplayState → Type 0
Spent key signed_at s = HeldAs key signed_at s.keys ⊎ Below signed_at s.stored_floor

pub raise_stored-Reach :
    (r floor : ℕ) (o : Option ℕ)
    → Reach o floor
    → Reach (raise_stored r o) (if ltb floor r then r else floor)
raise_stored-Reach r floor none h = ground arith
raise_stored-Reach r floor (some f) h = ground arith

pub raise_stored-Below : (n r : ℕ) (o : Option ℕ) → Below n o ⊎ (n < r) → Below n (raise_stored r o)
raise_stored-Below n r none h = ground arith
raise_stored-Below n r (some f) h = ground arith

pub erase-Kept : (skew : ℕ) (k : String) (m : Map String Held) → Kept skew m → Kept skew (erase k m)
erase-Kept skew k m keep j h found = keep j h (ground (arith, lookup-erase k j m))

pub drop_key-Good : (h : Held) (s : ReplayState) → Good s → Good (drop_key h s)
unfolding drop_key
drop_key-Good h s g = record {
  once = erase-Distinct h.key s.keys g.once;
  retained = erase-Kept s.skew h.key s.keys g.retained;
  reach = raise_stored-Reach (h.signed_at + 1) s.floor s.stored_floor g.reach;
}

pub tail-Kept :
    (skew : ℕ) (j : String) (v : Held) (m : Map String Held)
    → Distinct ((j, v) ∷ m)
    → Kept skew ((j, v) ∷ m)
    → Kept skew m
unfolding lookup
tail-Kept skew j v m d keep k h found = keep k h (ground (arith, eq_iff j k))

-- A value of the map is found under its key.
pub values-found :
    (skew : ℕ) (m : Map String Held) (h : Held)
    → Distinct m
    → Kept skew m
    → In h (values m)
    → lookup h.key m ≡ some h
unfolding lookup
values-found skew [] h d keep i = elim i [ ]
values-found skew ((j, v) ∷ m) h d keep (inl e) =
    ground (arith, eq_iff j j, eq_iff j (h.key), keep j v)
values-found skew ((j, v) ∷ m) h d keep (inr i) =
    ground (arith, eq_iff j (h.key), values-found skew m h d.1 (tail-Kept skew j v m d keep) i)

-- Each round of `prune` and each eviction drops a key that is held.
pub least-held :
    (heap : Heap) (f : Held → ℕ) (s : ReplayState) (h : Held)
    → Good s
    → heap.least f (values s.keys) ≡ some h
    → lookup h.key s.keys ≡ some h
least-held heap f s h g found =
    values-found s.skew s.keys h g.once g.retained (heap.least_in f (values s.keys) h found)

pub redate-lookup :
    (skew ttl : ℕ) (k : String) (m : Map String Held) (h : Held)
    → lookup k (redate skew ttl m) ≡ some h
    → (old : Held) × (lookup k m ≡ some old)
      × (h ≡ record old { drop_time = drop_at skew ttl old.signed_at old.received_at })
unfolding lookup redate
redate-lookup skew ttl k [] h found = ground arith
redate-lookup skew ttl k ((j, v) ∷ m) h found = elim (Bool-cases (j == k)) [
  | inl e ↦ (v, ground arith, ground arith)
  | inr e ↦
      (let (old, was, now) = redate-lookup skew ttl k m h (ground arith) in
        (old, ground arith, now))
]

pub redate-has :
    (skew ttl : ℕ) (k : String) (m : Map String Held) → has k (redate skew ttl m) ≡ has k m
unfolding lookup redate
redate-has skew ttl k [] = refl
redate-has skew ttl k ((j, v) ∷ m) = ground (arith, redate-has skew ttl k m)

pub redate-HeldAs :
    (skew ttl : ℕ) (k : String) (n : ℕ) (m : Map String Held)
    → HeldAs k n m
    → HeldAs k n (redate skew ttl m)
unfolding lookup redate
redate-HeldAs skew ttl k n [] (h, found, e) = ground arith
redate-HeldAs skew ttl k n ((j, v) ∷ m) (h, found, e) = elim (Bool-cases (j == k)) [
  | inl b ↦ (
    record v { drop_time = drop_at skew ttl v.signed_at v.received_at },
    ground arith,
    ground arith,
  )
  | inr b ↦
      (let (h', found', e') = redate-HeldAs skew ttl k n m (h, ground arith, e) in
        (h', ground arith, e'))
]

pub redate-Distinct :
    (skew ttl : ℕ) (m : Map String Held) → Distinct m → Distinct (redate skew ttl m)
unfolding redate
redate-Distinct skew ttl [] d = tt
redate-Distinct skew ttl ((j, v) ∷ m) d =
    (redate-has skew ttl j m ∙ d.0, redate-Distinct skew ttl m d.1)

pub drop_at-late : (skew ttl signed received : ℕ) → signed + skew < drop_at skew ttl signed received
unfolding drop_at
drop_at-late skew ttl signed received = ground arith

pub redate-Kept :
    (skew old ttl : ℕ) (m : Map String Held) → Kept old m → Kept skew (redate skew ttl m)
redate-Kept skew old ttl m keep k h found =
    let (v, was, now) = redate-lookup skew ttl k m h found in
    (
      ap (λ x. x.key) now ∙ (keep k v was).0,
      subst (λ x. x.signed_at + skew < x.drop_time) (sym now)
          (drop_at-late skew ttl v.signed_at v.received_at),
    )
