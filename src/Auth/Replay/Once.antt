-- ===== src/Auth/Replay/Once.antt =====
-- An accepted envelope is never accepted again (internal/mqttauth/replay.go).
use ori_gateway.Base.{
  ℕ, zero, suc, ◌+◌, ◌≤◌, ◌<◌, String, ◌≡◌, refl, subst, ◌≢◌, ◌⊎◌, inl, inr, false, ◌&&◌, Option,
  none, some, arith, eq_iff, ltb, leb, if◌then◌else◌, Bool-cases, Option-cases, length, ◌==◌,
  nat_eq, string_eq,
}
use ori_gateway.Base.Maps.{Map, lookup, insert, has, lookup-erase, lookup-insert, insert-Distinct}
use ori_gateway.Auth.Replay.{
  ReplayState, recheck, check, drop_key, evict, prune_rounds, prune, hold_key,
}
use ori_gateway.Auth.Replay.KeyHeap.{Held, Heap, values}
use ori_gateway.Auth.Replay.Invariant.{
  Reach, Kept, Good, Below, HeldAs, Spent, raise_stored-Below, drop_key-Good, least-held,
  drop_at-late,
}

-- What dropping a held key keeps, `prune` and `evict` keep.
abbrev pub Lasting : (ReplayState → Type 0) → Type 0
Lasting P =
    (h : Held) (s : ReplayState) → Good s → lookup h.key s.keys ≡ some h → P s → P (drop_key h s)

pub prune_rounds-keeps :
    (heap : Heap) (P : ReplayState → Type 0)
    → Lasting P
    → (fuel t : ℕ) (s : ReplayState) → Good s
    → P s
    → Good (prune_rounds heap fuel t s) × P (prune_rounds heap fuel t s)
unfolding prune_rounds
prune_rounds-keeps heap P lasting zero t s g p = (g, p)
prune_rounds-keeps heap P lasting (suc fuel) t s g p =
    elim (Option-cases (heap.least (λ h. h.drop_time) (values s.keys))) [
      | inl e ↦ rw (e, prune_rounds) (g, p)
      | inr (h, e) ↦ elim (Bool-cases (leb (h.drop_time) t)) [
        | inl due ↦
            (let next =
                prune_rounds-keeps heap P lasting fuel t (drop_key h s) (drop_key-Good h s g)
                  (lasting h s g (least-held heap (λ x. x.drop_time) s h g e) p) in
              rw (e, due, prune_rounds) next)
        | inr late ↦ rw (e, late, prune_rounds) (g, p)
      ]
    ]

pub drop_key-Spent : (key : String) (n : ℕ) → Lasting (Spent key n)
unfolding drop_key
drop_key-Spent key n h s g found (inr below) =
    inr (raise_stored-Below n (h.signed_at + 1) s.stored_floor (inl below))
drop_key-Spent key n h s g found (inl (k, was, e)) = elim (Bool-cases (h.key == key)) [
  | inl same ↦ inr (
      raise_stored-Below n (h.signed_at + 1) s.stored_floor
        (inr (ground (arith, eq_iff h.key key))))
  | inr other ↦ inl (k, ground (arith, lookup-erase h.key key s.keys), e)
]

pub prune-keeps :
    (heap : Heap) (P : ReplayState → Type 0)
    → Lasting P
    → (t : ℕ) (s : ReplayState) → Good s
    → P s
    → Good (prune heap t s) × P (prune heap t s)
unfolding prune
prune-keeps heap P lasting t s g p = prune_rounds-keeps heap P lasting (length s.keys) t s g p

pub evict-keeps :
    (heap : Heap) (P : ReplayState → Type 0)
    → Lasting P
    → (s : ReplayState) → Good s
    → P s
    → Good (evict heap s) × P (evict heap s)
unfolding evict
evict-keeps heap P lasting s g p =
    elim (Option-cases (heap.least (λ h. h.signed_at) (values s.keys))) [
      | inl e ↦ rw (e, evict) (g, p)
      | inr (h, e) ↦
          rw (e, evict)
            (drop_key-Good h s g, lasting h s g (least-held heap (λ x. x.signed_at) s h g e) p)
    ]

pub insert-Kept :
    (skew : ℕ) (key : String) (h : Held) (m : Map String Held)
    → h.key ≡ key
    → h.signed_at + skew < h.drop_time
    → Kept skew m
    → Kept skew (insert key h m)
insert-Kept skew key h m named late keep k v found =
    ground (arith, eq_iff key k, lookup-insert key k h m, keep k v)

-- A full receiver evicts first.
abbrev pub room : Heap → ReplayState → ReplayState
room heap s = if ltb 0 s.max_keys && leb s.max_keys (length s.keys) then evict heap s else s

pub room-keeps :
    (heap : Heap) (P : ReplayState → Type 0)
    → Lasting P
    → (s : ReplayState) → Good s
    → P s
    → Good (room heap s) × P (room heap s)
room-keeps heap P lasting s g p =
    elim (Bool-cases (ltb 0 s.max_keys && leb s.max_keys (length s.keys))) [
      | inl full ↦ rw full (evict-keeps heap P lasting s g p)
      | inr open_room ↦ rw open_room (g, p)
    ]

pub hold_key-Good :
    (heap : Heap) (key : String) (n t : ℕ) (s : ReplayState)
    → Good s
    → Good (hold_key heap key n t s)
unfolding hold_key
hold_key-Good heap key n t s g =
    let g₁ = (room-keeps heap (λ _. Unit) (λ h s g found p. tt) s g tt).0 in
    let s₁ = room heap s in
    record {
      once = insert-Distinct key _ s₁.keys g₁.once;
      retained =
          insert-Kept s₁.skew key _ s₁.keys refl (drop_at-late s₁.skew s₁.ttl n t) g₁.retained;
      reach = g₁.reach;
    }

insert-HeldAs :
    (key : String) (h : Held) (m : Map String Held) → HeldAs key h.signed_at (insert key h m)
insert-HeldAs key h m = (h, ground (arith, eq_iff key key, lookup-insert key key h m), refl)

pub hold_key-spends :
    (heap : Heap) (key : String) (n t : ℕ) (s : ReplayState) → Spent key n (hold_key heap key n t s)
unfolding hold_key
hold_key-spends heap key n t s = inl (insert-HeldAs key _ (room heap s).keys)

drop_key-has : (other : String) → Lasting (λ s. has other s.keys ≡ false)
unfolding drop_key
drop_key-has other h s g found none_yet = ground (arith, lookup-erase h.key other s.keys)

insert-Spent :
    (key : String) (n : ℕ) (other : String) (h : Held) (s : ReplayState)
    → has other s.keys ≡ false
    → Spent key n s
    → HeldAs key n (insert other h s.keys) ⊎ Below n s.stored_floor
insert-Spent key n other h s new (inr below) = inr below
insert-Spent key n other h s new (inl (k, found, e)) =
    inl (k, ground (arith, eq_iff other key, lookup-insert other key h s.keys), e)

pub hold_key-Spent :
    (heap : Heap) (other : String) (m t : ℕ) (key : String) (n : ℕ) (s : ReplayState)
    → Good s
    → has other s.keys ≡ false
    → Spent key n s
    → Spent key n (hold_key heap other m t s)
unfolding hold_key
hold_key-Spent heap other m t key n s g new spent =
    let both =
      (room-keeps heap (λ s. Spent key n s × (has other s.keys ≡ false))
        (λ h s g found p.
          (drop_key-Spent key n h s g found p.0, drop_key-has other h s g found p.1))
        s g (spent, new)).1 in
    insert-Spent key n other _ (room heap s) both.1 both.0

-- The last two checks refuse a spent envelope, and pass only a key that is not held.
pub recheck-Spent :
    (key : String) (n : ℕ) (s : ReplayState) → Good s → Spent key n s → recheck key n s ≢ none
unfolding recheck
recheck-Spent key n s g spent passes = spent_passes spent s.stored_floor refl
  where
    spent_passes : Spent key n s → (o : Option ℕ) → s.stored_floor ≡ o → ⊥
    spent_passes (inl (h, found, e)) o is = ground (arith)
    spent_passes (inr below) none is = subst (Below n) is below
    spent_passes (inr below) (some f) is =
        let under : n < f = subst (Below n) is below in
        let reach : f ≤ s.floor = subst (λ o. Reach o s.floor) is g.reach in ground arith

pub recheck-new :
    (key : String) (n : ℕ) (s : ReplayState) → recheck key n s ≡ none → has key s.keys ≡ false
unfolding recheck
recheck-new key n s passes = ground arith

pub check-recheck :
    (key : String) (n t : ℕ) (s : ReplayState) → check key n t s ≡ none → recheck key n s ≡ none
unfolding check
check-recheck key n t s passes = ground arith
