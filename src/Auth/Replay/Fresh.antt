-- ===== src/Auth/Replay/Fresh.antt =====
-- The pruning of internal/mqttauth/replay.go: it drops every key that is due, and changes no
-- answer.
use ori_gateway.Base.{
  ℕ, zero, suc, ◌+◌, ◌≤◌, ◌<◌, String, ◌≡◌, refl, ◌⊎◌, inl, inr, none, some, [], ◌∷◌, arith, eq_iff,
  leb, leb→le, Bool-cases, Option-cases, length, All, nat_eq, string_eq,
}
use ori_gateway.Base.Maps.{Map, lookup, lookup-erase, length-erase}
use ori_gateway.Auth.Replay.{ReplayState, recheck, check, drop_key, prune_rounds, prune}
use ori_gateway.Auth.Replay.KeyHeap.{Held, Heap, values}
use ori_gateway.Auth.Replay.Invariant.{Good, drop_key-Good, least-held}

-- Every held key is retained past `t`.
abbrev pub NoneDue : ℕ → Map String Held → Type 0
NoneDue t m = (k : String) (h : Held) → lookup k m ≡ some h → t < h.drop_time

values-NoneDue :
    (t d : ℕ) (m : Map String Held) → t < d → All (λ x. d ≤ x.drop_time) (values m) → NoneDue t m
unfolding lookup
values-NoneDue t d [] late each k h found = ground arith
values-NoneDue t d ((j, v) ∷ m) late each k h found =
    ground (arith, values-NoneDue t d m late each.1 k h)

-- How `prune` moves a state on: a key is held after it when it was held and is not due, and the
-- floor only rises to where stale envelopes end.
pub record Pruned (t : ℕ) (s r : ReplayState) : Type 0 where
  pub same_skew : r.skew ≡ s.skew
  pub held_before : (k : String) (h : Held) → lookup k r.keys ≡ some h → lookup k s.keys ≡ some h
  pub held_after :
      (k : String) (h : Held)
      → lookup k s.keys ≡ some h
      → t < h.drop_time
      → lookup k r.keys ≡ some h
  pub floor_low : (r.floor ≡ s.floor) ⊎ ((s.floor ≤ r.floor) × (r.floor + s.skew ≤ t))

unchanged : (t : ℕ) (s : ReplayState) → Pruned t s s
unchanged t s = record {
  same_skew = refl;
  held_before = λ k h e. e;
  held_after = λ k h e late. e;
  floor_low = inl refl;
}

-- A due key that is dropped only leaves sooner.
dropped :
    (t : ℕ) (h : Held) (s r : ReplayState)
    → Good s
    → lookup h.key s.keys ≡ some h
    → h.drop_time ≤ t
    → Pruned t (drop_key h s) r
    → Pruned t s r
unfolding drop_key
dropped t h s r g found due p =
    let late : h.signed_at + s.skew < h.drop_time = (g.retained h.key h found).1 in
    record {
      same_skew = p.same_skew;
      held_before = λ k v was. ground (arith, p.held_before k v was, lookup-erase h.key k s.keys);
      held_after = λ k v was later.
          p.held_after k v (ground (arith, eq_iff h.key k, lookup-erase h.key k s.keys)) later;
      floor_low = raised late p.floor_low;
    }
  where
    raised :
        (h.signed_at + s.skew < h.drop_time)
        → (r.floor ≡ (drop_key h s).floor)
          ⊎ (((drop_key h s).floor ≤ r.floor) × (r.floor + s.skew ≤ t))
        → (r.floor ≡ s.floor) ⊎ ((s.floor ≤ r.floor) × (r.floor + s.skew ≤ t))
    raised late e = ground arith

none-empty :
    (heap : Heap) (f : Held → ℕ) (t : ℕ) (m : Map String Held)
    → heap.least f (values m) ≡ none
    → NoneDue t m
unfolding lookup
none-empty heap f t [] e k h found = ground arith
none-empty heap f t ((j, v) ∷ m) e k h found =
    let (x, first) = heap.least_some f v (values m) in ground arith

pub drop_key-length :
    (h : Held) (s : ReplayState)
    → Good s
    → lookup h.key s.keys ≡ some h
    → length s.keys ≡ suc (length (drop_key h s).keys)
unfolding drop_key
drop_key-length h s g found = length-erase h.key h s.keys g.once found

empty-NoneDue : (t : ℕ) (m : Map String Held) → length m ≤ 0 → NoneDue t m
unfolding lookup
empty-NoneDue t [] e k h found = ground arith
empty-NoneDue t (x ∷ m) e k h found = ground arith

prune_rounds-Pruned :
    (heap : Heap) (fuel t : ℕ) (s : ReplayState)
    → Good s
    → length s.keys ≤ fuel
    → Pruned t s (prune_rounds heap fuel t s) × NoneDue t (prune_rounds heap fuel t s).keys
unfolding prune_rounds
prune_rounds-Pruned heap zero t s g enough = (unchanged t s, empty-NoneDue t s.keys enough)
prune_rounds-Pruned heap (suc fuel) t s g enough =
    elim (Option-cases (heap.least (λ h. h.drop_time) (values s.keys))) [
      | inl e ↦ rw (e, prune_rounds) (unchanged t s, none-empty heap (λ h. h.drop_time) t s.keys e)
      | inr (h, e) ↦ elim (Bool-cases (leb (h.drop_time) t)) [
        | inl due ↦
            (let found = least-held heap (λ x. x.drop_time) s h g e in
              let (p, none_due) =
                prune_rounds-Pruned heap fuel t (drop_key h s) (drop_key-Good h s g)
                  (omega (arith, drop_key-length h s g found)) in
              rw (e, due, prune_rounds)
                (dropped t h s _ g found (leb→le h.drop_time t due) p, none_due))
        | inr late ↦
            rw (e, late, prune_rounds)
              (
                unchanged t s,
                values-NoneDue t h.drop_time s.keys (ground arith)
                    (heap.least_le (λ x. x.drop_time) (values s.keys) h e),
              )
      ]
    ]

-- `prune` at `t` ends with no key that is due at `t`, whichever least key the heap has first: a key
-- is held after it exactly when it was held and its drop time is past `t`. The skew stays, and the
-- floor stays or rises to no more than `t - skew`, below which envelopes are stale.
pub prune-Pruned :
    (heap : Heap) (t : ℕ) (s : ReplayState)
    → Good s
    → Pruned t s (prune heap t s) × NoneDue t (prune heap t s).keys
unfolding prune
prune-Pruned heap t s g = prune_rounds-Pruned heap (length s.keys) t s g (omega arith)

-- The key holds the signing time, as `replayKey` writes it there.
abbrev pub Binds : String → ℕ → Map String Held → Type 0
Binds key n m = (h : Held) → lookup key m ≡ some h → h.signed_at ≡ n

-- Pruning changes no answer: the checks of an envelope give after it what they give before it,
-- provided a key held under the envelope's name holds the envelope's signing time.
pub check-prune :
    (heap : Heap) (key : String) (n t : ℕ) (s : ReplayState)
    → Good s
    → Binds key n s.keys
    → check key n t (prune heap t s) ≡ check key n t s
unfolding check recheck
check-prune heap key n t s g binds =
    let (p, none_due) = prune-Pruned heap t s g in
    compare p (Option-cases (lookup key s.keys)) (Option-cases (lookup key (prune heap t s).keys))
  where
    compare :
        Pruned t s (prune heap t s)
        → (lookup key s.keys ≡ none) ⊎ ((h : Held) × (lookup key s.keys ≡ some h))
        → (lookup key (prune heap t s).keys ≡ none)
          ⊎ ((h : Held) × (lookup key (prune heap t s).keys ≡ some h))
        → check key n t (prune heap t s) ≡ check key n t s
    compare p (inl was) (inl is) = ground (arith, p.same_skew, p.floor_low)
    compare p (inl was) (inr (h, is)) = let before = p.held_before key h is in ground arith
    compare p (inr (h, was)) (inl is) =
        let late = (g.retained key h was).1 in
        let bound = binds h was in
        let after = p.held_after key h was in ground (arith, p.same_skew, p.floor_low)
    compare p (inr (h, was)) (inr (k, is)) = ground (arith, p.same_skew, p.floor_low)
