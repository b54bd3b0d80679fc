-- ===== src/Auth/Replay/Bound.antt =====
-- `gateway.auth.replay_max_keys` bounds the held keys (internal/mqttauth/replay.go).
use ori_gateway.Base.{
  ℕ, ◌≤◌, ◌<◌, String, ◌≡◌, refl, inl, inr, ◌&&◌, Option, none, [], ◌∷◌, arith, ltb, leb,
  Bool-cases, Option-cases, length, nat_eq, string_eq,
}
use ori_gateway.Base.Maps.{Map, insert, erase}
use ori_gateway.Auth.Replay.{
  ReplayState, drop_key, evict, prune, hold_key, check_fresh_and_record, Decision, Verdict,
}
use ori_gateway.Auth.Replay.KeyHeap.{Held, Heap, values}
use ori_gateway.Auth.Replay.Invariant.{Good, least-held}
use ori_gateway.Auth.Replay.Once.{Lasting, prune-keeps, room, room-keeps}
use ori_gateway.Auth.Replay.Steps.{Ends, stopped, undecided, kept, check_fresh_and_record-Ends}
use ori_gateway.Auth.Replay.Fresh.{drop_key-length}

-- A bound of 0 is none.
abbrev pub Within : ℕ → ReplayState → Type 0
Within bound s = (s.max_keys ≡ bound) × (0 < bound → length s.keys ≤ bound)

drop_key-Within : (bound : ℕ) → Lasting (Within bound)
unfolding drop_key
drop_key-Within bound h s g found w =
    (w.0, λ some_bound. ground (arith, drop_key-length h s g found, w.1))

-- A heap without a first element is empty.
none-empty :
    (heap : Heap) (f : Held → ℕ) (m : Map String Held)
    → heap.least f (values m) ≡ none
    → length m ≡ 0
none-empty heap f [] e = refl
none-empty heap f ((j, v) ∷ m) e = let (x, first) = heap.least_some f v (values m) in ground arith

evict-Under :
    (heap : Heap) (bound : ℕ) (s : ReplayState)
    → Good s
    → Within bound s
    → 0 < bound
    → length (evict heap s).keys < bound
unfolding evict
evict-Under heap bound s g w p =
    elim (Option-cases (heap.least (λ h. h.signed_at) (values s.keys))) [
      | inl e ↦ rw (e, evict) (ground (arith, none-empty heap (λ h. h.signed_at) s.keys e))
      | inr (h, e) ↦
          rw (e, evict)
            (ground
              (arith, w.1, drop_key-length h s g (least-held heap (λ x. x.signed_at) s h g e)))
    ]

room-Under :
    (heap : Heap) (bound : ℕ) (s : ReplayState)
    → Good s
    → Within bound s
    → 0 < bound
    → length (room heap s).keys < bound
room-Under heap bound s g w p =
    elim (Bool-cases (ltb 0 s.max_keys && leb s.max_keys (length s.keys))) [
      | inr open_room ↦ rw open_room (ground (arith, w.0))
      | inl full ↦ rw full (evict-Under heap bound s g w p)
    ]

erase-shorter : (k : String) (m : Map String Held) → length (erase k m) ≤ length m
unfolding erase
erase-shorter k [] = omega arith
erase-shorter k ((j, v) ∷ m) = ground (arith, erase-shorter k m)

hold_key-Within :
    (heap : Heap) (key : String) (n t bound : ℕ) (s : ReplayState)
    → Good s
    → Within bound s
    → Within bound (hold_key heap key n t s)
unfolding hold_key insert
hold_key-Within heap key n t bound s g w = (
  (room-keeps heap (Within bound) (drop_key-Within bound) s g w).1.0,
  λ p. omega (arith, room-Under heap bound s g w p, erase-shorter key (room heap s).keys),
)

Ends-Within :
    (heap : Heap) (key : String) (n t bound : ℕ) (s : ReplayState) (out : ReplayState × Verdict)
    → Good s
    → Within bound s
    → Ends heap key n t s out
    → Within bound out.0
Ends-Within heap key n t bound _ _ g w (stopped e) = w
Ends-Within heap key n t bound _ _ g w (undecided failed) = w
Ends-Within heap key n t bound s _ g w (kept failed new) = hold_key-Within heap key n t bound s g w

-- A verification keeps the number of held keys within the configured bound, where one is set,
-- whatever its verdict and whichever least key the heaps have first, from a well-formed state
-- within the bound.
pub check_fresh_and_record-Within :
    (heap : Heap) (key : String) (n t : ℕ) (decide : Option Decision) (bound : ℕ) (s : ReplayState)
    → Good s
    → Within bound s
    → Within bound (check_fresh_and_record heap key n t decide s).0
check_fresh_and_record-Within heap key n t decide bound s g w =
    let (g₁, w₁) = prune-keeps heap (Within bound) (drop_key-Within bound) t s g w in
    Ends-Within heap key n t bound (prune heap t s) _ g₁ w₁
      (check_fresh_and_record-Ends heap key n t decide s)
