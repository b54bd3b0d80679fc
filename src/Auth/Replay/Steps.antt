-- ===== src/Auth/Replay/Steps.antt =====
-- An accepted envelope is never accepted again: `recheck` and `record` of
-- internal/mqttauth/replay.go over any later course of the receiver.
use ori_gateway.Base.{
  ℕ, String, ◌≡◌, inl, inr, Bool, true, false, Option, none, some, arith, ltb, if◌then◌else◌,
  Bool-cases, Option-cases, nat_eq, string_eq,
}
use ori_gateway.Auth.Replay.{
  ReplayState, Refusal, recheck, check, redate, restart, rotate, prune, hold_key,
  check_fresh_and_record, Decision, Verdict, recorded, passed, refused,
}
use ori_gateway.Auth.Replay.KeyHeap.{Heap}
use ori_gateway.Auth.Replay.Invariant.{
  Reach, Good, Spent, redate-HeldAs, redate-Distinct, redate-Kept,
}
use ori_gateway.Auth.Replay.Once.{
  prune-keeps, drop_key-Spent, hold_key-Good, hold_key-Spent, hold_key-spends, recheck-Spent,
  recheck-new, check-recheck,
}

-- What the receiver goes through: verifications, restarts of one that stores its state, and
-- rotations that keep the previous secret.
pub data Step (heap : Heap) : ReplayState → ReplayState → Type 0 where
  verified :
      (key : String) (signed_at t : ℕ) (decide : Option Decision) (s : ReplayState)
      → Step heap s ((check_fresh_and_record heap key signed_at t decide s).0)
  restarted : (t skew : ℕ) (s : ReplayState) → s.stores ≡ true → Step heap s (restart t skew s)
  rotated : (t : ℕ) (s : ReplayState) → Step heap s (rotate true t s)

pub data Later (heap : Heap) : ReplayState → ReplayState → Type 0 where
  now : (s : ReplayState) → Later heap s s
  next : (s r q : ReplayState) → Step heap s r → Later heap r q → Later heap s q

-- The three ends of a verification, over the pruned state.
pub data Ends (heap : Heap) (key : String) (n t : ℕ) (s : ReplayState)
    : ReplayState × Verdict → Type 0 where
  stopped : (e : Refusal) → Ends heap key n t s (s, refused e)
  undecided : (failed : Bool) → Ends heap key n t s (s, passed failed)
  kept :
      (failed : Bool)
      → recheck key n s ≡ none
      → Ends heap key n t s (hold_key heap key n t s, recorded failed)

pub check_fresh_and_record-Ends :
    (heap : Heap) (key : String) (n t : ℕ) (decide : Option Decision) (s : ReplayState)
    → Ends heap key n t (prune heap t s) (check_fresh_and_record heap key n t decide s)
unfolding check_fresh_and_record
check_fresh_and_record-Ends heap key n t decide s =
    elim (Option-cases (check key n t (prune heap t s))) [
      | inr (e, refuses) ↦ rw (refuses, check_fresh_and_record) (stopped e)
      | inl passes ↦
          rw (passes, check_fresh_and_record)
            (decided decide (check-recheck key n t (prune heap t s) passes))
    ]
  where
    decided :
        (d : Option Decision)
        → recheck key n (prune heap t s) ≡ none
        → Ends heap key n t (prune heap t s) (elim d [
          | none ↦ (hold_key heap key n t (prune heap t s), recorded false)
          | some d ↦ elim (d.applied) [
            | false ↦ (prune heap t s, passed d.failed)
            | true ↦ elim (recheck key n (prune heap t s)) [
              | some e ↦ (prune heap t s, refused e)
              | none ↦ (hold_key heap key n t (prune heap t s), recorded d.failed)
            ]
          ]
        ])
    decided none new = kept false new
    decided (some d) new = elim (Bool-cases (d.applied)) [
      | inl applied ↦ rw (applied, new) (kept d.failed new)
      | inr left ↦ rw left (undecided d.failed)
    ]

Ends-Good :
    (heap : Heap) (key : String) (n t : ℕ) (s : ReplayState) (out : ReplayState × Verdict)
    → Good s
    → Ends heap key n t s out
    → Good out.0
Ends-Good heap key n t s _ g (stopped e) = g
Ends-Good heap key n t s _ g (undecided failed) = g
Ends-Good heap key n t s _ g (kept failed new) = hold_key-Good heap key n t s g

Ends-Spent :
    (heap : Heap) (key : String) (n t : ℕ) (s : ReplayState) (out : ReplayState × Verdict)
    (k : String) (m : ℕ)
    → Good s
    → Spent k m s
    → Ends heap key n t s out
    → Spent k m out.0
Ends-Spent heap key n t s _ k m g spent (stopped e) = spent
Ends-Spent heap key n t s _ k m g spent (undecided failed) = spent
Ends-Spent heap key n t s _ k m g spent (kept failed new) =
    hold_key-Spent heap key n t k m s g (recheck-new key n s new) spent

Ends-spends :
    (heap : Heap) (key : String) (n t : ℕ) (s : ReplayState) (out : ReplayState × Verdict)
    (failed : Bool)
    → out.1 ≡ recorded failed
    → Ends heap key n t s out
    → Spent key n out.0
Ends-spends heap key n t s _ failed e (stopped r) = cc
Ends-spends heap key n t s _ failed e (undecided f) = cc
Ends-spends heap key n t s _ failed e (kept f new) = hold_key-spends heap key n t s

restart-Good : (t skew : ℕ) (s : ReplayState) → s.stores ≡ true → Good s → Good (restart t skew s)
unfolding restart redate
restart-Good t skew s stores g = rw stores (record {
  once = redate-Distinct skew s.ttl s.keys g.once;
  retained = redate-Kept skew s.skew s.ttl s.keys g.retained;
  reach = above s.stored_floor;
})
  where
    above : (o : Option ℕ) → Reach o (elim o [ none ↦ t | some f ↦ if ltb t f then f else t ])
    above none = tt
    above (some f) = ground arith

restart-Spent :
    (t skew : ℕ) (s : ReplayState) (key : String) (n : ℕ)
    → s.stores ≡ true
    → Spent key n s
    → Spent key n (restart t skew s)
unfolding restart redate
restart-Spent t skew s key n stores (inl held) =
    rw stores (inl (redate-HeldAs skew s.ttl key n s.keys held))
restart-Spent t skew s key n stores (inr below) = rw stores (inr below)

pub Step-keeps :
    (heap : Heap) (s r : ReplayState) (key : String) (n : ℕ)
    → Step heap s r
    → Good s
    → Spent key n s
    → Good r × Spent key n r
unfolding rotate
Step-keeps heap _ _ key n (verified k m t decide s) g spent =
    let (g₁, spent₁) = prune-keeps heap (Spent key n) (drop_key-Spent key n) t s g spent in
    let ends = check_fresh_and_record-Ends heap k m t decide s in
    (
      Ends-Good heap k m t (prune heap t s) _ g₁ ends,
      Ends-Spent heap k m t (prune heap t s) _ key n g₁ spent₁ ends,
    )
Step-keeps heap _ _ key n (restarted t skew s stores) g spent =
    (restart-Good t skew s stores g, restart-Spent t skew s key n stores spent)
Step-keeps heap _ _ key n (rotated t s) g spent = (g, spent)

pub Later-keeps :
    (heap : Heap) (s r : ReplayState) (key : String) (n : ℕ)
    → Later heap s r
    → Good s
    → Spent key n s
    → Good r × Spent key n r
Later-keeps heap _ _ key n (now s) g spent = (g, spent)
Later-keeps heap _ _ key n (next s r q step later) g spent =
    let (g₁, spent₁) = Step-keeps heap s r key n step g spent in
    Later-keeps heap r q key n later g₁ spent₁

-- A spent envelope is refused at any time, whatever `decide` would have answered.
pub Spent-refused :
    (heap : Heap) (key : String) (n t : ℕ) (decide : Option Decision) (s : ReplayState)
    → Good s
    → Spent key n s
    → (e : Refusal) × ((check_fresh_and_record heap key n t decide s).1 ≡ refused e)
unfolding check_fresh_and_record
Spent-refused heap key n t decide s g spent =
    let (g₁, spent₁) = prune-keeps heap (Spent key n) (drop_key-Spent key n) t s g spent in
    elim (Option-cases (check key n t (prune heap t s))) [
      | inr (e, refuses) ↦ (e, rw (refuses, check_fresh_and_record))
      | inl passes ↦
          elim (recheck-Spent key n (prune heap t s) g₁ spent₁
            (check-recheck key n t (prune heap t s) passes)) [ ]
    ]

-- Once a verification has recorded an envelope's key, every later verification of that envelope is
-- refused, at any time, whatever its decision: through any verifications of other envelopes,
-- prunings and evictions among them, any restarts of a receiver that stores its state, with their
-- clocks and skews, and any rotations that keep the previous secret. The state before need only
-- hold each key once, under its name and past its staleness, with the floor at or above the stored one.
pub recorded-never_again :
    (heap : Heap) (s : ReplayState) (key : String) (n t : ℕ) (decide : Option Decision)
    (failed : Bool)
    → Good s
    → (check_fresh_and_record heap key n t decide s).1 ≡ recorded failed
    → (r : ReplayState) → Later heap ((check_fresh_and_record heap key n t decide s).0) r
    → (t' : ℕ) (decide' : Option Decision)
    → (e : Refusal) × ((check_fresh_and_record heap key n t' decide' r).1 ≡ refused e)
recorded-never_again heap s key n t decide failed g accepts r later t' decide' =
    let g₁ = (prune-keeps heap (λ _. Unit) (λ h s g found p. tt) t s g tt).0 in
    let ends = check_fresh_and_record-Ends heap key n t decide s in
    let (g₂, spent) =
      Later-keeps heap _ r key n later (Ends-Good heap key n t (prune heap t s) _ g₁ ends)
        (Ends-spends heap key n t (prune heap t s) _ failed accepts ends) in
    Spent-refused heap key n t' decide' r g₂ spent
