-- ===== src/Auth/Replay.antt =====
-- Freshness and replay (internal/mqttauth/replay.go, and `checkFreshAndRecord` of mqttauth.go).
-- Times are milliseconds and not negative; a bound `t - skew` is compared with the skew added to
-- the other side, so no subtraction is cut off.
pub mod KeyHeap
pub mod Invariant
pub mod Once
pub mod Fresh
pub mod Steps
pub mod Bound
use ori_gateway.Base.{
  ℕ, zero, suc, ◌+◌, ◌-◌, ◌*◌, ◌/◌, ◌%◌, ◌^◌, ◌≤◌, ◌<◌, min, max, String, ◌≡◌, refl, sym, ap, subst,
  ◌∙◌, ◌≢◌, ◌↔◌, ◌⊎◌, inl, inr, Bool, true, false, not, ◌&&◌, ◌||◌, Option, none, some, List, [],
  ◌∷◌, ◌++◌, map, arith, eq_iff, ltb, leb, if◌then◌else◌, ltb→lt, lt→ltb, leb→le, Bool-cases,
  Option-cases, is_some, length, length-append, drop, any, all, All, Eq, ◌==◌, nat_eq, string_eq,
}
use ori_gateway.Base.Maps.{Map, lookup, insert, erase, has}
use KeyHeap.{Held, Heap, values}

pub data Refusal : Type 0 where
  stale_timestamp future_timestamp before_replay_floor replay_detected : Refusal

pub record ReplayState : Type 0 where
  pub skew : ℕ
  pub ttl : ℕ
  pub stores : Bool
  pub floor : ℕ
  pub stored_floor : Option ℕ
  pub keys : Map String Held
  pub max_keys : ℕ

unfoldable pub new_replay_state : ℕ → ℕ → Bool → ℕ → ℕ → ReplayState
new_replay_state skew ttl stores max_keys start_clock = record {
  skew = skew;
  ttl = ttl;
  stores = stores;
  floor = start_clock;
  stored_floor = none;
  keys = [];
  max_keys = max_keys;
}

unfoldable pub recheck : String → ℕ → ReplayState → Option Refusal
unfolding lookup
recheck key signed_at s =
    if ltb signed_at s.floor
    then some before_replay_floor
    else if has key s.keys
    then some replay_detected
    else none

unfoldable pub check : String → ℕ → ℕ → ReplayState → Option Refusal
check key signed_at t s =
    if ltb (signed_at + s.skew) t
    then some stale_timestamp
    else if ltb (t + s.skew) signed_at
    then some future_timestamp
    else recheck key signed_at s

-- `dropAt`: the first time a held key's retention has ended.
unfoldable pub drop_at : ℕ → ℕ → ℕ → ℕ → ℕ
drop_at skew ttl signed_at received_at =
    if ltb 0 ttl then max (signed_at + skew + 1) (received_at + ttl) else signed_at + skew + 1

abbrev pub raise_stored : ℕ → Option ℕ → Option ℕ
raise_stored raised none = some raised
raise_stored raised (some old) = if ltb old raised then some raised else some old

-- `drop`: the key leaves, and both floors rise past its signing time in the same step.
unfoldable pub drop_key : Held → ReplayState → ReplayState
unfolding erase
drop_key held s = record s {
  keys = erase (held.key) s.keys;
  floor = if ltb s.floor (held.signed_at + 1) then held.signed_at + 1 else s.floor;
  stored_floor = raise_stored (held.signed_at + 1) s.stored_floor;
}

-- `restart` recomputes every drop time under the new skew.
unfoldable pub redate : ℕ → ℕ → Map String Held → Map String Held
unfolding drop_at
redate skew ttl [] = []
redate skew ttl ((k, h) ∷ m) =
    (k, record h { drop_time = drop_at skew ttl (h.signed_at) (h.received_at) }) ∷ redate skew ttl m

unfoldable pub restart : ℕ → ℕ → ReplayState → ReplayState
unfolding redate
restart t skew s = record s {
  skew = skew;
  keys = if s.stores then redate skew s.ttl s.keys else [];
  stored_floor = kept;
  floor = elim kept [ none ↦ t | some f ↦ if ltb t f then f else t ];
}
  where
    kept : Option ℕ
    kept = if s.stores then s.stored_floor else none

unfoldable pub rotate : Bool → ℕ → ReplayState → ReplayState
rotate keeps_previous t s =
    if keeps_previous then s else record s { keys = []; stored_floor = none; floor = t }

-- What `decide` answers: whether it applied the payload, and whether it failed.
pub record Decision : Type 0 where
  pub applied : Bool
  pub failed : Bool

-- The answer, and whether the key was recorded with it. The flag is the error of `decide`.
pub data Verdict : Type 0 where
  recorded passed : Bool → Verdict
  refused : Refusal → Verdict

module _ (heap : Heap) where
  unfoldable pub evict : ReplayState → ReplayState
  evict s = elim (heap.least (λ h. h.signed_at) (values s.keys)) [
    | none ↦ s
    | some held ↦ drop_key held s
  ]

  -- The loop of `prune`; each round drops a key, so as many rounds as keys are enough.
  unfoldable pub prune_rounds : ℕ → ℕ → ReplayState → ReplayState
  prune_rounds zero t s = s
  prune_rounds (suc fuel) t s = elim (heap.least (λ h. h.drop_time) (values s.keys)) [
    | none ↦ s
    | some held ↦ elim (leb (held.drop_time) t) [
      | false ↦ s
      | true ↦ prune_rounds fuel t (drop_key held s)
    ]
  ]

  unfoldable pub prune : ℕ → ReplayState → ReplayState
  prune t s = prune_rounds (length s.keys) t s

  -- `record`.
  unfoldable pub hold_key : String → ℕ → ℕ → ReplayState → ReplayState
  hold_key key signed_at received_at s =
      let s₁ : ReplayState =
        if ltb 0 s.max_keys && leb s.max_keys (length s.keys) then evict s else s in
      record s₁ {
        keys =
            insert key
              (record {
                key = key;
                signed_at = signed_at;
                received_at = received_at;
                drop_time = drop_at s₁.skew s₁.ttl signed_at received_at;
              })
              s₁.keys;
      }

  -- Without `decide` a checked payload is recorded; with it, only one that `decide` applied, after
  -- the last two checks once more.
  unfoldable pub check_fresh_and_record :
      String → ℕ → ℕ → Option Decision → ReplayState → ReplayState × Verdict
  check_fresh_and_record key signed_at t decide s =
      let s₁ : ReplayState = prune t s in
      elim (check key signed_at t s₁) [
        | some e ↦ (s₁, refused e)
        | none ↦ elim decide [
          | none ↦ (hold_key key signed_at t s₁, recorded false)
          | some d ↦ elim (d.applied) [
            | false ↦ (s₁, passed d.failed)
            | true ↦ elim (recheck key signed_at s₁) [
              | some e ↦ (s₁, refused e)
              | none ↦ (hold_key key signed_at t s₁, recorded d.failed)
            ]
          ]
        ]
      ]

-- The warning for a refusal below a floor that is ahead of the stale bound, with that floor.
unfoldable pub floor_ahead_warning : Refusal → ℕ → ReplayState → Option ℕ
floor_ahead_warning before_replay_floor t s =
    if leb (s.floor + s.skew) t then none else some s.floor
floor_ahead_warning _ t s = none
