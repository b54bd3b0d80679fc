-- ===== src/Courier/Queue/Model/Counters.antt =====
-- Counters kept in a map that holds a key exactly while its count is positive (queue.go,
-- `indexLocked` and `unindexLocked`).
use ori_gateway.Base.{
  ℕ, ◌+◌, ◌-◌, ◌<◌, ◌≡◌, Option, none, some, arith, if◌then◌else◌, Eq, ◌==◌, nat_eq, string_eq,
}
use ori_gateway.Base.Maps.{Map, lookup, insert, lookup-insert, lookup-erase}
use ori_gateway.Courier.Queue.State.{count, take_count, take_bytes}

abbrev pub stored : ℕ → ℕ → Option ℕ
stored n v = if n == 0 then none else some v

module _ {ℓ} {K : Type ℓ} ⦃e : Eq K⦄ where
  -- `m` holds the value `v j` for each key `j` whose count `n j` is positive, and no other key.
  abbrev pub Tallied : Map K ℕ → (K → ℕ) → (K → ℕ) → Type ℓ
  Tallied m n v = (j : K) → lookup j m ≡ stored (n j) (v j)

  pub insert-Tallied :
      (m : Map K ℕ) (n v n' v' : K → ℕ) (k : K) (a : ℕ)
      → Tallied m n v
      → (n k ≡ 0 → v k ≡ 0)
      → ((j : K) → n' j ≡ (if k == j then n j + 1 else n j))
      → ((j : K) → v' j ≡ (if k == j then v j + a else v j))
      → Tallied (insert k (count k m + a) m) n' v'
  insert-Tallied m n v n' v' k a t z up up' j =
      ground (arith, lookup-insert k j (count k m + a) m, t j, t k, up j, up' j, e.beq_iff k j)

  pub take_count-Tallied :
      (m : Map K ℕ) (n n' : K → ℕ) (k : K)
      → Tallied m n n
      → 0 < n k
      → ((j : K) → n' j ≡ (if k == j then n j - 1 else n j))
      → Tallied (take_count k m) n' n'
  take_count-Tallied m n n' k t p down j = ground (
    arith,
    lookup-insert k j (count k m - 1) m,
    lookup-erase k j m,
    t j,
    t k,
    down j,
    e.beq_iff k j,
  )

  pub take_bytes-Tallied :
      (m b : Map K ℕ) (n v n' v' : K → ℕ) (k : K) (a : ℕ)
      → Tallied m n n
      → Tallied b n v
      → 0 < n k
      → ((j : K) → n' j ≡ (if k == j then n j - 1 else n j))
      → ((j : K) → v' j ≡ (if k == j then v j - a else v j))
      → Tallied (take_bytes k a m b) n' v'
  take_bytes-Tallied m b n v n' v' k a t s p down down' j = ground (
    arith,
    lookup-insert k j (count k b - a) b,
    lookup-erase k j b,
    t k,
    s j,
    s k,
    down j,
    down' j,
    e.beq_iff k j,
  )
