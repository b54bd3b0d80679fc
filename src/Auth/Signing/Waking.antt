-- ===== src/Auth/Signing/Waking.antt =====
-- What each timer and each ended write of the signing clock does to the values that wait
-- (internal/mqttauth/signingclock.go).
use ori_gateway.Base.{
  ℕ, ◌≤◌, ◌<◌, max, ◌≡◌, refl, sym, subst, ◌≢◌, ◌⊎◌, inl, inr, Bool, true, false, Option, none,
  some, arith, nat_beq, if◌then◌else◌, Bool-cases, is_some, nat_eq, string_eq,
}
use ori_gateway.Auth.Signing.{
  MarkWrite, Clock, note, broadcast, start_write, schedule_retry, open_episode, end_episode,
  retry_if_open, write_ended, write_overdue, value_overdue, retry_write,
}

-- What a value that waits is woken by: the coverage has risen, an episode has opened, the clock has
-- closed, or the outstanding write has ended.
abbrev pub Stirred : Clock → Clock → Type 0
Stirred c d =
    (c.covered ≢ d.covered)
    ⊎ (((c.episode ≡ false) × (d.episode ≡ true))
        ⊎ (((c.closed ≡ false) × (d.closed ≡ true))
            ⊎ ((is_some c.write ≡ true) × (is_some d.write ≡ false))))

abbrev pub Woken : Clock → Clock → Type 0
Woken c d = (c.changed ≤ d.changed) × (Stirred c d → c.changed < d.changed)

same-Woken : (c : Clock) → Woken c c
same-Woken c = (omega arith, λ moved. ground arith)

open_episode-Woken : (m : ℕ) (c : Clock) → Woken c (open_episode m c)
unfolding open_episode broadcast schedule_retry note
open_episode-Woken m c = (ground arith, λ moved. ground arith)

end_episode-changed : (c : Clock) → (end_episode c).changed ≡ c.changed
unfolding end_episode note
end_episode-changed c = ground arith

retry_if_open-changed : (m : ℕ) (c : Clock) → (retry_if_open m c).changed ≡ c.changed
unfolding retry_if_open schedule_retry
retry_if_open-changed m c = ground arith

abbrev after_write : Bool → ℕ → MarkWrite → Clock → Clock
after_write true m w c = end_episode (record c { write = none; covered = max c.covered w.mark })
after_write false m w c = open_episode m (record c { write = none })

write_ended-cases :
    (m : ℕ) (ok : Bool) (c : Clock)
    → (write_ended m ok c ≡ c)
      ⊎ ((w : MarkWrite) × (write_ended m ok c
            ≡ broadcast (retry_if_open m (after_write ok m w c))))
unfolding write_ended
write_ended-cases m ok c = by_write c.write ok
  where
    by_write :
        (o : Option MarkWrite) (ok : Bool)
        → (elim o [
          | none ↦ c
          | some w ↦ broadcast (
              retry_if_open m (
                if ok
                then end_episode (record c { write = none; covered = max c.covered w.mark })
                else open_episode m (record c { write = none })))
        ]
            ≡ c)
          ⊎ ((w : MarkWrite) × (elim o [
            | none ↦ c
            | some w ↦ broadcast (
                retry_if_open m (
                  if ok
                  then end_episode (record c { write = none; covered = max c.covered w.mark })
                  else open_episode m (record c { write = none })))
          ]
                ≡ broadcast (retry_if_open m (after_write ok m w c))))
    by_write none ok = inl refl
    by_write (some w) true = inr (w, refl)
    by_write (some w) false = inr (w, refl)

after_write-changed :
    (ok : Bool) (m : ℕ) (w : MarkWrite) (c : Clock) → c.changed ≤ (after_write ok m w c).changed
after_write-changed true m w c =
    omega (arith, end_episode-changed (record c { write = none; covered = max c.covered w.mark }))
after_write-changed false m w c = (open_episode-Woken m (record c { write = none })).0

broadcast-Woken :
    (m : ℕ) (ok : Bool) (w : MarkWrite) (c : Clock)
    → Woken c (broadcast (retry_if_open m (after_write ok m w c)))
unfolding broadcast
broadcast-Woken m ok w c = (
  omega (arith, after_write-changed ok m w c, retry_if_open-changed m (after_write ok m w c)),
  λ _. omega (arith, after_write-changed ok m w c, retry_if_open-changed m (after_write ok m w c)),
)

pub write_ended-Woken : (m : ℕ) (ok : Bool) (c : Clock) → Woken c (write_ended m ok c)
write_ended-Woken m ok c = elim (write_ended-cases m ok c) [
  | inl same ↦ subst (Woken c) (sym same) (same-Woken c)
  | inr (w, is) ↦ subst (Woken c) (sym is) (broadcast-Woken m ok w c)
]

write_overdue-cases :
    (m number : ℕ) (c : Clock)
    → (write_overdue m number c ≡ c) ⊎ (write_overdue m number c ≡ open_episode m c)
unfolding write_overdue
write_overdue-cases m number c = by_write c.write
  where
    by_write :
        (o : Option MarkWrite)
        → (elim o [ none ↦ c | some w ↦ if nat_beq w.number number then open_episode m c else c ]
            ≡ c)
          ⊎ (elim o [ none ↦ c | some w ↦ if nat_beq w.number number then open_episode m c else c ]
              ≡ open_episode m c)
    by_write none = inl refl
    by_write (some w) = elim (Bool-cases (nat_beq w.number number)) [
      | inl same ↦ inr (rw same refl)
      | inr other ↦ inl (rw other refl)
    ]

pub write_overdue-Woken : (m number : ℕ) (c : Clock) → Woken c (write_overdue m number c)
write_overdue-Woken m number c = elim (write_overdue-cases m number c) [
  | inl same ↦ subst (Woken c) (sym same) (same-Woken c)
  | inr is ↦ subst (Woken c) (sym is) (open_episode-Woken m c)
]

pub value_overdue-Woken :
    (m : ℕ) (answered : Bool) (c : Clock) → Woken c (value_overdue m answered c)
unfolding value_overdue
value_overdue-Woken m true c = same-Woken c
value_overdue-Woken m false c = open_episode-Woken m c

pub retry_write-Woken : (wall m : ℕ) (c : Clock) → Woken c (retry_write wall m c)
unfolding retry_write start_write
retry_write-Woken wall m c = (ground arith, λ moved. ground arith)
