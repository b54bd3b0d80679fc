-- ===== src/Auth/Signing/Restart.antt =====
-- A restart never repeats a signing time (internal/mqttauth/signingclock.go).
use ori_gateway.Base.{
  ℕ, ◌-◌, ◌≤◌, ◌<◌, max, ◌≡◌, refl, subst, true, false, Option, none, some, List, [], ◌∷◌, arith,
  leb, if-both, All, nat_eq, string_eq,
}
use ori_gateway.Auth.Signing.{
  signing_ceiling, Clock, Start, StartWrite, start_written, start_failed, start_outstanding,
  started, refused_start, new_durable_signing_clock, new_signing_clock, first_value, first_mark,
  found_mark, issued, next,
}
use ori_gateway.Auth.Signing.Steps.{System, Run}
use ori_gateway.Auth.Signing.Soundness.{Sound}
use ori_gateway.Auth.Signing.Coverage.{Backed, Run-Backed}
use ori_gateway.Auth.Signing.Order.{Gives, next-Gives, Increasing, Ordered, Run-Ordered}

abbrev built : ℕ → ℕ → Option ℕ → Clock
unfolding new_signing_clock
built wall m found = record new_signing_clock {
  durable = true;
  last = found_mark found;
  covered = max (found_mark found) (first_mark wall found);
  written = first_mark wall found;
  write_started = m;
}

Starts : ℕ → ℕ → Option ℕ → Clock → Type 0
Starts wall m found c =
    Sound c × ((c.last ≡ found_mark found) × (c.written ≡ first_mark wall found))

built-Starts :
    (wall m : ℕ) (found : Option ℕ)
    → first_value wall found < signing_ceiling
    → Starts wall m found (built wall m found)
unfolding first_value first_mark new_signing_clock Starts
built-Starts wall m none below = (
  record {
    is_durable = refl;
    covers = λ _. ground arith;
    covered_written = ground arith;
    outstanding = tt;
    last_below = ground arith;
    written_below = ground arith;
  },
  (refl, refl),
)
built-Starts wall m (some f) below = (
  record {
    is_durable = refl;
    covers = λ _. ground arith;
    covered_written = ground arith;
    outstanding = tt;
    last_below = ground arith;
    written_below = ground arith;
  },
  (refl, refl),
)

Built : ℕ → ℕ → Option ℕ → Start → Type 0
Built wall m found (started c) = Starts wall m found c
Built wall m found (refused_start e) = Unit

outcome-Built :
    (wall m : ℕ) (found : Option ℕ) (outcome : StartWrite)
    → Built wall m found (new_durable_signing_clock wall m found outcome)
unfolding new_durable_signing_clock new_signing_clock Built
outcome-Built wall m found start_outstanding =
    if-both (Built wall m found) (leb signing_ceiling (first_value wall found)) _ _ (λ _. tt)
      (λ _. tt)
outcome-Built wall m found start_failed =
    if-both (Built wall m found) (leb signing_ceiling (first_value wall found)) _ _ (λ _. tt)
      (λ _. tt)
outcome-Built wall m found start_written =
    if-both (Built wall m found) (leb signing_ceiling (first_value wall found)) _ _ (λ _. tt)
      (λ below. built-Starts wall m found (ground arith))

-- A durable start that is not refused gives a sound clock: its last value is the mark found, and
-- its first mark covers it and is on its way below the ceiling.
pub started-Sound :
    (wall m : ℕ) (found : Option ℕ) (outcome : StartWrite) (c : Clock)
    → new_durable_signing_clock wall m found outcome ≡ started c
    → Sound c × ((c.last ≡ found_mark found) × (c.written ≡ first_mark wall found))
unfolding Built Starts
started-Sound wall m found outcome c e =
    subst (Built wall m found) e (outcome-Built wall m found outcome)

above : (last n : ℕ) (vs : List ℕ) → last < n → Increasing last vs → All (λ v. v < n) vs
above last n [] newer i = tt
above last n (v ∷ vs) newer i = (omega (arith, i.0), above (v - 1) n vs (omega (arith, i.0)) i.1.1)

-- After any run of a durable clock that ends with no episode open, a start that finds the mark the
-- disk then holds, or a later one, signs nothing at a value the run issued: the first value it
-- issues, at any wall clock, is above every value of the run. The run starts sound, with its
-- coverage on the disk and its values in order.
pub restart_never_repeats :
    (s r : System)
    → Run s r
    → Backed s
    → Ordered s
    → r.clock.episode ≡ false
    → (found : ℕ) → r.disk ≤ found
    → (wall m : ℕ) (outcome : StartWrite) (c : Clock)
    → new_durable_signing_clock wall m (some found) outcome ≡ started c
    → (wall' m' at : ℕ) → (next wall' m' c).1 ≡ issued at
    → All (λ v. v < at) r.out
restart_never_repeats s r run b i quiet found on wall m outcome c starts wall' m' at gives =
    let rb = Run-Backed s r run b in
    let (sound, (last_is, mark_is)) = started-Sound wall m (some found) outcome c starts in
    let given = subst (Gives c.last (next wall' m' c).0.last) gives (next-Gives wall' m' c) in
    above r.clock.last at r.out
      (omega (arith, rb.sound.covers quiet, rb.held, on, last_is, given.0)) (Run-Ordered s r run i)
