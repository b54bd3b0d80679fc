-- ===== src/Courier/Backoff/Deadlines.antt =====
-- How long a backed-off head waits (internal/evidence/courier/worker.go).
use native.Mathlib.Nat.{mul_assoc}
use ori_gateway.Base.{
  ℕ, zero, suc, ◌+◌, ◌-◌, ◌*◌, ◌^◌, ◌≤◌, ◌<◌, min, max, ◌≡◌, refl, ap, subst, ◌∙◌, inl, inr, List,
  [], ◌∷◌, ◌⊎◌, arith, ltb, Bool-cases, nat_eq, string_eq, if-both,
}
use ori_gateway.Courier.Types.{BackoffRecord}
use ori_gateway.Courier.Sidecars.{max_backoff_attempts}
use ori_gateway.Courier.Backoff.{
  Settings, BackoffLane, double_up, backoff_delay, wait_bound, millisecond, ceil_milli, until_due,
  set_deadlines, schedule_backoff,
}

pow_pos : (n : ℕ) → 1 ≤ 2 ^ n
pow_pos zero = ground arith
pow_pos (suc n) = ground (arith, pow_pos n)

twice_pow : (n : ℕ) → 2 * 2 ^ n ≡ 2 ^ suc n
twice_pow n = ground arith

times_mono : (d k : ℕ) → 1 ≤ k → d ≤ d * k
times_mono d zero h = ground arith
times_mono d (suc k) h = ground arith

double_up-min : (n b d : ℕ) → min (double_up n b d) b ≡ min (d * 2 ^ n) b
unfolding double_up
double_up-min zero b d = ground arith
double_up-min (suc n) b d = elim (Bool-cases (ltb d b)) [
  | inl more ↦ rw more (
      double_up-min n b (d * 2)
      ∙ ap (λ x. min x b) (mul_assoc d 2 (2 ^ n) ∙ ap (λ k. d * k) (twice_pow n)))
  | inr full ↦ rw full (ground (arith, times_mono d (2 ^ suc n) (pow_pos (suc n))))
]

ceil_milli-bounds : (t : ℕ) → (t ≤ ceil_milli t) × (ceil_milli t < t + millisecond)
unfolding ceil_milli
ceil_milli-bounds t = ground arith

-- The clocks read again and again, as the lane's loop and its timers do.
pub record Reading : Type 0 where
  pub wall : ℕ
  pub mono : ℕ

unfoldable pub look : Settings → List Reading → BackoffLane → BackoffLane
look w [] l = l
look w (r ∷ rs) l = look w rs (until_due w r.wall r.mono l).0

pub until_due-keeps :
    (w : Settings) (wall mono : ℕ) (l : BackoffLane)
    → let l' = (until_due w wall mono l).0 in
      (l'.mono_due ≡ l.mono_due)
      × (l'.retry_after ≡ l.retry_after)
      × (l'.attempts ≡ l.attempts)
      × (l'.backoff_id ≡ l.backoff_id)
unfolding until_due
until_due-keeps w wall mono l =
    if-both
      (λ (o : BackoffLane × List BackoffRecord × ℕ).
        (o.0.mono_due ≡ l.mono_due)
        × (o.0.retry_after ≡ l.retry_after)
        × (o.0.attempts ≡ l.attempts)
        × (o.0.backoff_id ≡ l.backoff_id))
      _ _ _ (λ _. (refl, refl, refl, refl)) (λ _. (refl, refl, refl, refl))

pub until_due-wait :
    (w : Settings) (wall mono : ℕ) (l : BackoffLane)
    → let wait = (until_due w wall mono l).2 in
      (l.mono_due ≤ mono + wait)
      × ((wait < wait_bound w l.retry_after + millisecond) ⊎ (l.mono_due ≡ mono + wait))
unfolding until_due
until_due-wait w wall mono l =
    elim (Bool-cases (ltb (wait_bound w l.retry_after) (l.not_before - wall))) [
      | inl far ↦
          rw (far, until_due)
            (ground arith, ground (arith, ceil_milli-bounds (wall + wait_bound w l.retry_after)))
      | inr near ↦ rw (near, until_due) (ground arith, ground arith)
    ]

look-keeps :
    (w : Settings) (rs : List Reading) (l : BackoffLane)
    → ((look w rs l).mono_due ≡ l.mono_due) × ((look w rs l).retry_after ≡ l.retry_after)
unfolding look
look-keeps w [] l = (refl, refl)
look-keeps w (r ∷ rs) l =
    let now = until_due-keeps w r.wall r.mono l in
    let later = look-keeps w rs (until_due w r.wall r.mono l).0 in
    (later.0 ∙ now.0, later.1 ∙ now.1)

-- The delay of the `n`-th back-off in a row: the base doubled for each one before it, up to the
-- cap, and never below the delivery interval or the floor.
abbrev pub full_delay : Settings → ℕ → ℕ → ℕ
full_delay w n floor = max (max (min (w.backoff_base * 2 ^ (n - 1)) w.max_backoff) w.retry) floor

backoff_delay-closed : (w : Settings) (n floor : ℕ) → backoff_delay w n floor ≡ full_delay w n floor
unfolding backoff_delay
backoff_delay-closed w n floor =
    ap (λ d. max (max d w.retry) floor)
      (ground (arith, double_up-min (n - 1) w.max_backoff w.backoff_base))

pub set_deadlines-due :
    (w : Settings) (wall mono floor : ℕ) (l : BackoffLane)
    → l.attempts ≤ max_backoff_attempts
    → let l' = set_deadlines w wall mono floor l in
      (l'.mono_due ≡ mono + full_delay w (min (l.attempts + 1) max_backoff_attempts) floor)
      × (l'.retry_after ≡ floor)
unfolding set_deadlines
set_deadlines-due w wall mono floor l known = (
  ap (λ d. mono + d)
      (backoff_delay-closed w _ floor ∙ ap (λ n. full_delay w n floor) (ground arith)),
  refl,
)

-- After a back-off is scheduled, however often and with whatever readings of the clocks the lane
-- looks again, a later look leaves a wait that lasts until the whole delay has passed on the
-- monotonic clock, and that is at most a millisecond above the bound, however the wall clock has
-- moved; provided the count of attempts is within its bound and the monotonic clock has not gone
-- back. The delay is the base doubled for each back-off before, up to the cap, and never below the
-- delivery interval or the Retry-After floor.
pub schedule-waits :
    (w : Settings) (wall mono floor wall_after mono_after : ℕ) (l : BackoffLane) (rs : List Reading)
    (now : Reading)
    → l.attempts ≤ max_backoff_attempts
    → mono ≤ now.mono
    → let scheduled = (schedule_backoff w wall mono floor wall_after mono_after l).0 in
      let wait = (until_due w now.wall now.mono (look w rs scheduled)).2 in
      (mono + full_delay w (min (l.attempts + 1) max_backoff_attempts) floor ≤ now.mono + wait)
      × (wait < max (max w.max_backoff w.retry) floor + millisecond)
unfolding schedule_backoff wait_bound
schedule-waits w wall mono floor wall_after mono_after l rs now known onward =
    let set = set_deadlines w wall mono floor l in
    let due = set_deadlines-due w wall mono floor l known in
    let first = until_due-keeps w wall_after mono_after set in
    let later = look-keeps w rs (until_due w wall_after mono_after set).0 in
    let wait =
      until_due-wait w now.wall now.mono (look w rs (until_due w wall_after mono_after set).0) in
    (
      omega (arith, due.0, first.0, later.0, wait.0),
      within (later.0 ∙ first.0 ∙ due.0) (later.1 ∙ first.1 ∙ due.1) wait.1,
    )
  where
    within :
        {d r : ℕ} {k : ℕ}
        → d ≡ mono + full_delay w (min (l.attempts + 1) max_backoff_attempts) floor
        → r ≡ floor
        → (k < wait_bound w r + millisecond) ⊎ (d ≡ now.mono + k)
        → k < max (max w.max_backoff w.retry) floor + millisecond
    within {r = r} {k = k} d e (inl bounded) =
        subst (λ x. k < wait_bound w x + millisecond) e bounded
    within d e (inr on_time) = ground (arith, d, on_time)
