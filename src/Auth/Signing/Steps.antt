-- ===== src/Auth/Signing/Steps.antt =====
-- The signing clock with its disk: the operations of internal/mqttauth/signingclock.go as steps,
-- in any order the lock allows.
use ori_gateway.Base.{ℕ, ◌≤◌, max, ◌≡◌, Bool, true, false, some, List, ◌∷◌, nat_eq, string_eq}
use ori_gateway.Auth.Signing.{
  MarkWrite, Clock, write_ended, write_overdue, value_overdue, retry_write, stop, Answer, exhausted,
  stopped, waiting, issued, next,
}

-- The clock, the mark the disk holds, and the values issued, the newest first.
pub record System : Type 0 where
  pub clock : Clock
  pub disk : ℕ
  pub out : List ℕ

abbrev pub give : Answer → List ℕ → List ℕ
give (issued at) out = at ∷ out
give exhausted out = out
give stopped out = out
give waiting out = out

abbrev pub ask : ℕ → ℕ → System → System
ask wall m s =
    let (c, answer) = next wall m s.clock in
    record { clock = c; disk = s.disk; out = give answer s.out }

-- A write reaches the disk at some time while it is outstanding, and has by the time it succeeds;
-- one that fails may have.
pub data Step : System → System → Type 0 where
  asked : (wall m : ℕ) (s : System) → Step s (ask wall m s)
  landed :
      (s : System) (w : MarkWrite)
      → s.clock.write ≡ some w
      → Step s (record s { disk = max s.disk w.mark })
  succeeded :
      (m : ℕ) (s : System) (w : MarkWrite)
      → s.clock.write ≡ some w
      → w.mark ≤ s.disk
      → Step s (record s { clock = write_ended m true s.clock })
  failed : (m : ℕ) (s : System) → Step s (record s { clock = write_ended m false s.clock })
  write_timer :
      (m number : ℕ) (s : System) → Step s (record s { clock = write_overdue m number s.clock })
  value_timer :
      (m : ℕ) (answered : Bool) (s : System)
      → Step s (record s { clock = value_overdue m answered s.clock })
  retry_timer : (wall m : ℕ) (s : System) → Step s (record s { clock = retry_write wall m s.clock })
  closed : (s : System) → Step s (record s { clock = stop s.clock })

pub data Run : System → System → Type 0 where
  here : (s : System) → Run s s
  then_step : (s r q : System) → Step s r → Run r q → Run s q

pub Run-keeps :
    (P : System → Type 0)
    → ((s r : System) → Step s r → P s → P r)
    → (s r : System) → Run s r
    → P s
    → P r
Run-keeps P keep _ _ (here s) p = p
Run-keeps P keep _ _ (then_step s r q step run) p = Run-keeps P keep r q run (keep s r step p)
