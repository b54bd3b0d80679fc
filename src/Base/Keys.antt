-- ===== src/Base/Keys.antt =====
-- Decidable equality as an instance: the `==` of Go on the key types of its maps.
use Prim.Native.Nat.{ℕ}
use Prim.Native.String.{String}
use mathlib.Core.Path.{◌≡◌}
use mathlib.Core.Logic.{◌↔◌}
use mathlib.Core.Bool.{Bool, true}
use text.Mathlib.Text.{◌==◌ as str_eq}
use text.Mathlib.TextEquality.{eq_iff}
use ori_gateway.Base.Tests.{nat_beq, nat_beq_iff}

-- The test of two keys, and that it decides equality.
pub record Eq {ℓ} (Key : Type ℓ) : Type ℓ where
  pub beq : (j k : Key) → Bool
  pub beq_iff : (j k : Key) → (beq j k ≡ true) ↔ (j ≡ k)

instance abbrev pub string_eq : Eq String
string_eq = record { beq_iff = eq_iff; beq = str_eq }

instance abbrev pub nat_eq : Eq ℕ
nat_eq = record { beq_iff = nat_beq_iff; beq = nat_beq }

infix 50 ◌==◌
abbrev pub ◌==◌ {ℓ} : {Key : Type ℓ} → ⦃keys : Eq Key⦄ → Key → Key → Bool
◌==◌ ⦃keys = keys⦄ j k = keys.beq j k
