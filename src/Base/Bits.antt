-- ===== src/Base/Bits.antt =====
-- The lowest bit, for `x & 1`.
use Prim.Native.Nat.{ℕ, zero, suc, ◌/◌, ◌%◌, ◌≤◌, min, bit_and, digits, bit_and-bitwise}
use mathlib.Core.Path.{◌≡◌, refl, ◌∙◌}
use native.Mathlib.Omega.{arith}

-- No bit is common with zero.
digits-zero : (fuel a : ℕ) → a ≤ fuel → digits (λ b. zero) min fuel a 0 ≡ 0
digits-zero zero zero h = refl
digits-zero zero (suc a) h = absurd (omega arith)
digits-zero (suc fuel) zero h = refl
digits-zero (suc fuel) (suc a) h = omega (arith, digits-zero fuel (suc a / 2) (omega arith))

digits_one : (fuel a : ℕ) → a ≤ fuel → digits (λ b. zero) min fuel a 1 ≡ a % 2
digits_one fuel zero h = elim fuel as (λ n. digits (λ b. zero) min n 0 1 ≡ 0) [
  | zero ↦ refl
  | suc n ↦ refl
]
digits_one zero (suc a) h = absurd (omega arith)
digits_one (suc fuel) (suc a) h = omega (arith, digits-zero fuel (suc a / 2) (omega arith))

pub bit_and-one : (a : ℕ) → bit_and a 1 ≡ a % 2
bit_and-one a = bit_and-bitwise a 1 ∙ digits_one a a (omega arith)
