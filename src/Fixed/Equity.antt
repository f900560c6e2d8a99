-- ===== src/Fixed/Equity.antt =====
-- Position size, profit and bounded equity (src/math/fixed.rs).
use polyleverage.Base.{ℕ, suc, ◌+◌, ◌-◌, ◌*◌, ◌/◌, ◌<◌, ◌≤◌, ◌≡◌, arith, min, u64_max, i128_max}
use polyleverage.Base.Int.{ℤ, pos, negsuc, ◌+ℤ◌, ◌-ℤ◌, pos_part, neg_part}
use native.Mathlib.Nat.{div-add-mod, mod-lt}
use polyleverage.Method.{ok}
use polyleverage.Fixed.{price_one, position_size_fp, bounded_equity}

-- Short of saturation the equity is the sum of collateral and profit, cut off at 0 and at twice the
-- collateral.
pub bounded_equity_lem :
    (c : ℕ) (pnl : ℤ)
    → c * 2 ≤ u64_max
    → pos_part pnl ≤ i128_max
    → neg_part pnl ≤ suc i128_max
    → bounded_equity c pnl ≡ min (c + pos_part pnl - neg_part pnl) (c * 2)
unfolding bounded_equity ◌+ℤ◌
bounded_equity_lem c pnl h p n = ground arith

neg_parts : (z : ℤ) → (pos_part (pos 0 -ℤ z) ≡ neg_part z) × (neg_part (pos 0 -ℤ z) ≡ pos_part z)
unfolding ◌-ℤ◌
neg_parts z = ground arith

-- The equity of the other side, which settlement takes as twice the collateral less the long side's,
-- is what the opposite profit gives.
pub bounded_equity_opposite :
    (c : ℕ) (pnl : ℤ)
    → c * 2 ≤ u64_max
    → pos_part pnl ≤ i128_max
    → neg_part pnl ≤ i128_max
    → c * 2 - bounded_equity c pnl ≡ bounded_equity c (pos 0 -ℤ pnl)
bounded_equity_opposite c pnl h p n =
    rw
      (
        bounded_equity_lem c pnl h p (omega arith),
        bounded_equity_lem c (pos 0 -ℤ pnl) h (omega (arith, neg_parts pnl))
            (omega (arith, neg_parts pnl)),
      )
      (rw ((neg_parts pnl).0, (neg_parts pnl).1) (one_side pnl))
  where
    one_side :
        (z : ℤ)
        → c * 2 - min (c + pos_part z - neg_part z) (c * 2)
          ≡ min (c + neg_part z - pos_part z) (c * 2)
    one_side (pos k) = omega arith
    one_side (negsuc k) = omega arith

floor_bounds : (n d : ℕ) → 0 < d → (n / d * d ≤ n) × (n < (n / d + 1) * d)
floor_bounds n d h = let q = div-add-mod n d in let r = mod-lt n h in (grind arith, grind arith)

-- The position size is the greatest whose value at the entry price does not exceed the notional.
pub position_size_fp_bounds :
    (notional entry : ℕ) {size : ℕ}
    → position_size_fp notional entry ≡ ok size
    → (size * entry ≤ notional * price_one) × (notional * price_one < (size + 1) * entry)
position_size_fp_bounds notional entry {size} h =
    rw (quotient.1) (floor_bounds (notional * price_one) entry quotient.0)
  where
    quotient : (0 < entry) × (size ≡ notional * price_one / entry)
    quotient = unfold position_size_fp in ground arith
