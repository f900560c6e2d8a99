-- ===== src/Tests/Trade.antt =====
-- Prices, sizes and profits at concrete values.
use polyleverage.Base.{◌+◌, ◌-◌, ◌*◌, ◌≤◌, ◌<◌, ◌≡◌, refl, arith}
use polyleverage.Base.Int.{pos, negsuc, ◌-ℤ◌}
use polyleverage.Method.{ok}
use polyleverage.Fixed.{price_one, position_size_fp, bounded_equity}
use polyleverage.Fixed.Equity.{bounded_equity_opposite, position_size_fp_bounds}

bounded_equity_opposite_example :
    100 * 2 - bounded_equity 100 (negsuc 29) ≡ bounded_equity 100 (pos 0 -ℤ negsuc 29)
bounded_equity_opposite_example =
    bounded_equity_opposite 100 (negsuc 29) (omega arith) (omega arith) (omega arith)

size_runs : position_size_fp 5_000_000 400_000_000_000_000_000 ≡ ok 12_500_000
unfolding position_size_fp
size_runs = refl

position_size_fp_bounds_example :
    (12_500_000 * 400_000_000_000_000_000 ≤ 5_000_000 * price_one)
    × (5_000_000 * price_one < (12_500_000 + 1) * 400_000_000_000_000_000)
position_size_fp_bounds_example =
    position_size_fp_bounds 5_000_000 400_000_000_000_000_000 size_runs
