-- ===== src/Fixed.antt =====
-- The fixed-point arithmetic of src/math/fixed.rs. Prices are `u64` with 18 decimals; products are
-- taken in `u128` and `i128`, with the source's checks.
pub mod Price
pub mod Equity
use Prim.Native.Nat.{bit_and}
use polyleverage.Base.{
  ℕ, ◌+◌, ◌-◌, ◌*◌, ◌/◌, ◌%◌, ◌≡◌, Bool, ◌||◌, Option, none, some, ltb, leb, ◌==◌, ◌!=◌,
  if◌then◌else◌, u64_max, u128_max, i128_max, checked_mul, checked_div, as_u64, as_i128, fits_ℤ,
  saturate_ℤ,
}
use polyleverage.Base.Int.{ℤ, pos, ◌+ℤ◌, ◌-ℤ◌, ◌*ℤ◌, div_ℤ, clamp_ℤ, pos_part}
use polyleverage.Error.{
  ProgramError, custom, invalid_price_range, price_not_tick_aligned, arithmetic_overflow,
  division_by_zero,
}
use polyleverage.Method.{Result, ok, err, ⊤}

-- `PRICE_ONE`
abbrev pub price_one : ℕ
price_one = 1_000_000_000_000_000_000

-- `BPS_DENOM`
abbrev pub bps_denom : ℕ
bps_denom = 10_000

unfoldable pub validate_price : ℕ → Result ⊤
validate_price price_fp =
    if price_fp == 0 || leb price_one price_fp then err (custom invalid_price_range) else ok tt

unfoldable pub validate_price_ticked : ℕ → ℕ → Result ⊤
unfolding validate_price
validate_price_ticked price_fp tick_fp = elim (validate_price price_fp) [
  | err e ↦ err e
  | ok _ ↦
      if tick_fp == 0 || (price_fp % tick_fp) != 0
      then err (custom price_not_tick_aligned)
      else ok tt
]

-- `(a / 2) + (b / 2) + ((a & 1) & (b & 1))`
unfoldable pub price_midpoint : ℕ → ℕ → ℕ
price_midpoint a b = a / 2 + b / 2 + bit_and (bit_and a 1) (bit_and b 1)

-- `opt.ok_or_else(|| ArithmeticOverflow.into())`
abbrev pub or_overflow : {A : Type 0} → Option A → Result A
or_overflow none = err (custom arithmetic_overflow)
or_overflow (some a) = ok a

unfoldable pub notional_atoms : ℕ → ℕ → Result ℕ
notional_atoms collateral_bucket leverage_bps =
    or_overflow (elim (checked_mul u128_max collateral_bucket leverage_bps) [
      | none ↦ none
      | some v ↦ checked_div v bps_denom
    ])

unfoldable pub position_size_fp : ℕ → ℕ → Result ℕ
position_size_fp notional entry_price_fp =
    if entry_price_fp == 0
    then err (custom division_by_zero)
    else or_overflow (elim (checked_mul u128_max notional price_one) [
      | none ↦ none
      | some v ↦ checked_div v entry_price_fp
    ])

-- Both prices are `u64`, so their difference fits in `i128`. The divisor is not zero and not -1, so
-- the division cannot fail.
unfoldable pub pnl_long_atoms : ℕ → ℕ → ℕ → Result ℤ
pnl_long_atoms entry_fp mark_fp size_fp =
    let delta_fp = pos mark_fp -ℤ pos entry_fp in
    or_overflow (elim (fits_ℤ i128_max (delta_fp *ℤ as_i128 size_fp)) [
      | none ↦ none
      | some v ↦ some (div_ℤ v price_one)
    ])

-- `eq.clamp(0, max) as u64`; the clamped value is not negative.
unfoldable pub bounded_equity : ℕ → ℤ → ℕ
bounded_equity collateral_atoms pnl =
    let eq = saturate_ℤ i128_max (pos collateral_atoms +ℤ pnl) in
    let top = saturate_ℤ i128_max (pos (collateral_atoms * 2)) in
    as_u64 (pos_part (clamp_ℤ eq (pos 0) top))
