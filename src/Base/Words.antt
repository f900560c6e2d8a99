-- ===== src/Base/Words.antt =====
-- Rust's checked, saturating and truncating operations on machine integers. A word is a native
-- number; the checks carry the width.
use Prim.Native.Nat.{ℕ, suc, ◌+◌, ◌-◌, ◌*◌, ◌/◌, ◌%◌}
use mathlib.Core.Option.{Option, none, some}
use polyleverage.Base.Tests.{leb, ◌==◌, if◌then◌else◌}
use polyleverage.Base.Int.{ℤ, pos, negsuc, clamp_ℤ, pos_part, neg_part}

abbrev pub u8_max : ℕ
u8_max = 0xff

abbrev pub u16_max : ℕ
u16_max = 0xffff

abbrev pub u32_max : ℕ
u32_max = 0xffff_ffff

abbrev pub u64_max : ℕ
u64_max = 0xffff_ffff_ffff_ffff

abbrev pub u128_max : ℕ
u128_max = 0xffff_ffff_ffff_ffff_ffff_ffff_ffff_ffff

-- `None` beyond the greatest value `top` of the type.
abbrev pub fits : ℕ → ℕ → Option ℕ
fits top n = if leb n top then some n else none

abbrev pub checked_add : ℕ → ℕ → ℕ → Option ℕ
checked_add top a b = fits top (a + b)

abbrev pub checked_sub : ℕ → ℕ → Option ℕ
checked_sub a b = if leb b a then some (a - b) else none

abbrev pub checked_mul : ℕ → ℕ → ℕ → Option ℕ
checked_mul top a b = fits top (a * b)

abbrev pub checked_div : ℕ → ℕ → Option ℕ
checked_div a b = if b == 0 then none else some (a / b)

abbrev pub saturating_add : ℕ → ℕ → ℕ → ℕ
saturating_add top a b = if leb (a + b) top then a + b else top

abbrev pub saturating_mul : ℕ → ℕ → ℕ → ℕ
saturating_mul top a b = if leb (a * b) top then a * b else top

abbrev pub saturating_sub : ℕ → ℕ → ℕ
saturating_sub a b = a - b

-- `x as u64` of a wider unsigned value keeps the low bits.
abbrev pub as_u64 : ℕ → ℕ
as_u64 n = n % 0x1_0000_0000_0000_0000

-- The greatest values of the signed types; the least is one further below zero.
abbrev pub i64_max : ℕ
i64_max = 0x7fff_ffff_ffff_ffff

abbrev pub i128_max : ℕ
i128_max = 0x7fff_ffff_ffff_ffff_ffff_ffff_ffff_ffff

-- `x as i64` and `x as i128` read the bit pattern of an unsigned word of that width.
abbrev pub as_i64 : ℕ → ℤ
as_i64 n = if leb n i64_max then pos n else negsuc (u64_max - n)

abbrev pub as_i128 : ℕ → ℤ
as_i128 n = if leb n i128_max then pos n else negsuc (u128_max - n)

-- `None` outside the signed type whose greatest value is `top`.
abbrev pub fits_ℤ : ℕ → ℤ → Option ℤ
fits_ℤ top z =
    if leb (pos_part z) top then (if leb (neg_part z) (suc top) then some z else none) else none

abbrev pub saturate_ℤ : ℕ → ℤ → ℤ
saturate_ℤ top z = clamp_ℤ z (negsuc top) (pos top)
