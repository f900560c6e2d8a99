-- ===== src/Fixed/Price.antt =====
-- Price validation and the midpoint (src/math/fixed.rs).
use Prim.Native.Nat.{bit_and, bit_and-bitwise}
use polyleverage.Base.{ℕ, ◌+◌, ◌/◌, ◌%◌, zero, suc, min, ◌<◌, ◌≤◌, ◌≡◌, ◌↔◌, refl, arith}
use polyleverage.Base.Bits.{bit_and-one}
use polyleverage.Method.{ok}
use polyleverage.Fixed.{price_one, validate_price, validate_price_ticked, price_midpoint}

-- A ticked price is accepted exactly when it lies strictly between 0 and 1 and is a multiple of a
-- tick that is not zero.
pub validate_price_ticked_iff :
    (price tick : ℕ)
    → (validate_price_ticked price tick ≡ ok tt)
      ↔ ((0 < price) × (price < price_one) × (0 < tick) × (price % tick ≡ 0))
unfolding validate_price_ticked validate_price
validate_price_ticked_iff price tick = (λ h. ground arith, λ h. ground arith)

-- On single bits `&` is the lesser.
bit_and_bits : (x y : ℕ) → x < 2 → y < 2 → bit_and x y ≡ min x y
bit_and_bits zero y h k = omega (arith, bit_and-bitwise 0 y)
bit_and_bits (suc zero) zero h k = refl
bit_and_bits (suc zero) (suc zero) h k = refl
bit_and_bits (suc zero) (suc (suc y)) h k = absurd (omega arith)
bit_and_bits (suc (suc x)) y h k = absurd (omega arith)

-- The entry price is the floor of the mean of the two limit prices.
pub price_midpoint-mean : (a b : ℕ) → price_midpoint a b ≡ (a + b) / 2
unfolding price_midpoint
price_midpoint-mean a b =
    rw (bit_and-one a, bit_and-one b, bit_and_bits (a % 2) (b % 2) (omega arith) (omega arith))
      (omega arith)

-- When a long crosses a short, the entry price lies between the ask and the bid, and it does not
-- depend on which of the two is named first.
pub price_midpoint_between :
    (bid ask : ℕ)
    → ask ≤ bid
    → (ask ≤ price_midpoint bid ask)
      × (price_midpoint bid ask ≤ bid)
      × (price_midpoint bid ask ≡ price_midpoint ask bid)
price_midpoint_between bid ask h =
    rw (price_midpoint-mean bid ask, price_midpoint-mean ask bid)
      (omega arith, omega arith, omega arith)
