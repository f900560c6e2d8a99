-- ===== src/Base/Bytes.antt =====
-- Little-endian and big-endian numbers in byte strings, and slices.
use native.Mathlib.Nat.{div-lt_iff_lt-mul, pow-suc}
use Prim.Native.Nat.{ℕ, zero, suc, ◌+◌, ◌*◌, ◌/◌, ◌%◌, ◌^◌, ◌<◌}
use mathlib.Core.Path.{◌≡◌, refl, ap}
use mathlib.Core.Option.{Option, none, some}
use mathlib.Core.List.{List, [], ◌∷◌, ◌++◌}
use native.Mathlib.Omega.{arith}
use polyleverage.Base.Tests.{leb, if◌then◌else◌}
use polyleverage.Base.Lists.{length, take, drop}

-- `from_le_bytes`
abbrev pub from_le_bytes : List ℕ → ℕ
from_le_bytes [] = 0
from_le_bytes (b ∷ bs) = b + 256 * from_le_bytes bs

-- `to_le_bytes` of a word of `n` bytes.
abbrev pub to_le_bytes : ℕ → ℕ → List ℕ
to_le_bytes zero x = []
to_le_bytes (suc n) x = x % 256 ∷ to_le_bytes n (x / 256)

-- A key or a market id of `n` bytes, as the number whose digits the bytes are, the first the
-- highest: two of them are equal, or in order, just as the byte strings are.
abbrev pub be_from : ℕ → List ℕ → ℕ
be_from acc [] = acc
be_from acc (b ∷ bs) = be_from (acc * 256 + b) bs

abbrev pub from_be_bytes : List ℕ → ℕ
from_be_bytes bs = be_from 0 bs

-- `bytes[at..at + n]`, where the range is known to lie inside.
abbrev pub slice : ℕ → ℕ → List ℕ → List ℕ
slice at n bytes = take n (drop at bytes)

-- `bytes.get(at..at + n)`
abbrev pub get_range : ℕ → ℕ → List ℕ → Option (List ℕ)
get_range at n bytes = if leb (at + n) (length bytes) then some (slice at n bytes) else none

pub from_le_bytes-to_le_bytes : (n x : ℕ) → x < 256 ^ n → from_le_bytes (to_le_bytes n x) ≡ x
from_le_bytes-to_le_bytes zero x h = omega (arith, h)
from_le_bytes-to_le_bytes (suc n) x h = omega (
  arith,
  from_le_bytes-to_le_bytes n (x / 256)
      ((div-lt_iff_lt-mul (omega arith)).1 (omega (arith, h, pow-suc 256 n))),
)

pub length-to_le_bytes : (n x : ℕ) → length (to_le_bytes n x) ≡ n
length-to_le_bytes zero x = refl
length-to_le_bytes (suc n) x = ap suc (length-to_le_bytes n (x / 256))

-- Reading a field of a record that is laid out one field after another.
pub drop-append : (xs ys : List ℕ) (n : ℕ) → length xs ≡ n → drop n (xs ++ ys) ≡ ys
drop-append [] ys zero h = refl
drop-append [] ys (suc n) h = absurd (omega arith)
drop-append (x ∷ xs) ys zero h = absurd (omega arith)
drop-append (x ∷ xs) ys (suc n) h = drop-append xs ys n (omega arith)

pub take-append : (xs ys : List ℕ) (n : ℕ) → length xs ≡ n → take n (xs ++ ys) ≡ xs
take-append [] ys zero h = refl
take-append [] ys (suc n) h = absurd (omega arith)
take-append (x ∷ xs) ys zero h = absurd (omega arith)
take-append (x ∷ xs) ys (suc n) h = ap (◌∷◌ x) (take-append xs ys n (omega arith))

pub drop-append_more :
    (xs ys : List ℕ) (k m : ℕ) → k ≡ length xs + m → drop k (xs ++ ys) ≡ drop m ys
drop-append_more [] ys k m h = ap (λ (n : ℕ). drop n ys) (omega arith)
drop-append_more (x ∷ xs) ys zero m h = absurd (omega arith)
drop-append_more (x ∷ xs) ys (suc k) m h = drop-append_more xs ys k m (omega arith)

-- The field that follows the first one, and that is followed by others.
pub slice-append :
    (xs ys zs : List ℕ) (at n : ℕ)
    → length xs ≡ at
    → length ys ≡ n
    → slice at n (xs ++ (ys ++ zs)) ≡ ys
slice-append xs ys zs at n h k = rw (drop-append xs (ys ++ zs) at h) (take-append ys zs n k)
