-- ===== src/Base/Lists.antt =====
-- Lists measured and indexed by the native numbers, under the library's names.
use Prim.Native.Nat.{ℕ, zero, suc, ◌+◌, ◌≤◌, ◌<◌}
use mathlib.Core.Path.{◌≡◌, refl, ap}
use mathlib.Core.Logic.{◌≢◌}
use mathlib.Core.List.{List, [], ◌∷◌, ◌++◌}
use mathlib.Core.Option.{Option, none, some}
use mathlib.Core.Bool.{Bool, false, ◌||◌}
use polyleverage.Base.Tests.{◌==◌}
use native.Mathlib.Omega.{arith}

module _ {ℓ} {A : Type ℓ} where
  abbrev pub length : List A → ℕ
  length [] = 0
  length (x ∷ xs) = suc (length xs)

  abbrev pub get_elem? : List A → ℕ → Option A
  get_elem? [] i = none
  get_elem? (x ∷ xs) zero = some x
  get_elem? (x ∷ xs) (suc i) = get_elem? xs i

  -- A write out of bounds changes nothing.
  abbrev pub set : List A → ℕ → A → List A
  set [] i v = []
  set (x ∷ xs) zero v = v ∷ xs
  set (x ∷ xs) (suc i) v = x ∷ set xs i v

  abbrev pub take : ℕ → List A → List A
  take zero xs = []
  take (suc n) [] = []
  take (suc n) (x ∷ xs) = x ∷ take n xs

  abbrev pub drop : ℕ → List A → List A
  drop zero xs = xs
  drop (suc n) [] = []
  drop (suc n) (x ∷ xs) = drop n xs

  abbrev pub replicate : ℕ → A → List A
  replicate zero a = []
  replicate (suc n) a = a ∷ replicate n a

  pub length-append : (xs ys : List A) → length (xs ++ ys) ≡ length xs + length ys
  length-append [] ys = omega arith
  length-append (x ∷ xs) ys = omega (arith, length-append xs ys)

  pub length-replicate : (n : ℕ) (a : A) → length (replicate n a) ≡ n
  length-replicate zero a = refl
  length-replicate (suc n) a = ap suc (length-replicate n a)

  pub length-set : (xs : List A) (i : ℕ) (v : A) → length (set xs i v) ≡ length xs
  length-set [] i v = refl
  length-set (x ∷ xs) zero v = refl
  length-set (x ∷ xs) (suc i) v = ap suc (length-set xs i v)

  pub get_elem?-set :
      (xs : List A) (i : ℕ) (v : A) → i < length xs → get_elem? (set xs i v) i ≡ some v
  get_elem?-set [] i v h = absurd (omega arith)
  get_elem?-set (x ∷ xs) zero v h = refl
  get_elem?-set (x ∷ xs) (suc i) v h = get_elem?-set xs i v (omega arith)

  pub get_elem?-set_other :
      (xs : List A) (i j : ℕ) (v : A) → i ≢ j → get_elem? (set xs i v) j ≡ get_elem? xs j
  get_elem?-set_other [] i j v h = refl
  get_elem?-set_other (x ∷ xs) zero zero v h = absurd (h refl)
  get_elem?-set_other (x ∷ xs) zero (suc j) v h = refl
  get_elem?-set_other (x ∷ xs) (suc i) zero v h = refl
  get_elem?-set_other (x ∷ xs) (suc i) (suc j) v h =
      get_elem?-set_other xs i j v (λ e. h (ap suc e))

  -- A slot that is in range is found, and one that is found is in range.
  pub get_elem?_within : (xs : List A) (i : ℕ) → i < length xs → (a : A) × (get_elem? xs i ≡ some a)
  get_elem?_within [] i h = absurd (omega arith)
  get_elem?_within (x ∷ xs) zero h = (x, refl)
  get_elem?_within (x ∷ xs) (suc i) h = get_elem?_within xs i (omega arith)

  pub get_elem?_found : (xs : List A) (i : ℕ) (a : A) → get_elem? xs i ≡ some a → i < length xs
  get_elem?_found [] i a h = cc
  get_elem?_found (x ∷ xs) zero a h = omega arith
  get_elem?_found (x ∷ xs) (suc i) a h = omega (arith, get_elem?_found xs i a h)

-- `list.contains(&x)` on numbers.
abbrev pub contains : ℕ → List ℕ → Bool
contains x [] = false
contains x (y ∷ ys) = y == x || contains x ys

-- No key is listed twice.
abbrev pub Distinct : List ℕ → Type 0
Distinct [] = Unit
Distinct (k ∷ ks) = (contains k ks ≡ false) × Distinct ks

abbrev pub sum : List ℕ → ℕ
sum [] = 0
sum (x ∷ xs) = x + sum xs

-- A fixed-size array of `n` slots that begins with the items of a list and is filled up with `d`.
abbrev pub fill {ℓ} : {A : Type ℓ} → ℕ → A → List A → List A
fill zero d xs = []
fill (suc n) d [] = d ∷ fill n d []
fill (suc n) d (x ∷ xs) = x ∷ fill n d xs

pub length-fill {ℓ} : {A : Type ℓ} (n : ℕ) (d : A) (xs : List A) → length (fill n d xs) ≡ n
length-fill zero d xs = refl
length-fill (suc n) d [] = ap suc (length-fill n d [])
length-fill (suc n) d (x ∷ xs) = ap suc (length-fill n d xs)

-- The used part of such an array is the list.
pub take-fill {ℓ} :
    {A : Type ℓ} (n : ℕ) (d : A) (xs : List A) → length xs ≤ n → take (length xs) (fill n d xs) ≡ xs
take-fill zero d [] h = refl
take-fill zero d (x ∷ xs) h = absurd (omega arith)
take-fill (suc n) d [] h = refl
take-fill (suc n) d (x ∷ xs) h = ap (◌∷◌ x) (take-fill n d xs (omega arith))

-- A list of the full size is the array.
pub fill_full {ℓ} : {A : Type ℓ} (n : ℕ) (d : A) (xs : List A) → length xs ≡ n → fill n d xs ≡ xs
fill_full zero d [] h = refl
fill_full zero d (x ∷ xs) h = absurd (omega arith)
fill_full (suc n) d [] h = absurd (omega arith)
fill_full (suc n) d (x ∷ xs) h = ap (◌∷◌ x) (fill_full n d xs (omega arith))
