-- ===== src/State/Stablecoins.antt =====
-- `StablecoinRegistry` of src/state/stablecoin_registry.rs: the mints that the wrapped dollar
-- accepts. Padding and reserved bytes are left out.
pub mod Accepted
use polyleverage.Base.{
  ℕ, zero, suc, ◌+◌, ◌-◌, ◌≡◌, Bool, true, false, ◌||◌, Option, none, some, List, [], ◌∷◌, length,
  take, get_elem?, set, fill, contains, min, ltb, leb, ◌==◌, ◌!=◌, if◌then◌else◌, u64_max,
  saturating_add,
}
use polyleverage.Error.{
  custom, panic, invalid_instruction_data, invalid_mint, already_initialized, not_initialized,
}
use polyleverage.Method.{Result, ok, err, ⊤, Method, gets, puts, lift, fail_if, ◌>>=◌, ◌>>◌}

abbrev pub disc_stablecoin_registry : ℕ
disc_stablecoin_registry = 16

abbrev pub max_stablecoin_slots : ℕ
max_stablecoin_slots = 16

-- The default key is 0.
pub record StablecoinRegistry : Type 0 where
  pub discriminator : ℕ
  pub bump : ℕ
  pub n_mints : ℕ
  pub wusd_decimals : ℕ
  pub wusd_mint : ℕ
  pub version : ℕ
  pub mints : List ℕ

-- The loop over the initial mints, each compared with all that follow it.
unfoldable pub check_mints : List ℕ → Result ⊤
check_mints [] = ok tt
check_mints (m ∷ ms) = if m == 0 || contains m ms then err (custom invalid_mint) else check_mints ms

unfoldable pub init : (wusd_mint wusd_decimals : ℕ) → List ℕ → ℕ → Method StablecoinRegistry ⊤
init wusd_mint wusd_decimals initial_mints bump = do
  fail_if (ltb max_stablecoin_slots (length initial_mints)) (custom invalid_instruction_data)
  lift (check_mints initial_mints)
  fail_if ((← gets (λ r. r.discriminator)) != 0) (custom already_initialized)
  puts λ _. record {
    discriminator = disc_stablecoin_registry;
    bump = bump;
    n_mints = length initial_mints;
    wusd_decimals = wusd_decimals;
    wusd_mint = wusd_mint;
    version = 1;
    mints = fill max_stablecoin_slots 0 initial_mints;
  }

unfoldable pub is_accepted : ℕ → StablecoinRegistry → Bool
is_accepted mint r = contains mint (take (min r.n_mints max_stablecoin_slots) r.mints)

-- The writes of `add_mint`.
abbrev pub appended : ℕ → StablecoinRegistry → StablecoinRegistry
appended mint r = record r {
  mints = set r.mints r.n_mints mint;
  n_mints = r.n_mints + 1;
  version = saturating_add u64_max r.version 1;
}

unfoldable pub add_mint : ℕ → Method StablecoinRegistry ⊤
add_mint mint r =
    if is_accepted mint r
    then (err (custom already_initialized), r)
    else if leb max_stablecoin_slots r.n_mints
    then (err (custom invalid_instruction_data), r)
    else (ok tt, appended mint r)

-- The first of `count` slots with the mint; a slot beyond the array is a panic.
unfoldable pub position : (count mint : ℕ) → List ℕ → Result (Option ℕ)
position zero mint slots = ok none
position (suc n) mint [] = err panic
position (suc n) mint (m ∷ ms) =
    let later = position n mint ms in
    elim (m == mint) [
      | true ↦ ok (some 0)
      | false ↦ elim later [ err e ↦ err e | ok none ↦ ok none | ok (some i) ↦ ok (some (suc i)) ]
    ]

-- The last of the `n` mints moves into the gap at `i`.
unfoldable pub fill_gap : (n i : ℕ) → List ℕ → List ℕ
fill_gap n i mints =
    let moved =
      if ltb (i + 1) n
      then elim (get_elem? mints (n - 1)) [ none ↦ mints | some last ↦ set mints i last ]
      else mints in
    set moved (n - 1) 0

unfoldable pub remove_mint : ℕ → Method StablecoinRegistry ⊤
unfolding position fill_gap
remove_mint mint r = elim (position r.n_mints mint r.mints) [
  | err e ↦ (err e, r)
  | ok none ↦ (err (custom not_initialized), r)
  | ok (some i) ↦ (
    ok tt,
    record r {
      mints = fill_gap r.n_mints i r.mints;
      n_mints = r.n_mints - 1;
      version = saturating_add u64_max r.version 1;
    },
  )
]
