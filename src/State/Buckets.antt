-- ===== src/State/Buckets.antt =====
-- `BucketRegistry` of src/state/bucket_registry.rs: the leverages and collateral buckets that an
-- instrument may have. Padding and reserved bytes are left out.
pub mod Allowed
use polyleverage.Base.{
  ℕ, ◌≡◌, Bool, true, false, ◌||◌, List, [], ◌∷◌, length, take, fill, contains, min, ltb, ◌==◌,
  ◌!=◌, if◌then◌else◌, u64_max, saturating_add,
}
use polyleverage.Error.{
  PolyleverageError, custom, invalid_instruction_data, invalid_leverage_bucket,
  invalid_collateral_bucket, already_initialized,
}
use polyleverage.Method.{Result, ok, err, ⊤, Method, gets, puts, lift, fail_if, ◌>>=◌, ◌>>◌}

abbrev pub disc_bucket_registry : ℕ
disc_bucket_registry = 15

abbrev pub max_leverage_slots : ℕ
max_leverage_slots = 16

abbrev pub max_collateral_slots : ℕ
max_collateral_slots = 16

pub record BucketRegistry : Type 0 where
  pub discriminator : ℕ
  pub bump : ℕ
  pub n_leverage : ℕ
  pub n_collateral : ℕ
  pub version : ℕ
  pub leverage_bps : List ℕ
  pub collateral_buckets : List ℕ

-- `leverages.is_empty() || leverages.len() > MAX`
abbrev pub wrong_length : ℕ → List ℕ → Bool
wrong_length slots values = length values == 0 || ltb slots (length values)

-- The loop over the leverages, each tested and compared with all that follow it.
unfoldable pub check_leverages : List ℕ → Result ⊤
check_leverages [] = ok tt
check_leverages (l ∷ ls) =
    if (l == 0 || ltb 10_000_000 l) || contains l ls
    then err (custom invalid_leverage_bucket)
    else check_leverages ls

unfoldable pub check_buckets : List ℕ → Result ⊤
check_buckets [] = ok tt
check_buckets (b ∷ bs) =
    if b == 0 || contains b bs then err (custom invalid_collateral_bucket) else check_buckets bs

unfoldable pub validate_inputs : List ℕ → List ℕ → Method BucketRegistry ⊤
validate_inputs leverages buckets = do
  fail_if (wrong_length max_leverage_slots leverages) (custom invalid_instruction_data)
  fail_if (wrong_length max_collateral_slots buckets) (custom invalid_instruction_data)
  lift (check_leverages leverages)
  lift (check_buckets buckets)

unfoldable pub init : List ℕ → List ℕ → ℕ → Method BucketRegistry ⊤
init leverages buckets bump = do
  validate_inputs leverages buckets
  fail_if ((← gets (λ r. r.discriminator)) != 0) (custom already_initialized)
  puts λ _. record {
    discriminator = disc_bucket_registry;
    bump = bump;
    n_leverage = length leverages;
    n_collateral = length buckets;
    version = 1;
    leverage_bps = fill max_leverage_slots 0 leverages;
    collateral_buckets = fill max_collateral_slots 0 buckets;
  }

-- The writes of `set`.
abbrev pub edited : List ℕ → List ℕ → BucketRegistry → BucketRegistry
edited leverages buckets r = record r {
  leverage_bps = fill max_leverage_slots 0 leverages;
  collateral_buckets = fill max_collateral_slots 0 buckets;
  n_leverage = length leverages;
  n_collateral = length buckets;
  version = saturating_add u64_max r.version 1;
}

-- `set`
unfoldable pub set_lists : List ℕ → List ℕ → Method BucketRegistry ⊤
set_lists leverages buckets = do validate_inputs leverages buckets; puts (edited leverages buckets)

unfoldable pub allows_leverage : ℕ → BucketRegistry → Bool
allows_leverage bps r = contains bps (take (min r.n_leverage max_leverage_slots) r.leverage_bps)

unfoldable pub allows_bucket : ℕ → BucketRegistry → Bool
allows_bucket atoms r =
    contains atoms (take (min r.n_collateral max_collateral_slots) r.collateral_buckets)
