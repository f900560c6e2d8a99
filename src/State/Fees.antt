-- ===== src/State/Fees.antt =====
-- `FeeSchedule` of src/state/fee_schedule.rs, the taker fees by volume, and `FeeTreasury` of
-- src/state/fee_treasury.rs, the ledger of the fees. Padding and reserved bytes are left out; the
-- array of eight tiers is a list.
pub mod Tiers
pub mod Treasury
use polyleverage.Base.{
  ℕ, ◌+◌, ◌-◌, ◌≤◌, ◌≡◌, List, [], ◌∷◌, ltb, leb, ◌==◌, ◌!=◌, if◌then◌else◌, u64_max, checked_add,
  checked_sub,
}
use polyleverage.Error.{custom, already_initialized, arithmetic_overflow, invalid_instruction_data}
use polyleverage.Method.{Result, ok, err, ⊤, Method, gets, puts, fail_if, ok_or, ◌>>=◌, ◌>>◌}

abbrev pub disc_fee_schedule : ℕ
disc_fee_schedule = 10

abbrev pub disc_fee_treasury : ℕ
disc_fee_treasury = 12

-- `FeeTierRaw`
pub record FeeTier : Type 0 where
  pub volume_threshold : ℕ
  pub fee_bps : ℕ

pub record FeeSchedule : Type 0 where
  pub discriminator : ℕ
  pub bump : ℕ
  pub tiers : List FeeTier
  pub max_tier_fee_bps : ℕ
  pub last_updated_slot : ℕ

-- The loop of `compute_max_fee_bps`, from a running maximum.
unfoldable pub max_fee_from : ℕ → List FeeTier → ℕ
max_fee_from found [] = found
max_fee_from found (t ∷ ts) = max_fee_from (if ltb found t.fee_bps then t.fee_bps else found) ts

unfoldable pub compute_max_fee_bps : List FeeTier → ℕ
unfolding max_fee_from
compute_max_fee_bps tiers = max_fee_from 0 tiers

unfoldable pub init_schedule : List FeeTier → ℕ → ℕ → Method FeeSchedule ⊤
init_schedule tiers now_slot bump s =
    if s.discriminator != 0 then (err (custom already_initialized), s) else (
      ok tt,
      record {
        discriminator = disc_fee_schedule;
        bump = bump;
        tiers = tiers;
        max_tier_fee_bps = compute_max_fee_bps tiers;
        last_updated_slot = now_slot;
      },
    )

-- The loop of `fee_for_volume`, from the fee found so far.
unfoldable pub fee_from : ℕ → ℕ → List FeeTier → ℕ
fee_from found volume [] = found
fee_from found volume (t ∷ ts) =
    fee_from (if leb t.volume_threshold volume then t.fee_bps else found) volume ts

-- `self.tiers[0].fee_bps`; the array is never empty.
abbrev pub first_fee : List FeeTier → ℕ
first_fee [] = 0
first_fee (t ∷ ts) = t.fee_bps

unfoldable pub fee_for_volume : ℕ → FeeSchedule → ℕ
unfolding fee_from
fee_for_volume volume_30d s = fee_from (first_fee s.tiers) volume_30d s.tiers

-- The loop of `validate_tiers`, from the threshold of the tier before.
unfoldable pub validate_from : ℕ → List FeeTier → Result ⊤
validate_from prev [] = ok tt
validate_from prev (t ∷ ts) =
    let rest = validate_from t.volume_threshold ts in
    if ltb t.volume_threshold prev
    then err (custom invalid_instruction_data)
    else if ltb 1_000 t.fee_bps
    then err (custom invalid_instruction_data)
    else rest

unfoldable pub validate_tiers : List FeeTier → Result ⊤
unfolding validate_from
validate_tiers tiers = validate_from 0 tiers

pub record FeeTreasury : Type 0 where
  pub discriminator : ℕ
  pub bump : ℕ
  pub collateral_mint : ℕ
  pub accrued_atoms : ℕ
  pub total_swept_atoms : ℕ

unfoldable pub init_treasury : ℕ → ℕ → Method FeeTreasury ⊤
init_treasury mint bump t =
    if t.discriminator != 0 then (err (custom already_initialized), t) else (
      ok tt,
      record {
        discriminator = disc_fee_treasury;
        bump = bump;
        collateral_mint = mint;
        accrued_atoms = 0;
        total_swept_atoms = 0;
      },
    )

unfoldable pub accrue : ℕ → Method FeeTreasury ⊤
accrue amount = do
  accrued ←
      ok_or (checked_add u64_max (← gets (λ t. t.accrued_atoms)) amount)
        (custom arithmetic_overflow)
  puts λ t. record t { accrued_atoms = accrued }

unfoldable pub sweep : ℕ → Method FeeTreasury ⊤
sweep amount = do
  accrued ← ok_or (checked_sub (← gets (λ t. t.accrued_atoms)) amount) (custom arithmetic_overflow)
  puts λ t. record t { accrued_atoms = accrued }
  swept ←
      ok_or (checked_add u64_max (← gets (λ t. t.total_swept_atoms)) amount)
        (custom arithmetic_overflow)
  puts λ t. record t { total_swept_atoms = swept }
