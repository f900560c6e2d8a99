-- ===== src/State/Config.antt =====
-- `ProgramConfig` of src/state/program_config.rs and `InstrumentConfig` of
-- src/state/instrument_config.rs. Padding and reserved bytes are left out.
pub mod Validity
use polyleverage.Base.{ℕ, ◌≡◌, Bool, ◌||◌, List, [], ◌∷◌, contains, ◌==◌, ◌!=◌, if◌then◌else◌, not}
use polyleverage.Error.{
  custom, already_initialized, instrument_paused, invalid_leverage_bucket,
  invalid_collateral_bucket, price_not_tick_aligned, invalid_instruction_data,
}
use polyleverage.Method.{Result, ok, err, ⊤, Method, fail_if, lift, gets, puts, ◌>>=◌, ◌>>◌}

abbrev pub disc_program_config : ℕ
disc_program_config = 1

abbrev pub disc_instrument_config : ℕ
disc_instrument_config = 3

pub record ProgramConfig : Type 0 where
  pub discriminator : ℕ
  pub global_pause : ℕ
  pub bump : ℕ
  pub admin : ℕ
  pub fee_treasury_authority : ℕ
  pub attestation_signer : ℕ
  pub default_max_staleness_secs : ℕ

-- `ProgramConfig::init`
unfoldable pub init_config : ℕ → ℕ → ℕ → ℕ → ℕ → Method ProgramConfig ⊤
init_config admin attestation_signer fee_treasury_authority default_max_staleness_secs bump = do
  fail_if ((← gets (λ c. c.discriminator)) != 0) (custom already_initialized)
  puts λ _. record {
    discriminator = disc_program_config;
    global_pause = 0;
    bump = bump;
    admin = admin;
    fee_treasury_authority = fee_treasury_authority;
    attestation_signer = attestation_signer;
    default_max_staleness_secs = default_max_staleness_secs;
  }

abbrev pub status_active : ℕ
status_active = 0

-- `source::POLYMARKET` and `source::PYTH`
abbrev pub source_polymarket : ℕ
source_polymarket = 0

abbrev pub source_pyth : ℕ
source_pyth = 3

pub record InstrumentConfig : Type 0 where
  pub discriminator : ℕ
  pub status : ℕ
  pub bump : ℕ
  pub source : ℕ
  pub market_id : ℕ
  pub source_token_id_a : ℕ
  pub source_token_id_b : ℕ
  pub collateral_mint : ℕ
  pub intent_book : ℕ
  pub leverage_bps : ℕ
  pub collateral_bucket : ℕ
  pub twap_window_slots : ℕ
  pub tick_fp : ℕ
  pub liquidation_bps : ℕ
  pub liquidation_bounty_bps : ℕ
  pub max_staleness_secs : ℕ
  pub reference_usd : ℕ

unfoldable pub require_active : InstrumentConfig → Result ⊤
require_active c = if c.status != status_active then err (custom instrument_paused) else ok tt

-- `ALLOWED_LEVERAGE_BPS`
abbrev pub allowed_leverage_bps : List ℕ
allowed_leverage_bps =
    20_000 ∷ 50_000 ∷ 100_000 ∷ 200_000 ∷ 400_000 ∷ 1_000_000 ∷ 2_500_000 ∷ 10_000_000 ∷ []

unfoldable pub is_known : ℕ → Bool
is_known s = s == source_polymarket || s == source_pyth

unfoldable pub validate_bucket_config : ℕ → ℕ → ℕ → Result ⊤
validate_bucket_config leverage_bps collateral_bucket tick_fp =
    if contains leverage_bps allowed_leverage_bps
    then if collateral_bucket == 0
      then err (custom invalid_collateral_bucket)
      else if tick_fp == 0
      then err (custom price_not_tick_aligned)
      else ok tt
    else err (custom invalid_leverage_bucket)

-- The `match source` of `InstrumentConfig::init`.
pub check_reference : ℕ → ℕ → Result ⊤
check_reference source reference_usd =
    if source == source_pyth
    then if reference_usd == 0 then err (custom invalid_instruction_data) else ok tt
    else if source == source_polymarket
    then if reference_usd != 0 then err (custom invalid_instruction_data) else ok tt
    else err (custom invalid_instruction_data)

-- The parameters of `InstrumentConfig::init`.
pub record InstrumentParams : Type 0 where
  pub source : ℕ
  pub market_id : ℕ
  pub source_token_id_a : ℕ
  pub source_token_id_b : ℕ
  pub collateral_mint : ℕ
  pub intent_book : ℕ
  pub leverage_bps : ℕ
  pub collateral_bucket : ℕ
  pub twap_window_slots : ℕ
  pub tick_fp : ℕ
  pub liquidation_bps : ℕ
  pub liquidation_bounty_bps : ℕ
  pub max_staleness_secs : ℕ
  pub reference_usd : ℕ
  pub bump : ℕ

unfoldable pub init_instrument : InstrumentParams → Method InstrumentConfig ⊤
unfolding is_known check_reference validate_bucket_config
init_instrument p = do
  fail_if ((← gets (λ c. c.discriminator)) != 0) (custom already_initialized)
  fail_if (not (is_known p.source)) (custom invalid_instruction_data)
  lift (check_reference p.source p.reference_usd)
  lift (validate_bucket_config p.leverage_bps p.collateral_bucket p.tick_fp)
  puts λ _. record {
    discriminator = disc_instrument_config;
    status = status_active;
    bump = p.bump;
    source = p.source;
    market_id = p.market_id;
    source_token_id_a = p.source_token_id_a;
    source_token_id_b = p.source_token_id_b;
    collateral_mint = p.collateral_mint;
    intent_book = p.intent_book;
    leverage_bps = p.leverage_bps;
    collateral_bucket = p.collateral_bucket;
    twap_window_slots = p.twap_window_slots;
    tick_fp = p.tick_fp;
    liquidation_bps = p.liquidation_bps;
    liquidation_bounty_bps = p.liquidation_bounty_bps;
    max_staleness_secs = p.max_staleness_secs;
    reference_usd = p.reference_usd;
  }
