-- ===== src/Fees.antt =====
-- The fee schedule and the treasury are set up, changed and swept (src/processor/fees.rs).
pub mod Sweeping
pub mod Capped
use polyleverage.Base.{ℕ, ◌||◌, not, none, some, List, [], ◌∷◌, ltb, ◌==◌, ◌!=◌, if◌then◌else◌}
use polyleverage.Error.{
  custom, not_enough_account_keys, invalid_account_data, invalid_account_owner,
  invalid_admin_signer, already_initialized, account_data_too_small, fee_increase_blocked,
  invalid_instruction_data, invalid_token_account_owner, invalid_pda,
}
use polyleverage.Method.{err, ⊤, Method, reads, lift, gets, puts, fail_if, ◌>>=◌, ◌>>◌}
use polyleverage.State.Fees.{
  FeeTier, FeeSchedule, FeeTreasury, init_schedule, validate_tiers, compute_max_fee_bps,
  init_treasury, sweep,
}
use polyleverage.Accounts.{
  World, AccountInfo, Runtime, SystemProgram, Layout, seed_fee_schedule, seed_treasury, seed_vault,
  assert_signer, assert_writable, assert_pda, foreign, is_empty, load, store, on,
  program_config_layout, fee_schedule_layout, fee_treasury_layout,
}
use polyleverage.Custody.{TokenProgram, token_view, unpack_token}

abbrev pub fee_schedule_len : ℕ
fee_schedule_len = 184

abbrev pub fee_treasury_len : ℕ
fee_treasury_len = 88

-- `T::init` on the account's data, which `try_cast_mut` reads without looking at the mark.
unfoldable pub init_at : {T : Type 0} → Layout T → ℕ → Method T ⊤ → Method World ⊤
init_at L k init w = elim (L.view (w k).contents) [
  | none ↦ (err (custom account_data_too_small), w)
  | some t ↦ let (r, u) = init t in (r, store L k u w)
]

-- `cfg.admin != *admin.key`
unfoldable pub check_admin : (config_key admin : ℕ) → Method World ⊤
check_admin config_key admin = do
  cfg ← reads (load program_config_layout config_key)
  fail_if (cfg.admin != admin) (custom invalid_admin_signer)

unfoldable pub init_fee_schedule_with :
    SystemProgram
    → Runtime
    → (admin program_config fee_schedule_ai system_program : AccountInfo) → (tiers : List FeeTier)
    → Method World ⊤
init_fee_schedule_with sys rt admin program_config fee_schedule_ai system_program tiers = do
  lift (assert_signer admin)
  lift (assert_writable admin)
  lift (assert_writable fee_schedule_ai)
  is_foreign ← gets λ w. foreign rt w (program_config ∷ [])
  fail_if is_foreign (custom invalid_account_owner)
  fail_if (system_program.key != sys.id) invalid_account_data
  check_admin program_config.key admin.key
  lift (validate_tiers tiers)
  bump ← lift (assert_pda rt seed_fee_schedule fee_schedule_ai.key)
  empty ← gets λ w. is_empty (w fee_schedule_ai.key).contents
  fail_if (not empty) (custom already_initialized)
  sys.create_account admin.key fee_schedule_ai.key fee_schedule_len
  init_at fee_schedule_layout fee_schedule_ai.key (init_schedule tiers rt.slot bump)

unfoldable pub process_init_fee_schedule :
    SystemProgram → Runtime → List AccountInfo → (tiers : List FeeTier) → Method World ⊤
process_init_fee_schedule sys rt (a ∷ b ∷ c ∷ d ∷ _) tiers =
    init_fee_schedule_with sys rt a b c d tiers
process_init_fee_schedule sys rt _ tiers = lift (err not_enough_account_keys)

-- The new tiers, unless they raise the greatest fee.
unfoldable pub replace_tiers : (now_slot : ℕ) → List FeeTier → Method FeeSchedule ⊤
replace_tiers now_slot new_tiers = do
  max_fee ← gets λ s. s.max_tier_fee_bps
  let new_max = compute_max_fee_bps new_tiers
  fail_if (ltb max_fee new_max) (custom fee_increase_blocked)
  puts λ s. record s { tiers = new_tiers; max_tier_fee_bps = new_max; last_updated_slot = now_slot }

unfoldable pub set_fee_schedule_with :
    Runtime → (admin program_config fee_schedule_ai : AccountInfo) → List FeeTier → Method World ⊤
set_fee_schedule_with rt admin program_config fee_schedule_ai tiers = do
  lift (assert_signer admin)
  lift (assert_writable fee_schedule_ai)
  is_foreign ← gets λ w. foreign rt w (program_config ∷ fee_schedule_ai ∷ [])
  fail_if is_foreign (custom invalid_account_owner)
  check_admin program_config.key admin.key
  lift (validate_tiers tiers)
  on fee_schedule_layout fee_schedule_ai.key (replace_tiers rt.slot tiers)

unfoldable pub process_set_fee_schedule : Runtime → List AccountInfo → List FeeTier → Method World ⊤
process_set_fee_schedule rt (a ∷ b ∷ c ∷ _) tiers = set_fee_schedule_with rt a b c tiers
process_set_fee_schedule rt _ tiers = lift (err not_enough_account_keys)

pub record SweepAccounts : Type 0 where
  pub admin : AccountInfo
  pub program_config : AccountInfo
  pub treasury : AccountInfo
  pub vault_ata : AccountInfo
  pub dest_ata : AccountInfo
  pub mint : AccountInfo
  pub vault_authority : AccountInfo
  pub token_program : AccountInfo

unfoldable pub check_sweep : TokenProgram → Runtime → SweepAccounts → Method World ⊤
check_sweep tp rt a = do
  lift (assert_signer a.admin)
  lift (assert_writable a.treasury)
  lift (assert_writable a.vault_ata)
  lift (assert_writable a.dest_ata)
  is_foreign ← gets λ w. foreign rt w (a.program_config ∷ a.treasury ∷ [])
  fail_if is_foreign (custom invalid_account_owner)
  fail_if (a.token_program.key != tp.id) invalid_account_data
  check_admin a.program_config.key a.admin.key
  lift (assert_pda rt (seed_vault a.mint.key) a.vault_authority.key)
  lift (assert_pda rt (seed_treasury a.mint.key) a.treasury.key)
  acc ← reads λ w. unpack_token tp (token_view (w a.vault_ata.key).contents)
  fail_if (acc.owner != a.vault_authority.key || acc.mint != a.mint.key)
      (custom invalid_token_account_owner)

unfoldable pub sweep_of : (mint amount : ℕ) → Method FeeTreasury ⊤
sweep_of mint amount = do
  fail_if ((← gets λ t. t.collateral_mint) != mint) (custom invalid_pda)
  sweep amount

unfoldable pub sweep_with : TokenProgram → Runtime → SweepAccounts → ℕ → Method World ⊤
sweep_with tp rt a amount = do
  check_sweep tp rt a
  on fee_treasury_layout a.treasury.key (sweep_of a.mint.key amount)
  tp.transfer a.vault_ata.key a.dest_ata.key a.vault_authority.key amount

unfoldable pub process_sweep_fees : TokenProgram → Runtime → List AccountInfo → ℕ → Method World ⊤
process_sweep_fees tp rt (a ∷ b ∷ c ∷ d ∷ e ∷ f ∷ g ∷ h ∷ _) amount = do
  fail_if (amount == 0) (custom invalid_instruction_data)
  sweep_with tp rt
      (record {
        admin = a;
        program_config = b;
        treasury = c;
        vault_ata = d;
        dest_ata = e;
        mint = f;
        vault_authority = g;
        token_program = h;
      })
      amount
process_sweep_fees tp rt _ amount = do
  fail_if (amount == 0) (custom invalid_instruction_data)
  lift (err not_enough_account_keys)

-- `treasury.collateral_mint != *mint || treasury.bump != bump` on the treasury that exists.
unfoldable pub check_treasury : Runtime → (treasury_key mint bump : ℕ) → Method World ⊤
check_treasury rt treasury_key mint bump = do
  owner ← gets λ w. (w treasury_key).program
  fail_if (owner != rt.program_id) (custom invalid_account_owner)
  t ← reads (load fee_treasury_layout treasury_key)
  fail_if (t.collateral_mint != mint || t.bump != bump) (custom invalid_pda)

unfoldable pub ensure_fee_treasury :
    SystemProgram → Runtime → (payer treasury_key mint : ℕ) → Method World ⊤
ensure_fee_treasury sys rt payer treasury_key mint = do
  bump ← lift (assert_pda rt (seed_treasury mint) treasury_key)
  empty ← gets λ w. is_empty (w treasury_key).contents
  if not empty then check_treasury rt treasury_key mint bump else do
    sys.create_account payer treasury_key fee_treasury_len
    init_at fee_treasury_layout treasury_key (init_treasury mint bump)
