-- ===== src/Admin/Setup.antt =====
-- The program's configuration and the admin multisig are set up: `process_init_program_config` of
-- src/processor/admin.rs and `process_init_admin_multisig` of src/processor/multisig.rs.
use polyleverage.Base.{ℕ, List, [], ◌∷◌, ◌!=◌, if◌then◌else◌}
use polyleverage.Error.{
  custom, not_enough_account_keys, invalid_account_data, invalid_account_owner,
}
use polyleverage.Method.{err, ⊤, Method, lift, gets, fail_if, ◌>>=◌, ◌>>◌}
use polyleverage.State.Config.{init_config}
use polyleverage.State.Multisig.{admin_multisig_len, init}
use polyleverage.Accounts.{
  World, AccountInfo, Runtime, SystemProgram, seed_config, seed_admin_multisig, assert_signer,
  assert_writable, assert_pda, foreign, is_empty, multisig_layout, program_config_layout,
}
use polyleverage.Fees.{init_at, check_admin}

abbrev pub program_config_len : ℕ
program_config_len = 176

-- A new account is made where there is none; one that is there must be the program's.
unfoldable pub make_or_own : SystemProgram → Runtime → (payer key space : ℕ) → Method World ⊤
make_or_own sys rt payer key space = do
  empty ← gets λ w. is_empty (w key).contents
  program ← gets λ w. (w key).program
  if empty
      then sys.create_account payer key space
      else fail_if (program != rt.program_id) (custom invalid_account_owner)

unfoldable pub init_program_config_with :
    SystemProgram
    → Runtime
    → (admin config fee_treasury_authority system_program : AccountInfo)
    → (attestation_signer default_max_staleness_secs : ℕ) → Method World ⊤
init_program_config_with sys rt admin config fee_treasury_authority system_program
      attestation_signer default_max_staleness_secs =
    do
      lift (assert_signer admin)
      lift (assert_writable admin)
      lift (assert_writable config)
      fail_if (system_program.key != sys.id) invalid_account_data
      bump ← lift (assert_pda rt seed_config config.key)
      make_or_own sys rt admin.key config.key program_config_len
      init_at program_config_layout config.key (
          init_config admin.key attestation_signer fee_treasury_authority.key
            default_max_staleness_secs bump)

unfoldable pub process_init_program_config :
    SystemProgram
    → Runtime
    → List AccountInfo
    → (attestation_signer default_max_staleness_secs : ℕ) → Method World ⊤
process_init_program_config sys rt (a ∷ b ∷ c ∷ d ∷ _) attestation_signer
      default_max_staleness_secs =
    init_program_config_with sys rt a b c d attestation_signer default_max_staleness_secs
process_init_program_config sys rt _ attestation_signer default_max_staleness_secs =
    lift (err not_enough_account_keys)

unfoldable pub init_admin_multisig_with :
    SystemProgram
    → Runtime
    → (admin config ms system_program : AccountInfo) → (signers : List ℕ) → (threshold : ℕ)
    → Method World ⊤
init_admin_multisig_with sys rt admin config ms system_program signers threshold = do
  lift (assert_signer admin)
  lift (assert_writable admin)
  lift (assert_writable ms)
  is_foreign ← gets λ w. foreign rt w (config ∷ [])
  fail_if is_foreign (custom invalid_account_owner)
  fail_if (system_program.key != sys.id) invalid_account_data
  check_admin config.key admin.key
  bump ← lift (assert_pda rt seed_admin_multisig ms.key)
  make_or_own sys rt admin.key ms.key admin_multisig_len
  init_at multisig_layout ms.key (init admin.key signers threshold bump)

unfoldable pub process_init_admin_multisig :
    SystemProgram
    → Runtime
    → List AccountInfo
    → (signers : List ℕ) → (threshold : ℕ) → Method World ⊤
process_init_admin_multisig sys rt (a ∷ b ∷ c ∷ d ∷ _) signers threshold =
    init_admin_multisig_with sys rt a b c d signers threshold
process_init_admin_multisig sys rt _ signers threshold = lift (err not_enough_account_keys)
