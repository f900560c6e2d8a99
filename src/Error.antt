-- ===== src/Error.antt =====
-- The program's error values: `enum PolyleverageError` of src/error.rs, and the runtime's
-- `ProgramError` that the handlers return.
pub mod Codes
use polyleverage.Base.{ℕ}

-- `enum PolyleverageError`
pub data PolyleverageError : Type 0 where
  invalid_program_config invalid_admin_signer invalid_pda invalid_account_owner : PolyleverageError
  already_initialized not_initialized missing_signer invalid_mint invalid_vault : PolyleverageError
  invalid_token_account_owner account_data_too_small insufficient_free_collateral :
      PolyleverageError
  insufficient_reserved_collateral insufficient_locked_collateral : PolyleverageError
  instrument_paused global_paused invalid_leverage_bucket : PolyleverageError
  invalid_collateral_bucket invalid_price_range price_not_tick_aligned : PolyleverageError
  intent_expired intent_not_found intent_book_full invalid_contract_count : PolyleverageError
  not_opposite_sides instrument_mismatch no_range_overlap arithmetic_overflow : PolyleverageError
  arithmetic_underflow division_by_zero pmlc_not_live not_liquidatable : PolyleverageError
  invalid_pmlc_side missing_ed25519_verify ed25519_pubkey_mismatch : PolyleverageError
  ed25519_message_mismatch attestation_bad_magic attestation_wrong_type : PolyleverageError
  attestation_wrong_market attestation_stale attestation_nonce_replayed : PolyleverageError
  attestation_wrong_pmlc fee_schedule_not_initialized fee_increase_blocked : PolyleverageError
  fee_accounts_required timelock_not_executable timelock_payload_mismatch : PolyleverageError
  insufficient_multisig_approvals invalid_multisig_config bucket_not_in_registry : PolyleverageError
  stablecoin_not_accepted stablecoin_decimals_mismatch : PolyleverageError
  insufficient_stablecoin_reserve session_not_active session_delegate_mismatch : PolyleverageError
  session_owner_mismatch session_instrument_not_allowed : PolyleverageError
  session_per_intent_cap_exceeded session_cumulative_cap_exceeded : PolyleverageError
  unsupported_instruction invalid_instruction_data : PolyleverageError

-- The variants of the runtime's `ProgramError` that the program returns: `Custom`, by the value that
-- the code is taken from, and the built-in ones. `panic` stands for an abort, by an arithmetic
-- overflow under `overflow-checks` or an index out of bounds.
pub data ProgramError : Type 0 where
  custom : PolyleverageError → ProgramError
  invalid_account_data not_enough_account_keys account_borrow_failed : ProgramError
  panic : ProgramError

-- `e as u32`, the number in `ProgramError::Custom`.
unfoldable pub error_code : PolyleverageError → ℕ
error_code invalid_program_config = 0
error_code invalid_admin_signer = 1
error_code invalid_pda = 2
error_code invalid_account_owner = 3
error_code already_initialized = 4
error_code not_initialized = 5
error_code missing_signer = 6
error_code invalid_mint = 7
error_code invalid_vault = 8
error_code invalid_token_account_owner = 9
error_code account_data_too_small = 10
error_code insufficient_free_collateral = 100
error_code insufficient_reserved_collateral = 101
error_code insufficient_locked_collateral = 102
error_code instrument_paused = 103
error_code global_paused = 104
error_code invalid_leverage_bucket = 105
error_code invalid_collateral_bucket = 106
error_code invalid_price_range = 107
error_code price_not_tick_aligned = 108
error_code intent_expired = 109
error_code intent_not_found = 110
error_code intent_book_full = 111
error_code invalid_contract_count = 112
error_code not_opposite_sides = 200
error_code instrument_mismatch = 201
error_code no_range_overlap = 202
error_code arithmetic_overflow = 203
error_code arithmetic_underflow = 204
error_code division_by_zero = 205
error_code pmlc_not_live = 300
error_code not_liquidatable = 301
error_code invalid_pmlc_side = 302
error_code missing_ed25519_verify = 400
error_code ed25519_pubkey_mismatch = 401
error_code ed25519_message_mismatch = 402
error_code attestation_bad_magic = 403
error_code attestation_wrong_type = 404
error_code attestation_wrong_market = 405
error_code attestation_stale = 406
error_code attestation_nonce_replayed = 407
error_code attestation_wrong_pmlc = 408
error_code fee_schedule_not_initialized = 500
error_code fee_increase_blocked = 501
error_code fee_accounts_required = 502
error_code timelock_not_executable = 600
error_code timelock_payload_mismatch = 601
error_code insufficient_multisig_approvals = 700
error_code invalid_multisig_config = 701
error_code bucket_not_in_registry = 710
error_code stablecoin_not_accepted = 720
error_code stablecoin_decimals_mismatch = 721
error_code insufficient_stablecoin_reserve = 722
error_code session_not_active = 800
error_code session_delegate_mismatch = 801
error_code session_owner_mismatch = 802
error_code session_instrument_not_allowed = 803
error_code session_per_intent_cap_exceeded = 804
error_code session_cumulative_cap_exceeded = 805
error_code unsupported_instruction = 900
error_code invalid_instruction_data = 901
