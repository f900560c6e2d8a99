-- ===== src/Error/Codes.antt =====
-- The codes of the errors (src/error.rs).
use polyleverage.Base.{ℕ, ◌≡◌, refl, sym, ap, ◌∙◌, ◌==◌, if◌then◌else◌}
use polyleverage.Error.{
  PolyleverageError, error_code, invalid_program_config, invalid_admin_signer, invalid_pda,
  invalid_account_owner, already_initialized, not_initialized, missing_signer, invalid_mint,
  invalid_vault, invalid_token_account_owner, account_data_too_small, insufficient_free_collateral,
  insufficient_reserved_collateral, insufficient_locked_collateral, instrument_paused,
  global_paused, invalid_leverage_bucket, invalid_collateral_bucket, invalid_price_range,
  price_not_tick_aligned, intent_expired, intent_not_found, intent_book_full,
  invalid_contract_count, not_opposite_sides, instrument_mismatch, no_range_overlap,
  arithmetic_overflow, arithmetic_underflow, division_by_zero, pmlc_not_live, not_liquidatable,
  invalid_pmlc_side, missing_ed25519_verify, ed25519_pubkey_mismatch, ed25519_message_mismatch,
  attestation_bad_magic, attestation_wrong_type, attestation_wrong_market, attestation_stale,
  attestation_nonce_replayed, attestation_wrong_pmlc, fee_schedule_not_initialized,
  fee_increase_blocked, fee_accounts_required, timelock_not_executable, timelock_payload_mismatch,
  insufficient_multisig_approvals, invalid_multisig_config, bucket_not_in_registry,
  stablecoin_not_accepted, stablecoin_decimals_mismatch, insufficient_stablecoin_reserve,
  session_not_active, session_delegate_mismatch, session_owner_mismatch,
  session_instrument_not_allowed, session_per_intent_cap_exceeded, session_cumulative_cap_exceeded,
  unsupported_instruction, invalid_instruction_data,
}

-- The value with a given code; any value for a number that is no code.
of_code : ℕ → PolyleverageError
of_code n =
    if n == 0
    then invalid_program_config
    else if n == 1
    then invalid_admin_signer
    else if n == 2
    then invalid_pda
    else if n == 3
    then invalid_account_owner
    else if n == 4
    then already_initialized
    else if n == 5
    then not_initialized
    else if n == 6
    then missing_signer
    else if n == 7
    then invalid_mint
    else if n == 8
    then invalid_vault
    else if n == 9
    then invalid_token_account_owner
    else if n == 10
    then account_data_too_small
    else if n == 100
    then insufficient_free_collateral
    else if n == 101
    then insufficient_reserved_collateral
    else if n == 102
    then insufficient_locked_collateral
    else if n == 103
    then instrument_paused
    else if n == 104
    then global_paused
    else if n == 105
    then invalid_leverage_bucket
    else if n == 106
    then invalid_collateral_bucket
    else if n == 107
    then invalid_price_range
    else if n == 108
    then price_not_tick_aligned
    else if n == 109
    then intent_expired
    else if n == 110
    then intent_not_found
    else if n == 111
    then intent_book_full
    else if n == 112
    then invalid_contract_count
    else if n == 200
    then not_opposite_sides
    else if n == 201
    then instrument_mismatch
    else if n == 202
    then no_range_overlap
    else if n == 203
    then arithmetic_overflow
    else if n == 204
    then arithmetic_underflow
    else if n == 205
    then division_by_zero
    else if n == 300
    then pmlc_not_live
    else if n == 301
    then not_liquidatable
    else if n == 302
    then invalid_pmlc_side
    else if n == 400
    then missing_ed25519_verify
    else if n == 401
    then ed25519_pubkey_mismatch
    else if n == 402
    then ed25519_message_mismatch
    else if n == 403
    then attestation_bad_magic
    else if n == 404
    then attestation_wrong_type
    else if n == 405
    then attestation_wrong_market
    else if n == 406
    then attestation_stale
    else if n == 407
    then attestation_nonce_replayed
    else if n == 408
    then attestation_wrong_pmlc
    else if n == 500
    then fee_schedule_not_initialized
    else if n == 501
    then fee_increase_blocked
    else if n == 502
    then fee_accounts_required
    else if n == 600
    then timelock_not_executable
    else if n == 601
    then timelock_payload_mismatch
    else if n == 700
    then insufficient_multisig_approvals
    else if n == 701
    then invalid_multisig_config
    else if n == 710
    then bucket_not_in_registry
    else if n == 720
    then stablecoin_not_accepted
    else if n == 721
    then stablecoin_decimals_mismatch
    else if n == 722
    then insufficient_stablecoin_reserve
    else if n == 800
    then session_not_active
    else if n == 801
    then session_delegate_mismatch
    else if n == 802
    then session_owner_mismatch
    else if n == 803
    then session_instrument_not_allowed
    else if n == 804
    then session_per_intent_cap_exceeded
    else if n == 805
    then session_cumulative_cap_exceeded
    else if n == 900
    then unsupported_instruction
    else invalid_instruction_data

of_code-error_code : (e : PolyleverageError) → of_code (error_code e) ≡ e
unfolding of_code error_code
of_code-error_code invalid_program_config = refl
of_code-error_code invalid_admin_signer = refl
of_code-error_code invalid_pda = refl
of_code-error_code invalid_account_owner = refl
of_code-error_code already_initialized = refl
of_code-error_code not_initialized = refl
of_code-error_code missing_signer = refl
of_code-error_code invalid_mint = refl
of_code-error_code invalid_vault = refl
of_code-error_code invalid_token_account_owner = refl
of_code-error_code account_data_too_small = refl
of_code-error_code insufficient_free_collateral = refl
of_code-error_code insufficient_reserved_collateral = refl
of_code-error_code insufficient_locked_collateral = refl
of_code-error_code instrument_paused = refl
of_code-error_code global_paused = refl
of_code-error_code invalid_leverage_bucket = refl
of_code-error_code invalid_collateral_bucket = refl
of_code-error_code invalid_price_range = refl
of_code-error_code price_not_tick_aligned = refl
of_code-error_code intent_expired = refl
of_code-error_code intent_not_found = refl
of_code-error_code intent_book_full = refl
of_code-error_code invalid_contract_count = refl
of_code-error_code not_opposite_sides = refl
of_code-error_code instrument_mismatch = refl
of_code-error_code no_range_overlap = refl
of_code-error_code arithmetic_overflow = refl
of_code-error_code arithmetic_underflow = refl
of_code-error_code division_by_zero = refl
of_code-error_code pmlc_not_live = refl
of_code-error_code not_liquidatable = refl
of_code-error_code invalid_pmlc_side = refl
of_code-error_code missing_ed25519_verify = refl
of_code-error_code ed25519_pubkey_mismatch = refl
of_code-error_code ed25519_message_mismatch = refl
of_code-error_code attestation_bad_magic = refl
of_code-error_code attestation_wrong_type = refl
of_code-error_code attestation_wrong_market = refl
of_code-error_code attestation_stale = refl
of_code-error_code attestation_nonce_replayed = refl
of_code-error_code attestation_wrong_pmlc = refl
of_code-error_code fee_schedule_not_initialized = refl
of_code-error_code fee_increase_blocked = refl
of_code-error_code fee_accounts_required = refl
of_code-error_code timelock_not_executable = refl
of_code-error_code timelock_payload_mismatch = refl
of_code-error_code insufficient_multisig_approvals = refl
of_code-error_code invalid_multisig_config = refl
of_code-error_code bucket_not_in_registry = refl
of_code-error_code stablecoin_not_accepted = refl
of_code-error_code stablecoin_decimals_mismatch = refl
of_code-error_code insufficient_stablecoin_reserve = refl
of_code-error_code session_not_active = refl
of_code-error_code session_delegate_mismatch = refl
of_code-error_code session_owner_mismatch = refl
of_code-error_code session_instrument_not_allowed = refl
of_code-error_code session_per_intent_cap_exceeded = refl
of_code-error_code session_cumulative_cap_exceeded = refl
of_code-error_code unsupported_instruction = refl
of_code-error_code invalid_instruction_data = refl

-- Two errors with the same code are the same error.
pub error_code-injective : (e f : PolyleverageError) → error_code e ≡ error_code f → e ≡ f
error_code-injective e f h = sym (of_code-error_code e) ∙ ap of_code h ∙ of_code-error_code f
