-- ===== src/Settlement.antt =====
-- Settlement of a contract (src/processor/settlement.rs): the parts that `process_liquidate` and
-- `process_resolve` share. Each handler is a child module; log messages are left out.
pub mod Holdings
pub mod Liquidate
pub mod Resolve
use polyleverage.Base.{
  ℕ, ◌+◌, ◌≡◌, Bool, true, false, ◌||◌, Option, none, some, List, [], ◌∷◌, ◌==◌, ◌!=◌,
  if◌then◌else◌, i64_max, as_i64, fits_ℤ, saturate_ℤ,
}
use polyleverage.Base.Int.{ℤ, ◌+ℤ◌, ◌-ℤ◌}
use polyleverage.Error.{
  ProgramError, custom, panic, account_borrow_failed, invalid_pda, global_paused,
  missing_ed25519_verify, attestation_wrong_type,
}
use polyleverage.Method.{
  Result, ok, err, ⊤, Method, pure, reads, lift, gets, puts, fail_if, ◌>>=◌, ◌>>◌,
}
use polyleverage.Accounts.{
  World, Runtime, seed_margin, seed_market_nonce, assert_pda, load, on, margin_layout, pmlc_layout,
  program_config_layout, market_nonce_layout, now_unix,
}
use polyleverage.Attestation.{
  extract_verified_ed25519_message, parse, nonce, validate_freshness_and_nonce,
}
use polyleverage.State.Margin.{MarginAccount}
use polyleverage.State.Market.{MarketNonce}
use polyleverage.State.Pmlc.{Pmlc, require_live}
use polyleverage.State.Config.{InstrumentConfig}

unfoldable pub validate_margin_pda : Runtime → ℕ → ℕ → ℕ → Method World ⊤
validate_margin_pda rt margin_key owner mint = do
  bump ← lift (assert_pda rt (seed_margin owner mint) margin_key)
  m ← reads (load margin_layout margin_key)
  fail_if (m.owner != owner || (m.collateral_mint != mint || m.bump != bump)) (custom invalid_pda)

-- The snapshot of the program's configuration: the attestor's key, unless all is paused.
unfoldable pub unpaused_signer : ℕ → Method World ℕ
unpaused_signer config_key = do
  cfg ← reads (load program_config_layout config_key)
  fail_if (cfg.global_pause != 0) (custom global_paused)
  pure cfg.attestation_signer

-- `verify_via_ed25519_sysvar`
unfoldable pub verify_via_ed25519_sysvar : Runtime → ℕ → ℕ → ℕ → Result (List ℕ)
verify_via_ed25519_sysvar rt sysvar_key expected_pubkey ix_index =
    elim (rt.load_instruction_at sysvar_key ix_index) [
      | none ↦ err (custom missing_ed25519_verify)
      | some (program, bytes) ↦
          if program != rt.ed25519_program_id
          then err (custom missing_ed25519_verify)
          else extract_verified_ed25519_message bytes expected_pubkey
    ]

-- The verified message of an instruction, parsed.
unfoldable pub verified_attestation : Runtime → ℕ → ℕ → ℕ → Method World (List ℕ)
verified_attestation rt sysvar_key signer ix_index = do
  message ← lift (verify_via_ed25519_sysvar rt sysvar_key signer ix_index)
  lift (parse message)

-- The contract, live and of this instrument.
unfoldable pub live_pmlc : ℕ → ℕ → InstrumentConfig → Method World Pmlc
live_pmlc pmlc_key instrument_key inst = do
  p ← reads (load pmlc_layout pmlc_key)
  lift (require_live p)
  fail_if
      (p.instrument != instrument_key
        || (p.market_id != inst.market_id || p.collateral_mint != inst.collateral_mint))
      (custom invalid_pda)
  pure p

-- Both margin accounts are borrowed and loaded; one account cannot be borrowed twice.
unfoldable pub borrow_both : ℕ → ℕ → Method World ⊤
borrow_both long_key short_key = do
  reads (load margin_layout long_key)
  fail_if (long_key == short_key) account_borrow_failed
  reads (load margin_layout short_key)
  pure tt

-- `realized_pnl.saturating_add(v)` and `saturating_sub(v)`
abbrev pub add_pnl : ℤ → Method MarginAccount ⊤
add_pnl v = puts λ m. record m { realized_pnl = saturate_ℤ i64_max (m.realized_pnl +ℤ v) }

abbrev pub sub_pnl : ℤ → Method MarginAccount ⊤
sub_pnl v = puts λ m. record m { realized_pnl = saturate_ℤ i64_max (m.realized_pnl -ℤ v) }

-- The contract is marked closed.
unfoldable pub close_pmlc : ℕ → ℕ → ℕ → ℕ → Method World ⊤
close_pmlc pmlc_key status close_reason slot =
    on pmlc_layout pmlc_key
      (puts λ p. record p { status = status; close_reason = close_reason; last_mark_slot = slot })
