-- ===== src/Settlement/Resolve.antt =====
-- `process_resolve` of src/processor/settlement.rs.
pub mod Balance
use polyleverage.Base.{
  ℕ, ◌-◌, ◌*◌, ◌/◌, Bool, Option, none, some, List, [], ◌∷◌, ◌==◌, ◌!=◌, if◌then◌else◌, i64_max,
  i128_max, saturating_sub, as_i64, fits_ℤ, saturate_ℤ,
}
use polyleverage.Base.Int.{ℤ, pos, ◌+ℤ◌, ◌-ℤ◌}
use polyleverage.Error.{
  custom, panic, account_borrow_failed, not_enough_account_keys, invalid_account_owner,
  attestation_wrong_type, invalid_instruction_data,
}
use polyleverage.Method.{
  Result, ok, err, ⊤, Method, pure, reads, lift, gets, puts, fail_if, ok_or, ◌>>=◌, ◌>>◌,
}
use polyleverage.Accounts.{
  World, AccountInfo, Runtime, seed_market_nonce, assert_signer, assert_writable, foreign,
  assert_pda, load, on, margin_layout, instrument_layout, market_nonce_layout, now_unix,
}
use polyleverage.Attestation.{
  att_type_resolution, attestation_type, nonce, final_outcome_bps, validate_freshness_and_nonce,
}
use polyleverage.Fixed.{price_one, pnl_long_atoms, bounded_equity}
use polyleverage.State.Margin.{MarginAccount, debit_locked, credit_free}
use polyleverage.State.Pmlc.{Pmlc, size_fp, pmlc_status_resolved, close_reason_resolved}
use polyleverage.State.Config.{InstrumentConfig}
use polyleverage.Settlement.{
  validate_margin_pda, unpaused_signer, verified_attestation, live_pmlc, close_pmlc,
}
use polyleverage.Settlement.Liquidate.{pot}

-- The accounts of the instruction, in order.
pub record ResolveAccounts : Type 0 where
  pub caller : AccountInfo
  pub program_config : AccountInfo
  pub sysvar_ix : AccountInfo
  pub instrument : AccountInfo
  pub pmlc : AccountInfo
  pub market_nonce : AccountInfo
  pub long_margin : AccountInfo
  pub short_margin : AccountInfo

-- The calls of `next_account_info`.
unfoldable pub unpack : List AccountInfo → Result ResolveAccounts
unpack (a ∷ b ∷ c ∷ d ∷ e ∷ f ∷ g ∷ h ∷ _) = ok (record {
  caller = a;
  program_config = b;
  sysvar_ix = c;
  instrument = d;
  pmlc = e;
  market_nonce = f;
  long_margin = g;
  short_margin = h;
})
unpack _ = err not_enough_account_keys

unfoldable pub check_accounts : Runtime → ResolveAccounts → Method World ⊤
check_accounts rt a = do
  lift (assert_signer a.caller)
  lift (assert_writable a.pmlc)
  lift (assert_writable a.market_nonce)
  lift (assert_writable a.long_margin)
  lift (assert_writable a.short_margin)
  is_foreign ← gets λ w. foreign rt w (
      a.program_config ∷ a.instrument ∷ a.pmlc ∷ a.market_nonce ∷ a.long_margin ∷ a.short_margin
      ∷ [])
  fail_if is_foreign (custom invalid_account_owner)

-- The attestation is fresh, its nonce is used up, and the market is marked as resolved.
unfoldable pub accept_resolution : Runtime → ℕ → InstrumentConfig → List ℕ → Method World ⊤
accept_resolution rt nonce_key inst att = do
  lift (assert_pda rt (seed_market_nonce inst.market_id) nonce_key)
  n ← reads (load market_nonce_layout nonce_key)
  lift (
      validate_freshness_and_nonce att inst.market_id n.last_accepted_cre_nonce (now_unix rt)
        inst.max_staleness_secs)
  on market_nonce_layout nonce_key
      (puts λ m. record m { last_accepted_cre_nonce = nonce att; last_accepted_ts = now_unix rt })
  outcome ← lift (final_outcome_bps att)
  on market_nonce_layout nonce_key
      (puts λ m. record m { final_outcome_bps = outcome; is_resolved = 1 })

-- The terminal mark of an outcome.
unfoldable pub final_mark : ℕ → Result ℕ
final_mark outcome =
    if outcome == 0
    then ok 0
    else if outcome == 5000
    then ok (price_one / 2)
    else if outcome == 10000
    then ok (saturating_sub price_one 1)
    else err (custom invalid_instruction_data)

-- The profit of the long side; at the two extreme outcomes it is more than the bounds let through.
unfoldable pub resolution_pnl : ℕ → ℕ → Pmlc → Result ℤ
resolution_pnl outcome final_fp p =
    if outcome == 0
    then ok (pos 0 -ℤ saturate_ℤ i128_max (pos (p.collateral_per_side * 2)))
    else if outcome == 10000
    then ok (saturate_ℤ i128_max (pos (p.collateral_per_side * 2)))
    else pnl_long_atoms p.entry_price_fp final_fp (size_fp p)

-- `realized_pnl.saturating_add(eq as i64 - c as i64)`; the subtraction is checked.
unfoldable pub note_result : ℕ → ℕ → Method MarginAccount ⊤
note_result eq c = do
  change ← ok_or (fits_ℤ i64_max (as_i64 eq -ℤ as_i64 c)) panic
  puts λ m. record m { realized_pnl = saturate_ℤ i64_max (m.realized_pnl +ℤ change) }

-- One side's collateral is unlocked as its equity.
unfoldable pub settle_side : ℕ → ℕ → Method MarginAccount ⊤
settle_side c eq = do debit_locked c; credit_free eq; note_result eq c

-- From the check of the margin accounts on.
unfoldable pub settle_resolution :
    Runtime → ResolveAccounts → InstrumentConfig → Pmlc → ℕ → Method World ⊤
settle_resolution rt a inst p eq_long = do
  let c = p.collateral_per_side
  validate_margin_pda rt a.long_margin.key p.long_owner inst.collateral_mint
  validate_margin_pda rt a.short_margin.key p.short_owner inst.collateral_mint
  on margin_layout a.long_margin.key (settle_side c eq_long)
  fail_if (a.long_margin.key == a.short_margin.key) account_borrow_failed
  on margin_layout a.short_margin.key (settle_side c (saturating_sub (pot p) eq_long))
  close_pmlc a.pmlc.key pmlc_status_resolved close_reason_resolved rt.slot

unfoldable pub process_resolve : Runtime → List AccountInfo → ℕ → Method World ⊤
process_resolve rt accounts attestation_ix_offset = do
  a ← lift (unpack accounts)
  check_accounts rt a
  signer ← unpaused_signer a.program_config.key
  inst ← reads (load instrument_layout a.instrument.key)
  att ← verified_attestation rt a.sysvar_ix.key signer attestation_ix_offset
  fail_if (attestation_type att != att_type_resolution) (custom attestation_wrong_type)
  accept_resolution rt a.market_nonce.key inst att
  outcome ← lift (final_outcome_bps att)
  final_fp ← lift (final_mark outcome)
  p ← live_pmlc a.pmlc.key a.instrument.key inst
  pnl_long ← lift (resolution_pnl outcome final_fp p)
  settle_resolution rt a inst p (bounded_equity p.collateral_per_side pnl_long)
