-- ===== src/Settlement/Liquidate.antt =====
-- `process_liquidate` of src/processor/settlement.rs.
pub mod Balance
use polyleverage.Base.{
  ℕ, ◌+◌, ◌-◌, ◌*◌, ◌/◌, ◌≡◌, Bool, true, false, ◌||◌, Option, List, [], ◌∷◌, ltb, ◌==◌, ◌!=◌,
  if◌then◌else◌, min, u64_max, saturating_mul, saturating_sub, as_u64, as_i64,
}
use polyleverage.Base.Int.{ℤ, pos, pos_part, ltb_ℤ}
use polyleverage.Error.{
  custom, invalid_account_data, not_enough_account_keys, invalid_account_owner,
  attestation_wrong_type, attestation_wrong_pmlc, attestation_stale, not_liquidatable,
}
use polyleverage.Method.{
  Result, ok, err, ⊤, Method, pure, reads, lift, gets, puts, fail_if, ◌>>=◌, ◌>>◌,
}
use polyleverage.Accounts.{
  World, AccountInfo, Runtime, seed_market_nonce, assert_signer, assert_writable, foreign,
  assert_pda, load, on, margin_layout, instrument_layout, market_nonce_layout, now_unix,
}
use polyleverage.Attestation.{
  att_type_historical_liquidation, attestation_type, nonce, breach_pmlc_pubkey, breach_mark_fp,
  breach_unix_ts, validate_freshness_and_nonce,
}
use polyleverage.Fixed.{bps_denom, pnl_long_atoms, bounded_equity}
use polyleverage.State.Margin.{debit_locked, credit_free}
use polyleverage.State.Pmlc.{Pmlc, size_fp, pmlc_status_liquidated, close_reason_liquidated}
use polyleverage.State.Config.{InstrumentConfig}
use polyleverage.Settlement.{
  validate_margin_pda, unpaused_signer, verified_attestation, live_pmlc, borrow_both, add_pnl,
  sub_pnl, close_pmlc,
}

-- The accounts of the instruction, in order.
pub record LiquidateAccounts : Type 0 where
  pub keeper : AccountInfo
  pub program_config : AccountInfo
  pub sysvar_ix : AccountInfo
  pub instrument : AccountInfo
  pub pmlc : AccountInfo
  pub market_nonce : AccountInfo
  pub long_margin : AccountInfo
  pub short_margin : AccountInfo
  pub keeper_margin : AccountInfo

-- The calls of `next_account_info`.
unfoldable pub unpack : List AccountInfo → Result LiquidateAccounts
unpack (a ∷ b ∷ c ∷ d ∷ e ∷ f ∷ g ∷ h ∷ i ∷ _) = ok (record {
  keeper = a;
  program_config = b;
  sysvar_ix = c;
  instrument = d;
  pmlc = e;
  market_nonce = f;
  long_margin = g;
  short_margin = h;
  keeper_margin = i;
})
unpack _ = err not_enough_account_keys

unfoldable pub check_accounts : Runtime → LiquidateAccounts → Method World ⊤
check_accounts rt a = do
  lift (assert_signer a.keeper)
  lift (assert_writable a.pmlc)
  lift (assert_writable a.market_nonce)
  lift (assert_writable a.long_margin)
  lift (assert_writable a.short_margin)
  lift (assert_writable a.keeper_margin)
  is_foreign ← gets λ w. foreign rt w (
      a.program_config ∷ a.instrument ∷ a.pmlc ∷ a.market_nonce ∷ a.long_margin ∷ a.short_margin
      ∷ a.keeper_margin ∷ [])
  fail_if is_foreign (custom invalid_account_owner)
  fail_if (a.sysvar_ix.key != rt.sysvar_instructions_id) invalid_account_data

-- The attestation is a liquidation of this contract, with a breach that is not in the future.
unfoldable pub check_breach : ℕ → ℕ → List ℕ → Method World ⊤
check_breach pmlc_key now att = do
  fail_if (attestation_type att != att_type_historical_liquidation) (custom attestation_wrong_type)
  bound_to ← lift (breach_pmlc_pubkey att)
  fail_if (bound_to != pmlc_key) (custom attestation_wrong_pmlc)
  breach_ts ← lift (breach_unix_ts att)
  fail_if (ltb_ℤ breach_ts (pos 0) || ltb now (pos_part breach_ts)) (custom attestation_stale)

-- The attestation is fresh and its nonce is used up.
unfoldable pub accept_breach : Runtime → ℕ → InstrumentConfig → List ℕ → Method World ⊤
accept_breach rt nonce_key inst att = do
  lift (assert_pda rt (seed_market_nonce inst.market_id) nonce_key)
  n ← reads (load market_nonce_layout nonce_key)
  lift (
      validate_freshness_and_nonce att inst.market_id n.last_accepted_cre_nonce (now_unix rt)
        inst.max_staleness_secs)
  on market_nonce_layout nonce_key
      (puts λ m. record m { last_accepted_cre_nonce = nonce att; last_accepted_ts = now_unix rt })
  mark ← lift (breach_mark_fp att)
  on market_nonce_layout nonce_key (puts λ m. record m { last_accepted_twap_fp = mark })

-- `x as u128 * bps as u128 / BPS_DENOM as u128) as u64`
abbrev pub bps_of : ℕ → ℕ → ℕ
bps_of x bps = as_u64 (x * bps / bps_denom)

-- Twice the collateral, in `u64`.
abbrev pub pot : Pmlc → ℕ
pot p = saturating_mul u64_max p.collateral_per_side 2

-- Who wins at the mark, if the contract may be liquidated there.
unfoldable pub liquidation_outcome : InstrumentConfig → Pmlc → ℕ → Method World Bool
liquidation_outcome inst p mark = do
  pnl_long ← lift (pnl_long_atoms p.entry_price_fp mark (size_fp p))
  let eq_long = bounded_equity p.collateral_per_side pnl_long
  let eq_short = saturating_sub (pot p) eq_long
  fail_if (ltb (bps_of p.collateral_per_side inst.liquidation_bps) (min eq_long eq_short))
      (custom not_liquidatable)
  pure (ltb eq_short eq_long)

-- The movement of collateral between the two sides.
unfoldable pub pay_winner : Bool → ℕ → ℕ → ℕ → ℕ → ℕ → Method World ⊤
pay_winner true long short c two_c bounty = do
  on margin_layout long (debit_locked c)
  on margin_layout short (debit_locked c)
  on margin_layout long (credit_free (saturating_sub two_c bounty))
  on margin_layout short (sub_pnl (as_i64 c))
  on margin_layout long (add_pnl (as_i64 (saturating_sub c bounty)))
pay_winner false long short c two_c bounty = do
  on margin_layout long (debit_locked c)
  on margin_layout short (debit_locked c)
  on margin_layout short (credit_free (saturating_sub two_c bounty))
  on margin_layout long (sub_pnl (as_i64 c))
  on margin_layout short (add_pnl (as_i64 (saturating_sub c bounty)))

-- `if bounty > 0 { km.credit_free(bounty)? }`
unfoldable pub pay_keeper : ℕ → ℕ → Method World ⊤
pay_keeper keeper_margin bounty =
    if ltb 0 bounty then on margin_layout keeper_margin (credit_free bounty) else pure tt

-- From the winner on: both sides are paid, the contract is closed, the keeper is paid.
unfoldable pub settle_liquidation :
    Runtime → LiquidateAccounts → InstrumentConfig → Pmlc → Bool → Method World ⊤
settle_liquidation rt a inst p long_wins = do
  let c = p.collateral_per_side
  let bounty = bps_of c inst.liquidation_bounty_bps
  validate_margin_pda rt a.long_margin.key p.long_owner inst.collateral_mint
  validate_margin_pda rt a.short_margin.key p.short_owner inst.collateral_mint
  borrow_both a.long_margin.key a.short_margin.key
  pay_winner long_wins a.long_margin.key a.short_margin.key c (pot p) bounty
  close_pmlc a.pmlc.key pmlc_status_liquidated close_reason_liquidated rt.slot
  pay_keeper a.keeper_margin.key bounty

unfoldable pub process_liquidate : Runtime → List AccountInfo → ℕ → Method World ⊤
process_liquidate rt accounts attestation_ix_offset = do
  a ← lift (unpack accounts)
  check_accounts rt a
  signer ← unpaused_signer a.program_config.key
  inst ← reads (load instrument_layout a.instrument.key)
  validate_margin_pda rt a.keeper_margin.key a.keeper.key inst.collateral_mint
  att ← verified_attestation rt a.sysvar_ix.key signer attestation_ix_offset
  check_breach a.pmlc.key (now_unix rt) att
  accept_breach rt a.market_nonce.key inst att
  mark ← lift (breach_mark_fp att)
  p ← live_pmlc a.pmlc.key a.instrument.key inst
  long_wins ← liquidation_outcome inst p mark
  settle_liquidation rt a inst p long_wins
