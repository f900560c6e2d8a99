-- ===== src/Tests/Settle.antt =====
-- One contract, live between two traders, that is liquidated and, in another run, resolved.
use polyleverage.Base.{
  ℕ, ◌+◌, ◌-◌, ◌≡◌, refl, true, none, some, List, [], ◌∷◌, ◌++◌, arith, fill, ◌==◌, if◌then◌else◌,
}
use polyleverage.Base.Bytes.{to_le_bytes}
use polyleverage.Base.Int.{pos}
use polyleverage.Base.Int.{◌+ℤ◌, ◌-ℤ◌, ◌*ℤ◌, div_ℤ}
use polyleverage.Method.{ok}
use polyleverage.Fixed.{pnl_long_atoms, bounded_equity}
use polyleverage.Attestation.{
  att_type_historical_liquidation, att_type_resolution, extract_verified_ed25519_message,
  check_header, check_ranges, parse, bytes_eq, attestation_type, validate_freshness_and_nonce,
  timestamp, nonce, breach_pmlc_pubkey, breach_mark_fp, breach_unix_ts, final_outcome_bps,
}
use polyleverage.Attestation.Layout.{build_attestation, breach_payload}
use polyleverage.State.Margin.{MarginAccount, disc_margin_account, debit_locked, credit_free}
use polyleverage.State.Market.{disc_market_nonce}
use polyleverage.State.Pmlc.{Pmlc, disc_pmlc, require_live, size_fp}
use polyleverage.State.Config.{InstrumentConfig, disc_program_config, disc_instrument_config}
use polyleverage.Accounts.{
  Contents, margin, market_nonce, pmlc, program_config, instrument, other, World, AccountInfo,
  Seeds, seed_margin, seed_market_nonce, seed_config, seed_admin_multisig, seed_timelock,
  seed_session, seed_pmlc, seed_fee_schedule, seed_user_volume, seed_treasury, seed_vault, Runtime,
  load, check_loaded, foreign, on, store,
}
use polyleverage.Accounts.Held.{total_held}
use polyleverage.Settlement.{
  validate_margin_pda, verified_attestation, verify_via_ed25519_sysvar, unpaused_signer, live_pmlc,
  close_pmlc, borrow_both,
}
use polyleverage.Settlement.Liquidate.{
  LiquidateAccounts, process_liquidate, check_breach, accept_breach, liquidation_outcome,
  settle_liquidation, pay_winner, pay_keeper,
}
use polyleverage.Settlement.Liquidate.Balance.{
  process_liquidate-total_held, process_liquidate-conserves, PaysOut,
}
use polyleverage.Settlement.Resolve.{
  ResolveAccounts, process_resolve, accept_resolution, final_mark, resolution_pnl,
  settle_resolution, settle_side, note_result,
}
use polyleverage.Settlement.Resolve.Balance.{process_resolve-conserves}

-- A key of 32 bytes.
abbrev pub key_bytes : ℕ → List ℕ
key_bytes k = fill 31 0 [] ++ (k ∷ [])

abbrev pub margin_of : ℕ → ℕ → MarginAccount
margin_of owner locked = record {
  discriminator = disc_margin_account;
  bump = 255;
  owner = owner;
  collateral_mint = 30;
  free_collateral = 7;
  reserved_collateral = 0;
  locked_collateral = locked;
  realized_pnl = pos 0;
}

abbrev pub contract : Pmlc
contract = record {
  discriminator = disc_pmlc;
  status = 0;
  close_reason = 0;
  flags = 0;
  bump = 250;
  id = 1;
  instrument = 2;
  collateral_mint = 30;
  market_id = 7;
  long_owner = 21;
  short_owner = 22;
  collateral_per_side = 1_000_000;
  leverage_bps = 50_000;
  entry_price_fp = 500_000_000_000_000_000;
  notional_atoms = 5_000_000;
  size_fp_lo = 10_000_000;
  size_fp_hi = 0;
  opened_slot = 10;
  last_mark_slot = 10;
  long_reentry_price_fp = 0;
  short_reentry_price_fp = 0;
}

abbrev pub market : InstrumentConfig
market = record {
  discriminator = disc_instrument_config;
  status = 0;
  bump = 249;
  source = 0;
  market_id = 7;
  source_token_id_a = 0;
  source_token_id_b = 0;
  collateral_mint = 30;
  intent_book = 4;
  leverage_bps = 50_000;
  collateral_bucket = 1_000_000;
  twap_window_slots = 10;
  tick_fp = 1_000_000_000_000_000;
  liquidation_bps = 1_000;
  liquidation_bounty_bps = 50;
  max_staleness_secs = 60;
  reference_usd = 0;
}

abbrev found : ℕ → List (ℕ × Contents) → Contents
found k [] = other 0 0
found k ((j, c) ∷ cs) = if k == j then c else found k cs

abbrev listed : List (ℕ × Contents)
listed =
    (
      1,
      program_config (record {
        discriminator = disc_program_config;
        global_pause = 0;
        bump = 248;
        admin = 40;
        fee_treasury_authority = 41;
        attestation_signer = 99;
        default_max_staleness_secs = 60;
      }),
    )
    ∷ (2, instrument market)
    ∷ (
      3,
      market_nonce (record {
        discriminator = disc_market_nonce;
        is_resolved = 0;
        bump = 254;
        market_id = 7;
        last_accepted_cre_nonce = 5;
        last_accepted_twap_fp = 0;
        last_accepted_ts = 0;
        final_outcome_bps = 0;
      }),
    )
    ∷ (5, pmlc contract)
    ∷ (11, margin (margin_of 21 1_000_000))
    ∷ (12, margin (margin_of 22 3_000_000))
    ∷ (13, margin (margin_of 23 0))
    ∷ []

abbrev pub world : World
world k = record { program = 77; contents = found k listed }

abbrev address : Seeds → ℕ × ℕ
address (seed_margin owner mint) = if mint == 30 then (owner - 10, 255) else (0, 0)
address (seed_market_nonce id) = (3, 254)
address seed_config = (1, 248)
address seed_admin_multisig = (6, 247)
address (seed_timelock id) = (8, 246)
address (seed_session owner) = (6, 242)
address (seed_pmlc key id) = (1_000 + id, 241)
address seed_fee_schedule = (15, 240)
address (seed_user_volume owner mint) = (owner + 10, 239)
address (seed_treasury mint) = (16, 238)
address (seed_vault mint) = (14, 245)

-- An Ed25519 instruction with key, signature and message behind its header.
abbrev pub ed25519_instruction : List ℕ → List ℕ
ed25519_instruction message =
    1 ∷ 0 ∷ 48 ∷ 0 ∷ 255 ∷ 255 ∷ 16 ∷ 0 ∷ 255 ∷ 255 ∷ 112 ∷ 0 ∷ 104 ∷ 0 ∷ 255 ∷ 255 ∷ []
    ++ (key_bytes 99 ++ (fill 64 0 [] ++ message))

abbrev runtime : List ℕ → Runtime
runtime message = record {
  program_id = 77;
  find_program_address = address;
  slot = 1_234;
  unix_timestamp = pos 1_000;
  sysvar_instructions_id = 50;
  ed25519_program_id = 60;
  load_instruction_at = λ sysvar i. if i == 0 then some (60, ed25519_instruction message) else none;
}

-- The mark has risen by 18%: the long side has won.
abbrev pub breach : Runtime
breach = runtime (
    build_attestation att_type_historical_liquidation (key_bytes 7) 990 6
      (breach_payload (key_bytes 5) 590_000_000_000_000_000 900))

abbrev resolution : Runtime
resolution = runtime (build_attestation att_type_resolution (key_bytes 7) 990 6 (to_le_bytes 2 0))

abbrev info : ℕ → AccountInfo
info k = record { key = k; is_signer = true; is_writable = true }

abbrev liquidate_infos : List AccountInfo
liquidate_infos =
    info 23 ∷ info 1 ∷ info 50 ∷ info 2 ∷ info 5 ∷ info 3 ∷ info 11 ∷ info 12 ∷ info 13 ∷ []

abbrev resolve_infos : List AccountInfo
resolve_infos = info 23 ∷ info 1 ∷ info 50 ∷ info 2 ∷ info 5 ∷ info 3 ∷ info 11 ∷ info 12 ∷ []

abbrev liquidate_accounts : LiquidateAccounts
liquidate_accounts = record {
  keeper = info 23;
  program_config = info 1;
  sysvar_ix = info 50;
  instrument = info 2;
  pmlc = info 5;
  market_nonce = info 3;
  long_margin = info 11;
  short_margin = info 12;
  keeper_margin = info 13;
}

abbrev resolve_accounts : ResolveAccounts
resolve_accounts = record {
  caller = info 23;
  program_config = info 1;
  sysvar_ix = info 50;
  instrument = info 2;
  pmlc = info 5;
  market_nonce = info 3;
  long_margin = info 11;
  short_margin = info 12;
}

abbrev pub margins : List ℕ
margins = 11 ∷ 12 ∷ 13 ∷ []

abbrev liquidated : World
liquidated = (process_liquidate breach liquidate_infos 0 world).1

liquidate-runs : process_liquidate breach liquidate_infos 0 world ≡ (ok tt, liquidated)
unfolding process_liquidate polyleverage.Settlement.Liquidate.unpack
    polyleverage.Settlement.Liquidate.check_accounts check_breach breach_pmlc_pubkey breach_mark_fp
    breach_unix_ts accept_breach liquidation_outcome settle_liquidation borrow_both pay_winner
    pay_keeper load check_loaded validate_margin_pda verified_attestation verify_via_ed25519_sysvar
    extract_verified_ed25519_message check_header check_ranges parse bytes_eq attestation_type
    foreign unpaused_signer validate_freshness_and_nonce polyleverage.Attestation.market_id
    timestamp nonce on store live_pmlc require_live pnl_long_atoms size_fp bounded_equity ◌+ℤ◌ ◌-ℤ◌
    ◌*ℤ◌ div_ℤ debit_locked credit_free close_pmlc
liquidate-runs = refl

process_liquidate-total_held_example : PaysOut margins market contract world liquidated
unfolding polyleverage.Settlement.Liquidate.unpack load check_loaded
process_liquidate-total_held_example =
    process_liquidate-total_held margins breach liquidate_infos 0 world liquidated
      liquidate_accounts market contract (refl, (refl, (refl, tt))) refl (refl, refl, refl) refl
      refl liquidate-runs

process_liquidate-conserves_example : total_held margins liquidated ≡ total_held margins world
unfolding polyleverage.Settlement.Liquidate.unpack load check_loaded
process_liquidate-conserves_example =
    process_liquidate-conserves margins breach liquidate_infos 0 world liquidated liquidate_accounts
      market contract (refl, (refl, (refl, tt))) refl (refl, refl, refl) refl refl (omega arith)
      (omega arith) liquidate-runs

abbrev resolved : World
resolved = (process_resolve resolution resolve_infos 0 world).1

resolve-runs : process_resolve resolution resolve_infos 0 world ≡ (ok tt, resolved)
unfolding process_resolve polyleverage.Settlement.Resolve.unpack
    polyleverage.Settlement.Resolve.check_accounts accept_resolution final_mark resolution_pnl
    final_outcome_bps settle_resolution settle_side note_result load check_loaded
    validate_margin_pda verified_attestation verify_via_ed25519_sysvar
    extract_verified_ed25519_message check_header check_ranges parse bytes_eq attestation_type
    foreign unpaused_signer validate_freshness_and_nonce polyleverage.Attestation.market_id
    timestamp nonce on store live_pmlc require_live pnl_long_atoms size_fp bounded_equity ◌+ℤ◌ ◌-ℤ◌
    ◌*ℤ◌ div_ℤ debit_locked credit_free close_pmlc
resolve-runs = refl

process_resolve-conserves_example : total_held margins resolved ≡ total_held margins world
unfolding polyleverage.Settlement.Resolve.unpack load check_loaded
process_resolve-conserves_example =
    process_resolve-conserves margins resolution resolve_infos 0 world resolved resolve_accounts
      contract (refl, (refl, (refl, tt))) refl (refl, refl) refl (omega arith) resolve-runs
