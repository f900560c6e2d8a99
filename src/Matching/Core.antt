-- ===== src/Matching/Core.antt =====
-- The match of two intents and the two handlers of src/processor/match_ix.rs.
use Prim.Native.Nat.{bit_or}
use polyleverage.Base.{
  ℕ, ◌*◌, ◌/◌, Bool, ◌&&◌, ◌||◌, not, none, some, List, leb, ltb, ◌!=◌, if◌then◌else◌, u64_max,
  as_u64,
}
use polyleverage.Error.{custom, invalid_pda, invalid_account_owner, intent_not_found}
use polyleverage.Method.{Result, ok, err, ⊤, Method, pure, reads, lift, gets, fail_if, ◌>>=◌, ◌>>◌}
use polyleverage.Fixed.{notional_atoms, position_size_fp, bps_denom}
use polyleverage.State.Margin.{
  MarginAccount, move_reserved_to_locked, move_reserved_to_free, debit_free,
}
use polyleverage.State.Pmlc.{Pmlc, disc_pmlc, pmlc_status_live}
use polyleverage.State.Config.{InstrumentConfig, require_active}
use polyleverage.State.Fees.{fee_for_volume, accrue}
use polyleverage.State.Volume.{init, add_volume, effective_30d_volume}
use polyleverage.Book.{IntentBook}
use polyleverage.Accounts.{
  World, AccountInfo, Runtime, SystemProgram, seed_user_volume, assert_pda, is_empty, load, on,
  overwrite, margin_layout, pmlc_layout, instrument_layout, fee_schedule_layout,
  fee_treasury_layout, user_volume_layout,
}
use polyleverage.Accounts.Books.{load_book, on_book}
use polyleverage.Settlement.{validate_margin_pda}
use polyleverage.Fees.{init_at, ensure_fee_treasury}
use polyleverage.Matching.{MatchCtx, scan_for_first_valid_pair, unpack_accounts}
use polyleverage.Matching.Pairs.{when, MatchResult, match_in_book}

abbrev pub user_volume_len : ℕ
user_volume_len = 136

abbrev pub pmlc_len : ℕ
pmlc_len = 304

-- The tests on a volume account that exists.
unfoldable pub check_user_volume : Runtime → (volume_key owner mint bump : ℕ) → Method World ⊤
check_user_volume rt volume_key owner mint bump = do
  program ← gets λ w. (w volume_key).program
  fail_if (program != rt.program_id) (custom invalid_account_owner)
  v ← reads (load user_volume_layout volume_key)
  fail_if (v.owner != owner || (v.collateral_mint != mint || v.bump != bump)) (custom invalid_pda)

unfoldable pub ensure_user_volume :
    SystemProgram → Runtime → (payer volume_key owner mint : ℕ) → Method World ⊤
ensure_user_volume sys rt payer volume_key owner mint = do
  bump ← lift (assert_pda rt (seed_user_volume owner mint) volume_key)
  empty ← gets λ w. is_empty (w volume_key).contents
  if not empty then check_user_volume rt volume_key owner mint bump else do
    sys.create_account payer volume_key user_volume_len
    init_at user_volume_layout volume_key (init owner mint rt.slot bump)

-- The accounts of the taker's fee and of both volumes.
unfoldable pub ensure_fee_accounts :
    SystemProgram → Runtime → MatchCtx → MatchResult → (mint : ℕ) → Method World ⊤
ensure_fee_accounts sys rt ctx m mint = do
  let taker = if m.taker_is_long then m.long_trader else m.short_trader
  let maker = if m.taker_is_long then m.short_trader else m.long_trader
  ensure_fee_treasury sys rt ctx.payer.key ctx.fee_ctx.fee_treasury_ai.key mint
  ensure_user_volume sys rt ctx.payer.key ctx.fee_ctx.taker_volume_ai.key taker mint
  ensure_user_volume sys rt ctx.payer.key ctx.fee_ctx.maker_volume_ai.key maker mint

-- The fee on an amount at a rate.
abbrev pub fee_at : (bps per_side : ℕ) → ℕ
fee_at bps per_side = as_u64 (per_side * bps / bps_denom)

-- The taker's fee by the tier of the volume of 30 days.
unfoldable pub taker_fee : Runtime → MatchCtx → (per_side : ℕ) → World → Result ℕ
taker_fee rt ctx per_side w = elim (load fee_schedule_layout ctx.fee_ctx.fee_schedule_ai.key w) [
  | err e ↦ err e
  | ok sched ↦ elim (load user_volume_layout ctx.fee_ctx.taker_volume_ai.key w) [
    | err e ↦ err e
    | ok vol ↦
        let fee_bps = fee_for_volume (effective_30d_volume rt.slot vol) sched in
        ok (fee_at fee_bps per_side)
  ]
]

-- Both volumes grow, and the fee is credited to the treasury.
unfoldable pub charge_fee : Runtime → MatchCtx → (per_side : ℕ) → Method World ℕ
charge_fee rt ctx per_side = do
  fee ← reads (taker_fee rt ctx per_side)
  on user_volume_layout ctx.fee_ctx.taker_volume_ai.key (add_volume per_side rt.slot)
  on user_volume_layout ctx.fee_ctx.maker_volume_ai.key (add_volume per_side rt.slot)
  when (ltb 0 fee) (on fee_treasury_layout ctx.fee_ctx.fee_treasury_ai.key (accrue fee))
  pure fee

-- What a match does to the account of one side, which pays the fee if it is the taker.
unfoldable pub lock_side :
    (per_side release : ℕ) → (is_taker : Bool) → (fee : ℕ) → Method MarginAccount ⊤
lock_side per_side release is_taker fee = do
  move_reserved_to_locked per_side
  when (ltb 0 release) (move_reserved_to_free release)
  when (is_taker && ltb 0 fee) (debit_free fee)

-- `u64::try_from(n).unwrap_or(u64::MAX)`
abbrev pub clamp_u64 : ℕ → ℕ
clamp_u64 n = if leb n u64_max then n else u64_max

-- The contract of a match.
abbrev pub new_pmlc :
    Runtime → (instrument_key : ℕ) → InstrumentConfig → MatchResult → (notional size_fp : ℕ) → Pmlc
new_pmlc rt instrument_key inst m notional size_fp = record {
  discriminator = disc_pmlc;
  status = pmlc_status_live;
  close_reason = 0;
  flags = bit_or (if m.long_reentry then 1 else 0) (if m.short_reentry then 2 else 0);
  bump = m.pmlc_bump;
  id = m.pmlc_id;
  instrument = instrument_key;
  collateral_mint = inst.collateral_mint;
  market_id = inst.market_id;
  long_owner = m.long_trader;
  short_owner = m.short_trader;
  collateral_per_side = inst.collateral_bucket;
  leverage_bps = inst.leverage_bps;
  entry_price_fp = m.entry_fp;
  notional_atoms = clamp_u64 notional;
  size_fp_lo = as_u64 size_fp;
  size_fp_hi = as_u64 (size_fp / 0x1_0000_0000_0000_0000);
  opened_slot = rt.slot;
  last_mark_slot = rt.slot;
  long_reentry_price_fp = m.long_price;
  short_reentry_price_fp = m.short_price;
}

unfoldable pub create_pmlc :
    SystemProgram → Runtime → MatchCtx → InstrumentConfig → MatchResult → Method World ⊤
create_pmlc sys rt ctx inst m = do
  sys.create_account ctx.payer.key ctx.pmlc_ai.key pmlc_len
  notional ← lift (notional_atoms inst.collateral_bucket inst.leverage_bps)
  size_fp ← lift (position_size_fp notional m.entry_fp)
  overwrite pmlc_layout ctx.pmlc_ai.key (new_pmlc rt ctx.instrument_ai.key inst m notional size_fp)

-- From the margin accounts on.
unfoldable pub settle_match :
    SystemProgram → Runtime → MatchCtx → InstrumentConfig → MatchResult → Method World ⊤
settle_match sys rt ctx inst m = do
  validate_margin_pda rt ctx.long_margin_ai.key m.long_trader inst.collateral_mint
  validate_margin_pda rt ctx.short_margin_ai.key m.short_trader inst.collateral_mint
  ensure_fee_accounts sys rt ctx m inst.collateral_mint
  fee ← charge_fee rt ctx inst.collateral_bucket
  on margin_layout ctx.long_margin_ai.key
      (lock_side inst.collateral_bucket m.fee_buf_release_long m.taker_is_long fee)
  on margin_layout ctx.short_margin_ai.key
      (lock_side inst.collateral_bucket m.fee_buf_release_short (not m.taker_is_long) fee)
  create_pmlc sys rt ctx inst m

-- One contract for each call: the greatest number that the caller asks for is not used.
unfoldable pub match_pair_core :
    SystemProgram → Runtime → MatchCtx → (long_id short_id max_contracts : ℕ) → Method World ⊤
match_pair_core sys rt ctx long_id short_id max_contracts = do
  inst ← reads (load instrument_layout ctx.instrument_ai.key)
  lift (require_active inst)
  fail_if (inst.intent_book != ctx.book_ai.key) (custom invalid_pda)
  m ← on_book ctx.book_ai.key (
      match_in_book rt ctx.instrument_ai.key inst.collateral_bucket ctx.pmlc_ai.key long_id
        short_id)
  settle_match sys rt ctx inst m

unfoldable pub process_match_pair :
    SystemProgram
    → Runtime
    → List AccountInfo
    → (long_id short_id max_contracts : ℕ) → Method World ⊤
process_match_pair sys rt accounts long_id short_id max_contracts = do
  ctx ← unpack_accounts sys rt accounts
  match_pair_core sys rt ctx long_id short_id max_contracts

-- `scan_for_first_valid_pair(…)?.ok_or(IntentNotFound)?`
unfoldable pub best_pair : (now_slot : ℕ) → IntentBook → Result (ℕ × ℕ)
best_pair now_slot b = elim (scan_for_first_valid_pair b now_slot) [
  | err e ↦ err e
  | ok none ↦ err (custom intent_not_found)
  | ok (some ids) ↦ ok ids
]

unfoldable pub process_match_best_available :
    SystemProgram → Runtime → List AccountInfo → Method World ⊤
process_match_best_available sys rt accounts = do
  ctx ← unpack_accounts sys rt accounts
  b ← load_book ctx.book_ai.key
  (long_id, short_id) ← lift (best_pair rt.slot b)
  match_pair_core sys rt ctx long_id short_id 1
