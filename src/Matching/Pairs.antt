-- ===== src/Matching/Pairs.antt =====
-- The part of `match_pair_core` (src/processor/match_ix.rs) that works on the book.
pub mod Fills
use Prim.Native.Nat.{bit_and, bit_or}
use polyleverage.Base.{
  ℕ, ◌+◌, ◌-◌, ◌*◌, ◌/◌, ◌%◌, ◌≡◌, Bool, true, false, ◌&&◌, ◌||◌, not, Option, none, some, List, [],
  ◌∷◌, leb, ltb, ◌==◌, ◌!=◌, if◌then◌else◌, u64_max, checked_sub, as_u64,
}
use polyleverage.Error.{
  custom, invalid_pda, invalid_account_owner, not_opposite_sides, intent_expired, intent_not_found,
  no_range_overlap, insufficient_reserved_collateral, arithmetic_underflow,
}
use polyleverage.Method.{
  Result, ok, err, ⊤, Method, pure, reads, lift, gets, fail_if, ok_or, ◌>>=◌, ◌>>◌,
}
use polyleverage.Fixed.{price_midpoint, notional_atoms, position_size_fp, bps_denom}
use polyleverage.State.Margin.{
  MarginAccount, move_reserved_to_locked, move_reserved_to_free, debit_free,
}
use polyleverage.State.Pmlc.{Pmlc, disc_pmlc, pmlc_status_live}
use polyleverage.State.Config.{InstrumentConfig, require_active}
use polyleverage.State.Fees.{fee_for_volume, accrue}
use polyleverage.State.Volume.{UserVolume, init, add_volume, effective_30d_volume}
use polyleverage.Book.{
  IntentBook, IntentNode, side_long, side_short, intent, seat, write_intent, free_node,
  next_intent_id,
}
use polyleverage.Book.IntentTree.{remove}
use polyleverage.Accounts.{
  World, AccountInfo, Runtime, SystemProgram, seed_pmlc, seed_user_volume, assert_pda, is_empty,
  load, on, overwrite, margin_layout, pmlc_layout, instrument_layout, fee_schedule_layout,
  fee_treasury_layout, user_volume_layout,
}
use polyleverage.Accounts.Books.{load_book, on_book}
use polyleverage.Settlement.{validate_margin_pda}
use polyleverage.Fees.{init_at, ensure_fee_treasury}
use polyleverage.Matching.{
  MatchCtx, release_fee_buffer_for_fill, find_intent_by_id, scan_for_first_valid_pair,
  unpack_accounts,
}

-- `if test { call }`
abbrev pub when : {S : Type 0} → Bool → Method S ⊤ → Method S ⊤
when test call = if test then call else pure tt

pub record MatchResult : Type 0 where
  pub long_trader : ℕ
  pub short_trader : ℕ
  pub entry_fp : ℕ
  pub fee_buf_release_long : ℕ
  pub fee_buf_release_short : ℕ
  pub taker_is_long : Bool
  pub long_reentry : Bool
  pub short_reentry : Bool
  pub long_price : ℕ
  pub short_price : ℕ
  pub pmlc_id : ℕ
  pub pmlc_bump : ℕ

-- Two intents of a book with their indices.
pub record Pair : Type 0 where
  pub long_idx : ℕ
  pub short_idx : ℕ
  pub long : IntentNode
  pub short : IntentNode

-- Neither has expired or is used up, and they cross.
unfoldable pub check_pair : (now_slot : ℕ) → (long short : IntentNode) → Method IntentBook ⊤
check_pair now_slot long short = do
  fail_if (leb long.expiration_slot now_slot || leb short.expiration_slot now_slot)
      (custom intent_expired)
  fail_if (long.contracts_remaining == 0 || short.contracts_remaining == 0)
      (custom intent_not_found)
  fail_if (ltb long.price_fp short.price_fp) (custom no_range_overlap)

-- The intents with these ids, if they can be matched now.
unfoldable pub find_pair : (now_slot long_id short_id : ℕ) → Method IntentBook Pair
find_pair now_slot long_id short_id = do
  (long_idx, long_side) ← reads (find_intent_by_id long_id)
  (short_idx, short_side) ← reads (find_intent_by_id short_id)
  fail_if (long_side != side_long || short_side != side_short) (custom not_opposite_sides)
  long ← reads (intent long_idx)
  short ← reads (intent short_idx)
  check_pair now_slot long short
  pure (record { long_idx = long_idx; short_idx = short_idx; long = long; short = short })

-- One contract less, and its collateral is no longer reserved.
unfoldable pub take_reserve : ℕ → IntentNode → Result IntentNode
take_reserve bucket node = elim (checked_sub node.reserved_collateral bucket) [
  | none ↦ err (custom insufficient_reserved_collateral)
  | some left ↦ ok (record node {
    contracts_remaining = node.contracts_remaining - 1;
    reserved_collateral = left;
  })
]

-- What a fill of one contract gives back of the fees set aside.
unfoldable pub buffer_release : IntentNode → Result ℕ
unfolding release_fee_buffer_for_fill
buffer_release node =
    if node.contracts_remaining == 1
    then ok node.fee_buffer
    else release_fee_buffer_for_fill node.fee_buffer node.contracts_remaining 1

unfoldable pub take_buffer : ℕ → IntentNode → Result IntentNode
take_buffer release node = elim (checked_sub node.fee_buffer release) [
  | none ↦ err (custom arithmetic_underflow)
  | some left ↦ ok (record node { fee_buffer = left })
]

-- `*book.intent_mut(idx)? = node`
unfoldable pub put_intent : ℕ → IntentNode → Method IntentBook ⊤
put_intent idx node = do reads (intent idx); write_intent idx node

-- An intent with no contract left leaves the book.
unfoldable pub retire : (side idx : ℕ) → IntentNode → Method IntentBook ⊤
retire side idx node = when (node.contracts_remaining == 0) (do remove side idx; free_node idx)

-- The part that works on the book, up to the contract's id.
unfoldable pub fill_pair : (bucket : ℕ) → Pair → Method IntentBook (ℕ × ℕ)
fill_pair bucket p = do
  long ← lift (take_reserve bucket p.long)
  short ← lift (take_reserve bucket p.short)
  release_long ← lift (buffer_release p.long)
  release_short ← lift (buffer_release p.short)
  long_filled ← lift (take_buffer release_long long)
  short_filled ← lift (take_buffer release_short short)
  put_intent p.long_idx long_filled
  put_intent p.short_idx short_filled
  retire side_long p.long_idx long_filled
  retire side_short p.short_idx short_filled
  pure (release_long, release_short)

-- `flags & INTENT_FLAG_REENTRY != 0`
abbrev pub reenters : IntentNode → Bool
reenters node = bit_and node.flags 1 != 0

abbrev pub result_of :
    Pair → (releases : ℕ × ℕ) → (long_trader short_trader pmlc_id pmlc_bump : ℕ) → MatchResult
result_of p releases long_trader short_trader pmlc_id pmlc_bump = record {
  long_trader = long_trader;
  short_trader = short_trader;
  entry_fp = price_midpoint p.long.price_fp p.short.price_fp;
  fee_buf_release_long = releases.0;
  fee_buf_release_short = releases.1;
  taker_is_long = ltb p.short.post_seq p.long.post_seq;
  long_reentry = reenters p.long;
  short_reentry = reenters p.short;
  long_price = p.long.price_fp;
  short_price = p.short.price_fp;
  pmlc_id = pmlc_id;
  pmlc_bump = pmlc_bump;
}

-- From the contract's address on.
unfoldable pub name_result :
    (address_and_bump : ℕ × ℕ)
    → (pmlc_key : ℕ) → Pair
    → (releases : ℕ × ℕ) → (pmlc_id : ℕ) → Method IntentBook MatchResult
name_result (pda, bump) pmlc_key p releases pmlc_id = do
  fail_if (pda != pmlc_key) (custom invalid_pda)
  long_seat ← reads (seat p.long.owner_seat)
  short_seat ← reads (seat p.short.owner_seat)
  pure (result_of p releases long_seat.trader short_seat.trader pmlc_id bump)

unfoldable pub match_in_book :
    Runtime → (instrument_key bucket pmlc_key long_id short_id : ℕ) → Method IntentBook MatchResult
match_in_book rt instrument_key bucket pmlc_key long_id short_id = do
  p ← find_pair rt.slot long_id short_id
  releases ← fill_pair bucket p
  pmlc_id ← next_intent_id
  name_result (rt.find_program_address (seed_pmlc instrument_key pmlc_id)) pmlc_key p releases
      pmlc_id
