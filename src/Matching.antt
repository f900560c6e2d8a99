-- ===== src/Matching.antt =====
-- A long and a short intent of a book become a contract (src/processor/match_ix.rs).
pub mod Pairs
pub mod Core
pub mod Made
pub mod Effects
pub mod Conserves
pub mod Rates
pub mod Charges
pub mod Opening
pub mod Best
use polyleverage.Base.{
  ℕ, zero, suc, ◌+◌, ◌*◌, ◌/◌, ◌≡◌, Bool, true, false, ◌&&◌, ◌||◌, Option, none, some, List, [],
  ◌∷◌, leb, ltb, ◌==◌, ◌!=◌, if◌then◌else◌, u64_max, fits,
}
use polyleverage.Error.{
  custom, not_enough_account_keys, invalid_account_data, invalid_account_owner,
  fee_accounts_required, intent_not_found, invalid_contract_count,
}
use polyleverage.Method.{Result, ok, err, ⊤, Method, pure, reads, lift, gets, fail_if, ◌>>=◌, ◌>>◌}
use polyleverage.Fixed.{or_overflow}
use polyleverage.Book.{IntentBook, IntentNode, RawNode, as_intent, side_long, side_short}
use polyleverage.Book.IntentTree.{for_each_best_first, first_live}
use polyleverage.Accounts.{
  World, AccountInfo, Runtime, SystemProgram, seed_fee_schedule, assert_signer, assert_writable,
  assert_pda, foreign,
}

-- The part of the fees set aside that a fill of some contracts gives back.
unfoldable pub release_fee_buffer_for_fill :
    (fee_buffer contracts_remaining_before fill_contracts : ℕ) → Result ℕ
release_fee_buffer_for_fill fee_buffer contracts_remaining_before fill_contracts =
    if fill_contracts == 0
      || (contracts_remaining_before == 0 || ltb contracts_remaining_before fill_contracts)
    then err (custom invalid_contract_count)
    else if fill_contracts == contracts_remaining_before
    then ok fee_buffer
    else or_overflow (fits u64_max (fee_buffer * fill_contracts / contracts_remaining_before))

-- The accounts that fees need.
pub record FeeCtx : Type 0 where
  pub fee_schedule_ai : AccountInfo
  pub taker_volume_ai : AccountInfo
  pub maker_volume_ai : AccountInfo
  pub fee_treasury_ai : AccountInfo

-- Every caller passes the accounts for the fees, so `fee_ctx` is always there.
pub record MatchCtx : Type 0 where
  pub payer : AccountInfo
  pub instrument_ai : AccountInfo
  pub book_ai : AccountInfo
  pub long_margin_ai : AccountInfo
  pub short_margin_ai : AccountInfo
  pub pmlc_ai : AccountInfo
  pub system_program : AccountInfo
  pub fee_ctx : FeeCtx

unfoldable pub fee_accounts : Runtime → List AccountInfo → Method World FeeCtx
fee_accounts rt (a ∷ b ∷ c ∷ d ∷ _) = do
  lift (assert_writable b)
  lift (assert_writable c)
  lift (assert_writable d)
  is_foreign ← gets λ w. foreign rt w (a ∷ [])
  fail_if is_foreign (custom invalid_account_owner)
  lift (assert_pda rt seed_fee_schedule a.key)
  pure (record {
    fee_schedule_ai = a;
    taker_volume_ai = b;
    maker_volume_ai = c;
    fee_treasury_ai = d;
  })
fee_accounts rt _ = lift (err (custom fee_accounts_required))

unfoldable pub unpack_accounts : SystemProgram → Runtime → List AccountInfo → Method World MatchCtx
unpack_accounts sys rt (a ∷ b ∷ c ∷ d ∷ e ∷ f ∷ g ∷ rest) = do
  lift (assert_signer a)
  lift (assert_writable c)
  lift (assert_writable d)
  lift (assert_writable e)
  lift (assert_writable f)
  is_foreign ← gets λ w. foreign rt w (b ∷ c ∷ d ∷ e ∷ [])
  fail_if is_foreign (custom invalid_account_owner)
  fail_if (g.key != sys.id) invalid_account_data
  fees ← fee_accounts rt rest
  pure (record {
    payer = a;
    instrument_ai = b;
    book_ai = c;
    long_margin_ai = d;
    short_margin_ai = e;
    pmlc_ai = f;
    system_program = g;
    fee_ctx = fees;
  })
unpack_accounts sys rt _ = lift (err not_enough_account_keys)

-- A taker's price against that of the best intent on the other side.
abbrev pub crosses : (opposite_side taker_price : ℕ) → IntentNode → Bool
crosses opposite_side taker_price node =
    if opposite_side == side_short
    then leb node.price_fp taker_price
    else leb taker_price node.price_fp

-- The visitor of `find_overlap_on_side`.
abbrev pub stop_at_other :
    (opposite_side taker_price now_slot skip_id : ℕ) → ℕ → IntentNode → Option ℕ → Bool × Option ℕ
stop_at_other opposite_side taker_price now_slot skip_id idx node found =
    if node.contracts_remaining == 0 || (leb node.expiration_slot now_slot || node.id == skip_id)
    then (true, found)
    else (false, if crosses opposite_side taker_price node then some node.id else found)

unfoldable pub find_overlap_on_side :
    IntentBook → (opposite_side taker_price now_slot skip_id : ℕ) → Result (Option ℕ)
unfolding for_each_best_first
find_overlap_on_side b opposite_side taker_price now_slot skip_id =
    for_each_best_first b opposite_side (stop_at_other opposite_side taker_price now_slot skip_id)
      none

-- `match (best_long, best_short)`
abbrev pub crossing_ids : Option (ℕ × IntentNode) → Option (ℕ × IntentNode) → Option (ℕ × ℕ)
crossing_ids (some (i, long)) (some (j, short)) =
    if leb short.price_fp long.price_fp then some (long.id, short.id) else none
crossing_ids (some _) none = none
crossing_ids none _ = none

unfoldable pub scan_for_first_valid_pair : IntentBook → (now_slot : ℕ) → Result (Option (ℕ × ℕ))
unfolding first_live
scan_for_first_valid_pair b now_slot = elim (first_live b side_long now_slot) [
  | err e ↦ err e
  | ok best_long ↦ elim (first_live b side_short now_slot) [
    | err e ↦ err e
    | ok best_short ↦ ok (crossing_ids best_long best_short)
  ]
]

-- The loop of `find_intent_by_id` from a slot on: the index and the side of the intent.
unfoldable pub find_intent_from : (id i : ℕ) → List RawNode → Result (ℕ × ℕ)
unfolding as_intent
find_intent_from id i [] = err (custom intent_not_found)
find_intent_from id i (slot ∷ slots) =
    let later = find_intent_from id (suc i) slots in
    elim (as_intent slot) [
      | none ↦ later
      | some node ↦ if node.id == id then ok (i, node.side) else later
    ]

unfoldable pub find_intent_by_id : ℕ → IntentBook → Result (ℕ × ℕ)
unfolding find_intent_from
find_intent_by_id id b = find_intent_from id 0 b.nodes
