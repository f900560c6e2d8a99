-- ===== src/Intents.antt =====
-- Intents are posted (src/processor/intent.rs). Intents.Post has the inline match and the
-- handlers, Intents.Cancel the cancellations.
pub mod Post
pub mod Cancel
pub mod Refunds
pub mod Authority
pub mod Pruned
pub mod Posting
pub mod Holding
pub mod Posted
use polyleverage.Base.{
  ℕ, zero, suc, ◌+◌, ◌≡◌, Bool, true, false, ◌||◌, ◌&&◌, not, Option, none, some, List, [], ◌∷◌,
  length, ltb, leb, ◌==◌, ◌!=◌, if◌then◌else◌, u32_max, u64_max, u128_max, checked_add, checked_mul,
  checked_div, fits, saturating_sub,
}
use polyleverage.Error.{
  custom, not_enough_account_keys, invalid_account_owner, invalid_pda, global_paused,
  invalid_instruction_data, invalid_contract_count, intent_expired, arithmetic_overflow,
  session_delegate_mismatch, session_not_active, session_instrument_not_allowed,
}
use polyleverage.Method.{
  Result, ok, err, ⊤, Method, pure, reads, lift, gets, fail_if, ok_or, ◌>>=◌, ◌>>◌,
}
use polyleverage.Fixed.{or_overflow, bps_denom, validate_price_ticked}
use polyleverage.State.Margin.{MarginAccount, move_reserved_to_free, move_free_to_reserved}
use polyleverage.State.Session.{Session, is_active, allows_instrument, record_intent}
use polyleverage.State.Config.{InstrumentConfig, require_active}
use polyleverage.Book.{
  IntentBook, IntentNode, SeatNode, RawNode, as_intent, seat, write_seat, write_intent, alloc_node,
  free_node, next_intent_id, next_seq, side_long, side_short, rb_red, null_idx,
}
use polyleverage.Book.IntentTree.{insert, remove}
use polyleverage.Book.SeatTree.{find, find_or_create}
use polyleverage.Accounts.{
  World, AccountInfo, Runtime, SystemProgram, seed_margin, seed_session, assert_signer,
  assert_writable, assert_pda, foreign, load, on, margin_layout, instrument_layout,
  program_config_layout, session_layout,
}
use polyleverage.Accounts.Books.{load_book, on_book}
use polyleverage.Matching.{MatchCtx, find_overlap_on_side}
use polyleverage.Matching.Core.{match_pair_core}
use polyleverage.Matching.Pairs.{when}

unfoldable pub fee_buffer_for : (contracts collateral_bucket max_tier_fee_bps : ℕ) → Result ℕ
fee_buffer_for contracts collateral_bucket max_tier_fee_bps =
    or_overflow (elim (checked_mul u128_max contracts collateral_bucket) [
      | none ↦ none
      | some v ↦ elim (checked_mul u128_max v max_tier_fee_bps) [
        | none ↦ none
        | some v ↦ elim (checked_div v bps_denom) [ none ↦ none | some v ↦ fits u64_max v ]
      ]
    ])

-- `max_pairs` is not read.
pub record PostIntentArgs : Type 0 where
  pub side : ℕ
  pub price_fp : ℕ
  pub contracts : ℕ
  pub expiration_slot : ℕ
  pub reentry_enabled : ℕ
  pub try_match : ℕ

-- What `do_post_intent_inner` is given: whose intent it is, and the accounts; `extras` are those from
-- `inline_match_offset` on.
pub record PostAccounts : Type 0 where
  pub effective_owner : ℕ
  pub payer : AccountInfo
  pub program_config : AccountInfo
  pub instrument : AccountInfo
  pub book : AccountInfo
  pub margin : AccountInfo
  pub session : Option AccountInfo
  pub extras : List AccountInfo

-- The accounts, the pause and the instrument, with the bump of the margin account.
unfoldable pub check_post_accounts : Runtime → PostAccounts → Method World (InstrumentConfig × ℕ)
check_post_accounts rt a = do
  lift (assert_writable a.book)
  lift (assert_writable a.margin)
  is_foreign ← gets λ w. foreign rt w (a.program_config ∷ a.instrument ∷ a.book ∷ a.margin ∷ [])
  fail_if is_foreign (custom invalid_account_owner)
  cfg ← reads (load program_config_layout a.program_config.key)
  fail_if (cfg.global_pause != 0) (custom global_paused)
  inst ← reads (load instrument_layout a.instrument.key)
  lift (require_active inst)
  fail_if (inst.intent_book != a.book.key) (custom invalid_pda)
  bump ← lift (assert_pda rt (seed_margin a.effective_owner inst.collateral_mint) a.margin.key)
  pure (inst, bump)

unfoldable pub check_post_args : (now tick_fp : ℕ) → PostIntentArgs → Result ⊤
check_post_args now tick_fp args =
    if args.side != side_long && args.side != side_short
    then err (custom invalid_instruction_data)
    else if args.contracts == 0
    then err (custom invalid_contract_count)
    else elim (validate_price_ticked args.price_fp tick_fp) [
      | err e ↦ err e
      | ok _ ↦ if leb args.expiration_slot now then err (custom intent_expired) else ok tt
    ]

-- What is set aside for an intent: collateral, fees, and their sum.
pub record Reserve : Type 0 where
  pub collateral : ℕ
  pub fee_buffer : ℕ
  pub total : ℕ

unfoldable pub reserve_for : (book_key collateral_bucket contracts : ℕ) → Method World Reserve
reserve_for book_key collateral_bucket contracts = do
  collateral ← ok_or (checked_mul u64_max contracts collateral_bucket) (custom arithmetic_overflow)
  b ← load_book book_key
  fee_buffer ← lift (fee_buffer_for contracts collateral_bucket b.header.cached_max_fee_bps)
  total ← ok_or (checked_add u64_max collateral fee_buffer) (custom arithmetic_overflow)
  pure (record { collateral = collateral; fee_buffer = fee_buffer; total = total })

-- The session, if there is one, is charged.
unfoldable pub charge_session : Option AccountInfo → (total_reserve : ℕ) → Method World ⊤
charge_session none total_reserve = pure tt
charge_session (some ai) total_reserve = do
  on session_layout ai.key (record_intent total_reserve)
  pure tt

abbrev pub max_prunes_per_post : ℕ
max_prunes_per_post = 4

-- An expired intent of a seat that still has contracts.
unfoldable pub prunable : (now seat_idx : ℕ) → RawNode → Option IntentNode
unfolding as_intent
prunable now seat_idx slot = elim (as_intent slot) [
  | none ↦ none
  | some node ↦
      if node.owner_seat != seat_idx
        || (ltb now node.expiration_slot || node.contracts_remaining == 0)
      then none
      else some node
]

-- The loop that collects intents to prune, from a slot on, with room for some more: their sides and
-- indices, and what is reserved for each.
unfoldable pub collect_prunable :
    (now seat_idx room i : ℕ) → List RawNode → Result (List (ℕ × ℕ × ℕ))
unfolding prunable
collect_prunable now seat_idx zero i slots = ok []
collect_prunable now seat_idx (suc room) i [] = ok []
collect_prunable now seat_idx (suc room) i (slot ∷ slots) = elim (prunable now seat_idx slot) [
  | none ↦ collect_prunable now seat_idx (suc room) (suc i) slots
  | some node ↦ elim (checked_add u64_max node.reserved_collateral node.fee_buffer) [
    | none ↦ err (custom arithmetic_overflow)
    | some total ↦ elim (collect_prunable now seat_idx room (suc i) slots) [
      | err e ↦ err e
      | ok later ↦ ok ((node.side, i, total) ∷ later)
    ]
  ]
]

-- The loop that removes them, with the refund so far.
unfoldable pub prune_all : (refund : ℕ) → List (ℕ × ℕ × ℕ) → Method IntentBook ℕ
prune_all refund [] = pure refund
prune_all refund ((side, idx, total) ∷ rest) = do
  remove side idx
  free_node idx
  sum ← ok_or (checked_add u64_max refund total) (custom arithmetic_overflow)
  prune_all sum rest

-- `seat.active_intent_count.saturating_sub(n)`
unfoldable pub count_off : (seat_idx n : ℕ) → Method IntentBook ⊤
count_off seat_idx n = do
  s ← reads (seat seat_idx)
  write_seat seat_idx (record s { active_intent_count = saturating_sub s.active_intent_count n })

-- The poster's own expired intents, four at most, leave the book: what was reserved for them.
unfoldable pub prune_on_post : (now owner : ℕ) → Method IntentBook ℕ
prune_on_post now owner = do
  seat_idx ← reads (find owner)
  if seat_idx == null_idx then pure 0 else do
    stale ← reads λ b. collect_prunable now seat_idx max_prunes_per_post 0 b.nodes
    refund ← prune_all 0 stale
    when (ltb 0 (length stale)) (count_off seat_idx (length stale))
    pure refund

-- `m.owner != owner || m.collateral_mint != mint || m.bump != bump`
abbrev pub is_not_of : (owner mint bump : ℕ) → MarginAccount → Bool
is_not_of owner mint bump m = m.owner != owner || (m.collateral_mint != mint || m.bump != bump)

unfoldable pub reserve_on : (owner mint bump refund total : ℕ) → Method MarginAccount ⊤
reserve_on owner mint bump refund total = do
  fail_if (← gets λ m. is_not_of owner mint bump m) (custom invalid_pda)
  when (ltb 0 refund) (move_reserved_to_free refund)
  move_free_to_reserved total

abbrev pub new_intent : PostIntentArgs → Reserve → (id post_seq seat_idx : ℕ) → IntentNode
new_intent args reserve id post_seq seat_idx = record {
  side = args.side;
  color = rb_red;
  flags = if args.reentry_enabled != 0 then 1 else 0;
  left = null_idx;
  right = null_idx;
  parent = null_idx;
  price_fp = args.price_fp;
  id = id;
  owner_seat = seat_idx;
  contracts_total = args.contracts;
  contracts_remaining = args.contracts;
  expiration_slot = args.expiration_slot;
  post_seq = post_seq;
  reserved_collateral = reserve.collateral;
  fee_buffer = reserve.fee_buffer;
}

-- The intent enters the book, on its owner's seat: its id.
unfoldable pub enter_intent : (owner : ℕ) → PostIntentArgs → Reserve → Method IntentBook ℕ
enter_intent owner args reserve = do
  seat_idx ← find_or_create owner
  s ← reads (seat seat_idx)
  count ← ok_or (checked_add u32_max s.active_intent_count 1) (custom arithmetic_overflow)
  write_seat seat_idx (record s { active_intent_count = count })
  id ← next_intent_id
  post_seq ← next_seq
  idx ← alloc_node
  write_intent idx (new_intent args reserve id post_seq seat_idx)
  insert args.side idx
  pure id

-- `do_post_intent_inner` up to the inline match: the new intent's id.
unfoldable pub post_intent : Runtime → PostAccounts → PostIntentArgs → Method World ℕ
post_intent rt a args = do
  (inst, bump) ← check_post_accounts rt a
  lift (check_post_args rt.slot inst.tick_fp args)
  reserve ← reserve_for a.book.key inst.collateral_bucket args.contracts
  charge_session a.session reserve.total
  refund ← on_book a.book.key (prune_on_post rt.slot a.effective_owner)
  on margin_layout a.margin.key
      (reserve_on a.effective_owner inst.collateral_mint bump refund reserve.total)
  on_book a.book.key (enter_intent a.effective_owner args reserve)

-- The delegate's session, active and for this instrument: its owner.
unfoldable pub session_owner_for :
    Runtime → (delegate_key instrument_key session_key : ℕ) → Method World ℕ
session_owner_for rt delegate_key instrument_key session_key = do
  s ← reads (load session_layout session_key)
  fail_if (s.delegate != delegate_key) (custom session_delegate_mismatch)
  fail_if (not (is_active rt.slot s)) (custom session_not_active)
  fail_if (not (allows_instrument instrument_key s)) (custom session_instrument_not_allowed)
  lift (assert_pda rt (seed_session s.owner) session_key)
  pure s.owner
