-- ===== src/Intents/Cancel.antt =====
-- `process_cancel_intent` and `process_cancel_intent_delegated` of src/processor/intent.rs.
use polyleverage.Base.{
  ℕ, Bool, ◌&&◌, not, List, [], ◌∷◌, leb, ◌!=◌, if◌then◌else◌, u64_max, checked_add,
}
use polyleverage.Error.{
  custom, not_enough_account_keys, invalid_account_owner, invalid_pda, missing_signer,
  arithmetic_overflow, session_owner_mismatch,
}
use polyleverage.Method.{
  Result, ok, err, ⊤, Method, pure, reads, lift, gets, fail_if, ok_or, ◌>>=◌, ◌>>◌,
}
use polyleverage.State.Margin.{MarginAccount, move_reserved_to_free}
use polyleverage.Book.{IntentBook, intent, seat, free_node}
use polyleverage.Book.IntentTree.{remove}
use polyleverage.Accounts.{
  World, AccountInfo, Runtime, seed_margin, assert_signer, assert_writable, assert_pda, foreign,
  load, on, margin_layout, instrument_layout,
}
use polyleverage.Accounts.Books.{on_book}
use polyleverage.Matching.{find_intent_by_id}
use polyleverage.Intents.{count_off, is_not_of, session_owner_for}

-- What a cancelled intent gives back, and the margin account's owner and bump.
pub record Release : Type 0 where
  pub trader : ℕ
  pub bump : ℕ
  pub total : ℕ

-- Who may cancel: a test on the trader and on whether the intent has expired.
abbrev pub Gate : Type 0
Gate = (trader : ℕ) → (is_expired : Bool) → Result ⊤

-- The original owner can always cancel, everybody else once the intent has expired.
unfoldable pub owner_or_expired : (caller : ℕ) → Gate
owner_or_expired caller trader is_expired =
    if caller != trader && not is_expired then err (custom missing_signer) else ok tt

unfoldable pub owner_of_session : (session_owner : ℕ) → Gate
owner_of_session session_owner trader is_expired =
    if trader != session_owner then err (custom session_owner_mismatch) else ok tt

-- The part that works on the book. The sum is taken last, as in the source.
unfoldable pub cancel_in_book :
    Runtime → Gate → (margin_key mint intent_id : ℕ) → Method IntentBook Release
cancel_in_book rt gate margin_key mint intent_id = do
  (idx, side) ← reads (find_intent_by_id intent_id)
  node ← reads (intent idx)
  s ← reads (seat node.owner_seat)
  lift (gate s.trader (leb node.expiration_slot rt.slot))
  bump ← lift (assert_pda rt (seed_margin s.trader mint) margin_key)
  remove side idx
  free_node idx
  count_off node.owner_seat 1
  total ←
      ok_or (checked_add u64_max node.reserved_collateral node.fee_buffer)
        (custom arithmetic_overflow)
  pure (record { trader = s.trader; bump = bump; total = total })

unfoldable pub release_on : (mint : ℕ) → Release → Method MarginAccount ⊤
release_on mint r = do
  fail_if (← gets λ m. is_not_of r.trader mint r.bump m) (custom invalid_pda)
  move_reserved_to_free r.total

-- Both cancellations from the instrument on.
unfoldable pub cancel_intent :
    Runtime → Gate → (instrument_key book_key margin_key intent_id : ℕ) → Method World ⊤
cancel_intent rt gate instrument_key book_key margin_key intent_id = do
  inst ← reads (load instrument_layout instrument_key)
  fail_if (inst.intent_book != book_key) (custom invalid_pda)
  r ← on_book book_key (cancel_in_book rt gate margin_key inst.collateral_mint intent_id)
  on margin_layout margin_key (release_on inst.collateral_mint r)

unfoldable pub cancel_with :
    Runtime → (caller instrument book margin : AccountInfo) → (intent_id : ℕ) → Method World ⊤
cancel_with rt caller instrument book margin intent_id = do
  lift (assert_signer caller)
  lift (assert_writable book)
  lift (assert_writable margin)
  is_foreign ← gets λ w. foreign rt w (instrument ∷ book ∷ margin ∷ [])
  fail_if is_foreign (custom invalid_account_owner)
  cancel_intent rt (owner_or_expired caller.key) instrument.key book.key margin.key intent_id

unfoldable pub process_cancel_intent : Runtime → List AccountInfo → (intent_id : ℕ) → Method World ⊤
process_cancel_intent rt (a ∷ b ∷ c ∷ d ∷ _) intent_id = cancel_with rt a b c d intent_id
process_cancel_intent rt _ intent_id = lift (err not_enough_account_keys)

unfoldable pub cancel_for :
    Runtime
    → (fee_payer delegate instrument book margin session : AccountInfo) → (intent_id : ℕ)
    → Method World ⊤
cancel_for rt fee_payer delegate instrument book margin session intent_id = do
  lift (assert_signer fee_payer)
  lift (assert_writable fee_payer)
  lift (assert_signer delegate)
  lift (assert_writable book)
  lift (assert_writable margin)
  is_foreign ← gets λ w. foreign rt w (instrument ∷ book ∷ margin ∷ session ∷ [])
  fail_if is_foreign (custom invalid_account_owner)
  session_owner ← session_owner_for rt delegate.key instrument.key session.key
  cancel_intent rt (owner_of_session session_owner) instrument.key book.key margin.key intent_id

unfoldable pub process_cancel_intent_delegated :
    Runtime → List AccountInfo → (intent_id : ℕ) → Method World ⊤
process_cancel_intent_delegated rt (a ∷ b ∷ c ∷ d ∷ e ∷ f ∷ _) intent_id =
    cancel_for rt a b c d e f intent_id
process_cancel_intent_delegated rt _ intent_id = lift (err not_enough_account_keys)
