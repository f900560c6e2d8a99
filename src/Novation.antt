-- ===== src/Novation.antt =====
-- `process_novate` of src/processor/novate.rs: one side of a contract passes to a new owner.

pub mod Checks
pub mod Ownership
use polyleverage.Base.{
  ℕ, ◌≡◌, Bool, true, false, ◌||◌, ◌&&◌, List, [], ◌∷◌, ◌==◌, ◌!=◌, if◌then◌else◌,
}
use polyleverage.Error.{
  custom, not_enough_account_keys, invalid_account_owner, invalid_pda, invalid_pmlc_side,
}
use polyleverage.Method.{
  Result, ok, err, ⊤, Method, pure, reads, lift, gets, puts, fail_if, ◌>>=◌, ◌>>◌,
}
use polyleverage.State.Margin.{MarginAccount, move_locked_to_free, debit_free, credit_locked}
use polyleverage.State.Pmlc.{Pmlc, require_live}
use polyleverage.Book.{side_long, side_short}
use polyleverage.Accounts.{
  World, AccountInfo, Runtime, seed_margin, assert_signer, assert_writable, foreign, assert_pda,
  load, on, margin_layout, pmlc_layout, instrument_layout,
}
use polyleverage.Settlement.{unpaused_signer}

-- The accounts of the instruction, in order.
pub record NovateAccounts : Type 0 where
  pub current_owner : AccountInfo
  pub new_owner : AccountInfo
  pub program_config : AccountInfo
  pub instrument : AccountInfo
  pub pmlc : AccountInfo
  pub current_margin : AccountInfo
  pub new_margin : AccountInfo

-- The calls of `next_account_info`.
unfoldable pub unpack : List AccountInfo → Result NovateAccounts
unpack (a ∷ b ∷ c ∷ d ∷ e ∷ f ∷ g ∷ _) = ok (record {
  current_owner = a;
  new_owner = b;
  program_config = c;
  instrument = d;
  pmlc = e;
  current_margin = f;
  new_margin = g;
})
unpack _ = err not_enough_account_keys

unfoldable pub check_accounts : Runtime → NovateAccounts → Method World ⊤
check_accounts rt a = do
  lift (assert_signer a.current_owner)
  lift (assert_signer a.new_owner)
  lift (assert_writable a.pmlc)
  lift (assert_writable a.current_margin)
  lift (assert_writable a.new_margin)
  is_foreign ← gets λ w.
      foreign rt w (a.program_config ∷ a.instrument ∷ a.pmlc ∷ a.current_margin ∷ a.new_margin ∷ [])
  fail_if is_foreign (custom invalid_account_owner)

-- `args.side != SIDE_LONG && args.side != SIDE_SHORT`
unfoldable pub check_side : ℕ → Result ⊤
check_side side =
    if side != side_long && side != side_short then err (custom invalid_pmlc_side) else ok tt

-- The owner of a side that `check_side` has let through.
unfoldable pub side_owner : ℕ → Pmlc → ℕ
side_owner side p = if side == side_long then p.long_owner else p.short_owner

unfoldable pub set_side_owner : ℕ → ℕ → Pmlc → Pmlc
set_side_owner side owner p =
    if side == side_long then record p { long_owner = owner } else record p { short_owner = owner }

-- The contract, live, with the signer as the owner of the side.
unfoldable pub owned_pmlc : ℕ → ℕ → ℕ → Method World Pmlc
owned_pmlc pmlc_key side owner = do
  p ← reads (load pmlc_layout pmlc_key)
  lift (require_live p)
  fail_if (side_owner side p != owner) (custom invalid_pmlc_side)
  pure p

unfoldable pub check_instrument : ℕ → Pmlc → Method World ⊤
check_instrument instrument_key p = do
  inst ← reads (load instrument_layout instrument_key)
  fail_if (inst.collateral_mint != p.collateral_mint) (custom invalid_pda)
  fail_if (instrument_key != p.instrument) (custom invalid_pda)

-- `m.owner != *owner.key || m.collateral_mint != collateral_mint`
unfoldable pub check_margin : ℕ → ℕ → Method MarginAccount ⊤
check_margin owner mint m =
    (if m.owner != owner || m.collateral_mint != mint then err (custom invalid_pda) else ok tt, m)

unfoldable pub release_side : ℕ → ℕ → ℕ → Method MarginAccount ⊤
unfolding check_margin
release_side owner mint c = do check_margin owner mint; move_locked_to_free c

unfoldable pub take_side : ℕ → ℕ → ℕ → Method MarginAccount ⊤
unfolding check_margin
take_side owner mint c = do check_margin owner mint; debit_free c; credit_locked c

-- The three writes of the transfer.
unfoldable pub hand_over : Runtime → NovateAccounts → ℕ → Pmlc → Method World ⊤
hand_over rt a side p = do
  on margin_layout a.current_margin.key
      (release_side a.current_owner.key p.collateral_mint p.collateral_per_side)
  on margin_layout a.new_margin.key
      (take_side a.new_owner.key p.collateral_mint p.collateral_per_side)
  on pmlc_layout a.pmlc.key
      (puts λ q. record (set_side_owner side a.new_owner.key q) { last_mark_slot = rt.slot })

-- From the margin accounts' addresses on.
unfoldable pub transfer_side : Runtime → NovateAccounts → ℕ → Pmlc → Method World ⊤
transfer_side rt a side p = do
  let mint = p.collateral_mint
  lift (assert_pda rt (seed_margin a.current_owner.key mint) a.current_margin.key)
  lift (assert_pda rt (seed_margin a.new_owner.key mint) a.new_margin.key)
  hand_over rt a side p

unfoldable pub process_novate : Runtime → List AccountInfo → ℕ → Method World ⊤
process_novate rt accounts side = do
  a ← lift (unpack accounts)
  check_accounts rt a
  unpaused_signer a.program_config.key
  lift (check_side side)
  p ← owned_pmlc a.pmlc.key side a.current_owner.key
  check_instrument a.instrument.key p
  transfer_side rt a side p
