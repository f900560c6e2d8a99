-- ===== src/Closing.antt =====
-- The account of a settled contract is given up (src/processor/close_pmlc.rs).
pub mod Vacated
use polyleverage.Base.{
  ℕ, ◌+◌, ◌≡◌, ◌≢◌, Bool, true, false, ◌||◌, not, Option, none, some, List, [], ◌∷◌, ◌==◌,
  if◌then◌else◌, u64_max, checked_add,
}
use polyleverage.Error.{
  custom, not_enough_account_keys, invalid_account_owner, pmlc_not_live, arithmetic_overflow,
}
use polyleverage.Method.{
  Result, ok, err, ⊤, Method, reads, lift, gets, puts, ok_or, fail_if, ◌>>=◌, ◌>>◌,
}
use polyleverage.State.Pmlc.{Pmlc, pmlc_status_closed, pmlc_status_liquidated, pmlc_status_resolved}
use polyleverage.Accounts.{
  World, pmlc, AccountInfo, Runtime, SystemProgram, assert_signer, assert_writable, foreign, load,
  pmlc_layout,
}

-- The accounts and their lamports, by key.
pub record Ledger : Type 0 where
  pub world : World
  pub lamports : ℕ → ℕ

abbrev pub put_lamports : (key amount : ℕ) → Ledger → Ledger
put_lamports key amount s = record s { lamports = λ k. if k == key then amount else s.lamports k }

-- A contract's bytes, all zero.
abbrev pub zeroed : Pmlc
zeroed = record {
  discriminator = 0;
  status = 0;
  close_reason = 0;
  flags = 0;
  bump = 0;
  id = 0;
  instrument = 0;
  collateral_mint = 0;
  market_id = 0;
  long_owner = 0;
  short_owner = 0;
  collateral_per_side = 0;
  leverage_bps = 0;
  entry_price_fp = 0;
  notional_atoms = 0;
  size_fp_lo = 0;
  size_fp_hi = 0;
  opened_slot = 0;
  last_mark_slot = 0;
  long_reentry_price_fp = 0;
  short_reentry_price_fp = 0;
}

-- The lamports of the contract go to the recipient, who may be the same account.
unfoldable pub refund : (recipient key : ℕ) → Method Ledger ⊤
refund recipient key = do
  pmlc_lamports ← gets λ s. s.lamports key
  puts (put_lamports key 0)
  there ← gets λ s. s.lamports recipient
  total ← ok_or (checked_add u64_max there pmlc_lamports) (custom arithmetic_overflow)
  puts (put_lamports recipient total)

-- The data is zeroed and the account assigned to the system program.
abbrev pub vacate : SystemProgram → ℕ → Ledger → Ledger
vacate sys key s = record s {
  world = λ k. if k == key then record { program = sys.id; contents = pmlc zeroed } else s.world k;
}

-- On an account that holds a contract.
unfoldable pub close_pmlc_account : SystemProgram → (recipient key : ℕ) → Method Ledger ⊤
close_pmlc_account sys recipient key = do refund recipient key; puts (vacate sys key)

abbrev pub is_closed : Pmlc → Bool
is_closed p =
    p.status == pmlc_status_closed
    || (p.status == pmlc_status_liquidated || p.status == pmlc_status_resolved)

unfoldable pub closable : Runtime → AccountInfo → AccountInfo → Method Ledger ⊤
closable rt recipient pmlc_ai = do
  lift (assert_signer recipient)
  lift (assert_writable recipient)
  lift (assert_writable pmlc_ai)
  is_foreign ← gets λ s. foreign rt s.world (pmlc_ai ∷ [])
  fail_if is_foreign (custom invalid_account_owner)
  p ← reads λ s. load pmlc_layout pmlc_ai.key s.world
  fail_if (not (is_closed p)) (custom pmlc_not_live)

unfoldable pub process_close_pmlc : SystemProgram → Runtime → List AccountInfo → Method Ledger ⊤
process_close_pmlc sys rt (recipient ∷ pmlc_ai ∷ _) = do
  closable rt recipient pmlc_ai
  close_pmlc_account sys recipient.key pmlc_ai.key
process_close_pmlc sys rt _ = lift (err not_enough_account_keys)
