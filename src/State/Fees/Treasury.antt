-- ===== src/State/Fees/Treasury.antt =====
-- The fee ledger (src/state/fee_treasury.rs) over a sequence of accruals and sweeps.
use polyleverage.Base.{ℕ, ◌+◌, ◌≡◌, List, [], ◌∷◌, arith}
use polyleverage.Method.{ok, err, committed}
use polyleverage.State.Fees.{FeeTreasury, accrue, sweep}

-- The calls that change a treasury.
pub data Entry : Type 0 where
  accrues sweeps : ℕ → Entry

-- A call that fails is rolled back.
pub post_entry : Entry → FeeTreasury → FeeTreasury
post_entry (accrues n) t = committed (accrue n) t
post_entry (sweeps n) t = committed (sweep n) t

-- What a call adds to the fees ever accrued.
pub accrued_by : Entry → FeeTreasury → ℕ
accrued_by (accrues n) t = elim (accrue n t).0 [ ok _ ↦ n | err _ ↦ 0 ]
accrued_by (sweeps n) t = 0

pub post_all : List Entry → FeeTreasury → FeeTreasury
post_all [] t = t
post_all (e ∷ es) t = post_all es (post_entry e t)

pub accrued_all : List Entry → FeeTreasury → ℕ
accrued_all [] t = 0
accrued_all (e ∷ es) t = accrued_by e t + accrued_all es (post_entry e t)

abbrev ever : FeeTreasury → ℕ
ever t = t.accrued_atoms + t.total_swept_atoms

post_entry-ever : (e : Entry) (t : FeeTreasury) → ever (post_entry e t) ≡ ever t + accrued_by e t
unfolding post_entry accrued_by accrue sweep
post_entry-ever (accrues n) t = ground arith
post_entry-ever (sweeps n) t = ground arith

-- After any calls, the fees that can still be swept and those that have been add up to what was there
-- before and what the accruals that went through have added: no sweep takes more than has accrued.
pub post_all_balance :
    (es : List Entry) (t : FeeTreasury)
    → let u = post_all es t in
      u.accrued_atoms + u.total_swept_atoms
      ≡ t.accrued_atoms + t.total_swept_atoms + accrued_all es t
unfolding post_all accrued_all
post_all_balance [] t = omega arith
post_all_balance (e ∷ es) t =
    omega (arith, post_entry-ever e t, post_all_balance es (post_entry e t))
