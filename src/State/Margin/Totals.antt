-- ===== src/State/Margin/Totals.antt =====
-- What the calls that succeed change of an account's sum.
use polyleverage.Base.{ℕ, ◌+◌, ◌≡◌, arith}
use polyleverage.Method.{ok}
use polyleverage.State.Margin.{
  MarginAccount, debit_free, move_free_to_reserved, move_reserved_to_free, move_reserved_to_locked,
}
use polyleverage.State.Margin.Laws.{total}

module _ (amount : ℕ) (m n : MarginAccount) where
  pub debit_free-total : debit_free amount m ≡ (ok tt, n) → total n + amount ≡ total m
  unfolding debit_free
  debit_free-total h = ground arith

  pub move_free_to_reserved-total : move_free_to_reserved amount m ≡ (ok tt, n) → total n ≡ total m
  unfolding move_free_to_reserved
  move_free_to_reserved-total h = ground arith

  pub move_reserved_to_free-total : move_reserved_to_free amount m ≡ (ok tt, n) → total n ≡ total m
  unfolding move_reserved_to_free
  move_reserved_to_free-total h = ground arith

  pub move_reserved_to_locked-total :
      move_reserved_to_locked amount m ≡ (ok tt, n) → total n ≡ total m
  unfolding move_reserved_to_locked
  move_reserved_to_locked-total h = ground arith
