-- ===== src/Matching/Effects.antt =====
-- The steps of a match (src/processor/match_ix.rs) on what the accounts hold.
use polyleverage.Base.{
  ℕ, ◌+◌, ◌≡◌, refl, ap, Bool, true, false, ◌&&◌, arith, ltb, ◌==◌, if◌then◌else◌,
}
use polyleverage.Method.{Result, ok, ⊤, Method, pure, reads, ◌>>=◌, ◌>>◌, >>=-eq-ok, pure-eq-ok}
use polyleverage.State.Margin.{
  MarginAccount, move_reserved_to_locked, move_reserved_to_free, debit_free,
}
use polyleverage.State.Margin.Laws.{total}
use polyleverage.State.Margin.Totals.{
  debit_free-total, move_reserved_to_free-total, move_reserved_to_locked-total,
}
use polyleverage.State.Fees.{FeeTreasury, accrue}
use polyleverage.State.Volume.{add_volume}
use polyleverage.Accounts.{
  World, Runtime, on, margin_layout, fee_treasury_layout, user_volume_layout,
}
use polyleverage.Accounts.Views.Faithful.{
  fee_treasury_layout-IsFaithful, margin_layout-IsFaithful, user_volume_layout-IsFaithful,
}
use polyleverage.Accounts.Held.{held, SameHeld, on-held, on-SameHeld}
use polyleverage.Accounts.Moves.{Does}
use polyleverage.Matching.{MatchCtx}
use polyleverage.Matching.Core.{lock_side, charge_fee, taker_fee}
use polyleverage.Matching.Pairs.{when}
use polyleverage.Matching.Made.{SameHeld-reads}

when-total :
    (test : Bool) (f : Method MarginAccount ⊤) (amount : ℕ) (m n : MarginAccount)
    → ((n : MarginAccount) → f m ≡ (ok tt, n) → total n + amount ≡ total m)
    → when test f m ≡ (ok tt, n)
    → total n + (if test then amount else 0) ≡ total m
when-total true f amount m n law h = law n h
when-total false f amount m n law h =
    let same : m ≡ n = ap (λ (q : Result ⊤ × MarginAccount). q.1) h in
    let e = ap total same in omega (arith, e)

lock_side-total :
    (per_side release : ℕ) (is_taker : Bool) (fee : ℕ) (m n : MarginAccount)
    → lock_side per_side release is_taker fee m ≡ (ok tt, n)
    → total n + (if is_taker then fee else 0) ≡ total m
unfolding lock_side
lock_side-total per_side release is_taker fee m n h =
    let back = when (ltb 0 release) (move_reserved_to_free release) in
    let pay = when (is_taker && ltb 0 fee) (debit_free fee) in
    let (_, x, first, rest) =
      >>=-eq-ok (move_reserved_to_locked per_side) (λ _. back >>= λ _. pay) m n h in
    let (_, y, second, third) = >>=-eq-ok back (λ _. pay) x n rest in
    let e1 = move_reserved_to_locked-total per_side m x first in
    let e2 =
      when-total (ltb 0 release) (move_reserved_to_free release) 0 x y
        (λ n g. omega (arith, move_reserved_to_free-total release x n g)) second in
    let e3 =
      when-total (is_taker && ltb 0 fee) (debit_free fee) fee y n
        (λ n g. debit_free-total fee y n g) third in
    ground (arith, e1, e2, e3)

accrue-held :
    (fee : ℕ) (s t : FeeTreasury)
    → accrue fee s ≡ (ok tt, t)
    → t.accrued_atoms ≡ s.accrued_atoms + fee
unfolding accrue
accrue-held fee s t h = ground arith

grow-SameHeld :
    (k amount slot : ℕ) → Does SameHeld (on user_volume_layout k (add_volume amount slot))
grow-SameHeld k amount slot w u a h =
    on-SameHeld user_volume_layout user_volume_layout-IsFaithful (λ v. refl) k
      (add_volume amount slot) w u a h

credit-held :
    (k fee : ℕ) (w u : World)
    → when (ltb 0 fee) (on fee_treasury_layout k (accrue fee)) w ≡ (ok tt, u)
    → (j : ℕ) → held (u j).contents ≡ held (w j).contents + (if j == k then fee else 0)
credit-held k fee w u h j = go (ltb 0 fee) refl h
  where
    go :
        (b : Bool)
        → ltb 0 fee ≡ b
        → when b (on fee_treasury_layout k (accrue fee)) w ≡ (ok tt, u)
        → held (u j).contents ≡ held (w j).contents + (if j == k then fee else 0)
    go true e h =
        let moved =
          on-held fee_treasury_layout fee_treasury_layout-IsFaithful k (accrue fee) w u tt fee 0
            (λ s t g. omega (arith, accrue-held fee s t g)) h j in
        ground (arith, moved)
    go false e h =
        let same = ap (λ (q : Result ⊤ × World). held (q.1 j).contents) h in
        let none_due : fee ≡ 0 = ground arith in ground (arith, same, none_due)

-- The fee that is charged is what the treasury gains.
pub charge_fee-held :
    (rt : Runtime) (ctx : MatchCtx) (per_side fee : ℕ) (w u : World)
    → charge_fee rt ctx per_side w ≡ (ok fee, u)
    → (j : ℕ)
    → held (u j).contents
      ≡ held (w j).contents + (if j == ctx.fee_ctx.fee_treasury_ai.key then fee else 0)
unfolding charge_fee
charge_fee-held rt ctx per_side fee w u h j =
    let fees = ctx.fee_ctx in
    let grow : ℕ → Method World ⊤ = λ k. on user_volume_layout k (add_volume per_side rt.slot) in
    let credit : ℕ → Method World ⊤ =
      λ fee. when (ltb 0 fee) (on fee_treasury_layout fees.fee_treasury_ai.key (accrue fee)) in
    let (x, w0, read, rest) =
      >>=-eq-ok (reads (taker_fee rt ctx per_side))
        (λ fee.
          grow fees.taker_volume_ai.key
          >> (grow fees.maker_volume_ai.key >> (credit fee >> pure fee)))
        w u h in
    let (_, w1, first, rest1) =
      >>=-eq-ok (grow fees.taker_volume_ai.key)
        (λ _. grow fees.maker_volume_ai.key >> (credit x >> pure x)) w0 u rest in
    let (_, w2, second, rest2) =
      >>=-eq-ok (grow fees.maker_volume_ai.key) (λ _. credit x >> pure x) w1 u rest1 in
    let (_, w3, third, last) = >>=-eq-ok (credit x) (λ _. pure x) w2 u rest2 in
    let (answer, end) = pure-eq-ok x w3 u last in
    let e0 = SameHeld-reads (taker_fee rt ctx per_side) w w0 x read j in
    let e1 = grow-SameHeld fees.taker_volume_ai.key per_side rt.slot w0 w1 tt first j in
    let e2 = grow-SameHeld fees.maker_volume_ai.key per_side rt.slot w1 w2 tt second j in
    let e3 = credit-held fees.fee_treasury_ai.key x w2 w3 third j in
    let e4 = ap (λ (v : World). held (v j).contents) end in
    ground (arith, answer, e0, e1, e2, e3, e4)

-- The side that takes pays the fee, and its account is the only one to lose.
pub lock_side-held :
    (k per_side release : ℕ) (is_taker : Bool) (fee : ℕ) (w u : World)
    → on margin_layout k (lock_side per_side release is_taker fee) w ≡ (ok tt, u)
    → (j : ℕ)
    → held (u j).contents + (if j == k then (if is_taker then fee else 0) else 0)
      ≡ held (w j).contents
lock_side-held k per_side release is_taker fee w u h j =
    let moved =
      on-held margin_layout margin_layout-IsFaithful k (lock_side per_side release is_taker fee) w u
        tt 0 (if is_taker then fee else 0)
        (λ m n g. omega (arith, lock_side-total per_side release is_taker fee m n g)) h j in
    ground (arith, moved)
