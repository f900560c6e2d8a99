-- ===== src/State/Margin/Laws.antt =====
-- The moves between the parts of a margin account (src/state/margin_account.rs): sums, bounds, errors.
use polyleverage.Base.{ℕ, ◌+◌, ◌-◌, ◌≤◌, ◌<◌, ◌≡◌, ◌⊎◌, arith, u64_max}
use polyleverage.Error.{custom, arithmetic_overflow, insufficient_free_collateral}
use polyleverage.Method.{Result, ok, err, ⊤}
use polyleverage.State.Margin.{
  MarginAccount, move_free_to_reserved, move_reserved_to_free, move_reserved_to_locked,
  move_locked_to_free,
}

-- Every part is a `u64`.
pub record IsValid (a : MarginAccount) : Type 0 where
  pub free : a.free_collateral ≤ u64_max
  pub reserved : a.reserved_collateral ≤ u64_max
  pub locked : a.locked_collateral ≤ u64_max

-- All that the account holds.
abbrev pub total : MarginAccount → ℕ
total a = a.free_collateral + a.reserved_collateral + a.locked_collateral

-- A move leaves the account valid and, if it returns no error, holding what it held.
abbrev pub Keeps : MarginAccount → Result ⊤ × MarginAccount → Type 0
Keeps a (r, b) = IsValid b × (r ≡ ok tt → total b ≡ total a)

-- Each of the four moves leaves every part a `u64`, and a move that returns no error leaves the sum
-- of the three parts as it was.
pub moves_keep_total :
    (amount : ℕ) (a : MarginAccount)
    → IsValid a
    → Keeps a (move_free_to_reserved amount a)
      × Keeps a (move_reserved_to_free amount a)
      × Keeps a (move_reserved_to_locked amount a)
      × Keeps a (move_locked_to_free amount a)
unfolding move_free_to_reserved move_reserved_to_free move_reserved_to_locked move_locked_to_free
moves_keep_total amount a v = (ground arith, ground arith, ground arith, ground arith)

-- Reserving collateral for an intent and releasing it again gives back the account that was there.
pub move_reserved_to_free-move_free_to_reserved :
    (amount : ℕ) (a b : MarginAccount)
    → IsValid a
    → move_free_to_reserved amount a ≡ (ok tt, b)
    → move_reserved_to_free amount b ≡ (ok tt, a)
unfolding move_free_to_reserved move_reserved_to_free
move_reserved_to_free-move_free_to_reserved amount a b v h = ground arith

-- The three outcomes of reserving collateral: with enough free collateral and room the amount is
-- moved; with too little nothing is changed; with no room the free part has already been debited.
abbrev pub ReservingOutcome : ℕ → MarginAccount → Type 0
ReservingOutcome amount a =
    ((amount ≤ a.free_collateral)
      × (a.reserved_collateral + amount ≤ u64_max)
      × (move_free_to_reserved amount a ≡ (
        ok tt,
        record a {
          free_collateral = a.free_collateral - amount;
          reserved_collateral = a.reserved_collateral + amount;
        },
      )))
    ⊎ (((a.free_collateral < amount)
          × (move_free_to_reserved amount a ≡ (err (custom insufficient_free_collateral), a)))
        ⊎ ((amount ≤ a.free_collateral)
            × (u64_max < a.reserved_collateral + amount)
            × (move_free_to_reserved amount a ≡ (
              err (custom arithmetic_overflow),
              record a { free_collateral = a.free_collateral - amount },
            ))))

-- What `move_free_to_reserved` does, by cases: with enough free collateral and room it moves the
-- amount; with too little it changes nothing and says so; with no room it fails with an overflow, and
-- the free part has already been debited.
pub move_free_to_reserved_cases : (amount : ℕ) (a : MarginAccount) → ReservingOutcome amount a
unfolding move_free_to_reserved
move_free_to_reserved_cases amount a = ground arith
