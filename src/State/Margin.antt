-- ===== src/State/Margin.antt =====
-- `MarginAccount` of src/state/margin_account.rs: a trader's collateral in one mint, in three parts.
-- Padding, reserved bytes and the unused `flags` are left out.
pub mod Laws
pub mod Totals
use polyleverage.Base.{
  ℕ, ◌+◌, ◌-◌, ◌≤◌, ◌≡◌, Option, none, some, leb, ◌==◌, ◌!=◌, if◌then◌else◌, u64_max, checked_add,
  checked_sub,
}
use polyleverage.Base.Int.{ℤ, pos}
use polyleverage.Error.{
  PolyleverageError, ProgramError, custom, arithmetic_overflow, insufficient_free_collateral,
  insufficient_reserved_collateral, insufficient_locked_collateral, already_initialized,
}
use polyleverage.Method.{Result, ok, err, ⊤, Method, raise, puts, fail_if, ◌>>=◌, ◌>>◌}

abbrev pub disc_margin_account : ℕ
disc_margin_account = 2

pub record MarginAccount : Type 0 where
  pub discriminator : ℕ
  pub bump : ℕ
  pub owner : ℕ
  pub collateral_mint : ℕ
  pub free_collateral : ℕ
  pub reserved_collateral : ℕ
  pub locked_collateral : ℕ
  pub realized_pnl : ℤ

-- `MarginAccount::init` on the current contents of the account.
unfoldable pub init : ℕ → ℕ → ℕ → Method MarginAccount ⊤
init owner mint bump a = if a.discriminator != 0 then (err (custom already_initialized), a) else (
  ok tt,
  record {
    discriminator = disc_margin_account;
    bump = bump;
    owner = owner;
    collateral_mint = mint;
    free_collateral = 0;
    reserved_collateral = 0;
    locked_collateral = 0;
    realized_pnl = pos 0;
  },
)

-- `self.field = opt.ok_or(e)?`
abbrev assign :
    (ℕ → MarginAccount → MarginAccount) → Option ℕ → PolyleverageError → Method MarginAccount ⊤
assign put none e a = (err (custom e), a)
assign put (some v) e a = (ok tt, put v a)

abbrev put_free : ℕ → MarginAccount → MarginAccount
put_free v a = record a { free_collateral = v }

abbrev put_reserved : ℕ → MarginAccount → MarginAccount
put_reserved v a = record a { reserved_collateral = v }

abbrev put_locked : ℕ → MarginAccount → MarginAccount
put_locked v a = record a { locked_collateral = v }

unfoldable pub credit_free : ℕ → Method MarginAccount ⊤
credit_free amount a =
    assign put_free (checked_add u64_max a.free_collateral amount) arithmetic_overflow a

unfoldable pub debit_free : ℕ → Method MarginAccount ⊤
debit_free amount a =
    assign put_free (checked_sub a.free_collateral amount) insufficient_free_collateral a

unfoldable pub credit_reserved : ℕ → Method MarginAccount ⊤
credit_reserved amount a =
    assign put_reserved (checked_add u64_max a.reserved_collateral amount) arithmetic_overflow a

unfoldable pub debit_reserved : ℕ → Method MarginAccount ⊤
debit_reserved amount a =
    assign put_reserved (checked_sub a.reserved_collateral amount) insufficient_reserved_collateral
      a

unfoldable pub credit_locked : ℕ → Method MarginAccount ⊤
credit_locked amount a =
    assign put_locked (checked_add u64_max a.locked_collateral amount) arithmetic_overflow a

unfoldable pub debit_locked : ℕ → Method MarginAccount ⊤
debit_locked amount a =
    assign put_locked (checked_sub a.locked_collateral amount) insufficient_locked_collateral a

unfoldable pub move_free_to_reserved : ℕ → Method MarginAccount ⊤
unfolding debit_free credit_reserved
move_free_to_reserved amount = do debit_free amount; credit_reserved amount

unfoldable pub move_reserved_to_free : ℕ → Method MarginAccount ⊤
unfolding debit_reserved credit_free
move_reserved_to_free amount = do debit_reserved amount; credit_free amount

unfoldable pub move_reserved_to_locked : ℕ → Method MarginAccount ⊤
unfolding debit_reserved credit_locked
move_reserved_to_locked amount = do debit_reserved amount; credit_locked amount

unfoldable pub move_locked_to_free : ℕ → Method MarginAccount ⊤
unfolding debit_locked credit_free
move_locked_to_free amount = do debit_locked amount; credit_free amount
