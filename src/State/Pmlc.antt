-- ===== src/State/Pmlc.antt =====
-- `Pmlc` of src/state/pmlc.rs: one matched contract between a long and a short. Padding and reserved
-- bytes are left out.
pub mod Size
use polyleverage.Base.{ℕ, ◌+◌, ◌*◌, ◌/◌, ◌%◌, ◌≡◌, ◌!=◌, if◌then◌else◌, as_u64, arith}
use polyleverage.Error.{custom, pmlc_not_live}
use polyleverage.Method.{Result, ok, err, ⊤}

abbrev pub disc_pmlc : ℕ
disc_pmlc = 5

abbrev pub pmlc_status_live : ℕ
pmlc_status_live = 0

abbrev pub pmlc_status_closed : ℕ
pmlc_status_closed = 1

abbrev pub pmlc_status_liquidated : ℕ
pmlc_status_liquidated = 2

abbrev pub pmlc_status_resolved : ℕ
pmlc_status_resolved = 3

abbrev pub close_reason_liquidated : ℕ
close_reason_liquidated = 1

abbrev pub close_reason_resolved : ℕ
close_reason_resolved = 2

pub record Pmlc : Type 0 where
  pub discriminator : ℕ
  pub status : ℕ
  pub close_reason : ℕ
  pub flags : ℕ
  pub bump : ℕ
  pub id : ℕ
  pub instrument : ℕ
  pub collateral_mint : ℕ
  pub market_id : ℕ
  pub long_owner : ℕ
  pub short_owner : ℕ
  pub collateral_per_side : ℕ
  pub leverage_bps : ℕ
  pub entry_price_fp : ℕ
  pub notional_atoms : ℕ
  pub size_fp_lo : ℕ
  pub size_fp_hi : ℕ
  pub opened_slot : ℕ
  pub last_mark_slot : ℕ
  pub long_reentry_price_fp : ℕ
  pub short_reentry_price_fp : ℕ

-- `((hi as u128) << 64) | (lo as u128)`: the low word has no bit in common with the shifted one.
unfoldable pub size_fp : Pmlc → ℕ
size_fp p = p.size_fp_hi * 0x1_0000_0000_0000_0000 + p.size_fp_lo

unfoldable pub set_size_fp : ℕ → Pmlc → Pmlc
set_size_fp value p = record p {
  size_fp_lo = as_u64 value;
  size_fp_hi = as_u64 (value / 0x1_0000_0000_0000_0000);
}

unfoldable pub require_live : Pmlc → Result ⊤
require_live p = if p.status != pmlc_status_live then err (custom pmlc_not_live) else ok tt
