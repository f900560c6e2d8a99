-- ===== src/Tests/Money.antt =====
-- Margin accounts, fees and sessions at concrete values.
use polyleverage.Base.{◌+◌, ◌≤◌, ◌≡◌, refl, List, [], ◌∷◌, arith}
use polyleverage.Base.Int.{pos}
use polyleverage.Method.{ok}
use polyleverage.State.Margin.{
  MarginAccount, disc_margin_account, move_free_to_reserved, move_reserved_to_free,
  move_reserved_to_locked, move_locked_to_free,
}
use polyleverage.State.Margin.Laws.{
  IsValid, Keeps, moves_keep_total, move_free_to_reserved_cases, ReservingOutcome,
}
use polyleverage.State.Session.{Session, init, disc_session}
use polyleverage.State.Session.Bounds.{charge_all, charge_all_bounded}
use polyleverage.State.Volume.{UserVolume, disc_user_volume, maybe_roll_epoch}
use polyleverage.State.Volume.Epochs.{maybe_roll_epoch-maybe_roll_epoch}
use polyleverage.State.Fees.{
  FeeTier, FeeSchedule, FeeTreasury, disc_fee_schedule, disc_fee_treasury, first_fee,
  fee_for_volume, validate_tiers, validate_from,
}
use polyleverage.State.Fees.Tiers.{tier_fee, fee_for_volume-tier_fee}
use polyleverage.State.Fees.Treasury.{
  Entry, accrues, sweeps, post_all, accrued_all, post_all_balance,
}
use polyleverage.State.Config.{InstrumentParams}

abbrev account : MarginAccount
account = record {
  discriminator = disc_margin_account;
  bump = 255;
  owner = 21;
  collateral_mint = 30;
  free_collateral = 100;
  reserved_collateral = 20;
  locked_collateral = 3;
  realized_pnl = pos 0;
}

account-IsValid : IsValid account
account-IsValid = record { free = omega arith; reserved = omega arith; locked = omega arith }

moves_keep_total_example :
    Keeps account (move_free_to_reserved 5 account)
    × Keeps account (move_reserved_to_free 5 account)
    × Keeps account (move_reserved_to_locked 5 account)
    × Keeps account (move_locked_to_free 5 account)
moves_keep_total_example = moves_keep_total 5 account account-IsValid

abbrev reserved : MarginAccount
reserved = record account { free_collateral = 60; reserved_collateral = 60 }

move_free_to_reserved_runs : move_free_to_reserved 40 account ≡ (ok tt, reserved)
unfolding move_free_to_reserved
move_free_to_reserved_runs = refl

move_free_to_reserved_cases_example : ReservingOutcome 40 account
move_free_to_reserved_cases_example = move_free_to_reserved_cases 40 account

abbrev session : Session
session = record {
  discriminator = disc_session;
  bump = 254;
  revoked = 0;
  n_allowed_instruments = 1;
  owner = 21;
  delegate = 33;
  expires_at_slot = 500;
  per_intent_max_collateral_atoms = 50;
  cumulative_collateral_used = 10;
  cumulative_collateral_cap = 100;
  created_at_slot = 1;
  version = 1;
  allowed_instruments = 2 ∷ 0 ∷ 0 ∷ 0 ∷ 0 ∷ 0 ∷ 0 ∷ 0 ∷ [];
}

charge_all_bounded_example :
    let (t, n) = charge_all (40 ∷ 60 ∷ 50 ∷ 1 ∷ []) session in
    (t.cumulative_collateral_used ≡ 10 + n) × (10 + n ≤ 100)
charge_all_bounded_example = charge_all_bounded (40 ∷ 60 ∷ 50 ∷ 1 ∷ []) session (omega arith)

abbrev opened : Session
opened = (init 21 33 254 500 50 100 (2 ∷ 9 ∷ []) 1 session).1

init_runs : init 21 33 254 500 50 100 (2 ∷ 9 ∷ []) 1 session ≡ (ok tt, opened)
unfolding init
init_runs = refl

abbrev volume : UserVolume
volume = record {
  discriminator = disc_user_volume;
  bump = 253;
  owner = 21;
  collateral_mint = 30;
  volume_current_atoms = 70;
  volume_prev_atoms = 90;
  epoch_start_slot = 1_000;
  epoch_length_slots = 100;
}

maybe_roll_epoch-maybe_roll_epoch_example :
    maybe_roll_epoch 1_250 (maybe_roll_epoch 1_150 volume).1 ≡ maybe_roll_epoch 1_250 volume
maybe_roll_epoch-maybe_roll_epoch_example =
    maybe_roll_epoch-maybe_roll_epoch 1_150 1_250 volume (omega arith) (omega arith) (omega arith)

abbrev tiers : List FeeTier
tiers =
    record { volume_threshold = 0; fee_bps = 30 }
    ∷ record { volume_threshold = 1_000; fee_bps = 20 }
    ∷ record { volume_threshold = 5_000; fee_bps = 10 }
    ∷ []

abbrev schedule : FeeSchedule
schedule = record {
  discriminator = disc_fee_schedule;
  bump = 252;
  tiers = tiers;
  max_tier_fee_bps = 30;
  last_updated_slot = 1;
}

tiers_accepted : validate_tiers tiers ≡ ok tt
unfolding validate_tiers validate_from
tiers_accepted = refl

fee_for_volume-tier_fee_example :
    fee_for_volume 2_000 schedule ≡ tier_fee (first_fee tiers) 2_000 tiers
fee_for_volume-tier_fee_example = fee_for_volume-tier_fee 2_000 schedule tiers_accepted

abbrev treasury : FeeTreasury
treasury = record {
  discriminator = disc_fee_treasury;
  bump = 251;
  collateral_mint = 30;
  accrued_atoms = 4;
  total_swept_atoms = 6;
}

abbrev entries : List Entry
entries = accrues 10 ∷ sweeps 3 ∷ sweeps 20 ∷ []

post_all_balance_example :
    let u = post_all entries treasury in
    u.accrued_atoms + u.total_swept_atoms ≡ 4 + 6 + accrued_all entries treasury
post_all_balance_example = post_all_balance entries treasury

abbrev params : InstrumentParams
params = record {
  source = 0;
  market_id = 7;
  source_token_id_a = 0;
  source_token_id_b = 0;
  collateral_mint = 30;
  intent_book = 4;
  leverage_bps = 50_000;
  collateral_bucket = 1_000_000;
  twap_window_slots = 10;
  tick_fp = 1_000;
  liquidation_bps = 1_000;
  liquidation_bounty_bps = 50;
  max_staleness_secs = 60;
  reference_usd = 0;
  bump = 249;
}
