-- ===== src/Tests/Fees.antt =====
-- The administrator lowers the fees, and sweeps what has accrued.
use polyleverage.Base.{◌≡◌, refl, List, [], ◌∷◌, arith, replicate, ◌==◌, if◌then◌else◌}
use polyleverage.Method.{ok}
use polyleverage.State.Fees.{
  FeeTier, disc_fee_treasury, validate_tiers, validate_from, compute_max_fee_bps, max_fee_from,
  sweep,
}
use polyleverage.Accounts.{
  World, AccountInfo, fee_treasury, token_data, foreign, load, check_loaded, on, store,
}
use polyleverage.Custody.{unpack_token}
use polyleverage.Custody.Backing.{KeepsSurplus}
use polyleverage.Fees.{
  SweepAccounts, check_admin, replace_tiers, set_fee_schedule_with, process_set_fee_schedule,
  check_sweep, sweep_of, sweep_with, process_sweep_fees,
}
use polyleverage.Fees.Capped.{Capped, process_set_fee_schedule-Capped}
use polyleverage.Fees.Sweeping.{process_sweep_fees-KeepsSurplus}
use polyleverage.Tests.Settle.{breach}
use polyleverage.Tests.Closing.{named}
use polyleverage.Tests.Matching.{market_world, kept}
use polyleverage.Tests.Custody.{tokens, tokens_exact}

-- A fee of 30 basis points, and of 10 from a volume of a million on.
abbrev lower : List FeeTier
lower =
    record { volume_threshold = 0; fee_bps = 30 }
    ∷ replicate 7 (record { volume_threshold = 1_000_000; fee_bps = 10 })

abbrev changed : World
changed =
    (process_set_fee_schedule breach (named 40 ∷ named 1 ∷ named 15 ∷ []) lower market_world).1

change_runs :
    process_set_fee_schedule breach (named 40 ∷ named 1 ∷ named 15 ∷ []) lower market_world
    ≡ (ok tt, changed)
unfolding process_set_fee_schedule set_fee_schedule_with check_admin foreign load check_loaded
    validate_tiers validate_from on store replace_tiers compute_max_fee_bps max_fee_from
change_runs = refl

process_set_fee_schedule-Capped_example : Capped (named 40) 1 15 lower market_world changed
process_set_fee_schedule-Capped_example =
    process_set_fee_schedule-Capped breach (named 40) (named 1) (named 15) [] lower market_world
      changed change_runs

-- The vault at 44 and the administrator's tokens at 91.
abbrev till : World
till k =
    if k == 16
    then record {
      program = 77;
      contents = fee_treasury (record {
        discriminator = disc_fee_treasury;
        bump = 238;
        collateral_mint = 30;
        accrued_atoms = 900;
        total_swept_atoms = 0;
      });
    }
    else if k == 44
    then record { program = 90; contents = token_data (30 ∷ 14 ∷ 4_000_021 ∷ []) }
    else if k == 91
    then record { program = 90; contents = token_data (30 ∷ 40 ∷ 5 ∷ []) }
    else market_world k

abbrev sweeping : SweepAccounts
sweeping = record {
  admin = named 40;
  program_config = named 1;
  treasury = named 16;
  vault_ata = named 44;
  dest_ata = named 91;
  mint = named 30;
  vault_authority = named 14;
  token_program = named 90;
}

abbrev sweep_infos : List AccountInfo
sweep_infos =
    named 40 ∷ named 1 ∷ named 16 ∷ named 44 ∷ named 91 ∷ named 30 ∷ named 14 ∷ named 90 ∷ []

abbrev swept : World
swept = (process_sweep_fees tokens breach sweep_infos 600 till).1

sweep_runs : process_sweep_fees tokens breach sweep_infos 600 till ≡ (ok tt, swept)
unfolding process_sweep_fees sweep_with check_sweep check_admin foreign load check_loaded
    unpack_token on store sweep_of sweep
sweep_runs = refl

process_sweep_fees-KeepsSurplus_example : KeepsSurplus kept tokens 44 till swept
process_sweep_fees-KeepsSurplus_example =
    process_sweep_fees-KeepsSurplus kept tokens breach sweeping [] 600 till swept
      (refl, (refl, (refl, tt))) tokens_exact refl (λ e. omega arith) sweep_runs
