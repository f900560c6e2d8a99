-- ===== src/Tests/Novate.antt =====
-- The long side of a contract passes to a trader with enough free collateral.
use polyleverage.Base.{ℕ, ◌≡◌, refl, true, List, [], ◌∷◌, ◌==◌, if◌then◌else◌}
use polyleverage.Method.{ok}
use polyleverage.State.Margin.{
  MarginAccount, move_locked_to_free, debit_locked, credit_free, debit_free, credit_locked,
}
use polyleverage.State.Pmlc.{require_live}
use polyleverage.Accounts.{World, AccountInfo, margin, foreign, load, check_loaded, on, store}
use polyleverage.Settlement.{unpaused_signer}
use polyleverage.Novation.{
  NovateAccounts, unpack, check_accounts, check_side, side_owner, set_side_owner, owned_pmlc,
  check_instrument, check_margin, release_side, take_side, hand_over, transfer_side, process_novate,
}
use polyleverage.Novation.Ownership.{HandsOver, process_novate-HandsOver}
use polyleverage.Tests.Settle.{world, margins, margin_of, breach}

abbrev signer : ℕ → AccountInfo
signer k = record { key = k; is_signer = true; is_writable = true }

abbrev buyer : MarginAccount
buyer = record (margin_of 23 0) { free_collateral = 2_000_000 }

abbrev before : World
before k = if k == 13 then record { program = 77; contents = margin buyer } else world k

abbrev infos : List AccountInfo
infos = signer 21 ∷ signer 23 ∷ signer 1 ∷ signer 2 ∷ signer 5 ∷ signer 11 ∷ signer 13 ∷ []

abbrev accounts : NovateAccounts
accounts = record {
  current_owner = signer 21;
  new_owner = signer 23;
  program_config = signer 1;
  instrument = signer 2;
  pmlc = signer 5;
  current_margin = signer 11;
  new_margin = signer 13;
}

abbrev after : World
after = (process_novate breach infos 0 before).1

novate_runs : process_novate breach infos 0 before ≡ (ok tt, after)
unfolding process_novate unpack check_accounts foreign unpaused_signer load check_loaded check_side
    owned_pmlc require_live side_owner check_instrument transfer_side hand_over on store
    release_side take_side check_margin move_locked_to_free debit_locked credit_free debit_free
    credit_locked set_side_owner
novate_runs = refl

process_novate-HandsOver_example : HandsOver margins breach accounts 0 before after
unfolding unpack
process_novate-HandsOver_example =
    process_novate-HandsOver margins breach infos 0 before after accounts (refl, (refl, (refl, tt)))
      refl refl refl novate_runs
