-- ===== src/Tests/Closing.antt =====
-- A resolved contract's account is closed, for a recipient apart and for the account itself.
use polyleverage.Base.{ℕ, ◌≡◌, refl, true, [], ◌∷◌, ◌==◌, if◌then◌else◌}
use polyleverage.Method.{ok}
use polyleverage.State.Pmlc.{pmlc_status_resolved}
use polyleverage.Accounts.{AccountInfo, SystemProgram, pmlc, foreign, load, check_loaded}
use polyleverage.Closing.{Ledger, closable, refund, close_pmlc_account, process_close_pmlc}
use polyleverage.Closing.Vacated.{Vacates, process_close_pmlc-Vacates}
use polyleverage.Tests.Settle.{world, contract, breach}

abbrev pub system : SystemProgram
system = record { id = 0; create_account = λ payer new space w. (ok tt, w) }

abbrev pub named : ℕ → AccountInfo
named k = record { key = k; is_signer = true; is_writable = true }

abbrev books : Ledger
books = record {
  world = λ k.
      if k == 5
      then record {
        program = 77;
        contents = pmlc (record contract { status = pmlc_status_resolved });
      }
      else world k;
  lamports = λ k. if k == 5 then 2_840_000 else 1_000;
}

abbrev books_after : Ledger
books_after = (process_close_pmlc system breach (named 21 ∷ named 5 ∷ []) books).1

closing_runs :
    process_close_pmlc system breach (named 21 ∷ named 5 ∷ []) books ≡ (ok tt, books_after)
unfolding process_close_pmlc closable foreign load check_loaded close_pmlc_account refund
closing_runs = refl

refund_runs : books_after.lamports 21 ≡ 2_841_000
unfolding process_close_pmlc closable foreign load check_loaded close_pmlc_account refund
refund_runs = refl

-- The account that pays itself keeps its lamports.
self_refund_runs :
    (process_close_pmlc system breach (named 5 ∷ named 5 ∷ []) books).1.lamports 5 ≡ 2_840_000
unfolding process_close_pmlc closable foreign load check_loaded close_pmlc_account refund
self_refund_runs = refl

process_close_pmlc-Vacates_example : Vacates system 21 5 books books_after
process_close_pmlc-Vacates_example =
    process_close_pmlc-Vacates system breach (named 21) (named 5) [] books books_after closing_runs
