-- ===== src/Settlement/Holdings.antt =====
-- What the steps that both settlement handlers take change of the accounts' holdings.
use polyleverage.Base.{Distinct, ℕ, ◌+◌, ◌≡◌, refl, true, ◌||◌, List, arith, ◌==◌, ◌!=◌, contains}
use polyleverage.Base.Int.{ℤ}
use polyleverage.Error.{custom, invalid_pda, account_borrow_failed, global_paused}
use polyleverage.Method.{Result, ok, err, ⊤, pure, lift, fail_if, ◌>>=◌}
use polyleverage.State.Margin.{MarginAccount, debit_locked, credit_free}
use polyleverage.State.Margin.Laws.{total}
use polyleverage.State.Pmlc.{Pmlc, require_live}
use polyleverage.State.Config.{InstrumentConfig}
use polyleverage.Accounts.{
  World, load, on, margin_layout, pmlc_layout, Runtime, assert_pda, seed_margin,
  program_config_layout,
}
use polyleverage.Attestation.{parse}
use polyleverage.Accounts.Held.{}
use polyleverage.Accounts.Moves.{
  Quiet, Moves, Quiet-reads, Quiet-pure, Quiet-fail_if, Quiet-lift, Quiet-load, Quiet-guard,
  on_margin-Moves, on_pmlc-Moves,
}
use polyleverage.Settlement.{
  validate_margin_pda, unpaused_signer, verified_attestation, live_pmlc, borrow_both, add_pnl,
  sub_pnl, close_pmlc, verify_via_ed25519_sysvar,
}

pub validate_margin_pda-Quiet :
    (rt : Runtime) (key owner mint : ℕ) → Quiet (validate_margin_pda rt key owner mint)
unfolding validate_margin_pda
validate_margin_pda-Quiet rt key owner mint =
    Quiet-lift (assert_pda rt (seed_margin owner mint) key)
      λ _. Quiet-load (load margin_layout key) λ _. Quiet-fail_if _ _

pub borrow_both-Quiet : (long short : ℕ) → Quiet (borrow_both long short)
unfolding borrow_both
borrow_both-Quiet long short = Quiet-load (load margin_layout long) λ _.
    Quiet-guard (long == short) account_borrow_failed
      (Quiet-load (load margin_layout short) λ _. Quiet-pure tt)

pub unpaused_signer-Quiet : (key : ℕ) → Quiet (unpaused_signer key)
unfolding unpaused_signer
unpaused_signer-Quiet key = Quiet-load (load program_config_layout key) λ cfg.
    Quiet-guard (cfg.global_pause != 0) (custom global_paused) (Quiet-pure cfg.attestation_signer)

pub verified_attestation-Quiet :
    (rt : Runtime) (sysvar signer ix : ℕ) → Quiet (verified_attestation rt sysvar signer ix)
unfolding verified_attestation
verified_attestation-Quiet rt sysvar signer ix =
    Quiet-lift (verify_via_ed25519_sysvar rt sysvar signer ix) λ bytes. Quiet-reads λ _. parse bytes

-- The contract that is settled is the one that loads.
pub live_pmlc-eq-ok :
    (key instrument_key : ℕ) (inst : InstrumentConfig) (w u : World) (p : Pmlc)
    → live_pmlc key instrument_key inst w ≡ (ok p, u)
    → (load pmlc_layout key w ≡ ok p) × (require_live p ≡ ok tt) × (u ≡ w)
unfolding live_pmlc
live_pmlc-eq-ok key instrument_key inst w u p h = go (load pmlc_layout key w) refl h
  where
    go :
        (r : Result Pmlc)
        → load pmlc_layout key w ≡ r
        → ((lift r >>= λ q. lift (require_live q) >>= λ _.
              fail_if
                (q.instrument != instrument_key
                  || (q.market_id != inst.market_id || q.collateral_mint != inst.collateral_mint))
                (custom invalid_pda)
              >>= λ _. pure q)
            w)
          ≡ (ok p, u)
        → (load pmlc_layout key w ≡ ok p) × (require_live p ≡ ok tt) × (u ≡ w)
    go (err e) l h = cc
    go (ok q) l h = ground arith

module _ (ks : List ℕ) (d : Distinct ks) (k : ℕ) (member : contains k ks ≡ true) where
  pub debit_locked-Moves : (c : ℕ) → Moves ks 0 c (on margin_layout k (debit_locked c))
  unfolding debit_locked
  debit_locked-Moves c = on_margin-Moves ks k (debit_locked c) 0 c shift d member
    where
      shift :
          (m n : MarginAccount) (a : ⊤) → debit_locked c m ≡ (ok a, n) → total n + c ≡ total m + 0
      shift m n a h = ground arith

  pub credit_free-Moves : (c : ℕ) → Moves ks c 0 (on margin_layout k (credit_free c))
  unfolding credit_free
  credit_free-Moves c = on_margin-Moves ks k (credit_free c) c 0 shift d member
    where
      shift :
          (m n : MarginAccount) (a : ⊤) → credit_free c m ≡ (ok a, n) → total n + 0 ≡ total m + c
      shift m n a h = ground arith

  pub add_pnl-Moves : (v : ℤ) → Moves ks 0 0 (on margin_layout k (add_pnl v))
  add_pnl-Moves v = on_margin-Moves ks k (add_pnl v) 0 0 (λ m n a h. ground arith) d member

  pub sub_pnl-Moves : (v : ℤ) → Moves ks 0 0 (on margin_layout k (sub_pnl v))
  sub_pnl-Moves v = on_margin-Moves ks k (sub_pnl v) 0 0 (λ m n a h. ground arith) d member

-- Closing the contract moves no collateral.
pub close_pmlc-Moves :
    (ks : List ℕ) (key status reason slot : ℕ) → Moves ks 0 0 (close_pmlc key status reason slot)
unfolding close_pmlc
close_pmlc-Moves ks key status reason slot = on_pmlc-Moves ks key _
