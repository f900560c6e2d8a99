-- ===== src/Novation/Checks.antt =====
-- The checks of `process_novate` (src/processor/novate.rs), and the contract that they find.
use polyleverage.Base.{ℕ, ◌≡◌, refl, Bool, true, false, [], ◌∷◌, arith, ◌!=◌, if◌then◌else◌}
use polyleverage.Error.{
  custom, invalid_account_owner, missing_signer, invalid_pda, invalid_pmlc_side,
}
use polyleverage.Method.{Result, ok, err, ⊤, Method, pure, lift, gets, fail_if, ◌>>=◌}
use polyleverage.State.Pmlc.{Pmlc, require_live}
use polyleverage.Accounts.{
  World, Runtime, assert_signer, assert_writable, foreign, load, pmlc_layout, instrument_layout,
}
use polyleverage.Accounts.Moves.{Quiet, Quiet-fail_if, Quiet-lift, Quiet-load, Quiet-guard}
use polyleverage.Novation.{NovateAccounts, check_accounts, side_owner, owned_pmlc, check_instrument}

pub check_accounts-Quiet : (rt : Runtime) (a : NovateAccounts) → Quiet (check_accounts rt a)
unfolding check_accounts
check_accounts-Quiet rt a = Quiet-lift (assert_signer a.current_owner) λ _.
    Quiet-lift (assert_signer a.new_owner) λ _. Quiet-lift (assert_writable a.pmlc) λ _.
      Quiet-lift (assert_writable a.current_margin) λ _.
        Quiet-lift (assert_writable a.new_margin) λ _.
          Quiet-load
            (λ w. ok (
              foreign rt w
                (a.program_config ∷ a.instrument ∷ a.pmlc ∷ a.current_margin ∷ a.new_margin ∷ [])))
            λ is_foreign. Quiet-fail_if is_foreign (custom invalid_account_owner)

-- Both owners of the call have signed it.
pub check_accounts-signed :
    (rt : Runtime) (a : NovateAccounts) (w u : World)
    → check_accounts rt a w ≡ (ok tt, u)
    → (a.current_owner.is_signer ≡ true) × (a.new_owner.is_signer ≡ true)
unfolding check_accounts
check_accounts-signed rt a w u h =
    go a.current_owner.is_signer a.new_owner.is_signer
      (λ _. lift (assert_writable a.pmlc) >>= λ _. lift (assert_writable a.current_margin) >>= λ _.
        lift (assert_writable a.new_margin) >>= λ _.
        gets (λ w.
          foreign rt w
            (a.program_config ∷ a.instrument ∷ a.pmlc ∷ a.current_margin ∷ a.new_margin ∷ []))
        >>= λ is_foreign. fail_if is_foreign (custom invalid_account_owner))
      h
  where
    go :
        (b c : Bool) (rest : ⊤ → Method World ⊤)
        → (lift (if b then ok tt else err (custom missing_signer)) >>= λ _.
              lift (if c then ok tt else err (custom missing_signer)) >>= rest)
            w
          ≡ (ok tt, u)
        → (b ≡ true) × (c ≡ true)
    go true true rest e = (refl, refl)
    go true false rest e = absurd (cc)
    go false c rest e = absurd (cc)

pub check_instrument-Quiet : (key : ℕ) (p : Pmlc) → Quiet (check_instrument key p)
unfolding check_instrument
check_instrument-Quiet key p = Quiet-load (load instrument_layout key) λ inst.
    Quiet-guard (inst.collateral_mint != p.collateral_mint) (custom invalid_pda)
      (Quiet-fail_if (key != p.instrument) (custom invalid_pda))

-- The contract that is handed over is the one that loads.
pub owned_pmlc-eq-ok :
    (key side owner : ℕ) (w u : World) (p : Pmlc)
    → owned_pmlc key side owner w ≡ (ok p, u)
    → (load pmlc_layout key w ≡ ok p)
      × (require_live p ≡ ok tt)
      × (side_owner side p ≡ owner)
      × (u ≡ w)
unfolding owned_pmlc
owned_pmlc-eq-ok key side owner w u p h = go (load pmlc_layout key w) refl h
  where
    go :
        (r : Result Pmlc)
        → load pmlc_layout key w ≡ r
        → ((lift r >>= λ q. lift (require_live q) >>= λ _.
              fail_if (side_owner side q != owner) (custom invalid_pmlc_side) >>= λ _. pure q)
            w)
          ≡ (ok p, u)
        → (load pmlc_layout key w ≡ ok p)
          × (require_live p ≡ ok tt)
          × (side_owner side p ≡ owner)
          × (u ≡ w)
    go (err e) l h = cc
    go (ok q) l h = ground arith
