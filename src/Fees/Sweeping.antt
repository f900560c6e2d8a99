-- ===== src/Fees/Sweeping.antt =====
-- The vault and the treasury's ledger, before and after `process_sweep_fees` (src/processor/fees.rs).
use polyleverage.Base.{
  Distinct, ℕ, ◌+◌, ◌≡◌, ◌≢◌, ◌||◌, true, refl, ap, List, [], ◌∷◌, arith, ◌==◌, ◌!=◌, contains,
}
use polyleverage.Error.{
  custom, invalid_account_data, invalid_account_owner, invalid_token_account_owner,
  invalid_admin_signer, invalid_instruction_data,
}
use polyleverage.Method.{ok, reads, lift, gets, fail_if, ◌>>=◌, ◌>>◌, >>=-eq-ok}
use polyleverage.State.Fees.{FeeTreasury, sweep}
use polyleverage.Accounts.{
  World, AccountInfo, Runtime, seed_treasury, seed_vault, assert_signer, assert_writable,
  assert_pda, foreign, load, on, fee_treasury_layout, program_config_layout,
}
use polyleverage.Accounts.Held.{total_held-SameHeld, on-total_held}
use polyleverage.Accounts.Views.{on-view}
use polyleverage.Accounts.Views.Faithful.{fee_treasury_layout-IsFaithful}
use polyleverage.Accounts.Moves.{Does}
use polyleverage.Accounts.Looks.{
  Looks, Looks-reads, Looks-fail_if, Looks->>=, Does-Looks, Does-guard,
}
use polyleverage.Custody.{TokenProgram, token_view, unpack_token}
use polyleverage.Custody.Backing.{
  amount_in, amount_of, TransfersExactly, KeepsSurplus, Transferred-SameHeld,
}
use polyleverage.Fees.{
  SweepAccounts, check_admin, check_sweep, sweep_of, sweep_with, process_sweep_fees,
}

check_admin-Looks : (config_key admin : ℕ) → Looks (check_admin config_key admin)
unfolding check_admin
check_admin-Looks config_key admin =
    Looks->>= (reads (load program_config_layout config_key)) _ (Looks-reads _)
      λ cfg. Looks-fail_if (cfg.admin != admin) (custom invalid_admin_signer)

check_sweep-Looks :
    (tp : TokenProgram) (rt : Runtime) (a : SweepAccounts) → Looks (check_sweep tp rt a)
unfolding check_sweep
check_sweep-Looks tp rt a = Looks->>= (lift (assert_signer a.admin)) _ (Looks-reads _) λ _.
    Looks->>= (lift (assert_writable a.treasury)) _ (Looks-reads _) λ _.
      Looks->>= (lift (assert_writable a.vault_ata)) _ (Looks-reads _) λ _.
        Looks->>= (lift (assert_writable a.dest_ata)) _ (Looks-reads _) λ _.
          Looks->>= (gets λ w. foreign rt w (a.program_config ∷ a.treasury ∷ [])) _ (Looks-reads _)
            λ is_foreign.
              Looks->>= (fail_if is_foreign (custom invalid_account_owner)) _ (Looks-fail_if _ _)
                λ _. checked
  where
    checked : Looks (do
      fail_if (a.token_program.key != tp.id) invalid_account_data
      check_admin a.program_config.key a.admin.key
      lift (assert_pda rt (seed_vault a.mint.key) a.vault_authority.key)
      lift (assert_pda rt (seed_treasury a.mint.key) a.treasury.key)
      acc ← reads λ w. unpack_token tp (token_view (w a.vault_ata.key).contents)
      fail_if
          (acc.owner != a.vault_authority.key || acc.mint != a.mint.key)
          (custom invalid_token_account_owner))
    checked =
        Looks->>= (fail_if (a.token_program.key != tp.id) invalid_account_data) _
          (Looks-fail_if _ _)
          λ _.
            Looks->>= (check_admin a.program_config.key a.admin.key) _ (check_admin-Looks _ _) λ _.
              Looks->>= (lift (assert_pda rt (seed_vault a.mint.key) a.vault_authority.key)) _
                (Looks-reads _)
                λ _.
                  Looks->>= (lift (assert_pda rt (seed_treasury a.mint.key) a.treasury.key)) _
                    (Looks-reads _)
                    λ _.
                      Looks->>=
                        (reads λ w. unpack_token tp (token_view (w a.vault_ata.key).contents)) _
                        (Looks-reads _) λ acc. Looks-fail_if _ _

sweep_of-accrued :
    (mint amount : ℕ) (s t : FeeTreasury)
    → sweep_of mint amount s ≡ (ok tt, t)
    → t.accrued_atoms + amount ≡ s.accrued_atoms + 0
unfolding sweep_of sweep
sweep_of-accrued mint amount s t h = ground arith

module _ (ks : List ℕ) (d : Distinct ks) (tp : TokenProgram) (exact : TransfersExactly tp)
    (rt : Runtime) (a : SweepAccounts) (member : contains a.treasury.key ks ≡ true)
    (apart : a.vault_ata.key ≢ a.dest_ata.key) where
  abbrev Kept : World → World → Type 0
  Kept = KeepsSurplus ks tp a.vault_ata.key

  -- The debit of the ledger, then tokens out.
  pay_out-Kept :
      (amount : ℕ)
      → Does Kept (do
        on fee_treasury_layout a.treasury.key (sweep_of a.mint.key amount)
        tp.transfer a.vault_ata.key a.dest_ata.key a.vault_authority.key amount)
  pay_out-Kept amount w u b h =
      let f = sweep_of a.mint.key amount in
      let transfer = tp.transfer a.vault_ata.key a.dest_ata.key a.vault_authority.key amount in
      let (_, v, first, second) =
        >>=-eq-ok (on fee_treasury_layout a.treasury.key f) (λ _. transfer) w u h in
      let moved = exact a.vault_ata.key a.dest_ata.key a.vault_authority.key amount v u second in
      let same : amount_of tp a.vault_ata.key v ≡ amount_of tp a.vault_ata.key w =
        ap (amount_in tp) (
          on-view fee_treasury_layout token_view fee_treasury_layout-IsFaithful (λ x y. refl)
            a.treasury.key f w v first a.vault_ata.key) in
      omega (
        arith,
        moved.spent apart,
        total_held-SameHeld ks v u (Transferred-SameHeld tp _ _ amount v u moved),
        on-total_held fee_treasury_layout fee_treasury_layout-IsFaithful a.treasury.key f w v tt ks
            0 amount (sweep_of-accrued a.mint.key amount) d member first,
        same,
      )

  sweep_with-Kept : (amount : ℕ) → Does Kept (sweep_with tp rt a amount)
  unfolding sweep_with
  sweep_with-Kept amount =
      Does-Looks Kept (check_sweep tp rt a) (check_sweep-Looks tp rt a) λ _. pay_out-Kept amount

-- Given that a transfer of tokens does what the token program documents: a sweep of fees that
-- succeeds, from the vault to another token account, leaves what the vault has above what the accounts
-- listed hold, each listed once and the treasury of the call among them. So a sweep never pays out
-- collateral of the traders.
pub process_sweep_fees-KeepsSurplus :
    (ks : List ℕ) (tp : TokenProgram) (rt : Runtime) (a : SweepAccounts) (rest : List AccountInfo)
    (amount : ℕ) (w u : World)
    → Distinct ks
    → TransfersExactly tp
    → contains a.treasury.key ks ≡ true
    → a.vault_ata.key ≢ a.dest_ata.key
    → process_sweep_fees tp rt
        (a.admin ∷ a.program_config ∷ a.treasury ∷ a.vault_ata ∷ a.dest_ata ∷ a.mint
          ∷ a.vault_authority ∷ a.token_program ∷ rest)
        amount
        w
      ≡ (ok tt, u)
    → KeepsSurplus ks tp a.vault_ata.key w u
unfolding process_sweep_fees
process_sweep_fees-KeepsSurplus ks tp rt a rest amount w u d exact member apart h =
    Does-guard (KeepsSurplus ks tp a.vault_ata.key) (amount == 0) (custom invalid_instruction_data)
      (λ _. sweep_with-Kept ks d tp exact rt a member apart amount) w u tt h
