-- ===== src/Custody/Backing.antt =====
-- The vault's tokens and what the accounts hold, before and after a deposit or a withdrawal
-- (src/processor/margin.rs).
use polyleverage.Base.{
  Distinct, ℕ, ◌+◌, ◌≡◌, ◌≢◌, ◌⊎◌, inl, inr, refl, sym, ap, ◌∙◌, true, Option, List, [], ◌∷◌, arith,
  ◌==◌, ◌!=◌, contains,
}
use polyleverage.Error.{
  custom, invalid_account_data, invalid_account_owner, invalid_vault, invalid_token_account_owner,
  invalid_mint, invalid_instruction_data,
}
use polyleverage.Method.{ok, err, ⊤, Method, reads, lift, gets, fail_if, ◌>>◌, >>=-eq-ok}
use polyleverage.State.Margin.{MarginAccount, credit_free, debit_free}
use polyleverage.Accounts.{
  World, Contents, token_data, AccountInfo, Runtime, seed_margin, seed_vault, assert_signer,
  assert_writable, assert_pda, foreign, load, on, margin_layout,
}
use polyleverage.Accounts.Held.{held, total_held, SameHeld, total_held-SameHeld}
use polyleverage.Accounts.Views.{on-view}
use polyleverage.Accounts.Views.Faithful.{margin_layout-IsFaithful}
use polyleverage.Accounts.Moves.{Does, Moves, on_margin-Moves}
use polyleverage.Accounts.Looks.{
  Looks, Looks-reads, Looks-fail_if, Looks->>=, Does-Looks, Does-guard, Does-lift,
}
use polyleverage.Settlement.Holdings.{credit_free-Moves}
use polyleverage.Custody.{
  TokenProgram, token_view, unpack_token, validate_vault_token_account_data, CustodyAccounts,
  check_custody, check_owned, vault_authority_of, deposit_with, process_deposit, debit_owned,
  withdraw_with, process_withdraw,
}

-- The amount in a token account, by its contents.
abbrev pub amount_in : TokenProgram → Option (List ℕ) → ℕ
amount_in tp bytes = elim (unpack_token tp bytes) [ ok t ↦ t.amount | err _ ↦ 0 ]

abbrev pub amount_of : TokenProgram → ℕ → World → ℕ
amount_of tp k w = amount_in tp (token_view (w k).contents)

abbrev pub IsToken : Contents → Type 0
IsToken c = (bytes : List ℕ) × (c ≡ token_data bytes)

-- What the token program documents of a transfer: the amount goes from the one account to the other,
-- if they are two, and only the data of token accounts changes.
pub record Transferred (tp : TokenProgram) (source destination amount : ℕ) (w u : World)
    : Type 0 where
  pub spent : source ≢ destination → amount_of tp source u + amount ≡ amount_of tp source w
  pub received :
      source ≢ destination → amount_of tp destination u ≡ amount_of tp destination w + amount
  pub tokens_only :
      (k : ℕ)
      → ((u k).contents ≡ (w k).contents) ⊎ (IsToken (w k).contents × IsToken (u k).contents)

abbrev pub TransfersExactly : TokenProgram → Type 0
TransfersExactly tp =
    (source destination authority amount : ℕ) (w u : World)
    → tp.transfer source destination authority amount w ≡ (ok tt, u)
    → Transferred tp source destination amount w u

pub Transferred-SameHeld :
    (tp : TokenProgram) (source destination amount : ℕ) (w u : World)
    → Transferred tp source destination amount w u
    → SameHeld w u
Transferred-SameHeld tp source destination amount w u moved k = elim (moved.tokens_only k) [
  | inl same ↦ ap held same
  | inr ((b, before), (c, after)) ↦ ap held after ∙ sym (ap held before)
]

-- What a vault has above what the listed accounts hold stays the same.
abbrev pub KeepsSurplus : List ℕ → TokenProgram → ℕ → World → World → Type 0
KeepsSurplus ks tp vault w u =
    total_held ks u + amount_of tp vault w ≡ total_held ks w + amount_of tp vault u

-- A margin account's call leaves the amounts of tokens.
on_margin-amount_of :
    (tp : TokenProgram) (k vault : ℕ) (f : Method MarginAccount ⊤) (w u : World)
    → on margin_layout k f w ≡ (ok tt, u)
    → amount_of tp vault u ≡ amount_of tp vault w
on_margin-amount_of tp k vault f w u h =
    ap (amount_in tp)
      (on-view margin_layout token_view margin_layout-IsFaithful (λ x y. refl) k f w u h vault)

validate_vault-Looks :
    (tp : TokenProgram) (vault authority mint : ℕ)
    → Looks (validate_vault_token_account_data tp vault authority mint)
unfolding validate_vault_token_account_data
validate_vault-Looks tp vault authority mint =
    Looks->>= (fail_if (vault != tp.associated_address authority mint) (custom invalid_vault)) _
      (Looks-fail_if _ _)
      λ _.
        Looks->>= (reads λ w. unpack_token tp (token_view (w vault).contents)) _ (Looks-reads _)
          λ token.
            Looks->>= (fail_if (token.owner != authority) (custom invalid_token_account_owner)) _
              (Looks-fail_if _ _) λ _. Looks-fail_if (token.mint != mint) (custom invalid_mint)

module _ (ks : List ℕ) (d : Distinct ks) (tp : TokenProgram) (exact : TransfersExactly tp)
    (rt : Runtime) (a : CustodyAccounts) (member : contains a.margin.key ks ≡ true)
    (apart : a.user_ata.key ≢ a.vault_ata.key) where
  abbrev Kept : World → World → Type 0
  Kept = KeepsSurplus ks tp a.vault_ata.key

  -- Tokens in, then the credit.
  pay_in-Kept :
      (amount : ℕ)
      → Does Kept (do
        tp.transfer a.user_ata.key a.vault_ata.key a.owner.key amount
        on margin_layout a.margin.key (credit_free amount))
  pay_in-Kept amount w u b h =
      let credit = on margin_layout a.margin.key (credit_free amount) in
      let transfer = tp.transfer a.user_ata.key a.vault_ata.key a.owner.key amount in
      let (_, v, first, second) = >>=-eq-ok transfer (λ _. credit) w u h in
      let moved = exact a.user_ata.key a.vault_ata.key a.owner.key amount w v first in
      omega (
        arith,
        moved.received apart,
        total_held-SameHeld ks w v (Transferred-SameHeld tp _ _ amount w v moved),
        credit_free-Moves ks d a.margin.key member amount v u tt second,
        on_margin-amount_of tp a.margin.key a.vault_ata.key (credit_free amount) v u second,
      )

  debit_owned-Moves :
      (owner mint bump amount : ℕ)
      → Moves ks 0 amount (on margin_layout a.margin.key (debit_owned owner mint bump amount))
  unfolding debit_owned check_owned debit_free
  debit_owned-Moves owner mint bump amount =
      on_margin-Moves ks a.margin.key (debit_owned owner mint bump amount) 0 amount
        (λ m n r h. ground arith) d member

  -- The debit, then tokens out.
  pay_out-Kept :
      (authority bump amount : ℕ)
      → Does Kept (do
        on margin_layout a.margin.key (debit_owned a.owner.key a.mint.key bump amount)
        tp.transfer a.vault_ata.key a.user_ata.key authority amount)
  pay_out-Kept authority bump amount w u b h =
      let f = debit_owned a.owner.key a.mint.key bump amount in
      let transfer = tp.transfer a.vault_ata.key a.user_ata.key authority amount in
      let (_, v, first, second) =
        >>=-eq-ok (on margin_layout a.margin.key f) (λ _. transfer) w u h in
      let moved = exact a.vault_ata.key a.user_ata.key authority amount v u second in
      omega (
        arith,
        moved.spent (λ e. apart (sym e)),
        total_held-SameHeld ks v u (Transferred-SameHeld tp _ _ amount v u moved),
        debit_owned-Moves a.owner.key a.mint.key bump amount w v tt first,
        on_margin-amount_of tp a.margin.key a.vault_ata.key f w v first,
      )

  check_custody-then :
      (token_program : AccountInfo) {g : Method World ⊤}
      → Does Kept g
      → Does Kept (check_custody tp rt a token_program >> g)
  unfolding check_custody
  check_custody-then token_program kept =
      Does-Looks Kept (check_custody tp rt a token_program)
        (Looks->>= (lift (assert_signer a.owner)) _ (Looks-reads _) λ _.
          Looks->>= (lift (assert_writable a.margin)) _ (Looks-reads _) λ _.
            Looks->>= (lift (assert_writable a.user_ata)) _ (Looks-reads _) λ _.
              Looks->>= (lift (assert_writable a.vault_ata)) _ (Looks-reads _) λ _.
                Looks->>= (gets λ w. foreign rt w (a.margin ∷ [])) _ (Looks-reads _) λ is_foreign.
                  Looks->>= (fail_if is_foreign (custom invalid_account_owner)) _
                    (Looks-fail_if _ _)
                    λ _. Looks-fail_if (token_program.key != tp.id) invalid_account_data)
        λ _. kept

  deposit_with-Kept : (amount : ℕ) → Does Kept (deposit_with tp rt a amount)
  unfolding deposit_with
  deposit_with-Kept amount =
      Does-lift Kept (assert_pda rt (seed_margin a.owner.key a.mint.key) a.margin.key) λ bump _.
        Does-Looks Kept (reads (load margin_layout a.margin.key)) (Looks-reads _) λ m.
          Does-lift Kept (check_owned a.owner.key a.mint.key bump m).0 λ _ _.
            Does-Looks Kept
              (validate_vault_token_account_data tp a.vault_ata.key
                (vault_authority_of rt a.mint.key) a.mint.key)
              (validate_vault-Looks tp _ _ _) λ _. pay_in-Kept amount

  withdraw_with-Kept :
      (authority : AccountInfo) (amount : ℕ) → Does Kept (withdraw_with tp rt a authority amount)
  unfolding withdraw_with
  withdraw_with-Kept authority amount =
      Does-lift Kept (assert_pda rt (seed_margin a.owner.key a.mint.key) a.margin.key) λ bump _.
        Does-lift Kept (assert_pda rt (seed_vault a.mint.key) authority.key) λ _ _.
          Does-Looks Kept
            (validate_vault_token_account_data tp a.vault_ata.key authority.key a.mint.key)
            (validate_vault-Looks tp _ _ _) λ _. pay_out-Kept authority.key bump amount

-- Given that a transfer of tokens does what the token program documents: a deposit or a withdrawal
-- that succeeds, between the vault and another token account, leaves what the vault has above what
-- the accounts listed hold, each listed once and the margin account of the call among them.
pub custody-KeepsSurplus :
    (ks : List ℕ) (tp : TokenProgram) (rt : Runtime) (a : CustodyAccounts)
    (token_program authority : AccountInfo) (rest : List AccountInfo) (amount : ℕ) (w u : World)
    → Distinct ks
    → TransfersExactly tp
    → contains a.margin.key ks ≡ true
    → a.user_ata.key ≢ a.vault_ata.key
    → (process_deposit tp rt
          (a.owner ∷ a.margin ∷ a.mint ∷ a.user_ata ∷ a.vault_ata ∷ token_program ∷ rest)
          amount
          w
        ≡ (ok tt, u))
      ⊎ (process_withdraw tp rt
            (a.owner ∷ a.margin ∷ a.mint ∷ a.user_ata ∷ a.vault_ata ∷ authority ∷ token_program
              ∷ rest)
            amount
            w
          ≡ (ok tt, u))
    → KeepsSurplus ks tp a.vault_ata.key w u
unfolding process_deposit process_withdraw
custody-KeepsSurplus ks tp rt a token_program authority rest amount w u d exact member apart
      (inl h) =
    Does-guard (KeepsSurplus ks tp a.vault_ata.key) (amount == 0) (custom invalid_instruction_data)
      (λ _.
        check_custody-then ks d tp exact rt a member apart token_program
          (deposit_with-Kept ks d tp exact rt a member apart amount))
      w u tt h
custody-KeepsSurplus ks tp rt a token_program authority rest amount w u d exact member apart
      (inr h) =
    Does-guard (KeepsSurplus ks tp a.vault_ata.key) (amount == 0) (custom invalid_instruction_data)
      (λ _.
        check_custody-then ks d tp exact rt a member apart token_program
          (withdraw_with-Kept ks d tp exact rt a member apart authority amount))
      w u tt h
