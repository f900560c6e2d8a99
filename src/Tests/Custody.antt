-- ===== src/Tests/Custody.antt =====
-- A trader pays collateral in. The token program of the example keeps mint, owner and amount in three
-- places of an account's data.
use polyleverage.Base.{
  ℕ, ◌+◌, ◌-◌, ◌≡◌, ◌⊎◌, inl, inr, refl, sym, ap, ◌∙◌, subst, true, false, ◌&&◌, Option, none, some,
  List, [], ◌∷◌, arith, leb, ◌==◌, ◌!=◌, if◌then◌else◌, Bool-cases, ==_iff,
}
use polyleverage.Error.{invalid_account_data}
use polyleverage.Method.{Result, ok, err, ⊤}
use polyleverage.State.Margin.{credit_free}
use polyleverage.Accounts.{
  Account, World, Contents, margin, market_nonce, pmlc, program_config, instrument, multisig,
  timelock, session, fee_schedule, fee_treasury, user_volume, book, token_data, other, AccountInfo,
  foreign, load, check_loaded, on, store,
}
use polyleverage.Custody.{
  TokenProgram, token_view, unpack_token, validate_vault_token_account_data, CustodyAccounts,
  check_custody, check_owned, vault_authority_of, deposit_with, process_deposit,
}
use polyleverage.Custody.Backing.{
  amount_in, amount_of, IsToken, Transferred, TransfersExactly, KeepsSurplus, custody-KeepsSurplus,
}
use polyleverage.Tests.Settle.{world, margins, breach}

abbrev amount_at : List ℕ → ℕ
amount_at (m ∷ o ∷ a ∷ _) = a
amount_at _ = 0

abbrev owner_at : List ℕ → ℕ
owner_at (m ∷ o ∷ _) = o
owner_at _ = 0

abbrev mint_at : List ℕ → ℕ
mint_at (m ∷ _) = m
mint_at _ = 0

abbrev with_amount : List ℕ → ℕ → Account → Account
with_amount bytes n account = record account {
  contents = token_data (mint_at bytes ∷ owner_at bytes ∷ n ∷ []);
}

-- The accounts after a transfer between two token accounts with these data.
abbrev moved_world : (source destination amount : ℕ) → (b c : List ℕ) → World → World
moved_world source destination amount b c w k =
    if k == destination
    then with_amount c (amount_at c + amount) (w k)
    else if k == source
    then with_amount b (amount_at b - amount) (w k)
    else w k

abbrev move :
    (source destination amount : ℕ) → Option (List ℕ) → Option (List ℕ) → World → Result ⊤ × World
move source destination amount (some b) (some c) w =
    if leb amount (amount_at b) && source != destination
    then (ok tt, moved_world source destination amount b c w)
    else (err invalid_account_data, w)
move source destination amount _ _ w = (err invalid_account_data, w)

abbrev pub tokens : TokenProgram
tokens = record {
  id = 90;
  associated_address = λ wallet mint. wallet + mint;
  unpack_from_slice = λ bytes.
      ok (record { mint = mint_at bytes; owner = owner_at bytes; amount = amount_at bytes });
  transfer = λ source destination authority amount w.
      move source destination amount (token_view (w source).contents)
        (token_view (w destination).contents) w;
}

token_view-IsToken : (c : Contents) (bytes : List ℕ) → token_view c ≡ some bytes → IsToken c
token_view-IsToken (margin m) bytes h = cc
token_view-IsToken (market_nonce n) bytes h = cc
token_view-IsToken (pmlc p) bytes h = cc
token_view-IsToken (program_config p) bytes h = cc
token_view-IsToken (instrument i) bytes h = cc
token_view-IsToken (multisig v) bytes h = cc
token_view-IsToken (timelock t) bytes h = cc
token_view-IsToken (session s) bytes h = cc
token_view-IsToken (fee_schedule x) bytes h = cc
token_view-IsToken (fee_treasury x) bytes h = cc
token_view-IsToken (user_volume x) bytes h = cc
token_view-IsToken (book b) bytes h = cc
token_view-IsToken (token_data b) bytes h = (b, refl)
token_view-IsToken (other s b) bytes h = cc

moved_world-Transferred :
    (source destination amount : ℕ) (b c : List ℕ) (w : World)
    → token_view (w source).contents ≡ some b
    → token_view (w destination).contents ≡ some c
    → (leb amount (amount_at b) && source != destination) ≡ true
    → Transferred tokens source destination amount w (moved_world source destination amount b c w)
unfolding unpack_token
moved_world-Transferred source destination amount b c w from to test =
    let here : (destination == destination) ≡ true = ground arith in
    let there : (source == source) ≡ true = ground arith in
    let apart : (source == destination) ≡ false = ground arith in
    let u = moved_world source destination amount b c w in
    let at_source : u source ≡ with_amount b (amount_at b - amount) (w source) =
      rw (apart, there) refl in
    let at_destination : u destination ≡ with_amount c (amount_at c + amount) (w destination) =
      rw here refl in
    let count : Account → ℕ = λ x. amount_in tokens (token_view x.contents) in
    record {
      spent = λ _.
          let before : amount_of tokens source w ≡ amount_at b = ap (amount_in tokens) from in
          let after : amount_of tokens source u ≡ amount_at b - amount = ap count at_source in
          ground arith;
      received = λ _.
          let before : amount_of tokens destination w ≡ amount_at c = ap (amount_in tokens) to in
          ap count at_destination ∙ ap (λ n. n + amount) (sym before);
      tokens_only = λ k. only k (Bool-cases (k == destination)) (Bool-cases (k == source));
    }
  where
    only :
        (k : ℕ)
        → ((k == destination) ≡ true) ⊎ ((k == destination) ≡ false)
        → ((k == source) ≡ true) ⊎ ((k == source) ≡ false)
        → ((moved_world source destination amount b c w k).contents ≡ (w k).contents)
          ⊎ (IsToken (w k).contents
              × IsToken (moved_world source destination amount b c w k).contents)
    only k (inl e) _ = inr (
      subst (λ j. IsToken (w j).contents) (sym ((==_iff k destination).0 e))
          (token_view-IsToken (w destination).contents c to),
      rw e (_, refl),
    )
    only k (inr e) (inl g) = inr (
      subst (λ j. IsToken (w j).contents) (sym ((==_iff k source).0 g))
          (token_view-IsToken (w source).contents b from),
      rw (e, g) (_, refl),
    )
    only k (inr e) (inr g) = inl (rw (e, g) refl)

pub tokens_exact : TransfersExactly tokens
tokens_exact source destination authority amount w u h =
    go (token_view (w source).contents) (token_view (w destination).contents) refl refl h
  where
    go :
        (o p : Option (List ℕ))
        → token_view (w source).contents ≡ o
        → token_view (w destination).contents ≡ p
        → move source destination amount o p w ≡ (ok tt, u)
        → Transferred tokens source destination amount w u
    go none p from to h = cc
    go (some b) none from to h = cc
    go (some b) (some c) from to h =
        elim (Bool-cases (leb amount (amount_at b) && source != destination)) [
          | inl e ↦
              let done : ◌≡◌ {A = Result ⊤ × World}
                  (ok tt, moved_world source destination amount b c w) (ok tt, u) =
                rw e at h in
              subst (Transferred tokens source destination amount w)
                (ap (λ (q : Result ⊤ × World). q.1) done)
                (moved_world-Transferred source destination amount b c w from to e)
          | inr e ↦
              let failed : ◌≡◌ {A = Result ⊤ × World} (err invalid_account_data, w) (ok tt, u) =
                rw e at h in
              cc
        ]

-- The vault of mint 30 has the authority 14.
abbrev bank : World
bank k =
    if k == 44
    then record { program = 90; contents = token_data (30 ∷ 14 ∷ 4_000_021 ∷ []) }
    else if k == 91
    then record { program = 90; contents = token_data (30 ∷ 21 ∷ 900 ∷ []) }
    else world k

abbrev passed : ℕ → AccountInfo
passed k = record { key = k; is_signer = true; is_writable = true }

abbrev accounts : CustodyAccounts
accounts = record {
  owner = passed 21;
  margin = passed 11;
  mint = passed 30;
  user_ata = passed 91;
  vault_ata = passed 44;
}

abbrev infos : List AccountInfo
infos = passed 21 ∷ passed 11 ∷ passed 30 ∷ passed 91 ∷ passed 44 ∷ passed 90 ∷ []

abbrev paid_in : World
paid_in = (process_deposit tokens breach infos 600 bank).1

deposit_runs : process_deposit tokens breach infos 600 bank ≡ (ok tt, paid_in)
unfolding process_deposit check_custody foreign deposit_with check_owned vault_authority_of
    validate_vault_token_account_data unpack_token load check_loaded on store credit_free
deposit_runs = refl

custody-KeepsSurplus_example : KeepsSurplus margins tokens 44 bank paid_in
custody-KeepsSurplus_example =
    custody-KeepsSurplus margins tokens breach accounts (passed 90) (passed 14) [] 600 bank paid_in
      (refl, (refl, (refl, tt))) tokens_exact refl (λ e. omega arith) (inl deposit_runs)
