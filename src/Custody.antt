-- ===== src/Custody.antt =====
-- Collateral comes in and goes out (src/processor/margin.rs).
pub mod Backing
use polyleverage.Base.{
  ℕ, ◌≡◌, Bool, true, false, ◌||◌, not, Option, none, some, List, [], ◌∷◌, ◌==◌, ◌!=◌,
  if◌then◌else◌,
}
use polyleverage.Error.{
  custom, not_enough_account_keys, invalid_account_data, invalid_account_owner, invalid_pda,
  invalid_vault, invalid_token_account_owner, invalid_mint, invalid_instruction_data,
  already_initialized, account_data_too_small,
}
use polyleverage.Method.{Result, ok, err, ⊤, Method, reads, lift, gets, fail_if, ◌>>=◌, ◌>>◌}
use polyleverage.State.Margin.{MarginAccount, init, credit_free, debit_free}
use polyleverage.Accounts.{
  World, Contents, token_data, AccountInfo, Runtime, SystemProgram, seed_margin, seed_vault,
  assert_signer, assert_writable, assert_pda, foreign, is_empty, load, store, on, margin_layout,
}

abbrev pub margin_account_len : ℕ
margin_account_len = 144

-- What the program reads of an account of the token program.
pub record TokenAccount : Type 0 where
  pub mint : ℕ
  pub owner : ℕ
  pub amount : ℕ

-- The token program and the derivation of associated accounts, from the crates spl_token and
-- spl_associated_token_account: `Account::unpack_from_slice`, and the transfer instruction, from a
-- source, to a destination, by an authority.
pub record TokenProgram : Type 0 where
  pub id : ℕ
  pub associated_address : (wallet mint : ℕ) → ℕ
  pub unpack_from_slice : List ℕ → Result TokenAccount
  pub transfer : (source destination authority amount : ℕ) → Method World ⊤

abbrev pub token_view : Contents → Option (List ℕ)
token_view (token_data bytes) = some bytes
token_view _ = none

-- Bytes of another size than a token account's do not unpack.
unfoldable pub unpack_token : TokenProgram → Option (List ℕ) → Result TokenAccount
unpack_token tp none = err invalid_account_data
unpack_token tp (some bytes) = tp.unpack_from_slice bytes

unfoldable pub validate_vault_token_account_data :
    TokenProgram → (vault_key vault_authority mint : ℕ) → Method World ⊤
validate_vault_token_account_data tp vault_key vault_authority mint = do
  fail_if (vault_key != tp.associated_address vault_authority mint) (custom invalid_vault)
  token ← reads λ w. unpack_token tp (token_view (w vault_key).contents)
  fail_if (token.owner != vault_authority) (custom invalid_token_account_owner)
  fail_if (token.mint != mint) (custom invalid_mint)

-- `MarginAccount::init` on the account's data.
unfoldable pub init_margin : (key owner mint bump : ℕ) → Method World ⊤
init_margin key owner mint bump w = elim (margin_layout.view (w key).contents) [
  | none ↦ (err (custom account_data_too_small), w)
  | some m ↦ let (r, v) = init owner mint bump m in (r, store margin_layout key v w)
]

unfoldable pub create_with :
    SystemProgram
    → TokenProgram
    → Runtime
    → (owner margin mint system_program : AccountInfo) → Method World ⊤
create_with sys tp rt owner margin mint system_program = do
  lift (assert_signer owner)
  lift (assert_writable owner)
  lift (assert_writable margin)
  fail_if (system_program.key != sys.id) invalid_account_data
  mint_owner ← gets λ w. (w mint.key).program
  fail_if (mint_owner != tp.id) (custom invalid_mint)
  bump ← lift (assert_pda rt (seed_margin owner.key mint.key) margin.key)
  empty ← gets λ w. is_empty (w margin.key).contents
  fail_if (not empty) (custom already_initialized)
  sys.create_account owner.key margin.key margin_account_len
  init_margin margin.key owner.key mint.key bump

unfoldable pub process_create_margin_account :
    SystemProgram → TokenProgram → Runtime → List AccountInfo → Method World ⊤
process_create_margin_account sys tp rt (a ∷ b ∷ c ∷ d ∷ _) = create_with sys tp rt a b c d
process_create_margin_account sys tp rt _ = lift (err not_enough_account_keys)

-- The accounts that both directions of a transfer name.
pub record CustodyAccounts : Type 0 where
  pub owner : AccountInfo
  pub margin : AccountInfo
  pub mint : AccountInfo
  pub user_ata : AccountInfo
  pub vault_ata : AccountInfo

unfoldable pub check_custody :
    TokenProgram → Runtime → CustodyAccounts → (token_program : AccountInfo) → Method World ⊤
check_custody tp rt a token_program = do
  lift (assert_signer a.owner)
  lift (assert_writable a.margin)
  lift (assert_writable a.user_ata)
  lift (assert_writable a.vault_ata)
  is_foreign ← gets λ w. foreign rt w (a.margin ∷ [])
  fail_if is_foreign (custom invalid_account_owner)
  fail_if (token_program.key != tp.id) invalid_account_data

-- `m.owner != owner || m.collateral_mint != mint || m.bump != bump`
unfoldable pub check_owned : (owner mint bump : ℕ) → Method MarginAccount ⊤
check_owned owner mint bump m = (
  if m.owner != owner || (m.collateral_mint != mint || m.bump != bump)
      then err (custom invalid_pda)
      else ok tt,
  m,
)

unfoldable pub vault_authority_of : Runtime → ℕ → ℕ
vault_authority_of rt mint = (rt.find_program_address (seed_vault mint)).0

-- From the margin account's address on.
unfoldable pub deposit_with : TokenProgram → Runtime → CustodyAccounts → ℕ → Method World ⊤
deposit_with tp rt a amount = do
  bump ← lift (assert_pda rt (seed_margin a.owner.key a.mint.key) a.margin.key)
  m ← reads (load margin_layout a.margin.key)
  lift (check_owned a.owner.key a.mint.key bump m).0
  validate_vault_token_account_data tp a.vault_ata.key (vault_authority_of rt a.mint.key) a.mint.key
  tp.transfer a.user_ata.key a.vault_ata.key a.owner.key amount
  on margin_layout a.margin.key (credit_free amount)

unfoldable pub process_deposit : TokenProgram → Runtime → List AccountInfo → ℕ → Method World ⊤
process_deposit tp rt (a ∷ b ∷ c ∷ d ∷ e ∷ f ∷ _) amount = do
  fail_if (amount == 0) (custom invalid_instruction_data)
  let accounts : CustodyAccounts = record {
    owner = a;
    margin = b;
    mint = c;
    user_ata = d;
    vault_ata = e;
  }
  check_custody tp rt accounts f
  deposit_with tp rt accounts amount
process_deposit tp rt _ amount = do
  fail_if (amount == 0) (custom invalid_instruction_data)
  lift (err not_enough_account_keys)

unfoldable pub debit_owned : (owner mint bump amount : ℕ) → Method MarginAccount ⊤
unfolding check_owned
debit_owned owner mint bump amount = do check_owned owner mint bump; debit_free amount

unfoldable pub withdraw_with :
    TokenProgram → Runtime → CustodyAccounts → (vault_authority : AccountInfo) → ℕ → Method World ⊤
withdraw_with tp rt a vault_authority amount = do
  bump ← lift (assert_pda rt (seed_margin a.owner.key a.mint.key) a.margin.key)
  lift (assert_pda rt (seed_vault a.mint.key) vault_authority.key)
  validate_vault_token_account_data tp a.vault_ata.key vault_authority.key a.mint.key
  on margin_layout a.margin.key (debit_owned a.owner.key a.mint.key bump amount)
  tp.transfer a.vault_ata.key a.user_ata.key vault_authority.key amount

unfoldable pub process_withdraw : TokenProgram → Runtime → List AccountInfo → ℕ → Method World ⊤
process_withdraw tp rt (a ∷ b ∷ c ∷ d ∷ e ∷ f ∷ g ∷ _) amount = do
  fail_if (amount == 0) (custom invalid_instruction_data)
  let accounts : CustodyAccounts = record {
    owner = a;
    margin = b;
    mint = c;
    user_ata = d;
    vault_ata = e;
  }
  check_custody tp rt accounts g
  withdraw_with tp rt accounts f amount
process_withdraw tp rt _ amount = do
  fail_if (amount == 0) (custom invalid_instruction_data)
  lift (err not_enough_account_keys)
