-- ===== src/Accounts.antt =====
-- The accounts as the runtime hands them to an instruction: src/utils.rs, src/pod.rs, the `load`
-- functions of src/state/, and the parts of the Solana runtime that the handlers call.
pub mod Held
pub mod Creates
pub mod Views
pub mod Books
pub mod Moves
pub mod Looks
use polyleverage.Base.{
  ℕ, ◌+◌, ◌≡◌, Bool, true, false, ◌&&◌, ◌||◌, not, Option, none, some, List, [], ◌∷◌, ◌==◌, ◌!=◌,
  ◌≢◌, if◌then◌else◌,
}
use polyleverage.Base.Int.{ℤ, pos, pos_part}
use polyleverage.Error.{
  PolyleverageError, ProgramError, custom, invalid_account_data, not_enough_account_keys,
  account_borrow_failed, panic, invalid_account_owner, missing_signer, invalid_pda, not_initialized,
  invalid_program_config, account_data_too_small, fee_schedule_not_initialized,
}
use polyleverage.Method.{
  Result, ok, err, ⊤, Method, pure, raise, gets, reads, lift, fail_if, ◌>>=◌, ◌>>◌,
}
use polyleverage.State.Margin.{MarginAccount, disc_margin_account}
use polyleverage.State.Market.{MarketNonce, disc_market_nonce}
use polyleverage.State.Pmlc.{Pmlc, disc_pmlc}
use polyleverage.State.Multisig.{AdminMultisig, disc_admin_multisig}
use polyleverage.State.Timelock.{TimelockProposal, disc_timelock}
use polyleverage.State.Session.{Session, disc_session}
use polyleverage.State.Fees.{FeeSchedule, FeeTreasury, disc_fee_schedule, disc_fee_treasury}
use polyleverage.State.Volume.{UserVolume, disc_user_volume}
use polyleverage.Book.{IntentBook, disc_intent_book}
use polyleverage.State.Config.{
  ProgramConfig, InstrumentConfig, disc_program_config, disc_instrument_config,
}

-- The contents of an account, by the type whose size they have; each type has a size of its own, a
-- book one for each number of nodes, and any contents of that size are a value of it, with any
-- discriminator (src/pod.rs). `token_data`
-- stands for the bytes of an account of the token program, and `other` for contents of any other
-- size, none included.
pub data Contents : Type 0 where
  margin : MarginAccount → Contents
  market_nonce : MarketNonce → Contents
  pmlc : Pmlc → Contents
  program_config : ProgramConfig → Contents
  instrument : InstrumentConfig → Contents
  multisig : AdminMultisig → Contents
  timelock : TimelockProposal → Contents
  session : Session → Contents
  fee_schedule : FeeSchedule → Contents
  fee_treasury : FeeTreasury → Contents
  user_volume : UserVolume → Contents
  book : IntentBook → Contents
  token_data : (bytes : List ℕ) → Contents
  other : (size first_byte : ℕ) → Contents

-- An account on the chain: the program that owns it, and its contents.
pub record Account : Type 0 where
  pub program : ℕ
  pub contents : Contents

-- The accounts by their keys. Two entries of an instruction's account list with the same key are
-- views of the same account.
abbrev pub World : Type 0
World = ℕ → Account

-- `AccountInfo`, without what it shows of the account itself.
pub record AccountInfo : Type 0 where
  pub key : ℕ
  pub is_signer : Bool
  pub is_writable : Bool

-- The seeds of a derived address (src/seeds.rs), with the prefix as the constructor.
pub data Seeds : Type 0 where
  seed_margin : (owner mint : ℕ) → Seeds
  seed_market_nonce : (market_id : ℕ) → Seeds
  seed_config : Seeds
  seed_admin_multisig : Seeds
  seed_timelock : (proposal_id : ℕ) → Seeds
  seed_session : (owner : ℕ) → Seeds
  seed_pmlc : (instrument pmlc_id : ℕ) → Seeds
  seed_fee_schedule : Seeds
  seed_user_volume : (owner mint : ℕ) → Seeds
  seed_treasury : (mint : ℕ) → Seeds
  seed_vault : (mint : ℕ) → Seeds

-- What the Solana runtime provides: the program's own id, `find_program_address`, the clock, and the
-- instructions of the transaction as `load_instruction_at_checked` returns them, each with its
-- program and data.
pub record Runtime : Type 0 where
  pub program_id : ℕ
  pub find_program_address : Seeds → ℕ × ℕ
  pub slot : ℕ
  pub unix_timestamp : ℤ
  pub sysvar_instructions_id : ℕ
  pub ed25519_program_id : ℕ
  pub load_instruction_at : ℕ → ℕ → Option (ℕ × List ℕ)

-- `unix_timestamp.max(0) as u64`
abbrev pub now_unix : Runtime → ℕ
now_unix rt = pos_part rt.unix_timestamp

abbrev pub assert_signer : AccountInfo → Result ⊤
assert_signer ai = if ai.is_signer then ok tt else err (custom missing_signer)

abbrev pub assert_writable : AccountInfo → Result ⊤
assert_writable ai = if ai.is_writable then ok tt else err invalid_account_data

-- `account.owner != program_id` for one of the accounts.
unfoldable pub foreign : Runtime → World → List AccountInfo → Bool
foreign rt w [] = false
foreign rt w (ai ∷ ais) = (w ai.key).program != rt.program_id || foreign rt w ais

abbrev pub assert_pda : Runtime → Seeds → ℕ → Result ℕ
assert_pda rt seeds expected =
    let (derived, bump) = rt.find_program_address seeds in
    if derived != expected then err (custom invalid_pda) else ok bump

-- How the contents of an account are read as a value of a type and written back, and the
-- discriminator that marks the type.
pub record Layout (T : Type 0) : Type 0 where
  pub view : Contents → Option T
  pub contents_of : T → Contents
  pub disc_of : T → ℕ
  pub expected_disc : ℕ
  pub not_loaded : PolyleverageError

abbrev pub margin_layout : Layout MarginAccount
margin_layout = record {
  view = λ c. elim c [ margin m ↦ some m | _ ↦ none ];
  contents_of = margin;
  disc_of = λ m. m.discriminator;
  expected_disc = disc_margin_account;
  not_loaded = not_initialized;
}

abbrev pub market_nonce_layout : Layout MarketNonce
market_nonce_layout = record {
  view = λ c. elim c [ market_nonce n ↦ some n | _ ↦ none ];
  contents_of = market_nonce;
  disc_of = λ n. n.discriminator;
  expected_disc = disc_market_nonce;
  not_loaded = not_initialized;
}

abbrev pub pmlc_layout : Layout Pmlc
pmlc_layout = record {
  view = λ c. elim c [ pmlc p ↦ some p | _ ↦ none ];
  contents_of = pmlc;
  disc_of = λ p. p.discriminator;
  expected_disc = disc_pmlc;
  not_loaded = not_initialized;
}

abbrev pub program_config_layout : Layout ProgramConfig
program_config_layout = record {
  view = λ c. elim c [ program_config p ↦ some p | _ ↦ none ];
  contents_of = program_config;
  disc_of = λ p. p.discriminator;
  expected_disc = disc_program_config;
  not_loaded = invalid_program_config;
}

abbrev pub instrument_layout : Layout InstrumentConfig
instrument_layout = record {
  view = λ c. elim c [ instrument i ↦ some i | _ ↦ none ];
  contents_of = instrument;
  disc_of = λ i. i.discriminator;
  expected_disc = disc_instrument_config;
  not_loaded = not_initialized;
}

abbrev pub multisig_layout : Layout AdminMultisig
multisig_layout = record {
  view = λ c. elim c [ multisig v ↦ some v | _ ↦ none ];
  contents_of = multisig;
  disc_of = λ v. v.discriminator;
  expected_disc = disc_admin_multisig;
  not_loaded = not_initialized;
}

abbrev pub timelock_layout : Layout TimelockProposal
timelock_layout = record {
  view = λ c. elim c [ timelock t ↦ some t | _ ↦ none ];
  contents_of = timelock;
  disc_of = λ t. t.discriminator;
  expected_disc = disc_timelock;
  not_loaded = not_initialized;
}

abbrev pub session_layout : Layout Session
session_layout = record {
  view = λ c. elim c [ session s ↦ some s | _ ↦ none ];
  contents_of = session;
  disc_of = λ s. s.discriminator;
  expected_disc = disc_session;
  not_loaded = not_initialized;
}

abbrev pub fee_schedule_layout : Layout FeeSchedule
fee_schedule_layout = record {
  view = λ c. elim c [ fee_schedule x ↦ some x | _ ↦ none ];
  contents_of = fee_schedule;
  disc_of = λ x. x.discriminator;
  expected_disc = disc_fee_schedule;
  not_loaded = fee_schedule_not_initialized;
}

abbrev pub fee_treasury_layout : Layout FeeTreasury
fee_treasury_layout = record {
  view = λ c. elim c [ fee_treasury x ↦ some x | _ ↦ none ];
  contents_of = fee_treasury;
  disc_of = λ x. x.discriminator;
  expected_disc = disc_fee_treasury;
  not_loaded = not_initialized;
}

abbrev pub user_volume_layout : Layout UserVolume
user_volume_layout = record {
  view = λ c. elim c [ user_volume x ↦ some x | _ ↦ none ];
  contents_of = user_volume;
  disc_of = λ x. x.discriminator;
  expected_disc = disc_user_volume;
  not_loaded = not_initialized;
}

abbrev pub book_layout : Layout IntentBook
book_layout = record {
  view = λ c. elim c [ book b ↦ some b | _ ↦ none ];
  contents_of = book;
  disc_of = λ b. b.header.discriminator;
  expected_disc = disc_intent_book;
  not_loaded = not_initialized;
}

-- `data_len() == 0`
abbrev pub is_empty : Contents → Bool
is_empty (other size first_byte) = size == 0
is_empty _ = false

-- The system program: its id, and its instruction that makes an account, from a payer, at a key and
-- with a number of bytes.
pub record SystemProgram : Type 0 where
  pub id : ℕ
  pub create_account : (payer new space : ℕ) → Method World ⊤

-- A new account concerns no other account's data.
abbrev pub CreatesOnly : SystemProgram → Type 0
CreatesOnly sys =
    (payer new space : ℕ) (w u : World)
    → sys.create_account payer new space w ≡ (ok tt, u)
    → (k : ℕ) → k ≢ new
    → (u k).contents ≡ (w k).contents

-- A new account stands where there was none.
abbrev pub CreatesFresh : SystemProgram → Type 0
CreatesFresh sys =
    (payer new space : ℕ) (w u : World)
    → sys.create_account payer new space w ≡ (ok tt, u)
    → is_empty (w new).contents ≡ true

module _ {T : Type 0} (L : Layout T) where
  -- The tests of `load` and `load_mut`, on the contents that were found.
  unfoldable pub check_loaded : Option T → Result T
  check_loaded none = err (custom account_data_too_small)
  check_loaded (some t) = if L.disc_of t != L.expected_disc then err (custom L.not_loaded) else ok t

  -- `T::load(&account.try_borrow_data()?)?`
  unfoldable pub load : ℕ → World → Result T
  unfolding check_loaded
  load k w = check_loaded (L.view (w k).contents)

  unfoldable pub store : ℕ → T → World → World
  store k t w j =
      if j == k then record { program = (w k).program; contents = L.contents_of t } else w j

  -- A method call on what `load_mut` returns, in place.
  unfoldable pub on : {A : Type 0} → ℕ → Method T A → Method World A
  on k m w = elim (load k w) [ err e ↦ (err e, w) | ok t ↦ let (r, u) = m t in (r, store k u w) ]

  -- `*from_bytes_mut(&mut data[..LEN]) = t`, on an account of the size of the type.
  unfoldable pub overwrite : ℕ → T → Method World ⊤
  unfolding store
  overwrite k t w = elim (L.view (w k).contents) [
    | none ↦ (err panic, w)
    | some _ ↦ (ok tt, store k t w)
  ]
