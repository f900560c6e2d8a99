-- ===== src/Tests/Admin.antt =====
-- A multisig of three administrators, two of whom must sign.
use polyleverage.Base.{
  ℕ, ◌≡◌, ◌⊎◌, ◌↔◌, refl, Bool, true, false, List, [], ◌∷◌, arith, ◌==◌, if◌then◌else◌, fill, subst,
}
use polyleverage.Error.{custom, already_initialized}
use polyleverage.Method.{ok, err}
use polyleverage.State.Config.{ProgramConfig, disc_program_config, init_config}
use polyleverage.State.Multisig.{
  AdminMultisig, disc_admin_multisig, has_duplicate, check_signers, init, active_signers,
  has_signed, count_from, count_approvals, check_threshold, rotate,
}
use polyleverage.State.Multisig.Quorum.{Quorum, Signed, IsValid, check_threshold-Quorum}
use polyleverage.Accounts.{
  multisig, program_config, other, Contents, World, AccountInfo, Seeds, seed_margin,
  seed_market_nonce, seed_config, seed_admin_multisig, seed_timelock, seed_session, seed_pmlc,
  seed_fee_schedule, seed_user_volume, seed_treasury, seed_vault, Runtime, check_loaded, load,
  store, on, foreign, multisig_layout, program_config_layout, SystemProgram,
}
use polyleverage.Base.Int.{pos}
use polyleverage.Base.{none}
use polyleverage.Admin.{
  looks_like_multisig, find_multisig, signer_flags, authorize_admin_or_multisig, first_two,
  rotate_with_quorum, process_rotate_admin_multisig,
}
use polyleverage.Fees.{init_at}
use polyleverage.Tests.Closing.{named}
use polyleverage.Admin.Setup.{make_or_own, init_program_config_with, process_init_program_config}
use polyleverage.Admin.Authority.{
  authorize_sound, authorize_without_multisig, RotatedBy, process_rotate-RotatedBy,
}

abbrev board : AdminMultisig
board = record {
  discriminator = disc_admin_multisig;
  bump = 247;
  threshold = 2;
  n_signers = 3;
  bootstrap_admin = 40;
  version = 1;
  signers = fill 16 0 (61 ∷ 62 ∷ 63 ∷ []);
}

board-IsValid : IsValid board
unfolding active_signers
board-IsValid = record {
  size = omega arith;
  positive = omega arith;
  reachable = omega arith;
  distinct = (refl, (refl, (refl, tt)));
}

abbrev config : ProgramConfig
config = record {
  discriminator = disc_program_config;
  global_pause = 0;
  bump = 248;
  admin = 40;
  fee_treasury_authority = 41;
  attestation_signer = 99;
  default_max_staleness_secs = 60;
}

abbrev contents_of_key : ℕ → Contents
contents_of_key k =
    if k == 1 then program_config config else if k == 6 then multisig board else other 0 0

abbrev office : World
office k = record { program = 77; contents = contents_of_key k }

abbrev address_of : Seeds → ℕ × ℕ
address_of (seed_margin owner mint) = (owner, 255)
address_of (seed_market_nonce id) = (3, 254)
address_of seed_config = (1, 248)
address_of seed_admin_multisig = (6, 247)
address_of (seed_timelock id) = (8, 246)
address_of (seed_session owner) = (6, 242)
address_of (seed_pmlc key id) = (id, 241)
address_of seed_fee_schedule = (15, 240)
address_of (seed_user_volume owner mint) = (owner, 239)
address_of (seed_treasury mint) = (16, 238)
address_of (seed_vault mint) = (14, 245)

abbrev chain : Runtime
chain = record {
  program_id = 77;
  find_program_address = address_of;
  slot = 1_234;
  unix_timestamp = pos 1_000;
  sysvar_instructions_id = 50;
  ed25519_program_id = 60;
  load_instruction_at = λ sysvar i. none;
}

abbrev passed : ℕ → Bool → AccountInfo
passed k signs = record { key = k; is_signer = signs; is_writable = true }

-- Two of the three have signed.
abbrev approved : List AccountInfo
approved = passed 1 false ∷ passed 6 false ∷ passed 61 true ∷ passed 63 true ∷ passed 62 false ∷ []

office-IsValid : (ms : AdminMultisig) → load multisig_layout 6 office ≡ ok ms → IsValid ms
unfolding load check_loaded
office-IsValid ms h = let same : board ≡ ms = cc in subst IsValid same board-IsValid

approved_passes : check_threshold (signer_flags approved) board ≡ ok tt
unfolding check_threshold count_approvals count_from active_signers has_signed
approved_passes = refl

check_threshold-Quorum_example : Quorum (signer_flags approved) board
check_threshold-Quorum_example =
    check_threshold-Quorum (signer_flags approved) board board-IsValid approved_passes

abbrev rotated_board : AdminMultisig
rotated_board = (rotate (71 ∷ 72 ∷ []) 2 board).1

rotate_runs : rotate (71 ∷ 72 ∷ []) 2 board ≡ (ok tt, rotated_board)
unfolding rotate check_signers has_duplicate
rotate_runs = refl

abbrev blank : AdminMultisig
blank = record board { discriminator = 0 }

abbrev new_board : AdminMultisig
new_board = (init 40 (71 ∷ 72 ∷ []) 1 247 blank).1

init_runs : init 40 (71 ∷ 72 ∷ []) 1 247 blank ≡ (ok tt, new_board)
unfolding init check_signers has_duplicate
init_runs = refl

approved_authorized : authorize_admin_or_multisig chain config approved office ≡ ok tt
unfolding authorize_admin_or_multisig find_multisig looks_like_multisig load check_loaded
    check_threshold count_approvals count_from active_signers has_signed
approved_authorized = refl

authorize_sound_example :
    ((ms : AdminMultisig) × (load multisig_layout 6 office ≡ ok ms)
      × Quorum (signer_flags approved) ms)
    ⊎ Signed 40 (signer_flags approved)
authorize_sound_example =
    authorize_sound chain config approved office office-IsValid approved_authorized

-- The former single admin signs alone, and leaves the multisig out.
authorize_without_multisig_example :
    (authorize_admin_or_multisig chain config (passed 40 true ∷ passed 1 false ∷ []) office ≡ ok tt)
    ↔ Signed 40 (signer_flags (passed 40 true ∷ passed 1 false ∷ []))
authorize_without_multisig_example =
    authorize_without_multisig chain config (passed 40 true ∷ passed 1 false ∷ []) office refl

abbrev reformed : World
reformed = (process_rotate_admin_multisig chain approved (71 ∷ 72 ∷ []) 2 office).1

reform_runs :
    process_rotate_admin_multisig chain approved (71 ∷ 72 ∷ []) 2 office ≡ (ok tt, reformed)
unfolding process_rotate_admin_multisig first_two foreign rotate_with_quorum load check_loaded
    check_threshold count_approvals count_from active_signers has_signed on store rotate
    check_signers has_duplicate
reform_runs = refl

process_rotate-RotatedBy_example : RotatedBy (signer_flags approved) 6 office reformed
unfolding first_two
process_rotate-RotatedBy_example =
    process_rotate-RotatedBy chain approved (71 ∷ 72 ∷ []) 2 office reformed (passed 1 false)
      (passed 6 false) refl office-IsValid reform_runs

-- A new program configuration is made, and an old one is not set up again.
abbrev unset : ProgramConfig
unset = record {
  discriminator = 0;
  global_pause = 0;
  bump = 0;
  admin = 0;
  fee_treasury_authority = 0;
  attestation_signer = 0;
  default_max_staleness_secs = 0;
}

abbrev founder : SystemProgram
founder = record {
  id = 0;
  create_account = λ payer new space w. (
    ok tt,
    λ k. if k == new then record { program = 77; contents = program_config unset } else w k,
  );
}

abbrev founders : List AccountInfo
founders = named 40 ∷ named 1 ∷ named 41 ∷ named 0 ∷ []

founding_runs :
    load program_config_layout 1
      (process_init_program_config founder chain founders 99 60
        (λ k. record { program = 0; contents = other 0 0 })).1
    ≡ ok (record {
      discriminator = disc_program_config;
      global_pause = 0;
      bump = 248;
      admin = 40;
      fee_treasury_authority = 41;
      attestation_signer = 99;
      default_max_staleness_secs = 60;
    })
unfolding process_init_program_config init_program_config_with make_or_own init_at init_config store
    load check_loaded
founding_runs = refl

refounding_fails :
    (process_init_program_config founder chain founders 99 60 office).0
    ≡ err (custom already_initialized)
unfolding process_init_program_config init_program_config_with make_or_own init_at init_config store
refounding_fails = refl
