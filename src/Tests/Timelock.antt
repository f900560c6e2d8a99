-- ===== src/Tests/Timelock.antt =====
-- A run in which a new attestation signer is proposed, and set a day later.
use polyleverage.Base.{
  ℕ, ◌≡◌, refl, sym, ap, ◌∙◌, Bool, true, false, none, List, [], ◌∷◌, arith, ◌==◌, if◌then◌else◌,
  replicate,
}
use polyleverage.Base.Int.{ℤ, pos, ◌≤ℤ◌, ◌+ℤ◌}
use polyleverage.Method.{Result, ok, ⊤}
use polyleverage.State.Config.{ProgramConfig, disc_program_config}
use polyleverage.State.Timelock.{TimelockProposal, new_signer, set_new_signer, timelock_delay_secs}
use polyleverage.State.Multisig.{has_signed}
use polyleverage.Accounts.{
  program_config, timelock, other, Contents, World, AccountInfo, Seeds, seed_margin,
  seed_market_nonce, seed_config, seed_admin_multisig, seed_timelock, seed_session, seed_pmlc,
  seed_fee_schedule, seed_user_volume, seed_treasury, seed_vault, Runtime, SystemProgram,
  CreatesOnly, check_loaded, load, store, on, overwrite, foreign,
}
use polyleverage.Admin.{authorize_admin_or_multisig, find_multisig, looks_like_multisig}
use polyleverage.Timelock.{
  first_three, first_four, executable, authorize, rotate_signer, execute_with, proposal,
  write_proposal, process_propose_set_attestation_signer, process_execute_set_attestation_signer,
}
use polyleverage.Timelock.Execution.{Executes, process_execute-Executes}
use polyleverage.Timelock.Times.{reads_as}
use polyleverage.Timelock.Delay.{
  History, ProposedAt, started, waited, proposed, process_execute_delayed,
}

abbrev config : ProgramConfig
config = record {
  discriminator = disc_program_config;
  global_pause = 0;
  bump = 248;
  admin = 40;
  fee_treasury_authority = 41;
  attestation_signer = 99;
  default_max_staleness_secs = 60;
}

abbrev contents_of_key : ℕ → Contents
contents_of_key k = if k == 1 then program_config config else other 0 0

abbrev quiet_world : World
quiet_world k = record { program = 77; contents = contents_of_key k }

abbrev place_of : Seeds → ℕ × ℕ
place_of (seed_margin owner mint) = (owner, 255)
place_of (seed_market_nonce id) = (3, 254)
place_of seed_config = (1, 248)
place_of seed_admin_multisig = (6, 247)
place_of (seed_timelock id) = (8, 246)
place_of (seed_session owner) = (9, 242)
place_of (seed_pmlc key id) = (id, 241)
place_of seed_fee_schedule = (15, 240)
place_of (seed_user_volume owner mint) = (owner, 239)
place_of (seed_treasury mint) = (16, 238)
place_of (seed_vault mint) = (14, 245)

abbrev at_time : ℕ → Runtime
at_time now = record {
  program_id = 77;
  find_program_address = place_of;
  slot = 1_234;
  unix_timestamp = pos now;
  sysvar_instructions_id = 50;
  ed25519_program_id = 60;
  load_instruction_at = λ sysvar i. none;
}

abbrev zeros : TimelockProposal
zeros = record {
  discriminator = 0;
  kind = 0;
  status = 0;
  bump = 0;
  proposal_id = 0;
  proposer = 0;
  payload = replicate 64 0;
  proposed_slot = 0;
  proposed_unix_ts = pos 0;
  executable_after_unix_ts = pos 0;
}

-- An account is made with zeros, for the program of the example.
abbrev system : SystemProgram
system = record {
  id = 0;
  create_account = λ payer new space w.
      (ok tt, λ k. if k == new then record { program = 77; contents = timelock zeros } else w k);
}

system_creates : CreatesOnly system
system_creates payer new space w u h k differ =
    let elsewhere : (k == new) ≡ false = ground arith in
    ap (λ (q : Result ⊤ × World). (q.1 k).contents) (sym h) ∙ rw elsewhere refl

abbrev passed : ℕ → AccountInfo
passed k = record { key = k; is_signer = true; is_writable = true }

abbrev to_propose : List AccountInfo
to_propose = passed 40 ∷ passed 1 ∷ passed 8 ∷ passed 0 ∷ []

abbrev to_execute : List AccountInfo
to_execute = passed 40 ∷ passed 1 ∷ passed 8 ∷ []

abbrev signer_bytes : List ℕ
signer_bytes = replicate 32 5

abbrev with_proposal : World
with_proposal =
    (process_propose_set_attestation_signer system (at_time 1_000) to_propose 3 signer_bytes
      quiet_world).1

propose_runs :
    process_propose_set_attestation_signer system
      (at_time 1_000)
      to_propose
      3
      signer_bytes
      quiet_world
    ≡ (ok tt, with_proposal)
unfolding process_propose_set_attestation_signer first_four foreign authorize load check_loaded
    authorize_admin_or_multisig find_multisig looks_like_multisig has_signed write_proposal ◌+ℤ◌
    overwrite store proposal set_new_signer
propose_runs = refl

abbrev with_new_signer : World
with_new_signer =
    (process_execute_set_attestation_signer (at_time 87_400) to_execute 3 with_proposal).1

execute_runs :
    process_execute_set_attestation_signer (at_time 87_400) to_execute 3 with_proposal
    ≡ (ok tt, with_new_signer)
unfolding process_propose_set_attestation_signer first_four foreign authorize load check_loaded
    authorize_admin_or_multisig find_multisig looks_like_multisig has_signed write_proposal ◌+ℤ◌
    overwrite store proposal set_new_signer process_execute_set_attestation_signer first_three
    execute_with executable rotate_signer on new_signer
execute_runs = refl

no_proposals : (k : ℕ) → reads_as quiet_world k ≡ none
no_proposals k = at (k == 1)
  where
    at :
        (b : Bool)
        → reads_as
            (λ _. record {
              program = 77;
              contents = if b then program_config config else other 0 0;
            })
            k
          ≡ none
    at true = refl
    at false = refl

a_day_later : History system with_proposal (pos 87_400)
a_day_later =
    waited with_proposal (pos 1_000) (pos 87_400)
      (proposed (at_time 1_000) to_propose 3 signer_bytes quiet_world with_proposal
        (started quiet_world (pos 1_000) no_proposals) propose_runs)
      (omega arith)

process_execute-Executes_example :
    Executes (at_time 87_400) to_execute 1 8 with_proposal with_new_signer
unfolding first_three
process_execute-Executes_example =
    process_execute-Executes (at_time 87_400) to_execute 3 with_proposal with_new_signer (passed 40)
      (passed 1) (passed 8) refl execute_runs

process_execute_delayed_example :
    Executes (at_time 87_400) to_execute 1 8 with_proposal with_new_signer
    × ((clock : ℤ) × ProposedAt system 8 clock with_proposal (pos 87_400) a_day_later
        × (clock +ℤ pos timelock_delay_secs ≤ℤ pos 87_400))
unfolding first_three
process_execute_delayed_example =
    process_execute_delayed system (at_time 87_400) to_execute 3 with_proposal with_new_signer
      (passed 40) (passed 1) (passed 8) a_day_later system_creates refl execute_runs
