-- ===== src/Timelock.antt =====
-- The rotation of the attestation signer behind a timelock (src/processor/timelock.rs).
pub mod Execution
pub mod Times
pub mod Delay
use polyleverage.Base.{
  ℕ, ◌≡◌, Bool, true, false, ◌||◌, Option, none, some, List, [], ◌∷◌, replicate, ◌==◌, ◌!=◌, not,
  if◌then◌else◌, i64_max, fits_ℤ,
}
use polyleverage.Base.Int.{ℤ, pos, ltb_ℤ, ◌+ℤ◌}
use polyleverage.Base.Bytes.{from_be_bytes}
use polyleverage.Error.{
  custom, panic, not_enough_account_keys, invalid_account_owner, invalid_account_data,
  already_initialized, arithmetic_overflow, timelock_not_executable, invalid_admin_signer,
}
use polyleverage.Method.{
  Result, ok, err, ⊤, Method, pure, reads, lift, gets, puts, ok_or, fail_if, ◌>>=◌, ◌>>◌,
}
use polyleverage.State.Timelock.{
  TimelockProposal, disc_timelock, tl_kind_set_attestation_signer, tl_status_pending,
  tl_status_executed, tl_status_cancelled, timelock_delay_secs, timelock_proposal_len, new_signer,
  set_new_signer,
}
use polyleverage.Accounts.{
  World, AccountInfo, Runtime, SystemProgram, seed_timelock, assert_signer, assert_writable,
  assert_pda, foreign, is_empty, load, on, overwrite, program_config_layout, timelock_layout,
}
use polyleverage.Admin.{authorize_admin_or_multisig, first_two}

-- The first three, and the first four, of the accounts of an instruction.
unfoldable pub first_three : List AccountInfo → Result (AccountInfo × AccountInfo × AccountInfo)
first_three (a ∷ b ∷ c ∷ _) = ok (a, b, c)
first_three _ = err not_enough_account_keys

unfoldable pub first_four :
    List AccountInfo → Result (AccountInfo × AccountInfo × AccountInfo × AccountInfo)
first_four (a ∷ b ∷ c ∷ d ∷ _) = ok (a, b, c, d)
first_four _ = err not_enough_account_keys

-- `ProgramConfig::load`, then `authorize_admin_or_multisig`.
unfoldable pub authorize : Runtime → ℕ → List AccountInfo → Method World ⊤
authorize rt config_key accounts = do
  config ← reads (load program_config_layout config_key)
  reads (authorize_admin_or_multisig rt config accounts)

unfoldable pub proposal : Runtime → (bump proposal_id proposer : ℕ) → List ℕ → ℤ → TimelockProposal
unfolding set_new_signer
proposal rt bump proposal_id proposer signer executable_after = set_new_signer signer (record {
  discriminator = disc_timelock;
  kind = tl_kind_set_attestation_signer;
  status = tl_status_pending;
  bump = bump;
  proposal_id = proposal_id;
  proposer = proposer;
  payload = replicate 64 0;
  proposed_slot = rt.slot;
  proposed_unix_ts = rt.unix_timestamp;
  executable_after_unix_ts = executable_after;
})

-- From the address of the proposal on.
unfoldable pub write_proposal :
    SystemProgram → Runtime → (payer tl_key proposal_id : ℕ) → List ℕ → Method World ⊤
write_proposal sys rt payer tl_key proposal_id signer = do
  bump ← lift (assert_pda rt (seed_timelock proposal_id) tl_key)
  empty ← gets λ w. is_empty (w tl_key).contents
  fail_if (not empty) (custom already_initialized)
  sys.create_account payer tl_key timelock_proposal_len
  executable_after ←
      ok_or (fits_ℤ i64_max (rt.unix_timestamp +ℤ pos timelock_delay_secs))
        (custom arithmetic_overflow)
  overwrite timelock_layout tl_key (proposal rt bump proposal_id payer signer executable_after)

unfoldable pub process_propose_set_attestation_signer :
    SystemProgram → Runtime → List AccountInfo → ℕ → List ℕ → Method World ⊤
process_propose_set_attestation_signer sys rt accounts proposal_id signer = do
  (admin, program_config, tl, system_program) ← lift (first_four accounts)
  lift (assert_signer admin)
  lift (assert_writable admin)
  lift (assert_writable tl)
  is_foreign ← gets λ w. foreign rt w (program_config ∷ [])
  fail_if is_foreign (custom invalid_account_owner)
  fail_if (system_program.key != sys.id) invalid_account_data
  authorize rt program_config.key accounts
  write_proposal sys rt admin.key tl.key proposal_id signer

-- The proposal, if it may be executed now.
unfoldable pub executable : Runtime → ℕ → Method World TimelockProposal
executable rt tl_key = do
  t ← reads (load timelock_layout tl_key)
  fail_if (t.status != tl_status_pending) (custom timelock_not_executable)
  fail_if (t.kind != tl_kind_set_attestation_signer) (custom timelock_not_executable)
  fail_if (ltb_ℤ rt.unix_timestamp t.executable_after_unix_ts) (custom timelock_not_executable)
  pure t

-- The two writes of an execution.
unfoldable pub rotate_signer : (config_key tl_key : ℕ) → TimelockProposal → Method World ⊤
unfolding new_signer
rotate_signer config_key tl_key t = do
  on program_config_layout config_key
      (puts λ c. record c { attestation_signer = from_be_bytes (new_signer t) })
  on timelock_layout tl_key (puts λ p. record p { status = tl_status_executed })

-- From the checks of the accounts on.
unfoldable pub execute_with :
    Runtime → List AccountInfo → ℕ → (admin program_config tl : AccountInfo) → Method World ⊤
execute_with rt accounts proposal_id admin program_config tl = do
  lift (assert_signer admin)
  lift (assert_writable program_config)
  lift (assert_writable tl)
  is_foreign ← gets λ w. foreign rt w (program_config ∷ tl ∷ [])
  fail_if is_foreign (custom invalid_account_owner)
  lift (assert_pda rt (seed_timelock proposal_id) tl.key)
  t ← executable rt tl.key
  authorize rt program_config.key accounts
  rotate_signer program_config.key tl.key t

unfoldable pub process_execute_set_attestation_signer :
    Runtime → List AccountInfo → ℕ → Method World ⊤
process_execute_set_attestation_signer rt accounts proposal_id = do
  (admin, program_config, tl) ← lift (first_three accounts)
  execute_with rt accounts proposal_id admin program_config tl

-- The two blocks at the end of `process_cancel_timelock`.
unfoldable pub cancel_pending : (admin_key tl_key : ℕ) → Method World ⊤
cancel_pending admin_key tl_key = do
  t ← reads (load timelock_layout tl_key)
  fail_if (t.proposer != admin_key) (custom invalid_admin_signer)
  fail_if (t.status != tl_status_pending) (custom timelock_not_executable)
  on timelock_layout tl_key (puts λ p. record p { status = tl_status_cancelled })

unfoldable pub process_cancel_timelock : Runtime → List AccountInfo → ℕ → Method World ⊤
process_cancel_timelock rt accounts proposal_id = do
  (admin, tl) ← lift (first_two accounts)
  lift (assert_signer admin)
  lift (assert_writable tl)
  is_foreign ← gets λ w. foreign rt w (tl ∷ [])
  fail_if is_foreign (custom invalid_account_owner)
  lift (assert_pda rt (seed_timelock proposal_id) tl.key)
  cancel_pending admin.key tl.key
