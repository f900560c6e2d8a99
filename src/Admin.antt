-- ===== src/Admin.antt =====
-- Who may administer the program: `authorize_admin_or_multisig` and `process_rotate_admin_multisig`
-- of src/processor/multisig.rs, and `process_set_global_pause` of src/processor/admin.rs.
pub mod Authority
pub mod Setup
use polyleverage.Base.{
  ℕ, Bool, true, false, ◌||◌, ◌&&◌, not, Option, none, some, List, [], ◌∷◌, map, leb, ◌==◌, ◌!=◌,
  if◌then◌else◌,
}
use polyleverage.Error.{
  custom, not_enough_account_keys, invalid_account_owner, invalid_admin_signer,
}
use polyleverage.Method.{Result, ok, err, ⊤, Method, reads, lift, gets, puts, fail_if, ◌>>=◌, ◌>>◌}
use polyleverage.State.Config.{ProgramConfig}
use polyleverage.State.Multisig.{
  AdminMultisig, disc_admin_multisig, admin_multisig_len, has_signed, check_threshold, rotate,
}
use polyleverage.Accounts.{
  Contents, World, AccountInfo, seed_admin_multisig, Runtime, assert_writable, foreign, load, on,
  multisig_layout, program_config_layout,
}
use polyleverage.Accounts.Books.{data_len, first_byte_of}

-- `data_len() < ADMIN_MULTISIG_LEN` and `data[0] != DISC_ADMIN_MULTISIG`, negated.
unfoldable pub looks_like_multisig : Contents → Bool
looks_like_multisig c =
    leb admin_multisig_len (data_len c) && first_byte_of c == disc_admin_multisig

-- The loop over the accounts: what the first multisig at its derived address loads as.
unfoldable pub find_multisig : Runtime → World → List AccountInfo → Option (Result AdminMultisig)
find_multisig rt w [] = none
find_multisig rt w (ai ∷ ais) =
    if (w ai.key).program != rt.program_id
      || (not (looks_like_multisig (w ai.key).contents)
          || ai.key != (rt.find_program_address seed_admin_multisig).0)
    then find_multisig rt w ais
    else some (load multisig_layout ai.key w)

-- Key and signer flag of the accounts.
abbrev pub signer_flags : List AccountInfo → List (ℕ × Bool)
signer_flags ais = map (λ ai. (ai.key, ai.is_signer)) ais

-- What was found decides by its threshold; if nothing was, the single admin decides.
abbrev pub decided_by : Option (Result AdminMultisig) → ℕ → List (ℕ × Bool) → Result ⊤
decided_by (some (ok ms)) admin accounts = check_threshold accounts ms
decided_by (some (err e)) admin accounts = err e
decided_by none admin accounts =
    if has_signed admin accounts then ok tt else err (custom invalid_admin_signer)

unfoldable pub authorize_admin_or_multisig :
    Runtime → ProgramConfig → List AccountInfo → World → Result ⊤
authorize_admin_or_multisig rt config accounts w =
    decided_by (find_multisig rt w accounts) config.admin (signer_flags accounts)

-- The first two accounts of a list.
unfoldable pub first_two : List AccountInfo → Result (AccountInfo × AccountInfo)
first_two (a ∷ b ∷ _) = ok (a, b)
first_two _ = err not_enough_account_keys

-- The end of `process_rotate_admin_multisig`: a quorum of the multisig that is there may change it.
unfoldable pub rotate_with_quorum : ℕ → List (ℕ × Bool) → List ℕ → ℕ → Method World ⊤
rotate_with_quorum ms_key accounts signers threshold = do
  ms ← reads (load multisig_layout ms_key)
  lift (check_threshold accounts ms)
  on multisig_layout ms_key (rotate signers threshold)

unfoldable pub process_rotate_admin_multisig :
    Runtime → List AccountInfo → List ℕ → ℕ → Method World ⊤
process_rotate_admin_multisig rt accounts signers threshold = do
  (config_ai, ms_ai) ← lift (first_two accounts)
  lift (assert_writable ms_ai)
  is_foreign ← gets λ w. foreign rt w (config_ai ∷ ms_ai ∷ [])
  fail_if is_foreign (custom invalid_account_owner)
  rotate_with_quorum ms_ai.key (signer_flags accounts) signers threshold

unfoldable pub process_set_global_pause : Runtime → List AccountInfo → Bool → Method World ⊤
process_set_global_pause rt accounts paused = do
  (admin, config_ai) ← lift (first_two accounts)
  lift (assert_writable config_ai)
  is_foreign ← gets λ w. foreign rt w (config_ai ∷ [])
  fail_if is_foreign (custom invalid_account_owner)
  config ← reads (load program_config_layout config_ai.key)
  reads (authorize_admin_or_multisig rt config accounts)
  on program_config_layout config_ai.key
      (puts λ c. record c { global_pause = if paused then 1 else 0 })
