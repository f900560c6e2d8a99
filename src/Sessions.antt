-- ===== src/Sessions.antt =====
-- Sessions are opened and revoked (src/processor/session.rs).
pub mod Opening
use polyleverage.Base.{
  ℕ, ◌≡◌, Bool, true, false, ◌||◌, not, Option, none, some, List, [], ◌∷◌, length, ltb, leb, ◌==◌,
  ◌!=◌, if◌then◌else◌,
}
use polyleverage.Error.{
  custom, not_enough_account_keys, invalid_account_data, invalid_account_owner, global_paused,
  invalid_instruction_data, session_owner_mismatch, already_initialized, account_data_too_small,
}
use polyleverage.Method.{Result, ok, err, ⊤, Method, reads, lift, gets, puts, fail_if, ◌>>=◌, ◌>>◌}
use polyleverage.State.Session.{Session, max_session_instruments, init, is_active, revoke}
use polyleverage.Accounts.{
  World, AccountInfo, Runtime, SystemProgram, seed_session, assert_signer, assert_writable,
  assert_pda, foreign, is_empty, load, store, on, program_config_layout, session_layout,
}

abbrev pub session_len : ℕ
session_len = 440

pub record CreateSessionArgs : Type 0 where
  pub delegate : ℕ
  pub expires_at_slot : ℕ
  pub per_intent_max_collateral_atoms : ℕ
  pub cumulative_collateral_cap : ℕ
  pub allowed_instruments : List ℕ

unfoldable pub check_args : (now_slot : ℕ) → CreateSessionArgs → Method World ⊤
check_args now_slot args = do
  fail_if (ltb max_session_instruments (length args.allowed_instruments))
      (custom invalid_instruction_data)
  fail_if (leb args.expires_at_slot now_slot) (custom invalid_instruction_data)
  fail_if (args.per_intent_max_collateral_atoms == 0 || args.cumulative_collateral_cap == 0)
      (custom invalid_instruction_data)
  fail_if (ltb args.cumulative_collateral_cap args.per_intent_max_collateral_atoms)
      (custom invalid_instruction_data)

-- A session that exists may be replaced once it is not active.
unfoldable pub check_replaceable : (now_slot owner : ℕ) → Session → Result ⊤
check_replaceable now_slot owner existing =
    if existing.owner != owner
    then err (custom session_owner_mismatch)
    else if is_active now_slot existing
    then err (custom already_initialized)
    else ok tt

unfoldable pub make_room : SystemProgram → (now_slot owner key : ℕ) → Method World ⊤
make_room sys now_slot owner key = do
  needs_alloc ← gets λ w. is_empty (w key).contents
  if needs_alloc then sys.create_account owner key session_len else do
    existing ← reads (load session_layout key)
    lift (check_replaceable now_slot owner existing)

-- `Session::init` on the account's data.
unfoldable pub init_session : (now_slot owner key bump : ℕ) → CreateSessionArgs → Method World ⊤
init_session now_slot owner key bump args w = elim (session_layout.view (w key).contents) [
  | none ↦ (err (custom account_data_too_small), w)
  | some s ↦
      let (r, t) =
        init owner args.delegate bump args.expires_at_slot args.per_intent_max_collateral_atoms
          args.cumulative_collateral_cap args.allowed_instruments now_slot s in
      (r, store session_layout key t w)
]

unfoldable pub open_session :
    SystemProgram → Runtime → (owner key : ℕ) → CreateSessionArgs → Method World ⊤
open_session sys rt owner key args = do
  bump ← lift (assert_pda rt (seed_session owner) key)
  check_args rt.slot args
  make_room sys rt.slot owner key
  init_session rt.slot owner key bump args

unfoldable pub create_session_with :
    SystemProgram
    → Runtime
    → (owner program_config session system_program : AccountInfo) → CreateSessionArgs
    → Method World ⊤
create_session_with sys rt owner program_config session system_program args = do
  lift (assert_signer owner)
  lift (assert_writable owner)
  lift (assert_writable session)
  is_foreign ← gets λ w. foreign rt w (program_config ∷ [])
  fail_if is_foreign (custom invalid_account_owner)
  fail_if (system_program.key != sys.id) invalid_account_data
  config ← reads (load program_config_layout program_config.key)
  fail_if (config.global_pause != 0) (custom global_paused)
  open_session sys rt owner.key session.key args

unfoldable pub process_create_session :
    SystemProgram → Runtime → List AccountInfo → CreateSessionArgs → Method World ⊤
process_create_session sys rt (a ∷ b ∷ c ∷ d ∷ _) args = create_session_with sys rt a b c d args
process_create_session sys rt _ args = lift (err not_enough_account_keys)

unfoldable pub revoke_owned : (owner : ℕ) → Method Session ⊤
revoke_owned owner = do
  fail_if ((← gets λ s. s.owner) != owner) (custom session_owner_mismatch)
  puts revoke

unfoldable pub revoke_with : Runtime → (owner session : AccountInfo) → Method World ⊤
revoke_with rt owner session = do
  lift (assert_signer owner)
  lift (assert_writable session)
  is_foreign ← gets λ w. foreign rt w (session ∷ [])
  fail_if is_foreign (custom invalid_account_owner)
  lift (assert_pda rt (seed_session owner.key) session.key)
  on session_layout session.key (revoke_owned owner.key)

unfoldable pub process_revoke_session : Runtime → List AccountInfo → Method World ⊤
process_revoke_session rt (a ∷ b ∷ _) = revoke_with rt a b
process_revoke_session rt _ = lift (err not_enough_account_keys)
