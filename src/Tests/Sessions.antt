-- ===== src/Tests/Sessions.antt =====
-- A trader opens a session, where a revoked one stood, and revokes it.
use polyleverage.Base.{◌≡◌, refl, List, [], ◌∷◌, ◌==◌, if◌then◌else◌}
use polyleverage.Error.{custom, already_initialized}
use polyleverage.Method.{ok, err}
use polyleverage.State.Session.{is_active, init, revoke}
use polyleverage.Accounts.{World, AccountInfo, session, foreign, load, check_loaded, store, on}
use polyleverage.Sessions.{
  CreateSessionArgs, check_args, check_replaceable, make_room, init_session, open_session,
  create_session_with, process_create_session, revoke_owned, revoke_with, process_revoke_session,
}
use polyleverage.Sessions.Opening.{Opens, opened, process_create_session-Opens}
use polyleverage.Tests.Settle.{world, breach}
use polyleverage.Tests.Closing.{system, named}

abbrev args : CreateSessionArgs
args = record {
  delegate = 61;
  expires_at_slot = 1_000_000;
  per_intent_max_collateral_atoms = 5_000_000;
  cumulative_collateral_cap = 50_000_000;
  allowed_instruments = 2 ∷ [];
}

abbrev desk : World
desk k =
    if k == 6
    then record { program = 77; contents = session (record (opened 3 21 242 args) { revoked = 1 }) }
    else world k

abbrev infos : List AccountInfo
infos = named 21 ∷ named 1 ∷ named 6 ∷ named 0 ∷ []

abbrev desk_after : World
desk_after = (process_create_session system breach infos args desk).1

opening_runs : process_create_session system breach infos args desk ≡ (ok tt, desk_after)
unfolding process_create_session create_session_with open_session check_args make_room
    check_replaceable init_session foreign load check_loaded store is_active init
opening_runs = refl

-- An active session is not replaced.
reopening_runs :
    (process_create_session system breach infos args desk_after).0
    ≡ err (custom already_initialized)
unfolding process_create_session create_session_with open_session check_args make_room
    check_replaceable init_session foreign load check_loaded store is_active init
reopening_runs = refl

revoking_runs : (process_revoke_session breach (named 21 ∷ named 6 ∷ []) desk).0 ≡ ok tt
unfolding process_revoke_session revoke_with revoke_owned foreign load check_loaded store on revoke
revoking_runs = refl

process_create_session-Opens_example : Opens breach (named 21) 1 6 args desk desk_after
process_create_session-Opens_example =
    process_create_session-Opens system breach (named 21) (named 1) (named 6) (named 0) [] args desk
      desk_after opening_runs
