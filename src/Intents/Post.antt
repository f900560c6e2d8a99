-- ===== src/Intents/Post.antt =====
-- The inline match of a post, and the two handlers that post (src/processor/intent.rs).
use polyleverage.Base.{ℕ, Option, none, some, List, [], ◌∷◌, ◌==◌, ◌!=◌, if◌then◌else◌}
use polyleverage.Error.{custom, not_enough_account_keys, invalid_account_owner}
use polyleverage.Method.{ok, err, ⊤, Method, pure, lift, gets, fail_if, ◌>>=◌, ◌>>◌}
use polyleverage.Book.{side_long, side_short}
use polyleverage.Accounts.{
  World, AccountInfo, Runtime, SystemProgram, assert_signer, assert_writable, foreign,
}
use polyleverage.Accounts.Books.{load_book}
use polyleverage.Matching.{MatchCtx, find_overlap_on_side}
use polyleverage.Matching.Core.{match_pair_core}
use polyleverage.Matching.Pairs.{when}
use polyleverage.Intents.{PostIntentArgs, PostAccounts, post_intent, session_owner_for}

abbrev pub opposite_side : ℕ → ℕ
opposite_side side = if side == side_long then side_short else side_long

-- The context of the inline match; the poster is on the side of the new intent.
abbrev pub inline_ctx :
    PostAccounts
    → (side : ℕ) → (counterparty pmlc system schedule taker maker treasury : AccountInfo) → MatchCtx
inline_ctx a side counterparty pmlc system schedule taker maker treasury = record {
  payer = a.payer;
  instrument_ai = a.instrument;
  book_ai = a.book;
  long_margin_ai = if side == side_long then a.margin else counterparty;
  short_margin_ai = if side == side_long then counterparty else a.margin;
  pmlc_ai = pmlc;
  system_program = system;
  fee_ctx = record {
    fee_schedule_ai = schedule;
    taker_volume_ai = taker;
    maker_volume_ai = maker;
    fee_treasury_ai = treasury;
  };
}

-- A call whose error is only logged: what it has written stays.
unfoldable pub best_effort : {S : Type 0} → Method S ⊤ → Method S ⊤
best_effort call s = (ok tt, (call s).1)

-- The match with a counterparty that was found.
unfoldable pub match_with :
    SystemProgram → Runtime → MatchCtx → (side intent_id : ℕ) → Option ℕ → Method World ⊤
match_with sys rt ctx side intent_id none = pure tt
match_with sys rt ctx side intent_id (some cp_id) =
    let long_id = if side == side_long then intent_id else cp_id in
    let short_id = if side == side_long then cp_id else intent_id in
    best_effort (match_pair_core sys rt ctx long_id short_id 1)

-- The match that a post may ask for; without the seven accounts it is skipped.
unfoldable pub inline_match :
    SystemProgram
    → Runtime
    → PostAccounts
    → PostIntentArgs
    → (intent_id : ℕ) → List AccountInfo
    → Method World ⊤
inline_match sys rt a args intent_id (b ∷ c ∷ d ∷ e ∷ f ∷ g ∷ h ∷ _) = do
  book ← load_book a.book.key
  found ← lift (find_overlap_on_side book (opposite_side args.side) args.price_fp rt.slot intent_id)
  match_with sys rt (inline_ctx a args.side b c d e f g h) args.side intent_id found
inline_match sys rt a args intent_id _ = pure tt

unfoldable pub do_post_intent_inner :
    SystemProgram → Runtime → PostAccounts → PostIntentArgs → Method World ⊤
do_post_intent_inner sys rt a args = do
  intent_id ← post_intent rt a args
  when (args.try_match != 0) (inline_match sys rt a args intent_id a.extras)

unfoldable pub process_post_intent :
    SystemProgram → Runtime → List AccountInfo → PostIntentArgs → Method World ⊤
process_post_intent sys rt (a ∷ b ∷ c ∷ d ∷ e ∷ extras) args = do
  lift (assert_signer a)
  do_post_intent_inner sys rt
      (record {
        effective_owner = a.key;
        payer = a;
        program_config = b;
        instrument = c;
        book = d;
        margin = e;
        session = none;
        extras = extras;
      })
      args
process_post_intent sys rt _ args = lift (err not_enough_account_keys)

-- The delegated post once the accounts are named.
unfoldable pub post_for :
    SystemProgram
    → Runtime
    → (fee_payer delegate program_config instrument book margin session : AccountInfo)
    → (extras : List AccountInfo) → PostIntentArgs
    → Method World ⊤
post_for sys rt fee_payer delegate program_config instrument book margin session extras args = do
  lift (assert_signer fee_payer)
  lift (assert_writable fee_payer)
  lift (assert_signer delegate)
  lift (assert_writable session)
  is_foreign ← gets λ w. foreign rt w (session ∷ [])
  fail_if is_foreign (custom invalid_account_owner)
  effective_owner ← session_owner_for rt delegate.key instrument.key session.key
  do_post_intent_inner sys rt
      (record {
        effective_owner = effective_owner;
        payer = fee_payer;
        program_config = program_config;
        instrument = instrument;
        book = book;
        margin = margin;
        session = some session;
        extras = extras;
      })
      args

unfoldable pub process_post_intent_delegated :
    SystemProgram → Runtime → List AccountInfo → PostIntentArgs → Method World ⊤
process_post_intent_delegated sys rt (a ∷ b ∷ c ∷ d ∷ e ∷ f ∷ g ∷ extras) args =
    post_for sys rt a b c d e f g extras args
process_post_intent_delegated sys rt _ args = lift (err not_enough_account_keys)
