-- ===== src/Tests/Intents.antt =====
-- A delegate posts a bid for a trader, who cancels another; and a post with a forged fee schedule.
use polyleverage.Base.{
  ℕ, ◌+◌, ◌≡◌, ◌≤◌, ◌⊎◌, replicate, refl, true, some, List, [], ◌∷◌, ◌==◌, if◌then◌else◌,
}
use polyleverage.Method.{ok}
use polyleverage.Fixed.{validate_price_ticked, validate_price}
use polyleverage.State.Margin.{
  move_reserved_to_free, move_free_to_reserved, debit_reserved, credit_reserved, credit_free,
  debit_free, move_reserved_to_locked, credit_locked,
}
use polyleverage.State.Session.{Session, disc_session, is_active, allows_instrument, record_intent}
use polyleverage.State.Config.{require_active}
use polyleverage.Book.{
  alloc_node, next_free, write_intent, write_seat, write_slot, intent, seat, node_as, as_intent,
  as_seat, next_intent_id, next_seq, side_long, side_short, free_node,
}
use polyleverage.Book.RedBlack.{links, get, put, replace_child, rotate, blacken}
use polyleverage.Book.RedBlack.Insert.{
  descend, has_red_parent, fix_by_rotation, fix_under, fix_once, insert_fixup, attach, insert_node,
}
use polyleverage.Book.RedBlack.Remove.{
  tree_minimum, transplant, splice, lift_successor, replace_by_successor, has_black_children,
  black_sibling, red_far_child, unfix_under, lacks_black, remove_fixup, remove_node,
}
use polyleverage.Book.IntentTree.{
  cmp, cmp_key, tree_root, set_tree_root, intent_view, steer, insert, remove, for_each_best_first,
  walk,
}
use polyleverage.Book.SeatTree.{find, find_from, find_or_create}
use polyleverage.Accounts.{
  World, AccountInfo, session, margin, fee_schedule, foreign, load, check_loaded, on, store,
}
use polyleverage.Accounts.Books.{load_book, on_book, check_book_size}
use polyleverage.Accounts.Held.{total_held}
use polyleverage.Fixed.{price_midpoint}
use polyleverage.State.Fees.{init_treasury, accrue, fee_for_volume, fee_from}
use polyleverage.State.Volume.{
  init, add_volume, maybe_roll_epoch, effective_30d_volume, roll_epochs,
}
use polyleverage.Settlement.{validate_margin_pda}
use polyleverage.Fees.{init_at, ensure_fee_treasury, check_treasury}
use polyleverage.Matching.{
  release_fee_buffer_for_fill, find_overlap_on_side, find_intent_by_id, find_intent_from,
}
use polyleverage.Matching.Core.{
  ensure_user_volume, check_user_volume, ensure_fee_accounts, taker_fee, charge_fee, lock_side,
  settle_match, match_pair_core,
}
use polyleverage.Matching.Pairs.{
  find_pair, check_pair, take_reserve, buffer_release, take_buffer, put_intent, retire, fill_pair,
  name_result, match_in_book,
}
use polyleverage.Intents.Refunds.{Refunds}
use polyleverage.Intents.Authority.{
  Delegates, process_cancel_intent-Refunds, process_cancel_intent_delegated-Refunds,
}
use polyleverage.Intents.{
  PostAccounts, PostIntentArgs, fee_buffer_for, check_post_accounts, check_post_args, reserve_for,
  charge_session, prunable, collect_prunable, prune_all, count_off, prune_on_post, reserve_on,
  enter_intent, post_intent, session_owner_for,
}
use polyleverage.Intents.Post.{
  process_post_intent, do_post_intent_inner, inline_match, match_with, best_effort,
}
use polyleverage.Intents.Cancel.{
  owner_or_expired, owner_of_session, cancel_in_book, release_on, cancel_intent, cancel_with,
  process_cancel_intent, cancel_for, process_cancel_intent_delegated,
}
use polyleverage.Intents.Posted.{Posts, post_intent-Posts}
use polyleverage.Tests.Settle.{breach}
use polyleverage.Tests.Closing.{named}
use polyleverage.Tests.Matching.{market_world, reserving, schedule, kept, maker}

abbrev granted : Session
granted = record {
  discriminator = disc_session;
  bump = 242;
  revoked = 0;
  n_allowed_instruments = 1;
  owner = 21;
  delegate = 24;
  expires_at_slot = 5_000;
  per_intent_max_collateral_atoms = 2_000_000;
  cumulative_collateral_used = 1_000_000;
  cumulative_collateral_cap = 3_000_000;
  created_at_slot = 5;
  version = 1;
  allowed_instruments = 2 ∷ [];
}

abbrev open_market : World
open_market k =
    if k == 6
    then record { program = 77; contents = session granted }
    else if k == 11
    then record {
      program = 77;
      contents = margin (record (reserving 21 2_010_001) { free_collateral = 5_000_000 });
    }
    else market_world k

abbrev posting : PostAccounts
posting = record {
  effective_owner = 21;
  payer = named 23;
  program_config = named 1;
  instrument = named 2;
  book = named 4;
  margin = named 11;
  session = some (named 6);
  extras = [];
}

abbrev bid_args : PostIntentArgs
bid_args = record {
  side = side_long;
  price_fp = 300_000_000_000_000_000;
  contracts = 1;
  expiration_slot = 9_000;
  reentry_enabled = 0;
  try_match = 0;
}

abbrev posted : World
posted = (post_intent breach posting bid_args open_market).1

post_runs : post_intent breach posting bid_args open_market ≡ (ok 3, posted)
unfolding post_intent check_post_accounts foreign load check_loaded require_active check_post_args
    validate_price_ticked validate_price reserve_for load_book check_book_size fee_buffer_for
    charge_session on store record_intent on_book prune_on_post find find_from seat node_as as_seat
    collect_prunable prunable as_intent prune_all reserve_on move_reserved_to_free
    move_free_to_reserved debit_reserved credit_reserved credit_free debit_free enter_intent
    find_or_create write_seat write_slot next_intent_id next_seq alloc_node next_free write_intent
    insert insert_node tree_root set_tree_root intent_view steer intent cmp cmp_key links get put
    replace_child rotate blacken descend has_red_parent fix_by_rotation fix_under fix_once
    insert_fixup attach
post_runs = refl

post_intent-Posts_example : Posts breach posting bid_args open_market posted
post_intent-Posts_example = post_intent-Posts breach posting bid_args 3 open_market posted post_runs

abbrev cancelled : World
cancelled =
    (process_cancel_intent breach (named 21 ∷ named 2 ∷ named 4 ∷ named 11 ∷ []) 1 open_market).1

cancel_runs :
    process_cancel_intent breach (named 21 ∷ named 2 ∷ named 4 ∷ named 11 ∷ []) 1 open_market
    ≡ (ok tt, cancelled)
unfolding process_cancel_intent cancel_with cancel_intent cancel_in_book owner_or_expired release_on
    count_off foreign load check_loaded on store on_book check_book_size find_intent_by_id
    find_intent_from intent seat node_as as_intent as_seat remove remove_node free_node write_seat
    write_slot move_reserved_to_free debit_reserved credit_free tree_root set_tree_root intent_view
    links get put replace_child rotate blacken tree_minimum transplant splice lift_successor
    replace_by_successor has_black_children black_sibling red_far_child unfix_under lacks_black
    remove_fixup
cancel_runs = refl

process_cancel_intent-Refunds_example :
    (true ≡ true)
    × (r : Refunds breach (owner_or_expired 21) 2 4 11 1 open_market cancelled)
    × ((r.intent_of.owner.trader ≡ 21) ⊎ (r.intent_of.node.expiration_slot ≤ 1_234))
process_cancel_intent-Refunds_example =
    process_cancel_intent-Refunds breach (named 21) (named 2) (named 4) (named 11) [] 1 open_market
      cancelled cancel_runs

abbrev delegate_infos : List AccountInfo
delegate_infos = named 23 ∷ named 24 ∷ named 2 ∷ named 4 ∷ named 11 ∷ named 6 ∷ []

abbrev withdrawn : World
withdrawn = (process_cancel_intent_delegated breach delegate_infos 1 open_market).1

delegated_cancel_runs :
    process_cancel_intent_delegated breach delegate_infos 1 open_market ≡ (ok tt, withdrawn)
unfolding process_cancel_intent_delegated cancel_for session_owner_for is_active allows_instrument
    cancel_intent cancel_in_book owner_of_session release_on count_off foreign load check_loaded on
    store on_book check_book_size find_intent_by_id find_intent_from intent seat node_as as_intent
    as_seat remove remove_node free_node write_seat write_slot move_reserved_to_free debit_reserved
    credit_free tree_root set_tree_root intent_view links get put replace_child rotate blacken
    tree_minimum transplant splice lift_successor replace_by_successor has_black_children
    black_sibling red_far_child unfix_under lacks_black remove_fixup
delegated_cancel_runs = refl

process_cancel_intent_delegated-Refunds_example :
    (true ≡ true)
    × ((owner : ℕ) × Delegates breach 24 2 6 owner open_market
        × (r : Refunds breach (owner_of_session owner) 2 4 11 1 open_market withdrawn)
        × (r.intent_of.owner.trader ≡ owner))
process_cancel_intent_delegated-Refunds_example =
    process_cancel_intent_delegated-Refunds breach (named 23) (named 24) (named 2) (named 4)
      (named 11) (named 6) [] 1 open_market withdrawn delegated_cancel_runs

-- A schedule of 655.35 percent, in an account of another program, which the inline match does not
-- test. The taker cannot pay; the match fails after the treasury has been credited, and the error is
-- only logged.
abbrev forged_market : World
forged_market k =
    if k == 66
    then record {
      program = 99;
      contents = fee_schedule (record schedule {
        tiers = replicate 8 (record { volume_threshold = 0; fee_bps = 65_535 });
      });
    }
    else if k == 12
    then record {
      program = 77;
      contents = margin (record (reserving 22 1_005_000) { free_collateral = 1_005_000 });
    }
    else market_world k

abbrev forged_infos : List AccountInfo
forged_infos =
    named 22
    ∷ named 1
    ∷ named 2
    ∷ named 4
    ∷ named 12
    ∷ named 11
    ∷ named 1_004
    ∷ named 0
    ∷ named 66
    ∷ named 32
    ∷ named 31
    ∷ named 16
    ∷ []

abbrev ask_args : PostIntentArgs
ask_args = record {
  side = side_short;
  price_fp = 500_000_000_000_000_000;
  contracts = 1;
  expiration_slot = 9_000;
  reentry_enabled = 0;
  try_match = 1;
}

abbrev forged : World
forged = (process_post_intent maker breach forged_infos ask_args forged_market).1

forged_schedule_creates_collateral :
    ((process_post_intent maker breach forged_infos ask_args forged_market).0 ≡ ok tt)
    × (total_held kept forged ≡ total_held kept forged_market + 6_553_500)
unfolding process_post_intent do_post_intent_inner inline_match match_with best_effort
    find_overlap_on_side for_each_best_first walk post_intent check_post_accounts foreign load
    check_loaded require_active check_post_args validate_price_ticked validate_price reserve_for
    load_book check_book_size fee_buffer_for charge_session on store on_book prune_on_post find
    find_from seat node_as as_seat collect_prunable prunable as_intent prune_all reserve_on
    move_reserved_to_free move_free_to_reserved debit_reserved credit_reserved credit_free
    debit_free enter_intent find_or_create write_seat write_slot next_intent_id next_seq alloc_node
    next_free write_intent insert insert_node tree_root set_tree_root intent_view steer intent cmp
    cmp_key links get put replace_child rotate blacken descend has_red_parent fix_by_rotation
    fix_under fix_once insert_fixup attach match_pair_core match_in_book find_pair check_pair
    find_intent_by_id find_intent_from fill_pair take_reserve buffer_release
    release_fee_buffer_for_fill take_buffer put_intent retire tree_minimum transplant splice
    lift_successor replace_by_successor has_black_children black_sibling red_far_child unfix_under
    lacks_black remove_fixup remove_node remove free_node name_result price_midpoint settle_match
    validate_margin_pda ensure_fee_accounts ensure_fee_treasury ensure_user_volume check_treasury
    check_user_volume init_at init_treasury init charge_fee taker_fee fee_for_volume fee_from
    effective_30d_volume maybe_roll_epoch roll_epochs add_volume accrue lock_side
    move_reserved_to_locked credit_locked
forged_schedule_creates_collateral = (refl, refl)
