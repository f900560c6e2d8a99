-- ===== src/Tests/Matching.antt =====
-- Two traders of one instrument are matched: one bids 0.6 for two contracts, the other asks 0.4 for one.
use mathlib.Core.List.Memᴰ
use polyleverage.Base.{
  ℕ, ◌*◌, ◌≡◌, refl, ap, ◌∙◌, sym, Bool, true, false, Option, List, [], ◌∷◌, arith, ◌==◌,
  if◌then◌else◌, replicate,
}
use polyleverage.Error.{invalid_account_data}
use polyleverage.Method.{Result, ok, err, ⊤}
use polyleverage.State.Margin.{
  MarginAccount, move_reserved_to_locked, move_reserved_to_free, debit_reserved, credit_locked,
  credit_free, debit_free,
}
use polyleverage.State.Fees.{
  FeeSchedule, disc_fee_schedule, init_treasury, accrue, fee_for_volume, fee_from,
}
use polyleverage.State.Volume.{
  init, add_volume, maybe_roll_epoch, effective_30d_volume, roll_epochs,
}
use polyleverage.State.Config.{require_active}
use polyleverage.Fixed.{price_midpoint, notional_atoms, position_size_fp}
use polyleverage.Book.{
  IntentBook, IntentNode, SeatNode, free_slot, intent_slot, seat_slot, fresh_header, rb_black,
  rb_red, null_idx, side_long, side_short, intent, seat, node_as, as_intent, as_seat, write_intent,
  write_slot, free_node, next_intent_id,
}
use polyleverage.Book.IntentTree.{remove, tree_root, set_tree_root, intent_view}
use polyleverage.Book.RedBlack.{links, get, put, replace_child, rotate, blacken}
use polyleverage.Book.RedBlack.Remove.{
  tree_minimum, transplant, splice, lift_successor, replace_by_successor, has_black_children,
  black_sibling, red_far_child, unfix_under, lacks_black, remove_fixup, remove_node,
}
use polyleverage.Accounts.{
  World, Contents, other, SystemProgram, CreatesOnly, CreatesFresh, margin, pmlc, book,
  fee_schedule, fee_treasury, user_volume, is_empty, load, check_loaded, on, store, overwrite,
}
use polyleverage.Accounts.Books.{on_book, check_book_size}
use polyleverage.Settlement.{validate_margin_pda}
use polyleverage.Closing.{zeroed}
use polyleverage.Fees.{init_at, ensure_fee_treasury, check_treasury}
use polyleverage.Matching.{
  scan_for_first_valid_pair, MatchCtx, release_fee_buffer_for_fill, find_intent_by_id,
  find_intent_from,
}
use polyleverage.Matching.Core.{
  ensure_user_volume, check_user_volume, ensure_fee_accounts, taker_fee, charge_fee, lock_side,
  create_pmlc, settle_match, match_pair_core,
}
use polyleverage.Matching.Pairs.{
  find_pair, check_pair, take_reserve, buffer_release, take_buffer, put_intent, retire, fill_pair,
  name_result, match_in_book,
}
use polyleverage.Matching.Pairs.Fills.{fills, spent, fills-spent}
use polyleverage.Matching.Charges.{Charges, match_pair_core-Charges}
use polyleverage.Matching.Best.{Side, IsFirstPair, scan-IsFirstPair}
use polyleverage.Book.IntentTree.Walk.{leaf, node, in_order}
use polyleverage.Matching.Opening.{Opens, match_pair_core-Opens}
use polyleverage.Tests.Settle.{world, margin_of, breach}
use polyleverage.Tests.Closing.{named}

-- What the system program fills a new account with, by its size.
abbrev blank : ℕ → Contents
blank space =
    if space == 88
    then fee_treasury (record {
      discriminator = 0;
      bump = 0;
      collateral_mint = 0;
      accrued_atoms = 0;
      total_swept_atoms = 0;
    })
    else if space == 136
    then user_volume (record {
      discriminator = 0;
      bump = 0;
      owner = 0;
      collateral_mint = 0;
      volume_current_atoms = 0;
      volume_prev_atoms = 0;
      epoch_start_slot = 0;
      epoch_length_slots = 0;
    })
    else if space == 304
    then pmlc zeroed
    else other space 0

abbrev with_new : (new space : ℕ) → World → World
with_new new space w k = if k == new then record { program = 77; contents = blank space } else w k

abbrev create : (new space : ℕ) → Bool → World → Result ⊤ × World
create new space true w = (ok tt, with_new new space w)
create new space false w = (err invalid_account_data, w)

abbrev pub maker : SystemProgram
maker = record {
  id = 0;
  create_account = λ payer new space w. create new space (is_empty (w new).contents) w;
}

maker-CreatesFresh : CreatesFresh maker
maker-CreatesFresh payer new space w u h = go (is_empty (w new).contents) h
  where
    go : (b : Bool) → create new space b w ≡ (ok tt, u) → b ≡ true
    go true h = refl
    go false h = cc

maker-CreatesOnly : CreatesOnly maker
maker-CreatesOnly payer new space w u h k apart = go (is_empty (w new).contents) h
  where
    go : (b : Bool) → create new space b w ≡ (ok tt, u) → (u k).contents ≡ (w k).contents
    go true h =
        let elsewhere : (k == new) ≡ false = ground arith in
        ap (λ (q : Result ⊤ × World). (q.1 k).contents) (sym h) ∙ rw elsewhere refl
    go false h = cc

abbrev order : (side price id owner_seat contracts buffer seq : ℕ) → IntentNode
order side price id owner_seat contracts buffer seq = record {
  side = side;
  color = rb_black;
  flags = 0;
  left = null_idx;
  right = null_idx;
  parent = null_idx;
  price_fp = price;
  id = id;
  owner_seat = owner_seat;
  contracts_total = contracts;
  contracts_remaining = contracts;
  expiration_slot = 1_000_000;
  post_seq = seq;
  reserved_collateral = contracts * 1_000_000;
  fee_buffer = buffer;
}

abbrev seat_of : (trader color parent right : ℕ) → SeatNode
seat_of trader color parent right = record {
  color = color;
  left = null_idx;
  right = right;
  parent = parent;
  trader = trader;
  active_intent_count = 1;
  flags = 0;
}

abbrev pub bid : IntentNode
bid = order side_long 600_000_000_000_000_000 1 1 2 10_001 1

abbrev ask : IntentNode
ask = order side_short 400_000_000_000_000_000 2 2 1 5_000 2

abbrev pub offers : IntentBook
offers = record {
  header = record (fresh_header 2 8 246 50) {
    long_tree_root = 3;
    short_tree_root = 4;
    seat_tree_root = 1;
    node_count = 5;
    next_intent_id = 3;
    next_seq = 3;
  };
  nodes =
      free_slot 0
      ∷ seat_slot (seat_of 21 rb_black 0 2)
      ∷ seat_slot (seat_of 22 rb_red 1 0)
      ∷ intent_slot bid
      ∷ intent_slot ask
      ∷ replicate 3 (free_slot 0);
}

abbrev pub reserving : (owner reserved : ℕ) → MarginAccount
reserving owner reserved = record (margin_of owner 0) {
  free_collateral = 1_000_000;
  reserved_collateral = reserved;
}

abbrev pub schedule : FeeSchedule
schedule = record {
  discriminator = disc_fee_schedule;
  bump = 240;
  tiers = replicate 8 (record { volume_threshold = 0; fee_bps = 40 });
  max_tier_fee_bps = 50;
  last_updated_slot = 0;
}

abbrev pub market_world : World
market_world k =
    if k == 4
    then record { program = 77; contents = book offers }
    else if k == 15
    then record { program = 77; contents = fee_schedule schedule }
    else if k == 11
    then record { program = 77; contents = margin (reserving 21 2_010_001) }
    else if k == 12
    then record { program = 77; contents = margin (reserving 22 1_005_000) }
    else if k == 2
    then world 2
    else if k == 1
    then world 1
    else record { program = 0; contents = other 0 0 }

abbrev pub ctx : MatchCtx
ctx = record {
  payer = named 23;
  instrument_ai = named 2;
  book_ai = named 4;
  long_margin_ai = named 11;
  short_margin_ai = named 12;
  pmlc_ai = named 1_003;
  system_program = named 0;
  fee_ctx = record {
    fee_schedule_ai = named 15;
    taker_volume_ai = named 32;
    maker_volume_ai = named 31;
    fee_treasury_ai = named 16;
  };
}

abbrev matched_world : World
matched_world = (match_pair_core maker breach ctx 1 2 1 market_world).1

match_runs : match_pair_core maker breach ctx 1 2 1 market_world ≡ (ok tt, matched_world)
unfolding match_pair_core require_active on_book check_book_size load check_loaded on store
    match_in_book find_pair check_pair find_intent_by_id find_intent_from intent seat node_as
    as_intent as_seat fill_pair take_reserve buffer_release release_fee_buffer_for_fill take_buffer
    put_intent write_intent write_slot retire links get put replace_child rotate blacken
    tree_minimum transplant splice lift_successor replace_by_successor has_black_children
    black_sibling red_far_child unfix_under lacks_black remove_fixup remove_node remove free_node
    next_intent_id name_result price_midpoint settle_match validate_margin_pda ensure_fee_accounts
    ensure_fee_treasury ensure_user_volume check_treasury check_user_volume init_at init_treasury
    init charge_fee taker_fee fee_for_volume fee_from effective_30d_volume maybe_roll_epoch
    roll_epochs add_volume accrue lock_side move_reserved_to_locked move_reserved_to_free
    debit_reserved credit_locked credit_free debit_free create_pmlc notional_atoms position_size_fp
    overwrite tree_root set_tree_root intent_view
match_runs = refl

abbrev pub kept : List ℕ
kept = 11 ∷ 12 ∷ 16 ∷ []

match_pair_core-Charges_example : Charges kept breach ctx 1 2 market_world matched_world
match_pair_core-Charges_example =
    match_pair_core-Charges kept maker breach ctx 1 2 1 market_world matched_world
      (refl, (refl, (refl, tt))) maker-CreatesOnly maker-CreatesFresh (refl, refl, refl) match_runs

match_pair_core-Opens_example : Opens breach ctx 1 2 market_world matched_world
match_pair_core-Opens_example =
    match_pair_core-Opens maker breach ctx 1 2 1 market_world matched_world match_runs

fills-spent_example : fills 2 1_000_000 bid ≡ ok (10_001, spent bid)
fills-spent_example = fills-spent 1 1_000_000 bid refl refl (omega arith)

abbrev longs : Side offers side_long
unfolding intent node_as as_intent tree_root
longs = record {
  root = 3;
  tree = node leaf 3 bid leaf;
  found = refl;
  shape = (refl, (λ e. omega arith), refl, refl, refl);
  low = omega arith;
  sorted = ((λ p m. absurd (Memᴰ.not-nil m)), tt);
}

abbrev shorts : Side offers side_short
unfolding intent node_as as_intent tree_root
shorts = record {
  root = 4;
  tree = node leaf 4 ask leaf;
  found = refl;
  shape = (refl, (λ e. omega arith), refl, refl, refl);
  low = omega arith;
  sorted = ((λ p m. absurd (Memᴰ.not-nil m)), tt);
}

scan-IsFirstPair_example :
    (found : Option (ℕ × ℕ)) × (scan_for_first_valid_pair offers 500 ≡ ok found)
    × IsFirstPair 500 (in_order longs.tree) (in_order shorts.tree) found
scan-IsFirstPair_example = scan-IsFirstPair offers 500 longs shorts
