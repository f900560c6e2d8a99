-- ===== src/Matching/Opening.antt =====
-- The contract that a match opens.
use polyleverage.Base.{ℕ, ◌≤◌, ◌≡◌, refl, ap, ◌∙◌, sym, subst, true, ◌||◌, arith, ltb, ◌!=◌}
use polyleverage.Error.{custom, not_opposite_sides, invalid_pda}
use polyleverage.Method.{
  Result, ok, Method, pure, reads, fail_if, ◌>>=◌, ◌>>◌, >>=-eq-ok, reads-eq-ok, guard-eq-ok,
}
use polyleverage.Fixed.{price_midpoint}
use polyleverage.Fixed.Price.{price_midpoint_between}
use polyleverage.State.Pmlc.{Pmlc, require_live}
use polyleverage.State.Config.{InstrumentConfig}
use polyleverage.Book.{
  IntentBook, IntentNode, SeatNode, seat, next_intent_id, intent, side_long, side_short,
}
use polyleverage.Book.IntentTree.{is_live}
use polyleverage.Accounts.{
  World, Runtime, SystemProgram, seed_margin, seed_pmlc, assert_pda, margin_layout, check_loaded,
  load, pmlc_layout, instrument_layout, book_layout,
}
use polyleverage.Accounts.Views.{on-eq-ok, load-store}
use polyleverage.Settlement.{validate_margin_pda}
use polyleverage.Matching.Made.{create_pmlc-eq-ok}
use polyleverage.Matching.Conserves.{match_pair_core-Steps, settle_match-Settled}
use polyleverage.Matching.{MatchCtx, find_intent_by_id}
use polyleverage.Matching.Core.{match_pair_core, new_pmlc}
use polyleverage.Matching.Pairs.{
  fill_pair, name_result, result_of, Pair, check_pair, find_pair, match_in_book, MatchResult,
}

-- Intents of the book with these ids, one of each side, that are live and cross.
pub record IsMatch (now_slot long_id short_id : ℕ) (b : IntentBook) (p : Pair) : Type 0 where
  pub long_at : find_intent_by_id long_id b ≡ ok (p.long_idx, side_long)
  pub short_at : find_intent_by_id short_id b ≡ ok (p.short_idx, side_short)
  pub long_there : intent p.long_idx b ≡ ok p.long
  pub short_there : intent p.short_idx b ≡ ok p.short
  pub long_live : is_live now_slot p.long ≡ true
  pub short_live : is_live now_slot p.short ≡ true
  pub cross : p.short.price_fp ≤ p.long.price_fp

check_pair-eq-ok :
    (now_slot : ℕ) (long short : IntentNode) (b c : IntentBook)
    → check_pair now_slot long short b ≡ (ok tt, c)
    → (is_live now_slot long ≡ true)
      × (is_live now_slot short ≡ true)
      × (short.price_fp ≤ long.price_fp)
      × (c ≡ b)
unfolding check_pair
check_pair-eq-ok now_slot long short b c h = ground arith

pub find_pair-IsMatch :
    (now_slot long_id short_id : ℕ) (b c : IntentBook) (p : Pair)
    → find_pair now_slot long_id short_id b ≡ (ok p, c)
    → IsMatch now_slot long_id short_id b p × (c ≡ b)
unfolding find_pair
find_pair-IsMatch now_slot long_id short_id b c p h =
    let answer : ℕ → ℕ → IntentNode → IntentNode → Pair =
      λ i j long short. record { long_idx = i; short_idx = j; long = long; short = short } in
    let last : ℕ → ℕ → IntentNode → IntentNode → Method IntentBook Pair =
      λ i j long short. check_pair now_slot long short >> pure (answer i j long short) in
    let found : ℕ → ℕ → Method IntentBook Pair =
      λ i j. reads (intent i) >>= λ long. reads (intent j) >>= λ short. last i j long short in
    let (x, l1, h1) =
      reads-eq-ok (find_intent_by_id long_id)
        (λ (x : ℕ × ℕ). reads (find_intent_by_id short_id) >>= λ (y : ℕ × ℕ).
          fail_if (x.1 != side_long || y.1 != side_short) (custom not_opposite_sides)
          >> found x.0 y.0)
        b c h in
    let (y, l2, h2) =
      reads-eq-ok (find_intent_by_id short_id)
        (λ (y : ℕ × ℕ).
          fail_if (x.1 != side_long || y.1 != side_short) (custom not_opposite_sides)
          >> found x.0 y.0)
        b c h1 in
    let (sides, h3) =
      guard-eq-ok (x.1 != side_long || y.1 != side_short) (custom not_opposite_sides)
        (found x.0 y.0) b c h2 in
    let (long, l3, h4) =
      reads-eq-ok (intent x.0) (λ long. reads (intent y.0) >>= λ short. last x.0 y.0 long short) b c
        h3 in
    let (short, l4, h5) = reads-eq-ok (intent y.0) (last x.0 y.0 long) b c h4 in
    let (_, d, checked, end) =
      >>=-eq-ok (check_pair now_slot long short) (λ _. pure (answer x.0 y.0 long short)) b c h5 in
    let (ll, ls, cross, same) = check_pair-eq-ok now_slot long short b d checked in
    let is_p : ◌≡◌ {A = Result Pair} (ok (answer x.0 y.0 long short)) (ok p) =
      ap (λ (q : Result Pair × IntentBook). q.0) end in
    let pair : answer x.0 y.0 long short ≡ p = cc in
    (
      subst (IsMatch now_slot long_id short_id b) pair (record {
        long_at = l1 ∙ ap (λ (n : ℕ). ok (x.0, n)) (ground arith);
        short_at = l2 ∙ ap (λ (n : ℕ). ok (y.0, n)) (ground arith);
        long_there = l3;
        short_there = l4;
        long_live = ll;
        short_live = ls;
        cross = cross;
      }),
      sym (ap (λ (q : Result Pair × IntentBook). q.1) end) ∙ same,
    )

-- What the work on the book results in.
pub record Results (rt : Runtime) (instrument_key pmlc_key long_id short_id : ℕ) (b : IntentBook)
    (m : MatchResult) : Type 0 where
  pub pair : Pair
  pub is_match : IsMatch rt.slot long_id short_id b pair
  pub entry : m.entry_fp ≡ price_midpoint pair.long.price_fp pair.short.price_fp
  pub taker : m.taker_is_long ≡ ltb pair.short.post_seq pair.long.post_seq
  pub address : (rt.find_program_address (seed_pmlc instrument_key m.pmlc_id)).0 ≡ pmlc_key

name_result-eq-ok :
    (at : ℕ × ℕ) (pmlc_key : ℕ) (p : Pair) (releases : ℕ × ℕ) (pmlc_id : ℕ) (b c : IntentBook)
    (m : MatchResult)
    → name_result at pmlc_key p releases pmlc_id b ≡ (ok m, c)
    → (at.0 ≡ pmlc_key)
      × ((long_trader short_trader : ℕ) × (m
            ≡ result_of p releases long_trader short_trader pmlc_id at.1))
unfolding name_result
name_result-eq-ok (pda, bump) pmlc_key p releases pmlc_id b c m h =
    let end : SeatNode → SeatNode → MatchResult = λ long_seat short_seat.
      result_of p releases long_seat.trader short_seat.trader pmlc_id bump in
    let (there, h1) =
      guard-eq-ok (pda != pmlc_key) (custom invalid_pda)
        (reads (seat p.long.owner_seat) >>= λ x.
          reads (seat p.short.owner_seat) >>= λ y. pure (end x y))
        b c h in
    let (x, _, h2) =
      reads-eq-ok (seat p.long.owner_seat)
        (λ x. reads (seat p.short.owner_seat) >>= λ y. pure (end x y)) b c h1 in
    let (y, _, h3) = reads-eq-ok (seat p.short.owner_seat) (λ y. pure (end x y)) b c h2 in
    let answer : ◌≡◌ {A = Result MatchResult} (ok (end x y)) (ok m) =
      ap (λ (q : Result MatchResult × IntentBook). q.0) h3 in
    let same : end x y ≡ m = cc in (ground arith, (x.trader, y.trader, sym same))

pub match_in_book-Results :
    (rt : Runtime) (instrument_key bucket pmlc_key long_id short_id : ℕ) (b c : IntentBook)
    (m : MatchResult)
    → match_in_book rt instrument_key bucket pmlc_key long_id short_id b ≡ (ok m, c)
    → Results rt instrument_key pmlc_key long_id short_id b m
unfolding match_in_book
match_in_book-Results rt instrument_key bucket pmlc_key long_id short_id b c m h =
    let at : ℕ → ℕ × ℕ = λ pmlc_id. rt.find_program_address (seed_pmlc instrument_key pmlc_id) in
    let (p, b1, first, rest) =
      >>=-eq-ok (find_pair rt.slot long_id short_id)
        (λ p. fill_pair bucket p >>= λ r.
          next_intent_id >>= λ pmlc_id. name_result (at pmlc_id) pmlc_key p r pmlc_id)
        b c h in
    let (r, b2, second, rest2) =
      >>=-eq-ok (fill_pair bucket p)
        (λ r. next_intent_id >>= λ pmlc_id. name_result (at pmlc_id) pmlc_key p r pmlc_id) b1 c
        rest in
    let (pmlc_id, b3, third, last) =
      >>=-eq-ok next_intent_id (λ pmlc_id. name_result (at pmlc_id) pmlc_key p r pmlc_id) b2 c
        rest2 in
    let (is_match, same) = find_pair-IsMatch rt.slot long_id short_id b b1 p first in
    let (address, (x, y, m_eq)) = name_result-eq-ok (at pmlc_id) pmlc_key p r pmlc_id b3 c m last in
    record {
      pair = p;
      is_match = is_match;
      entry = ap (λ (m : MatchResult). m.entry_fp) m_eq;
      taker = ap (λ (m : MatchResult). m.taker_is_long) m_eq;
      address = ap (λ (m : MatchResult). (at m.pmlc_id).0) m_eq ∙ address;
    }

validate_margin_pda-address :
    (rt : Runtime) (key owner mint : ℕ) (w u : World)
    → validate_margin_pda rt key owner mint w ≡ (ok tt, u)
    → (rt.find_program_address (seed_margin owner mint)).0 ≡ key
unfolding validate_margin_pda
validate_margin_pda-address rt key owner mint w u h =
    let (bump, derived, rest) =
      reads-eq-ok (λ _. assert_pda rt (seed_margin owner mint) key)
        (λ bump. reads (load margin_layout key) >>= λ m.
          fail_if (m.owner != owner || (m.collateral_mint != mint || m.bump != bump))
            (custom invalid_pda))
        w u h in
    ground arith

-- The intents matched are of the book of the instrument, with the ids of the call, one of each side,
-- live and crossing. The contract that stands at its derived address is live, of the instrument, with
-- an entry price between the two prices and one collateral bucket for each side; the margin accounts
-- are those derived from its owners.
pub record Opens (rt : Runtime) (ctx : MatchCtx) (long_id short_id : ℕ) (w u : World) : Type 0 where
  pub inst : InstrumentConfig
  pub book : IntentBook
  pub pair : Pair
  pub contract : Pmlc
  pub loaded : load instrument_layout ctx.instrument_ai.key w ≡ ok inst
  pub its_book : inst.intent_book ≡ ctx.book_ai.key
  pub found : load book_layout ctx.book_ai.key w ≡ ok book
  pub is_match : IsMatch rt.slot long_id short_id book pair
  pub opened : load pmlc_layout ctx.pmlc_ai.key u ≡ ok contract
  pub live : require_live contract ≡ ok tt
  pub its_instrument : contract.instrument ≡ ctx.instrument_ai.key
  pub address :
      (rt.find_program_address (seed_pmlc contract.instrument contract.id)).0 ≡ ctx.pmlc_ai.key
  pub above_ask : pair.short.price_fp ≤ contract.entry_price_fp
  pub below_bid : contract.entry_price_fp ≤ pair.long.price_fp
  pub stake : contract.collateral_per_side ≡ inst.collateral_bucket
  pub long_margin :
      (rt.find_program_address (seed_margin contract.long_owner contract.collateral_mint)).0
      ≡ ctx.long_margin_ai.key
  pub short_margin :
      (rt.find_program_address (seed_margin contract.short_owner contract.collateral_mint)).0
      ≡ ctx.short_margin_ai.key

-- A match that succeeds, by whichever handler: the two intents are live intents of the instrument's
-- book, with the ids of the call, a long and a short that cross. A live contract stands at its derived
-- address, of this instrument; its entry price is between the ask and the bid, each side has one
-- collateral bucket at stake, and the two margin accounts are those derived from its two owners.
pub match_pair_core-Opens :
    (sys : SystemProgram) (rt : Runtime) (ctx : MatchCtx) (long_id short_id max_contracts : ℕ)
    (w u : World)
    → match_pair_core sys rt ctx long_id short_id max_contracts w ≡ (ok tt, u)
    → Opens rt ctx long_id short_id w u
unfolding require_live
match_pair_core-Opens sys rt ctx long_id short_id max_contracts w u h =
    let s = match_pair_core-Steps sys rt ctx long_id short_id max_contracts w u h in
    let call =
      match_in_book rt ctx.instrument_ai.key s.inst.collateral_bucket ctx.pmlc_ai.key long_id
        short_id in
    let (b, c, found, called, stored) =
      on-eq-ok book_layout ctx.book_ai.key call w s.between s.matched in
    let r =
      match_in_book-Results rt ctx.instrument_ai.key s.inst.collateral_bucket ctx.pmlc_ai.key
        long_id short_id b c s.result called in
    let t = settle_match-Settled sys rt ctx s.inst s.result s.between u s.settled in
    let (v, notional, size_fp, made, _, _, written) =
      create_pmlc-eq-ok sys rt ctx s.inst s.result t.w6 u t.created in
    let contract = new_pmlc rt ctx.instrument_ai.key s.inst s.result notional size_fp in
    let (low, high, _) =
      price_midpoint_between r.pair.long.price_fp r.pair.short.price_fp r.is_match.cross in
    record {
      inst = s.inst;
      book = b;
      pair = r.pair;
      contract = contract;
      loaded = s.loaded;
      its_book = s.its_book;
      found = found;
      is_match = r.is_match;
      opened =
          ap (load pmlc_layout ctx.pmlc_ai.key) written
          ∙ load-store pmlc_layout ctx.pmlc_ai.key v contract refl (unfold check_loaded in refl);
      live = refl;
      its_instrument = refl;
      address = r.address;
      above_ask = omega (arith, low, r.entry);
      below_bid = omega (arith, high, r.entry);
      stake = refl;
      long_margin =
          validate_margin_pda-address rt ctx.long_margin_ai.key s.result.long_trader
            s.inst.collateral_mint s.between t.w1 t.long_valid;
      short_margin =
          validate_margin_pda-address rt ctx.short_margin_ai.key s.result.short_trader
            s.inst.collateral_mint t.w1 t.w2 t.short_valid;
    }
