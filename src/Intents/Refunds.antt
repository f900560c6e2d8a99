-- ===== src/Intents/Refunds.antt =====
-- What a cancellation gives back, and to whom.
use polyleverage.Base.{
  Distinct, ℕ, ◌+◌, ◌-◌, ◌≤◌, ◌≡◌, refl, ap, ◌∙◌, sym, true, some, List, arith, leb, ◌!=◌, u64_max,
  checked_add, contains,
}
use polyleverage.Error.{custom, invalid_pda, arithmetic_overflow}
use polyleverage.Method.{
  ok, ⊤, Method, pure, reads, lift, fail_if, ok_or, ◌>>=◌, ◌>>◌, >>=-eq-ok, pure-eq-ok, reads-eq-ok,
  guard-eq-ok,
}
use polyleverage.State.Margin.{MarginAccount, move_reserved_to_free}
use polyleverage.State.Margin.Laws.{total}
use polyleverage.State.Config.{InstrumentConfig}
use polyleverage.Book.{IntentBook, IntentNode, SeatNode, intent, seat, free_node}
use polyleverage.Book.IntentTree.{remove}
use polyleverage.Accounts.{
  World, Runtime, Seeds, seed_margin, assert_pda, load, on, check_loaded, margin_layout,
  instrument_layout, book_layout,
}
use polyleverage.Accounts.Views.{on-eq-ok, on-view, load-store, load-check_loaded}
use polyleverage.Accounts.Views.Faithful.{book_layout-IsFaithful}
use polyleverage.Accounts.Held.{total_held}
use polyleverage.Accounts.Moves.{on_margin-Moves}
use polyleverage.Accounts.Books.{on_book}
use polyleverage.Matching.{find_intent_by_id}
use polyleverage.Matching.Conserves.{on_book-on}
use polyleverage.Intents.{count_off, is_not_of}
use polyleverage.Intents.Holding.{on_book-total_held}
use polyleverage.Intents.Cancel.{Release, Gate, cancel_in_book, release_on, cancel_intent}

-- An intent with the id of the call, and what is returned for it.
pub record Listed (rt : Runtime) (gate : Gate) (margin_key mint intent_id : ℕ) (b : IntentBook)
    (r : Release) : Type 0 where
  pub place : ℕ × ℕ
  pub node : IntentNode
  pub owner : SeatNode
  pub listed : find_intent_by_id intent_id b ≡ ok place
  pub there : intent place.0 b ≡ ok node
  pub seated : seat node.owner_seat b ≡ ok owner
  pub allowed : gate owner.trader (leb node.expiration_slot rt.slot) ≡ ok tt
  pub address : (rt.find_program_address (seed_margin owner.trader mint)).0 ≡ margin_key
  pub trader : r.trader ≡ owner.trader
  pub amount : r.total ≡ node.reserved_collateral + node.fee_buffer

pub assert_pda-eq-ok :
    (rt : Runtime) (seeds : Seeds) (key bump : ℕ)
    → assert_pda rt seeds key ≡ ok bump
    → (rt.find_program_address seeds).0 ≡ key
assert_pda-eq-ok rt seeds key bump h = ground arith

sum-eq-ok :
    (a b x : ℕ) (s t : IntentBook)
    → ok_or (checked_add u64_max a b) (custom arithmetic_overflow) s ≡ (ok x, t)
    → x ≡ a + b
sum-eq-ok a b x s t h = ground arith

abbrev answer : (trader bump total : ℕ) → Release
answer trader bump total = record { trader = trader; bump = bump; total = total }

-- The part of the work that changes the book, with the sum that is returned.
abbrev taken : (side idx : ℕ) → IntentNode → (trader bump : ℕ) → Method IntentBook Release
taken side idx node trader bump =
    remove side idx
    >> (free_node idx
        >> (count_off node.owner_seat 1
            >> (ok_or (checked_add u64_max node.reserved_collateral node.fee_buffer)
                  (custom arithmetic_overflow)
                >>= λ total. pure (answer trader bump total))))

taken-eq-ok :
    (side idx : ℕ) (node : IntentNode) (trader bump : ℕ) (b c : IntentBook) (r : Release)
    → taken side idx node trader bump b ≡ (ok r, c)
    → (r.trader ≡ trader) × (r.total ≡ node.reserved_collateral + node.fee_buffer)
taken-eq-ok side idx node trader bump b c r h =
    let sum : Method IntentBook ℕ =
      ok_or (checked_add u64_max node.reserved_collateral node.fee_buffer)
        (custom arithmetic_overflow) in
    let end : Method IntentBook Release = sum >>= λ total. pure (answer trader bump total) in
    let (_, b1, _, h1) =
      >>=-eq-ok (remove side idx) (λ _. free_node idx >> (count_off node.owner_seat 1 >> end)) b c
        h in
    let (_, b2, _, h2) =
      >>=-eq-ok (free_node idx) (λ _. count_off node.owner_seat 1 >> end) b1 c h1 in
    let (_, b3, _, h3) = >>=-eq-ok (count_off node.owner_seat 1) (λ _. end) b2 c h2 in
    let (x, b4, added, last) = >>=-eq-ok sum (λ total. pure (answer trader bump total)) b3 c h3 in
    let (same, _) = pure-eq-ok (answer trader bump x) b4 c last in
    let total = sum-eq-ok node.reserved_collateral node.fee_buffer x b3 b4 added in
    (ap (λ (r : Release). r.trader) (sym same), ap (λ (r : Release). r.total) (sym same) ∙ total)

cancel_in_book-Listed :
    (rt : Runtime) (gate : Gate) (margin_key mint intent_id : ℕ) (b c : IntentBook) (r : Release)
    → cancel_in_book rt gate margin_key mint intent_id b ≡ (ok r, c)
    → Listed rt gate margin_key mint intent_id b r
unfolding cancel_in_book
cancel_in_book-Listed rt gate margin_key mint intent_id b c r h =
    let with_seat : ℕ × ℕ → IntentNode → SeatNode → Method IntentBook Release = λ p node s.
      lift (gate s.trader (leb node.expiration_slot rt.slot))
      >> (lift (assert_pda rt (seed_margin s.trader mint) margin_key)
          >>= taken p.1 p.0 node s.trader) in
    let with_node : ℕ × ℕ → IntentNode → Method IntentBook Release =
      λ p node. reads (seat node.owner_seat) >>= with_seat p node in
    let (p, l, h1) =
      reads-eq-ok (find_intent_by_id intent_id) (λ (p : ℕ × ℕ). reads (intent p.0) >>= with_node p)
        b c h in
    let (node, l1, h2) = reads-eq-ok (intent p.0) (with_node p) b c h1 in
    let (s, l2, h3) = reads-eq-ok (seat node.owner_seat) (with_seat p node) b c h2 in
    let (_, l3, h4) =
      reads-eq-ok (λ _. gate s.trader (leb node.expiration_slot rt.slot))
        (λ _.
          lift (assert_pda rt (seed_margin s.trader mint) margin_key)
          >>= taken p.1 p.0 node s.trader)
        b c h3 in
    let (bump, l4, h5) =
      reads-eq-ok (λ _. assert_pda rt (seed_margin s.trader mint) margin_key)
        (taken p.1 p.0 node s.trader) b c h4 in
    let (trader, amount) = taken-eq-ok p.1 p.0 node s.trader bump b c r h5 in
    record {
      place = p;
      node = node;
      owner = s;
      listed = l;
      there = l1;
      seated = l2;
      allowed = l3;
      address = assert_pda-eq-ok rt (seed_margin s.trader mint) margin_key bump l4;
      trader = trader;
      amount = amount;
    }

-- The same account, with an amount moved from the reserved to the free part.
pub record Released (amount : ℕ) (m n : MarginAccount) : Type 0 where
  pub enough : amount ≤ m.reserved_collateral
  pub freed : n ≡ record m {
    free_collateral = m.free_collateral + amount;
    reserved_collateral = m.reserved_collateral - amount;
  }

move_reserved_to_free-Released :
    (amount : ℕ) (m n : MarginAccount)
    → move_reserved_to_free amount m ≡ (ok tt, n)
    → Released amount m n
unfolding move_reserved_to_free
move_reserved_to_free-Released amount m n h = record { enough = ground arith; freed = ground arith }

pub release_on-Released :
    (r : Release) (mint : ℕ) (m n : MarginAccount)
    → release_on mint r m ≡ (ok tt, n)
    → Released r.total m n
unfolding release_on
release_on-Released r mint m n h =
    let (_, rest) =
      guard-eq-ok (is_not_of r.trader mint r.bump m) (custom invalid_pda)
        (move_reserved_to_free r.total) m n h in
    move_reserved_to_free-Released r.total m n rest

-- A cancellation that passed its gate. An intent with the id of the call was in the instrument's book;
-- the margin account is the one derived from the trader of the intent's seat, and what was set aside
-- for the intent, collateral and fees, has moved there from the reserved to the free part.
pub record Refunds (rt : Runtime) (gate : Gate) (instrument_key book_key margin_key intent_id : ℕ)
    (w u : World) : Type 0 where
  pub inst : InstrumentConfig
  pub book : IntentBook
  pub release : Release
  pub before : MarginAccount
  pub after : MarginAccount
  pub loaded : load instrument_layout instrument_key w ≡ ok inst
  pub its_book : inst.intent_book ≡ book_key
  pub found : load book_layout book_key w ≡ ok book
  pub intent_of : Listed rt gate margin_key inst.collateral_mint intent_id book release
  pub was : load margin_layout margin_key w ≡ ok before
  pub is_now : load margin_layout margin_key u ≡ ok after
  pub released : Released release.total before after
  pub conserved :
      (ks : List ℕ)
      → Distinct ks
      → contains margin_key ks ≡ true
      → total_held ks u ≡ total_held ks w

Released-check_loaded :
    (amount : ℕ) (m n : MarginAccount)
    → Released amount m n
    → check_loaded margin_layout (some m) ≡ ok m
    → check_loaded margin_layout (some n) ≡ ok n
unfolding check_loaded
Released-check_loaded amount m n r h =
    let same = ap (λ (n : MarginAccount). n.discriminator) r.freed in ground (arith, same)

pub cancel_intent-Refunds :
    (rt : Runtime) (gate : Gate) (instrument_key book_key margin_key intent_id : ℕ) (w u : World)
    → cancel_intent rt gate instrument_key book_key margin_key intent_id w ≡ (ok tt, u)
    → Refunds rt gate instrument_key book_key margin_key intent_id w u
unfolding cancel_intent load
cancel_intent-Refunds rt gate instrument_key book_key margin_key intent_id w u h =
    let call : InstrumentConfig → Method IntentBook Release =
      λ inst. cancel_in_book rt gate margin_key inst.collateral_mint intent_id in
    let pay : InstrumentConfig → Release → Method World ⊤ =
      λ inst r. on margin_layout margin_key (release_on inst.collateral_mint r) in
    let (inst, l, h1) =
      reads-eq-ok (load instrument_layout instrument_key)
        (λ inst.
          fail_if (inst.intent_book != book_key) (custom invalid_pda)
          >> (on_book book_key (call inst) >>= pay inst))
        w u h in
    let (its_book, h2) =
      guard-eq-ok (inst.intent_book != book_key) (custom invalid_pda)
        (on_book book_key (call inst) >>= pay inst) w u h1 in
    let (r, v, first, second) = >>=-eq-ok (on_book book_key (call inst)) (pay inst) w u h2 in
    let booked = on_book-on book_key (call inst) w v r first in
    let (b, c, found, called, _) = on-eq-ok book_layout book_key (call inst) w v booked in
    let (m, n, was, paid, stored) =
      on-eq-ok margin_layout margin_key (release_on inst.collateral_mint r) v u second in
    let released = release_on-Released r inst.collateral_mint m n paid in
    let same_view =
      on-view book_layout margin_layout.view book_layout-IsFaithful (λ x y. refl) book_key
        (call inst) w v booked margin_key in
    record {
      inst = inst;
      book = b;
      release = r;
      before = m;
      after = n;
      loaded = l;
      its_book = ground arith;
      found = found;
      intent_of =
          cancel_in_book-Listed rt gate margin_key inst.collateral_mint intent_id b c r called;
      was = ap (check_loaded margin_layout) (sym same_view) ∙ was;
      is_now =
          ap (load margin_layout margin_key) stored
          ∙ load-store margin_layout margin_key v n refl (
              Released-check_loaded r.total m n released
                (load-check_loaded margin_layout margin_key v m was));
      released = released;
      conserved = λ ks d member.
          let shift : (s t : MarginAccount) (x : ⊤)
              → release_on inst.collateral_mint r s ≡ (ok x, t)
              → total t + 0 ≡ total s + 0 =
            λ s t x g.
              let q = release_on-Released r inst.collateral_mint s t g in
              let e = ap total q.freed in omega (arith, e, q.enough) in
          let e1 = on_book-total_held book_key (call inst) w v r ks first in
          let e2 =
            on_margin-Moves ks margin_key (release_on inst.collateral_mint r) 0 0 shift d member v u
              tt second in
          omega (arith, e1, e2);
    }
