-- ===== src/Intents/Holding.antt =====
-- The end of a post (src/processor/intent.rs), from the pruning on: the book, the margin account and
-- the sessions.
use polyleverage.Base.{
  Distinct, ℕ, zero, suc, ◌+◌, ◌≡◌, refl, ap, ◌∙◌, sym, subst, true, some, List, arith, ltb,
  contains,
}
use polyleverage.Error.{custom, invalid_pda}
use polyleverage.Method.{Result, ok, ⊤, Method, >>=-eq-ok, guard-eq-ok, ◌>>=◌, ◌>>◌}
use polyleverage.State.Margin.{MarginAccount, move_reserved_to_free, move_free_to_reserved}
use polyleverage.State.Margin.Laws.{total}
use polyleverage.Accounts.{
  World, Runtime, load, on, check_loaded, margin_layout, session_layout, book_layout,
}
use polyleverage.Accounts.Books.{on_book}
use polyleverage.Accounts.Views.{on-eq-ok, on-view, load-store, load-check_loaded}
use polyleverage.Accounts.Views.Faithful.{book_layout-IsFaithful, margin_layout-IsFaithful}
use polyleverage.Accounts.Held.{total_held, total_held-SameHeld, on-SameHeld}
use polyleverage.Accounts.Moves.{on_margin-Moves}
use polyleverage.Matching.Pairs.{when}
use polyleverage.Matching.Conserves.{on_book-on}
use polyleverage.Book.{IntentBook}
use polyleverage.Intents.Pruned.{IsDueBack, prune_on_post-IsDueBack}
use polyleverage.Intents.{
  PostIntentArgs, PostAccounts, Reserve, prune_on_post, is_not_of, reserve_on, enter_intent,
}

-- The margin account of a post: a refund for pruned intents comes first, then the new reserve.
pub record Reserves (refund amount : ℕ) (m n : MarginAccount) : Type 0 where
  pub free : n.free_collateral + amount ≡ m.free_collateral + refund
  pub reserved : n.reserved_collateral + refund ≡ m.reserved_collateral + amount
  pub locked : n.locked_collateral ≡ m.locked_collateral
  pub marked : n.discriminator ≡ m.discriminator
  pub of_owner : n.owner ≡ m.owner

back-Reserves :
    (refund : ℕ) (m n : MarginAccount)
    → move_reserved_to_free refund m ≡ (ok tt, n)
    → Reserves refund 0 m n
unfolding move_reserved_to_free
back-Reserves refund m n h = record {
  free = ground arith;
  reserved = ground arith;
  locked = ground arith;
  marked = ground arith;
  of_owner = ground arith;
}

on-Reserves :
    (amount : ℕ) (m n : MarginAccount)
    → move_free_to_reserved amount m ≡ (ok tt, n)
    → Reserves 0 amount m n
unfolding move_free_to_reserved
on-Reserves amount m n h = record {
  free = ground arith;
  reserved = ground arith;
  locked = ground arith;
  marked = ground arith;
  of_owner = ground arith;
}

none-Reserves : (m : MarginAccount) → Reserves 0 0 m m
none-Reserves m = record {
  free = refl;
  reserved = refl;
  locked = refl;
  marked = refl;
  of_owner = refl;
}

refund-Reserves :
    (refund : ℕ) (m n : MarginAccount)
    → when (ltb 0 refund) (move_reserved_to_free refund) m ≡ (ok tt, n)
    → Reserves refund 0 m n
refund-Reserves zero m n h =
    subst (Reserves 0 0 m) (ap (λ (q : Result ⊤ × MarginAccount). q.1) h) (none-Reserves m)
refund-Reserves (suc refund) m n h = back-Reserves (suc refund) m n (unwrap h)
  where
    unwrap :
        when (ltb 0 (suc refund)) (move_reserved_to_free (suc refund)) m ≡ (ok tt, n)
        → move_reserved_to_free (suc refund) m ≡ (ok tt, n)
    unwrap h =
        let positive : ltb 0 (suc refund) ≡ true = ground arith in
        ap (λ b. when b (move_reserved_to_free (suc refund)) m) (sym positive) ∙ h

pub reserve_on-Reserves :
    (owner mint bump refund amount : ℕ) (m n : MarginAccount)
    → reserve_on owner mint bump refund amount m ≡ (ok tt, n)
    → (m.owner ≡ owner) × Reserves refund amount m n
unfolding reserve_on
reserve_on-Reserves owner mint bump refund amount m n h =
    let back = when (ltb 0 refund) (move_reserved_to_free refund) in
    let (its, h1) =
      guard-eq-ok (is_not_of owner mint bump m) (custom invalid_pda)
        (back >> move_free_to_reserved amount) m n h in
    let (_, x, first, second) = >>=-eq-ok back (λ _. move_free_to_reserved amount) m n h1 in
    let r = refund-Reserves refund m x first in
    let s = on-Reserves amount x n second in
    (
      ground arith,
      record {
        free = omega (arith, r.free, s.free);
        reserved = omega (arith, r.reserved, s.reserved);
        locked = s.locked ∙ r.locked;
        marked = s.marked ∙ r.marked;
        of_owner = s.of_owner ∙ r.of_owner;
      },
    )

marked_margin :
    (m n : MarginAccount)
    → n.discriminator ≡ m.discriminator
    → check_loaded margin_layout (some m) ≡ ok m
    → check_loaded margin_layout (some n) ≡ ok n
unfolding check_loaded
marked_margin m n same h = ground (arith, same)

-- A call on the book leaves what margin accounts, sessions and holdings read as.
module _ {A : Type 0} (k : ℕ) (f : Method IntentBook A) (w u : World) (x : A) where
  on_book-margins :
      on_book k f w ≡ (ok x, u)
      → (j : ℕ) → margin_layout.view (u j).contents ≡ margin_layout.view (w j).contents
  on_book-margins h =
      on-view book_layout margin_layout.view book_layout-IsFaithful (λ x y. refl) k f w u
        (on_book-on k f w u x h)

  on_book-sessions :
      on_book k f w ≡ (ok x, u)
      → (j : ℕ) → session_layout.view (u j).contents ≡ session_layout.view (w j).contents
  on_book-sessions h =
      on-view book_layout session_layout.view book_layout-IsFaithful (λ x y. refl) k f w u
        (on_book-on k f w u x h)

  pub on_book-total_held :
      (ks : List ℕ) → on_book k f w ≡ (ok x, u) → total_held ks u ≡ total_held ks w
  on_book-total_held ks h = total_held-SameHeld ks w u (
      on-SameHeld book_layout book_layout-IsFaithful (λ b. refl) k f w u x (on_book-on k f w u x h))

-- What happens to the margin account and to sessions from the pruning on.
pub record Holds (rt : Runtime) (a : PostAccounts) (amount : ℕ) (w u : World) : Type 0 where
  pub refund : ℕ
  pub book : IntentBook
  pub before : MarginAccount
  pub after : MarginAccount
  pub was : load margin_layout a.margin.key w ≡ ok before
  pub is_now : load margin_layout a.margin.key u ≡ ok after
  pub its_owner : before.owner ≡ a.effective_owner
  pub found : load book_layout a.book.key w ≡ ok book
  pub due_back : IsDueBack rt.slot a.effective_owner book refund
  pub reserved : Reserves refund amount before after
  pub sessions : (k : ℕ) → session_layout.view (u k).contents ≡ session_layout.view (w k).contents
  pub conserved :
      (ks : List ℕ)
      → Distinct ks
      → contains a.margin.key ks ≡ true
      → total_held ks u ≡ total_held ks w

-- The end of a post, from the pruning on.
abbrev pub commit :
    Runtime → PostAccounts → PostIntentArgs → (mint bump : ℕ) → Reserve → Method World ℕ
commit rt a args mint bump r =
    on_book a.book.key (prune_on_post rt.slot a.effective_owner) >>= λ refund.
    on margin_layout a.margin.key (reserve_on a.effective_owner mint bump refund r.total)
    >> on_book a.book.key (enter_intent a.effective_owner args r)

pub commit-Holds :
    (rt : Runtime) (a : PostAccounts) (args : PostIntentArgs) (mint bump : ℕ) (r : Reserve) (id : ℕ)
    (w u : World)
    → commit rt a args mint bump r w ≡ (ok id, u)
    → Holds rt a r.total w u
unfolding load
commit-Holds rt a args mint bump r id w u h =
    let prune = prune_on_post rt.slot a.effective_owner in
    let enter = enter_intent a.effective_owner args r in
    let hold : ℕ → Method MarginAccount ⊤ =
      λ refund. reserve_on a.effective_owner mint bump refund r.total in
    let key = a.margin.key in
    let (refund, v1, s1, h1) =
      >>=-eq-ok (on_book a.book.key prune)
        (λ refund. on margin_layout key (hold refund) >> on_book a.book.key enter) w u h in
    let (_, v2, s2, s3) =
      >>=-eq-ok (on margin_layout key (hold refund)) (λ _. on_book a.book.key enter) v1 u h1 in
    let (b, c, found, pruned, _) =
      on-eq-ok book_layout a.book.key prune w v1 (on_book-on a.book.key prune w v1 refund s1) in
    let (m, n, loaded, called, stored) = on-eq-ok margin_layout key (hold refund) v1 v2 s2 in
    let (its_owner, reserves) =
      reserve_on-Reserves a.effective_owner mint bump refund r.total m n called in
    let mark =
      marked_margin m n reserves.marked (load-check_loaded margin_layout key v1 m loaded) in
    let shift : (s t : MarginAccount) (x : ⊤)
        → hold refund s ≡ (ok x, t)
        → total t + 0 ≡ total s + 0 =
      λ s t x g.
        let q = (reserve_on-Reserves a.effective_owner mint bump refund r.total s t g).1 in
        omega (arith, q.free, q.reserved, q.locked) in
    record {
      refund = refund;
      book = b;
      before = m;
      after = n;
      was =
          ap (check_loaded margin_layout)
            (sym (on_book-margins a.book.key prune w v1 refund s1 key))
          ∙ loaded;
      is_now =
          ap (check_loaded margin_layout) (on_book-margins a.book.key enter v2 u id s3 key)
          ∙ (ap (load margin_layout key) stored ∙ load-store margin_layout key v1 n refl mark);
      its_owner = its_owner;
      found = found;
      due_back = prune_on_post-IsDueBack rt.slot a.effective_owner refund b c pruned;
      reserved = reserves;
      sessions = λ k.
          on_book-sessions a.book.key enter v2 u id s3 k
          ∙ (on-view margin_layout session_layout.view margin_layout-IsFaithful (λ x y. refl) key
                (hold refund) v1 v2 s2 k
              ∙ on_book-sessions a.book.key prune w v1 refund s1 k);
      conserved = λ ks d member.
          let e1 = on_book-total_held a.book.key prune w v1 refund ks s1 in
          let e2 = on_margin-Moves ks key (hold refund) 0 0 shift d member v1 v2 tt s2 in
          let e3 = on_book-total_held a.book.key enter v2 u id ks s3 in omega (arith, e1, e2, e3);
    }
