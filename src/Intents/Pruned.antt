-- ===== src/Intents/Pruned.antt =====
-- The pruning at the start of a post (src/processor/intent.rs, `prune_on_post`): what it answers.
use polyleverage.Base.{
  ℕ, zero, suc, ◌+◌, ◌≡◌, ◌≢◌, ◌⊎◌, inl, inr, refl, ap, ◌∙◌, sym, Bool, true, false, ◌&&◌, ◌||◌,
  Option, none, some, List, [], ◌∷◌, arith, length, ltb, leb, ◌==◌, ◌!=◌, if◌then◌else◌, u64_max,
  checked_add,
}
use polyleverage.Error.{custom, arithmetic_overflow}
use polyleverage.Method.{
  Result, ok, err, ⊤, Method, pure, reads, ok_or, ◌>>=◌, ◌>>◌, >>=-eq-ok, reads-eq-ok, pure-eq-ok,
}
use polyleverage.Book.{IntentBook, IntentNode, RawNode, as_intent, free_node, null_idx}
use polyleverage.Book.IntentTree.{remove}
use polyleverage.Book.SeatTree.{find}
use polyleverage.Matching.Pairs.{when}
use polyleverage.Intents.{
  max_prunes_per_post, prunable, collect_prunable, prune_all, count_off, prune_on_post,
}

-- An intent of the seat that has expired and has contracts left.
abbrev pub is_stale : (now seat_idx : ℕ) → IntentNode → Bool
is_stale now seat_idx n =
    n.owner_seat == seat_idx && (leb n.expiration_slot now && ltb 0 n.contracts_remaining)

-- What is reserved, with the fees, for the first so many of the seat's stale intents.
abbrev pub stale_reserve : (now seat_idx room : ℕ) → List RawNode → ℕ
stale_reserve now seat_idx zero slots = 0
stale_reserve now seat_idx (suc room) [] = 0
stale_reserve now seat_idx (suc room) (slot ∷ slots) = elim (as_intent slot) [
  | none ↦ stale_reserve now seat_idx (suc room) slots
  | some n ↦
      let one = stale_reserve now seat_idx room slots in
      let all = stale_reserve now seat_idx (suc room) slots in
      if is_stale now seat_idx n then n.reserved_collateral + n.fee_buffer + one else all
]

-- What is due back to a trader of the book: nothing without a seat, else what is reserved for the
-- first four of the seat's stale intents.
abbrev pub IsDueBack : (now owner : ℕ) → IntentBook → ℕ → Type 0
IsDueBack now owner b refund =
    ((find owner b ≡ ok null_idx) × (refund ≡ 0))
    ⊎ ((seat_idx : ℕ) × (find owner b ≡ ok seat_idx)
        × (seat_idx ≢ null_idx)
        × (refund ≡ stale_reserve now seat_idx max_prunes_per_post b.nodes))

abbrev amounts : List (ℕ × ℕ × ℕ) → ℕ
amounts [] = 0
amounts ((side, idx, total) ∷ rest) = total + amounts rest

-- The loop that collects finds these intents, and their amounts.
collect_prunable-amounts :
    (now seat_idx room i : ℕ) (slots : List RawNode) (xs : List (ℕ × ℕ × ℕ))
    → collect_prunable now seat_idx room i slots ≡ ok xs
    → amounts xs ≡ stale_reserve now seat_idx room slots
unfolding collect_prunable prunable
collect_prunable-amounts now seat_idx zero i slots xs h = ground arith
collect_prunable-amounts now seat_idx (suc room) i [] xs h = ground arith
collect_prunable-amounts now seat_idx (suc room) i (slot ∷ slots) xs h =
    go (as_intent slot) (collect_prunable now seat_idx (suc room) (suc i) slots)
      (collect_prunable now seat_idx room (suc i) slots)
      (collect_prunable-amounts now seat_idx (suc room) (suc i) slots)
      (collect_prunable-amounts now seat_idx room (suc i) slots) h
  where
    go :
        (o : Option IntentNode) (skipped later : Result (List (ℕ × ℕ × ℕ)))
        → ((ys : List (ℕ × ℕ × ℕ))
            → skipped ≡ ok ys
            → amounts ys ≡ stale_reserve now seat_idx (suc room) slots)
        → ((ys : List (ℕ × ℕ × ℕ))
            → later ≡ ok ys
            → amounts ys ≡ stale_reserve now seat_idx room slots)
        → elim (elim o as (λ _. Option IntentNode) [
          | none ↦ none
          | some node ↦
              if node.owner_seat != seat_idx
                || (ltb now node.expiration_slot || node.contracts_remaining == 0)
              then none
              else some node
        ])
            as (λ _. Result (List (ℕ × ℕ × ℕ))) [
              | none ↦ skipped
              | some node ↦ elim (checked_add u64_max node.reserved_collateral node.fee_buffer) [
                | none ↦ err (custom arithmetic_overflow)
                | some total ↦ elim later [
                  | err e ↦ err e
                  | ok ys ↦ ok ((node.side, i, total) ∷ ys)
                ]
              ]
            ]
          ≡ ok xs
        → amounts xs ≡ elim o [
          | none ↦ stale_reserve now seat_idx (suc room) slots
          | some n ↦
              let one = stale_reserve now seat_idx room slots in
              let all = stale_reserve now seat_idx (suc room) slots in
              if is_stale now seat_idx n then n.reserved_collateral + n.fee_buffer + one else all
        ]
    go none skipped later skip take e = skip xs e
    go (some n) (ok ys) (ok zs) skip take e = ground (arith, skip ys refl, take zs refl)
    go (some n) (err _) (ok zs) skip take e = ground (arith, take zs refl)
    go (some n) (ok ys) (err _) skip take e = ground (arith, skip ys refl)
    go (some n) (err _) (err _) skip take e = ground arith

prune_all-amounts :
    (sum refund : ℕ) (xs : List (ℕ × ℕ × ℕ)) (b c : IntentBook)
    → prune_all sum xs b ≡ (ok refund, c)
    → refund ≡ sum + amounts xs
unfolding prune_all
prune_all-amounts sum refund [] b c h =
    let (answer, _) = pure-eq-ok sum b c h in omega (arith, answer)
prune_all-amounts sum refund ((side, idx, total) ∷ rest) b c h =
    let more : Method IntentBook ℕ =
      ok_or (checked_add u64_max sum total) (custom arithmetic_overflow) >>= λ s.
      prune_all s rest in
    let (_, b1, _, h1) = >>=-eq-ok (remove side idx) (λ _. free_node idx >> more) b c h in
    let (_, b2, _, h2) = >>=-eq-ok (free_node idx) (λ _. more) b1 c h1 in
    let (s, b3, added, h3) =
      >>=-eq-ok (ok_or (checked_add u64_max sum total) (custom arithmetic_overflow))
        (λ s. prune_all s rest) b2 c h2 in
    let s_eq : s ≡ sum + total = ground arith in
    let later = prune_all-amounts s refund rest b3 c h3 in omega (arith, later, s_eq)

-- The answer of the pruning is what is due back.
pub prune_on_post-IsDueBack :
    (now owner refund : ℕ) (b c : IntentBook)
    → prune_on_post now owner b ≡ (ok refund, c)
    → IsDueBack now owner b refund
unfolding prune_on_post
prune_on_post-IsDueBack now owner refund b c h =
    let from : ℕ → Method IntentBook ℕ = λ seat_idx.
      reads (λ b. collect_prunable now seat_idx max_prunes_per_post 0 b.nodes) >>= λ stale.
      prune_all 0 stale >>= λ refund.
      when (ltb 0 (length stale)) (count_off seat_idx (length stale)) >> pure refund in
    let (seat_idx, found, h1) =
      reads-eq-ok (find owner) (λ s. if s == null_idx then pure 0 else from s) b c h in
    go from (λ s e. pruned s e) seat_idx found (seat_idx == null_idx) refl h1
  where
    pruned :
        (s : ℕ)
        → (reads (λ b. collect_prunable now s max_prunes_per_post 0 b.nodes) >>= λ stale.
              prune_all 0 stale >>= λ refund.
              when (ltb 0 (length stale)) (count_off s (length stale)) >> pure refund)
            b
          ≡ (ok refund, c)
        → refund ≡ stale_reserve now s max_prunes_per_post b.nodes
    pruned s e =
        let off : List (ℕ × ℕ × ℕ) → Method IntentBook ⊤ =
          λ stale. when (ltb 0 (length stale)) (count_off s (length stale)) in
        let (stale, collected, h1) =
          reads-eq-ok (λ b. collect_prunable now s max_prunes_per_post 0 b.nodes)
            (λ stale. prune_all 0 stale >>= λ refund. off stale >> pure refund) b c e in
        let (r, b1, first, h2) =
          >>=-eq-ok (prune_all 0 stale) (λ refund. off stale >> pure refund) b c h1 in
        let (_, b2, _, h3) = >>=-eq-ok (off stale) (λ _. pure r) b1 c h2 in
        let (answer, _) = pure-eq-ok r b2 c h3 in
        omega (
          arith,
          answer,
          prune_all-amounts 0 r stale b b1 first,
          collect_prunable-amounts now s max_prunes_per_post 0 b.nodes stale collected,
        )

    go :
        (from : ℕ → Method IntentBook ℕ)
        → ((s : ℕ)
            → from s b ≡ (ok refund, c)
            → refund ≡ stale_reserve now s max_prunes_per_post b.nodes)
        → (seat_idx : ℕ) → find owner b ≡ ok seat_idx
        → (test : Bool) → (seat_idx == null_idx) ≡ test
        → (if test then pure 0 else from seat_idx) b ≡ (ok refund, c)
        → IsDueBack now owner b refund
    go from law seat_idx found true e h =
        let (answer, _) = pure-eq-ok 0 b c h in
        let none_there : seat_idx ≡ null_idx = ground arith in
        inl (found ∙ ap ok none_there, sym answer)
    go from law seat_idx found false e h = inr (seat_idx, found, ground arith, law seat_idx h)
