-- ===== src/Tests/Offers.antt =====
-- A book of three bids, the best of which has expired, and a pool in use.
use mathlib.Core.List.Memᴰ
use polyleverage.Base.{
  ℕ, ◌≡◌, ◌≢◌, ◌↔◌, ◌⊎◌, inl, inr, ◌<◌, refl, Bool, true, false, Option, List, [], ◌∷◌, arith,
  length, contains, Distinct, ◌==◌,
}
use polyleverage.Error.{custom, intent_book_full}
use polyleverage.Method.{Result, ok, err, pure, ◌>>=◌, ◌>>◌}
use polyleverage.Book.{
  IntentBook, IntentNode, free_slot, intent_slot, fresh_header, init_intent_book, alloc_node,
  free_node, next_free, intent, node_as, as_intent, rb_red, rb_black, side_long, null_idx,
}
use polyleverage.Book.Expand.{link_new_nodes, expand_book}
use polyleverage.Book.Pool.Use.{InUse, started, allocated, released, InUse-sound}
use polyleverage.Book.IntentTree.{
  less, equal, greater, cmp_key, tree_root, first_live, for_each_best_first,
}
use polyleverage.Book.IntentTree.Order.{Precedes, cmp_key_iff}
use polyleverage.Book.IntentTree.Walk.{
  Tree, leaf, node, Shape, in_order, visit, for_each_best_first-visit,
}
use polyleverage.Book.IntentTree.Best.{Sorted, IsBest, first_live-IsBest}

-- A bid with a price, a sequence number and an expiration, and its place in the tree.
abbrev bid : (price seq expires left right parent color : ℕ) → IntentNode
bid price seq expires left right parent color = record {
  side = side_long;
  color = color;
  flags = 0;
  left = left;
  right = right;
  parent = parent;
  price_fp = price;
  id = seq;
  owner_seat = 1;
  contracts_total = 2;
  contracts_remaining = 2;
  expiration_slot = expires;
  post_seq = seq;
  reserved_collateral = 0;
  fee_buffer = 0;
}

abbrev bids : IntentBook
bids = record {
  header = record (fresh_header 7 4 250 30) { long_tree_root = 1; node_count = 4 };
  nodes =
      free_slot 0
      ∷ intent_slot (bid 500 1 900 2 3 0 rb_black)
      ∷ intent_slot (bid 600 2 100 0 0 1 rb_red)
      ∷ intent_slot (bid 500 3 900 0 0 1 rb_red)
      ∷ [];
}

abbrev bid_tree : Tree
bid_tree =
    node (node leaf 2 (bid 600 2 100 0 0 1 rb_red) leaf) 1 (bid 500 1 900 2 3 0 rb_black)
      (node leaf 3 (bid 500 3 900 0 0 1 rb_red) leaf)

bids-Shape : Shape bids bid_tree 1
unfolding intent node_as as_intent
bids-Shape = (
  refl,
  (λ e. omega arith),
  refl,
  (refl, (λ e. omega arith), refl, refl, refl),
  (refl, (λ e. omega arith), refl, refl, refl),
)

bids-Sorted : Sorted side_long (in_order bid_tree)
bids-Sorted = (
  λ p m. elim (Memᴰ.cases_cons m) [
    | inl e ↦ rw e (inl (inl (refl, omega arith)))
    | inr later ↦ rw (Memᴰ.eq_of_singleton later) (inl (inl (refl, omega arith)))
  ],
  (
    λ p m. rw (Memᴰ.eq_of_singleton m) (inr (refl, inl (omega arith))),
    (λ p m. absurd (Memᴰ.not-nil m), tt),
  ),
)

-- At slot 500 the bid of 600 has expired.
first_live-IsBest_example :
    (found : Option (ℕ × IntentNode)) × (first_live bids side_long 500 ≡ ok found)
    × IsBest side_long 500 (in_order bid_tree) found
unfolding tree_root
first_live-IsBest_example =
    first_live-IsBest bids side_long 500 1 bid_tree refl bids-Shape (omega arith) bids-Sorted

abbrev collect : ℕ → IntentNode → List ℕ → Bool × List ℕ
collect k n ks = (n.post_seq == 2, k ∷ ks)

for_each_best_first-visit_example :
    for_each_best_first bids side_long collect [] ≡ ok (visit collect (in_order bid_tree) []).1
unfolding tree_root
for_each_best_first-visit_example =
    for_each_best_first-visit collect bids side_long 1 bid_tree [] refl bids-Shape (omega arith)

abbrev early : IntentNode
early = bid 500 1 900 0 0 0 rb_red

abbrev late : IntentNode
late = bid 500 3 900 0 0 0 rb_red

cmp_key_iff_example :
    ((cmp_key side_long early late ≡ less) ↔ Precedes side_long early late)
    × ((cmp_key side_long early late ≡ greater) ↔ Precedes side_long late early)
    × ((cmp_key side_long early late ≡ equal) ↔ (
        (early.price_fp ≡ late.price_fp) × (early.post_seq ≡ late.post_seq) × (early.id ≡ late.id)))
cmp_key_iff_example = cmp_key_iff side_long early late

abbrev fresh : IntentBook
fresh = record {
  header = fresh_header 7 3 250 30;
  nodes = free_slot 0 ∷ free_slot 0 ∷ free_slot 0 ∷ [];
}

abbrev one_taken : IntentBook
one_taken = (alloc_node fresh).1

abbrev two_taken : IntentBook
two_taken = (alloc_node one_taken).1

abbrev one_left : IntentBook
one_left = (free_node 1 two_taken).1

fresh_runs : init_intent_book 3 7 3 250 30 ≡ ok fresh
unfolding init_intent_book
fresh_runs = refl

take_runs : (alloc_node fresh ≡ (ok 1, one_taken)) × (alloc_node one_taken ≡ (ok 2, two_taken))
unfolding alloc_node next_free
take_runs = (refl, refl)

free_runs : free_node 1 two_taken ≡ (ok tt, one_left)
unfolding alloc_node next_free free_node
free_runs = refl

pool-InUse : InUse (2 ∷ []) one_left
pool-InUse =
    released (2 ∷ 1 ∷ []) two_taken one_left 1
      (allocated (1 ∷ []) one_taken two_taken 2
        (allocated [] fresh one_taken 1
          (started 3 7 250 30 fresh (omega arith) (omega arith) fresh_runs) take_runs.0)
        take_runs.1)
      refl free_runs

InUse-sound_example :
    Distinct (2 ∷ [])
    × ((i : ℕ) → contains i (2 ∷ []) ≡ true → (i ≢ null_idx) × (i < length one_left.nodes))
    × (((idx : ℕ) × (c : IntentBook) × (alloc_node one_left ≡ (ok idx, c))
          × (contains idx (2 ∷ []) ≡ false))
        ⊎ ((alloc_node one_left ≡ (err (custom intent_book_full), one_left))
            × ((i : ℕ) → i ≢ null_idx → i < one_left.header.capacity → contains i (2 ∷ []) ≡ true)))
InUse-sound_example = InUse-sound (2 ∷ []) one_left pool-InUse

-- A book of three slots, one the sentinel, that has grown by two: its users get five indices, and the
-- slot 3 twice.
abbrev drawn : IntentBook → Result (List ℕ) × IntentBook
drawn = do
  expand_book 2
  a ← alloc_node
  b ← alloc_node
  c ← alloc_node
  d ← alloc_node
  e ← alloc_node
  pure (a ∷ b ∷ c ∷ d ∷ e ∷ [])

expanded_slot_twice : (drawn fresh).0 ≡ ok (4 ∷ 3 ∷ 1 ∷ 2 ∷ 3 ∷ [])
unfolding expand_book link_new_nodes alloc_node next_free
expanded_slot_twice = refl
