-- ===== src/Tests/Book.antt =====
-- The unit tests of src/state/intent_tree.rs, and examples of the book's theorems.
use polyleverage.Base.{ℕ, ◌≡◌, refl, true, List, [], ◌∷◌, ◌++◌, u64_max}
use polyleverage.Method.{Result, ok, err, ⊤, Method, pure, reads, ◌>>=◌, ◌>>◌}
use polyleverage.Book.{
  IntentBook, IntentNode, init_intent_book, alloc_node, write_intent, rb_red, side_long, side_short,
  intent, node_as, as_intent, write_slot, next_free, free_node,
}
use polyleverage.Book.RedBlack.{links, get, put, replace_child, rotate, blacken}
use polyleverage.Book.RedBlack.Insert.{
  descend, has_red_parent, fix_by_rotation, fix_under, fix_once, insert_fixup, attach, insert_node,
}
use polyleverage.Book.RedBlack.Remove.{
  tree_minimum, transplant, splice, lift_successor, replace_by_successor, has_black_children,
  black_sibling, red_far_child, unfix_under, lacks_black, remove_fixup, remove_node,
}
use polyleverage.Book.IntentTree.{
  cmp, cmp_key, tree_root, set_tree_root, intent_view, steer, insert, remove, walk,
  for_each_best_first, first_live,
}

-- An intent of one contract that does not expire.
abbrev mk_intent : ℕ → ℕ → ℕ → ℕ → IntentNode
mk_intent side price seq id = record {
  side = side;
  color = rb_red;
  flags = 0;
  left = 0;
  right = 0;
  parent = 0;
  price_fp = price;
  id = id;
  owner_seat = 1;
  contracts_total = 1;
  contracts_remaining = 1;
  expiration_slot = u64_max;
  post_seq = seq;
  reserved_collateral = 0;
  fee_buffer = 0;
}

abbrev post : ℕ → ℕ → ℕ → Method IntentBook ℕ
post side price seq = do
  idx ← alloc_node
  write_intent idx (mk_intent side price seq seq)
  insert side idx
  pure idx

abbrev post_all : ℕ → List (ℕ × ℕ) → Method IntentBook ⊤
post_all side [] = pure tt
post_all side ((price, seq) ∷ rest) = do post side price seq; post_all side rest

abbrev remove_all : ℕ → List ℕ → Method IntentBook ⊤
remove_all side [] = pure tt
remove_all side (idx ∷ rest) = do remove side idx; free_node idx; remove_all side rest

abbrev best_first : ℕ → IntentBook → Result (List (ℕ × ℕ))
best_first side b =
    for_each_best_first b side (λ idx n s. (true, s ++ ((n.price_fp, n.post_seq) ∷ []))) []

abbrev run : Method IntentBook (List (ℕ × ℕ)) → Result (List (ℕ × ℕ))
run m = elim (init_intent_book 64 7 64 0 0) [ err e ↦ err e | ok b ↦ (m b).0 ]

abbrev shuffled : List (ℕ × ℕ)
shuffled = (300, 1) ∷ (100, 2) ∷ (500, 3) ∷ (200, 4) ∷ (400, 5) ∷ []

longs_descend :
    run (do post_all side_long shuffled; reads (best_first side_long))
    ≡ ok ((500, 3) ∷ (400, 5) ∷ (300, 1) ∷ (200, 4) ∷ (100, 2) ∷ [])
unfolding init_intent_book alloc_node next_free write_intent write_slot node_as as_intent intent
    links get put replace_child rotate blacken descend has_red_parent fix_by_rotation fix_under
    fix_once insert_fixup attach insert_node tree_minimum transplant splice lift_successor
    replace_by_successor has_black_children black_sibling red_far_child unfix_under lacks_black
    remove_fixup remove_node cmp cmp_key tree_root set_tree_root intent_view steer insert remove
    walk for_each_best_first first_live
longs_descend = refl

abbrev many : List (ℕ × ℕ)
many =
    (300, 1)
    ∷ (100, 2)
    ∷ (500, 3)
    ∷ (200, 4)
    ∷ (400, 5)
    ∷ (600, 6)
    ∷ (50, 7)
    ∷ (700, 8)
    ∷ (300, 9)
    ∷ (350, 10)
    ∷ (10, 11)
    ∷ (20, 12)
    ∷ (30, 13)
    ∷ []

shorts_without_some :
    run (do
      post_all side_short many
      remove_all side_short (4 ∷ 1 ∷ 12 ∷ 7 ∷ 8 ∷ 3 ∷ [])
      post_all side_short ((310, 20) ∷ [])
      reads (best_first side_short))
    ≡ ok (
        (10, 11)
        ∷ (30, 13)
        ∷ (100, 2)
        ∷ (300, 9)
        ∷ (310, 20)
        ∷ (350, 10)
        ∷ (400, 5)
        ∷ (600, 6)
        ∷ [])
unfolding init_intent_book alloc_node next_free write_intent write_slot node_as as_intent intent
    links get put replace_child rotate blacken descend has_red_parent fix_by_rotation fix_under
    fix_once insert_fixup attach insert_node tree_minimum transplant splice lift_successor
    replace_by_successor has_black_children black_sibling red_far_child unfix_under lacks_black
    remove_fixup remove_node cmp cmp_key tree_root set_tree_root intent_view steer insert remove
    walk for_each_best_first first_live free_node
shorts_without_some = refl
