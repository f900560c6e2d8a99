-- ===== src/Book/IntentTree.antt =====
-- The trees of the intents, one for each side (src/state/intent_tree.rs).
pub mod Order
pub mod Walk
pub mod Best
use polyleverage.Base.{
  ℕ, zero, suc, ◌≡◌, Bool, true, false, ◌&&◌, Option, none, some, List, [], ◌∷◌, length, ltb, leb,
  ◌==◌, ◌!=◌, if◌then◌else◌,
}
use polyleverage.Error.{ProgramError, custom, panic, invalid_instruction_data, arithmetic_overflow}
use polyleverage.Method.{Result, ok, err, ⊤, Method, raise, reads, puts, ◌>>=◌}
use polyleverage.Book.{
  IntentBook, IntentNode, RawNode, intent_slot, as_intent, intent, side_long, side_short, null_idx,
}
use polyleverage.Book.RedBlack.{Links, Direction, to_left, to_right, TreeView, get_child}
use polyleverage.Book.RedBlack.Insert.{insert_node}
use polyleverage.Book.RedBlack.Remove.{remove_node}

-- `core::cmp::Ordering`
pub data Ordering : Type 0 where
  less equal greater : Ordering

-- `a.cmp(&b)` on integers.
unfoldable pub cmp : ℕ → ℕ → Ordering
cmp a b = if ltb a b then less else if a == b then equal else greater

-- `match first { Equal => second, other => other }`
abbrev pub then_cmp : Ordering → Ordering → Ordering
then_cmp less second = less
then_cmp equal second = second
then_cmp greater second = greater

unfoldable pub cmp_key : ℕ → IntentNode → IntentNode → Ordering
unfolding cmp
cmp_key side a b =
    then_cmp (if side == side_long then cmp b.price_fp a.price_fp else cmp a.price_fp b.price_fp)
      (then_cmp (cmp a.post_seq b.post_seq) (cmp a.id b.id))

unfoldable pub tree_root : ℕ → IntentBook → Result ℕ
tree_root side b =
    if side == side_long
    then ok b.header.long_tree_root
    else if side == side_short
    then ok b.header.short_tree_root
    else err (custom invalid_instruction_data)

unfoldable pub set_tree_root : ℕ → ℕ → Method IntentBook ⊤
set_tree_root side root b =
    if side == side_long
    then (ok tt, record b { header = record b.header { long_tree_root = root } })
    else if side == side_short
    then (ok tt, record b { header = record b.header { short_tree_root = root } })
    else (err (custom invalid_instruction_data), b)

abbrev pub intent_links : RawNode → Option Links
intent_links (intent_slot n) =
    some (record { left = n.left; right = n.right; parent = n.parent; color = n.color })
intent_links _ = none

abbrev pub with_intent_links : Links → RawNode → RawNode
with_intent_links l (intent_slot n) =
    intent_slot (record n { left = l.left; right = l.right; parent = l.parent; color = l.color })
with_intent_links l slot = slot

-- The tree of a side.
unfoldable pub intent_view : ℕ → TreeView
intent_view side = record {
  links_of = intent_links;
  with_links = with_intent_links;
  root = tree_root side;
  set_root = set_tree_root side;
  checks_pivot = true;
}

-- The new node goes to the left of the nodes that come after it.
unfoldable pub steer : ℕ → ℕ → ℕ → IntentBook → Result Direction
steer side idx root b = elim (intent idx b) [
  | err e ↦ err e
  | ok a ↦ elim (intent root b) [
    | err e ↦ err e
    | ok c ↦ elim (cmp_key side a c) [ less ↦ ok to_left | _ ↦ ok to_right ]
  ]
]

unfoldable pub insert : ℕ → ℕ → Method IntentBook ⊤
unfolding insert_node
insert side idx = insert_node (intent_view side) (steer side idx) idx

unfoldable pub remove : ℕ → ℕ → Method IntentBook ⊤
unfolding remove_node
remove side idx = remove_node (intent_view side) idx

abbrev pub stack_cap : ℕ
stack_cap = 64

-- More rounds than a tree that the stack can hold needs.
abbrev pub walk_bound : ℕ
walk_bound = 0x4_0000_0000_0000_0000

-- `if !visitor(…) { return Ok(()) }`
abbrev pub go_on : {S : Type 0} → Bool × S → (S → Result S) → Result S
go_on (true, s) rest = rest s
go_on (false, s) rest = ok s

-- The two loops of the walk, one round at a time, with the stack's top first: down to the left, or
-- to the node on top. The visitor changes a state and says whether to go on.
unfoldable pub walk :
    {S : Type 0} → ℕ → (ℕ → IntentNode → S → Bool × S) → IntentBook → List ℕ → ℕ → S → Result S
walk zero visitor b stack cur s = err panic
walk (suc n) visitor b stack cur s = elim (cur != null_idx) [
  | true ↦
      if leb stack_cap (length stack)
      then err (custom arithmetic_overflow)
      else elim (intent cur b) [
        | err e ↦ err e
        | ok node ↦ walk n visitor b (cur ∷ stack) node.left s
      ]
  | false ↦ elim stack [
    | [] ↦ ok s
    | top ∷ rest ↦ elim (intent top b) [
      | err e ↦ err e
      | ok node ↦ go_on (visitor top node s) (walk n visitor b rest node.right)
    ]
  ]
]

unfoldable pub for_each_best_first :
    {S : Type 0} → IntentBook → ℕ → (ℕ → IntentNode → S → Bool × S) → S → Result S
unfolding walk
for_each_best_first b side visitor s = elim (tree_root side b) [
  | err e ↦ err e
  | ok root ↦ walk walk_bound visitor b [] root s
]

-- `contracts_remaining > 0 && expiration_slot > now_slot`
abbrev pub is_live : ℕ → IntentNode → Bool
is_live now_slot node = ltb 0 node.contracts_remaining && ltb now_slot node.expiration_slot

abbrev pub stop_at_live :
    ℕ → ℕ → IntentNode → Option (ℕ × IntentNode) → Bool × Option (ℕ × IntentNode)
stop_at_live now_slot idx node found =
    if is_live now_slot node then (false, some (idx, node)) else (true, found)

unfoldable pub first_live : IntentBook → ℕ → ℕ → Result (Option (ℕ × IntentNode))
unfolding for_each_best_first
first_live b side now_slot = for_each_best_first b side (stop_at_live now_slot) none
