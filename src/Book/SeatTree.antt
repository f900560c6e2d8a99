-- ===== src/Book/SeatTree.antt =====
-- The tree of the traders' seats (src/state/seat_tree.rs).
use polyleverage.Base.{ℕ, zero, suc, true, false, Option, none, some, ◌!=◌}
use polyleverage.Error.{custom, panic, already_initialized}
use polyleverage.Method.{Result, ok, err, ⊤, Method, pure, reads, ◌>>=◌, ◌>>◌}
use polyleverage.Book.{
  IntentBook, SeatNode, RawNode, seat_slot, seat, rb_red, null_idx, alloc_node, write_seat,
}
use polyleverage.Book.RedBlack.{Links, Direction, to_left, to_right, TreeView, loop_bound}
use polyleverage.Book.RedBlack.Insert.{insert_node}
use polyleverage.Book.IntentTree.{less, equal, greater, cmp}

abbrev pub seat_links : RawNode → Option Links
seat_links (seat_slot n) =
    some (record { left = n.left; right = n.right; parent = n.parent; color = n.color })
seat_links _ = none

abbrev pub with_seat_links : Links → RawNode → RawNode
with_seat_links l (seat_slot n) =
    seat_slot (record n { left = l.left; right = l.right; parent = l.parent; color = l.color })
with_seat_links l slot = slot

abbrev pub seat_root : IntentBook → Result ℕ
seat_root b = ok b.header.seat_tree_root

abbrev pub set_seat_root : ℕ → Method IntentBook ⊤
set_seat_root root b = (ok tt, record b { header = record b.header { seat_tree_root = root } })

unfoldable pub seat_view : TreeView
seat_view = record {
  links_of = seat_links;
  with_links = with_seat_links;
  root = seat_root;
  set_root = set_seat_root;
  checks_pivot = false;
}

-- Traders compare as the numbers that the bytes of their keys spell. A trader has one seat only.
unfoldable pub steer_seat : ℕ → ℕ → IntentBook → Result Direction
unfolding cmp
steer_seat idx root b = elim (seat idx b) [
  | err e ↦ err e
  | ok a ↦ elim (seat root b) [
    | err e ↦ err e
    | ok c ↦ elim (cmp a.trader c.trader) [
      | less ↦ ok to_left
      | greater ↦ ok to_right
      | equal ↦ err (custom already_initialized)
    ]
  ]
]

unfoldable pub insert_seat : ℕ → Method IntentBook ⊤
unfolding insert_node
insert_seat idx = insert_node seat_view (steer_seat idx) idx

-- The loop of `find` from a node on.
unfoldable pub find_from : ℕ → ℕ → ℕ → IntentBook → Result ℕ
unfolding cmp
find_from zero trader cur b = err panic
find_from (suc n) trader cur b = elim (cur != null_idx) [
  | true ↦ elim (seat cur b) [
    | err e ↦ err e
    | ok node ↦ elim (cmp trader node.trader) [
      | less ↦ find_from n trader node.left b
      | greater ↦ find_from n trader node.right b
      | equal ↦ ok cur
    ]
  ]
  | false ↦ ok null_idx
]

unfoldable pub find : ℕ → IntentBook → Result ℕ
unfolding find_from
find trader b = find_from loop_bound trader b.header.seat_tree_root b

abbrev pub new_seat : ℕ → SeatNode
new_seat trader = record {
  color = rb_red;
  left = null_idx;
  right = null_idx;
  parent = null_idx;
  trader = trader;
  active_intent_count = 0;
  flags = 0;
}

unfoldable pub find_or_create : ℕ → Method IntentBook ℕ
find_or_create trader = do
  existing ← reads (find trader)
  elim (existing != null_idx) [
    | true ↦ pure existing
    | false ↦ do idx ← alloc_node; write_seat idx (new_seat trader); insert_seat idx; pure idx
  ]
