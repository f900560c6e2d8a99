-- ===== src/Book/RedBlack/Remove.antt =====
-- Removal from a red-black tree of the book.
use polyleverage.Base.{
  ℕ, zero, suc, Bool, true, false, Option, none, some, ◌==◌, ◌!=◌, if◌then◌else◌,
}
use polyleverage.Error.{custom, panic, intent_not_found}
use polyleverage.Method.{Result, ok, err, ⊤, Method, pure, raise, reads, fail_if, ◌>>=◌, ◌>>◌}
use polyleverage.Book.{IntentBook, rb_red, rb_black, null_idx}
use polyleverage.Book.RedBlack.{
  TreeView, Direction, to_left, to_right, opposite, loop_bound, get_child, get_parent, get_color,
  set_child, set_parent, set_color, when, replace_child, rotate, blacken,
}

module _ (V : TreeView) where
  unfoldable pub tree_minimum : ℕ → ℕ → IntentBook → Result ℕ
  tree_minimum zero idx b = err panic
  tree_minimum (suc n) idx b = elim (idx == null_idx) [
    | true ↦ ok null_idx
    | false ↦ elim (get_child V to_left idx b) [
      | err e ↦ err e
      | ok k ↦ elim (k == null_idx) [ true ↦ ok idx | false ↦ tree_minimum n k b ]
    ]
  ]

  unfoldable pub transplant : (u v : ℕ) → Method IntentBook ⊤
  transplant u v = do
    up ← reads (get_parent V u)
    replace_child V to_left up u v
    when (v != null_idx) (set_parent V v up)

  -- A node with one child at most: `x` takes its place. The parent of that place.
  unfoldable pub splice : (z x : ℕ) → Method IntentBook ℕ
  splice z x = do
    zp ← reads (get_parent V z)
    transplant z x
    elim (x == null_idx) [ true ↦ pure zp | false ↦ reads (get_parent V x) ]

  -- The successor `y` leaves its place to its right child `x`. The parent of that place.
  unfoldable pub lift_successor : (z z_right y x : ℕ) → Method IntentBook ℕ
  lift_successor z z_right y x = do
    yp ← reads (get_parent V y)
    elim (yp == z) [
      | true ↦ do when (x != null_idx) (set_parent V x y); pure y
      | false ↦ do transplant y x; set_child V to_right y z_right; set_parent V z_right y; pure yp
    ]

  -- A node with two children: its successor takes its place and its colour.
  unfoldable pub replace_by_successor : (z z_left z_right : ℕ) → Method IntentBook (ℕ × ℕ × ℕ)
  replace_by_successor z z_left z_right = do
    y ← reads (tree_minimum loop_bound z_right)
    y_color ← reads (get_color V y)
    x ← reads (get_child V to_right y)
    x_parent ← lift_successor z z_right y x
    transplant z y
    set_child V to_left y z_left
    set_parent V z_left y
    z_color ← reads (get_color V z)
    set_color V y z_color
    pure (y_color, x, x_parent)

  -- Both children of the sibling are black.
  unfoldable pub has_black_children : Direction → ℕ → IntentBook → Result Bool
  has_black_children d w b = elim (get_child V d w b) [
    | err e ↦ err e
    | ok near ↦ elim (get_color V near b) [
      | err e ↦ err e
      | ok c ↦ if c != rb_black then ok false else elim (get_child V (opposite d) w b) [
        | err e ↦ err e
        | ok far ↦ elim (get_color V far b) [ err e ↦ err e | ok c' ↦ ok (c' == rb_black) ]
      ]
    ]
  ]

  -- The sibling is made black, if it is red.
  unfoldable pub black_sibling : Direction → ℕ → Method IntentBook ℕ
  black_sibling d x_parent = do
    w ← reads (get_child V (opposite d) x_parent)
    c ← reads (get_color V w)
    elim (c == rb_red) [
      | true ↦ do
        set_color V w rb_black
        set_color V x_parent rb_red
        rotate V d x_parent
        reads (get_child V (opposite d) x_parent)
      | false ↦ pure w
    ]

  -- The far child of the sibling is made red, if it is black.
  unfoldable pub red_far_child : Direction → (x_parent w : ℕ) → Method IntentBook ℕ
  red_far_child d x_parent w = do
    far ← reads (get_child V (opposite d) w)
    c ← reads (get_color V far)
    elim (c == rb_black) [
      | true ↦ do
        near ← reads (get_child V d w)
        set_color V near rb_black
        set_color V w rb_red
        rotate V (opposite d) w
        reads (get_child V (opposite d) x_parent)
      | false ↦ pure w
    ]

  -- One round of the loop, with `x` on side `d`: the next `x` and its parent, or none to stop.
  unfoldable pub unfix_under : Direction → ℕ → Method IntentBook (Option (ℕ × ℕ))
  unfix_under d x_parent = do
    w ← black_sibling d x_parent
    both ← reads (has_black_children d w)
    elim both [
      | true ↦ do
        set_color V w rb_red
        up ← reads (get_parent V x_parent)
        pure (some (x_parent, up))
      | false ↦ do
        w' ← red_far_child d x_parent w
        xp_color ← reads (get_color V x_parent)
        set_color V w' xp_color
        set_color V x_parent rb_black
        far ← reads (get_child V (opposite d) w')
        set_color V far rb_black
        rotate V d x_parent
        pure none
    ]

  -- The test of the loop: `x` is not the root, and black.
  unfoldable pub lacks_black : ℕ → IntentBook → Result Bool
  lacks_black x b = elim (V.root b) [
    | err e ↦ err e
    | ok root ↦
        if x == root
        then ok false
        else elim (get_color V x b) [ err e ↦ err e | ok c ↦ ok (c == rb_black) ]
  ]

  unfoldable pub remove_fixup : ℕ → (x x_parent : ℕ) → Method IntentBook ⊤
  remove_fixup zero x x_parent = raise panic
  remove_fixup (suc n) x x_parent = do
    again ← reads (lacks_black x)
    elim again [
      | true ↦ do
        first ← reads (get_child V to_left x_parent)
        next ← elim (x == first) [
          | true ↦ unfix_under to_left x_parent
          | false ↦ unfix_under to_right x_parent
        ]
        elim next [
          | some (x', p') ↦ remove_fixup n x' p'
          | none ↦ do root ← reads V.root; blacken V root
        ]
      | false ↦ blacken V x
    ]

  unfoldable pub remove_node : ℕ → Method IntentBook ⊤
  remove_node z = do
    fail_if (z == null_idx) (custom intent_not_found)
    z_color ← reads (get_color V z)
    z_left ← reads (get_child V to_left z)
    z_right ← reads (get_child V to_right z)
    (color, x, x_parent) ← elim (z_left == null_idx) [
      | true ↦ do xp ← splice z z_right; pure (z_color, z_right, xp)
      | false ↦ elim (z_right == null_idx) [
        | true ↦ do xp ← splice z z_left; pure (z_color, z_left, xp)
        | false ↦ replace_by_successor z z_left z_right
      ]
    ]
    elim (color == rb_black) [ true ↦ remove_fixup loop_bound x x_parent | false ↦ pure tt ]
