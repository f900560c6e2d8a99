-- ===== src/Book/RedBlack/Insert.antt =====
-- Insertion into a red-black tree of the book.
use polyleverage.Base.{ℕ, zero, suc, Bool, true, false, ◌&&◌, ◌==◌, ◌!=◌, if◌then◌else◌}
use polyleverage.Error.{panic, invalid_account_data}
use polyleverage.Method.{Result, ok, err, ⊤, Method, pure, raise, reads, fail_if, ◌>>=◌, ◌>>◌}
use polyleverage.Book.{IntentBook, rb_red, rb_black, null_idx}
use polyleverage.Book.RedBlack.{
  TreeView, Direction, to_left, to_right, opposite, loop_bound, get_child, get_parent, get_color,
  set_child, set_parent, set_color, put, rotate, blacken,
}

module _ (V : TreeView) where
  -- The loop of the search for a place: the last node on the way, and the side of it to take.
  -- `steer` compares the new node with the one at an index.
  unfoldable pub descend :
      ℕ → (ℕ → IntentBook → Result Direction) → ℕ → IntentBook → Result (ℕ × Direction)
  descend zero steer root b = err panic
  descend (suc n) steer root b = elim (steer root b) [
    | err e ↦ err e
    | ok d ↦ elim (get_child V d root b) [
      | err e ↦ err e
      | ok k ↦ elim (k == null_idx) [ true ↦ ok (root, d) | false ↦ descend n steer k b ]
    ]
  ]

  -- Is the node red that has a parent?
  unfoldable pub has_red_parent : ℕ → IntentBook → Result Bool
  has_red_parent z b = elim (get_parent V z b) [
    | err e ↦ err e
    | ok p ↦
        if p == null_idx
        then ok false
        else elim (get_color V p b) [ err e ↦ err e | ok c ↦ ok (c == rb_red) ]
  ]

  -- Cases 2 and 3: `d` is the side of the parent under the grandparent.
  unfoldable pub fix_by_rotation : Direction → (z p : ℕ) → Method IntentBook ℕ
  fix_by_rotation d z p = do
    inner ← reads (get_child V (opposite d) p)
    z' ← elim (z == inner) [ true ↦ do rotate V d p; pure p | false ↦ pure z ]
    p' ← reads (get_parent V z')
    gp ← reads (get_parent V p')
    set_color V p' rb_black
    set_color V gp rb_red
    rotate V (opposite d) gp
    pure z'

  -- One round of the loop, with the parent on side `d` of the grandparent; the next `z`.
  unfoldable pub fix_under : Direction → (z p gp : ℕ) → Method IntentBook ℕ
  fix_under d z p gp = do
    uncle ← reads (get_child V (opposite d) gp)
    uncle_color ← reads (get_color V uncle)
    elim (uncle != null_idx && uncle_color == rb_red) [
      | true ↦ do set_color V p rb_black; set_color V uncle rb_black; set_color V gp rb_red; pure gp
      | false ↦ fix_by_rotation d z p
    ]

  unfoldable pub fix_once : ℕ → Method IntentBook ℕ
  fix_once z = do
    p ← reads (get_parent V z)
    gp ← reads (get_parent V p)
    first ← reads (get_child V to_left gp)
    elim (p == first) [ true ↦ fix_under to_left z p gp | false ↦ fix_under to_right z p gp ]

  unfoldable pub insert_fixup : ℕ → ℕ → Method IntentBook ⊤
  insert_fixup zero z = raise panic
  insert_fixup (suc n) z = do
    red ← reads (has_red_parent z)
    elim red [
      | true ↦ do z' ← fix_once z; insert_fixup n z'
      | false ↦ do root ← reads V.root; blacken V root
    ]

  -- The new node hangs below the place that was found.
  unfoldable pub attach : (idx parent : ℕ) → Direction → Method IntentBook ⊤
  attach idx parent d = do set_parent V idx parent; set_child V d parent idx

  unfoldable pub insert_node : (ℕ → IntentBook → Result Direction) → ℕ → Method IntentBook ⊤
  insert_node steer idx = do
    fail_if (idx == null_idx) invalid_account_data
    put V (λ l. record { left = null_idx; right = null_idx; parent = null_idx; color = rb_red }) idx
    root ← reads V.root
    elim (root == null_idx) [
      | true ↦ do set_color V idx rb_black; V.set_root idx
      | false ↦ do
        (parent, d) ← reads (descend loop_bound steer root)
        attach idx parent d
        insert_fixup loop_bound idx
    ]
