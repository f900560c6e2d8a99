-- ===== src/Book/RedBlack.antt =====
-- The red-black trees of the book: what src/state/intent_tree.rs and src/state/seat_tree.rs do in the
-- same way, over a view of the nodes and of the root. The two directions, which the source writes
-- out one after the other, are a parameter.
pub mod Insert
pub mod Remove
use polyleverage.Base.{
  ℕ, suc, ◌≡◌, Bool, true, false, ◌&&◌, Option, none, some, List, length, get_elem?, set, ◌==◌,
  ◌!=◌, if◌then◌else◌,
}
use polyleverage.Error.{ProgramError, custom, panic, invalid_account_data, intent_not_found}
use polyleverage.Method.{Result, ok, err, ⊤, Method, pure, raise, reads, lift, fail_if, ◌>>=◌, ◌>>◌}
use polyleverage.Book.{IntentBook, RawNode, rb_red, rb_black, null_idx}

-- What the nodes of both kinds of tree have.
pub record Links : Type 0 where
  pub left : ℕ
  pub right : ℕ
  pub parent : ℕ
  pub color : ℕ

pub data Direction : Type 0 where
  to_left to_right : Direction

abbrev pub opposite : Direction → Direction
opposite to_left = to_right
opposite to_right = to_left

abbrev pub child : Direction → Links → ℕ
child to_left l = l.left
child to_right l = l.right

abbrev pub with_child : Direction → ℕ → Links → Links
with_child to_left v l = record l { left = v }
with_child to_right v l = record l { right = v }

-- One of the trees: how a slot shows the links of its nodes, and where the root is.
pub record TreeView : Type 0 where
  pub links_of : RawNode → Option Links
  pub with_links : Links → RawNode → RawNode
  pub root : IntentBook → Result ℕ
  pub set_root : ℕ → Method IntentBook ⊤
  pub checks_pivot : Bool

-- More steps than there are indices.
abbrev pub loop_bound : ℕ
loop_bound = 0x1_0000_0000

-- `if test { call }`
abbrev pub when : Bool → Method IntentBook ⊤ → Method IntentBook ⊤
when test call = elim test [ true ↦ call | false ↦ pure tt ]

module _ (V : TreeView) where
  -- The links of the node at an index.
  unfoldable pub links : ℕ → IntentBook → Result Links
  links idx b = elim (get_elem? b.nodes idx) [
    | none ↦ err invalid_account_data
    | some slot ↦ elim (V.links_of slot) [ none ↦ err (custom intent_not_found) | some l ↦ ok l ]
  ]

  -- A link of the node, or `default` at the sentinel.
  unfoldable pub get : (Links → ℕ) → ℕ → ℕ → IntentBook → Result ℕ
  unfolding links
  get field default idx b =
      if idx == null_idx
      then ok default
      else elim (links idx b) [ err e ↦ err e | ok l ↦ ok (field l) ]

  -- A write to a link of the node; none at the sentinel.
  unfoldable pub put : (Links → Links) → ℕ → Method IntentBook ⊤
  unfolding links
  put change idx b = if idx == null_idx then (ok tt, b) else elim (get_elem? b.nodes idx) [
    | none ↦ (err invalid_account_data, b)
    | some slot ↦ elim (V.links_of slot) [
      | none ↦ (err (custom intent_not_found), b)
      | some l ↦ (ok tt, record b { nodes = set b.nodes idx (V.with_links (change l) slot) })
    ]
  ]

  abbrev pub get_child : Direction → ℕ → IntentBook → Result ℕ
  get_child d idx = get (child d) null_idx idx

  abbrev pub get_parent : ℕ → IntentBook → Result ℕ
  get_parent idx = get (λ l. l.parent) null_idx idx

  -- The sentinel is black.
  abbrev pub get_color : ℕ → IntentBook → Result ℕ
  get_color idx = get (λ l. l.color) rb_black idx

  abbrev pub set_child : Direction → ℕ → ℕ → Method IntentBook ⊤
  set_child d idx v = put (with_child d v) idx

  abbrev pub set_parent : ℕ → ℕ → Method IntentBook ⊤
  set_parent idx v = put (λ l. record l { parent = v }) idx

  abbrev pub set_color : ℕ → ℕ → Method IntentBook ⊤
  set_color idx c = put (λ l. record l { color = c }) idx

  -- `new` takes the place of `old` under `parent`, or at the root; `d` is the child that is looked
  -- at first.
  unfoldable pub replace_child : Direction → (parent old new : ℕ) → Method IntentBook ⊤
  replace_child d parent old new = elim (parent == null_idx) [
    | true ↦ V.set_root new
    | false ↦ do
      at ← reads (get_child d parent)
      elim (at == old) [ true ↦ set_child d parent new | false ↦ set_child (opposite d) parent new ]
  ]

  -- `rotate_left` and `rotate_right`: the child `y` of `x` against the direction comes up.
  unfoldable pub rotate : Direction → ℕ → Method IntentBook ⊤
  rotate d x = do
    y ← reads (get_child (opposite d) x)
    fail_if (V.checks_pivot && y == null_idx) invalid_account_data
    inner ← reads (get_child d y)
    set_child (opposite d) x inner
    when (inner != null_idx) (set_parent inner x)
    x_parent ← reads (get_parent x)
    set_parent y x_parent
    replace_child d x_parent x y
    set_child d y x
    set_parent x y

  -- `if root != NULL_IDX { set_color(root, RB_BLACK) }`
  unfoldable pub blacken : ℕ → Method IntentBook ⊤
  blacken idx = when (idx != null_idx) (set_color idx rb_black)
