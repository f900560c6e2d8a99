-- ===== src/Book/IntentTree/Walk.antt =====
-- The walk over a side (`for_each_best_first` of src/state/intent_tree.rs) and the order of the tree.
use polyleverage.Base.{
  ℕ, zero, suc, ◌+◌, ◌-◌, ◌*◌, ◌≤◌, ◌≡◌, ◌≢◌, refl, sym, ap, ◌∙◌, Bool, true, false, List, [], ◌∷◌,
  ◌++◌, arith, length, max, leb, ◌!=◌,
}
use polyleverage.Method.{Result, ok}
use polyleverage.Book.{IntentBook, IntentNode, intent, null_idx}
use polyleverage.Book.IntentTree.{
  tree_root, stack_cap, walk_bound, walk, for_each_best_first, go_on,
}

-- The tree that the links of a book spell out.
pub data Tree : Type 0 where
  leaf : Tree
  node : Tree → ℕ → IntentNode → Tree → Tree

-- The tree that hangs at an index.
abbrev pub Shape : IntentBook → Tree → ℕ → Type 0
Shape b leaf i = i ≡ null_idx
Shape b (node l k n r) i =
    (i ≡ k) × (k ≢ null_idx) × (intent k b ≡ ok n) × Shape b l n.left × Shape b r n.right

abbrev pub height : Tree → ℕ
height leaf = 0
height (node l k n r) = suc (max (height l) (height r))

-- The nodes from left to right.
abbrev pub in_order : Tree → List (ℕ × IntentNode)
in_order leaf = []
in_order (node l k n r) = in_order l ++ ((k, n) ∷ in_order r)

module _ {S : Type 0} where
  abbrev pub and_then : Bool × S → (S → Bool × S) → Bool × S
  and_then (true, s) f = f s
  and_then (false, s) f = (false, s)

  and_then-and_then :
      (p : Bool × S) (f g h : S → Bool × S)
      → ((s : S) → h s ≡ and_then (f s) g)
      → and_then p h ≡ and_then (and_then p f) g
  and_then-and_then (true, s) f g h e = e s
  and_then-and_then (false, s) f g h e = refl

  go_on-and_then :
      (p : Bool × S) (f : S → Bool × S) (g h : S → Result S)
      → ((s : S) → g s ≡ go_on (f s) h)
      → go_on p g ≡ go_on (and_then p f) h
  go_on-and_then (true, s) f g h e = e s
  go_on-and_then (false, s) f g h e = refl

-- The rounds that a tree takes, one down and one up for each node, and `spare` more.
abbrev rounds : Tree → ℕ → ℕ
rounds leaf spare = spare
rounds (node l k n r) spare = suc (rounds l (suc (rounds r spare)))

abbrev steps : Tree → ℕ
steps leaf = 0
steps (node l k n r) = suc (steps l + suc (steps r))

rounds-steps : (t : Tree) (spare : ℕ) → rounds t spare ≡ steps t + spare
rounds-steps leaf spare = omega arith
rounds-steps (node l k n r) spare =
    omega (arith, rounds-steps l (suc (rounds r spare)), rounds-steps r spare)

abbrev pow2 : ℕ → ℕ
pow2 zero = 1
pow2 (suc h) = pow2 h + pow2 h

pow2-stack_cap : pow2 stack_cap ≡ 0x1_0000_0000_0000_0000
pow2-stack_cap = refl

pow2_positive : (h : ℕ) → 1 ≤ pow2 h
pow2_positive zero = omega arith
pow2_positive (suc h) = omega (arith, pow2_positive h)

steps-pow2 : (t : Tree) (h : ℕ) → height t ≤ h → steps t + 2 ≤ 2 * pow2 h
steps-pow2 leaf h fits = omega (arith, pow2_positive h)
steps-pow2 (node l k n r) zero fits = absurd (omega arith)
steps-pow2 (node l k n r) (suc h) fits =
    omega (arith, steps-pow2 l h (omega arith), steps-pow2 r h (omega arith))

module _ {S : Type 0} (visitor : ℕ → IntentNode → S → Bool × S) where
  -- The visits of a list, until the visitor says stop.
  abbrev pub visit : List (ℕ × IntentNode) → S → Bool × S
  visit [] s = (true, s)
  visit ((k, n) ∷ rest) s = and_then (visitor k n s) (visit rest)

  -- Visits of a list that is cut in two.
  visit-append :
      (xs ys : List (ℕ × IntentNode)) (s : S)
      → visit (xs ++ ys) s ≡ and_then (visit xs s) (visit ys)
  visit-append [] ys s = refl
  visit-append ((k, n) ∷ xs) ys s =
      and_then-and_then (visitor k n s) (visit xs) (visit ys) (visit (xs ++ ys))
        (visit-append xs ys)

  -- One round down, and one up.
  walk_down :
      (b : IntentBook) (stack : List ℕ) (k : ℕ) (n : IntentNode) (m : ℕ) (s : S)
      → k ≢ null_idx
      → intent k b ≡ ok n
      → suc (length stack) ≤ stack_cap
      → walk (suc m) visitor b stack k s ≡ walk m visitor b (k ∷ stack) n.left s
  unfolding walk
  walk_down b stack k n m s nonnull found room =
      let down : (k != null_idx) ≡ true = ground arith in
      let fits : leb stack_cap (length stack) ≡ false = ground arith in
      rw (walk, down, fits, found) refl

  walk_up :
      (b : IntentBook) (stack : List ℕ) (k : ℕ) (n : IntentNode) (m : ℕ) (s : S)
      → intent k b ≡ ok n
      → walk (suc m) visitor b (k ∷ stack) null_idx s
        ≡ go_on (visitor k n s) (walk m visitor b stack n.right)
  unfolding walk
  walk_up b stack k n m s found = rw (walk, found) refl

  module _ (b : IntentBook) where
    -- With room on the stack and rounds to spare, the walk visits the tree and goes on with the
    -- stack.
    walk-visit :
        (t : Tree) (i : ℕ) (stack : List ℕ) (spare : ℕ) (s : S)
        → Shape b t i
        → length stack + height t ≤ stack_cap
        → walk (rounds t spare) visitor b stack i s
          ≡ go_on (visit (in_order t) s) (walk spare visitor b stack null_idx)
    walk-visit leaf i stack spare s here room = ap (λ c. walk spare visitor b stack c s) here
    walk-visit (node l k n r) i stack spare s (here, nonnull, found, left, right) room =
        let m = rounds r spare in
        let on : (s : S)
            → go_on (visitor k n s) (walk m visitor b stack n.right)
              ≡ go_on (visit ((k, n) ∷ in_order r) s) (walk spare visitor b stack null_idx) =
          λ s.
            go_on-and_then (visitor k n s) (visit (in_order r)) (walk m visitor b stack n.right)
              (walk spare visitor b stack null_idx)
              (λ s'. walk-visit r n.right stack spare s' right (omega arith)) in
        ap (λ c. walk (rounds (node l k n r) spare) visitor b stack c s) here
        ∙ (walk_down b stack k n (rounds l (suc m)) s nonnull found (omega arith)
            ∙ (walk-visit l n.left (k ∷ stack) (suc m) s left (omega arith)
                ∙ (go_on-and_then (visit (in_order l) s) (visit ((k, n) ∷ in_order r))
                      (walk (suc m) visitor b (k ∷ stack) null_idx)
                      (walk spare visitor b stack null_idx)
                      (λ s'. walk_up b stack k n m s' found ∙ on s')
                    ∙ ap (λ p. go_on p (walk spare visitor b stack null_idx))
                        (sym (visit-append (in_order l) ((k, n) ∷ in_order r) s)))))

  walk_end :
      (b : IntentBook) (m : ℕ) (p : Bool × S)
      → go_on p (walk (suc m) visitor b [] null_idx) ≡ ok p.1
  unfolding walk
  walk_end b m (true, s) = refl
  walk_end b m (false, s) = refl

  -- The walk over a side whose tree has at most 64 levels visits the intents from left to right,
  -- until the visitor says stop, and ends with the state that the visitor left.
  pub for_each_best_first-visit :
      (b : IntentBook) (side root : ℕ) (t : Tree) (s : S)
      → tree_root side b ≡ ok root
      → Shape b t root
      → height t ≤ stack_cap
      → for_each_best_first b side visitor s ≡ ok (visit (in_order t) s).1
  unfolding for_each_best_first
  for_each_best_first-visit b side root t s at shape fits =
      let m = walk_bound - suc (steps t) in
      let enough : walk_bound ≡ rounds t (suc m) =
        omega (arith, rounds-steps t (suc m), steps-pow2 t stack_cap fits, pow2-stack_cap) in
      rw (for_each_best_first, at)
        (ap (λ n. walk n visitor b [] root s) enough
          ∙ (walk-visit b t root [] (suc m) s shape (omega arith)
              ∙ walk_end b m (visit (in_order t) s)))
