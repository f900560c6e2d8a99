-- ===== src/Book/IntentTree/Best.antt =====
-- The intent that a side offers for a match.
use mathlib.Core.List.{Memᴰ}
use mathlib.Core.List.Memᴰ
use polyleverage.Base.{
  ℕ, ◌≤◌, ◌≡◌, ◌⊎◌, inl, inr, refl, ap, ◌∙◌, true, false, Option, none, some, List, [], ◌∷◌,
  Bool-cases,
}
use polyleverage.Method.{ok}
use polyleverage.Book.{IntentBook, IntentNode}
use polyleverage.Book.IntentTree.{tree_root, stack_cap, is_live, stop_at_live, first_live}
use polyleverage.Book.IntentTree.Order.{Precedes}
use polyleverage.Book.IntentTree.Walk.{
  Tree, Shape, height, in_order, visit, for_each_best_first-visit,
}

-- Each node of the list precedes all that follow it.
abbrev pub Sorted : ℕ → List (ℕ × IntentNode) → Type 0
Sorted side [] = Unit
Sorted side ((k, n) ∷ rest) =
    ((p : ℕ × IntentNode) → Memᴰ p rest → Precedes side n p.1) × Sorted side rest

-- Nothing that is live, or the live node that precedes every other.
abbrev pub IsBest : ℕ → ℕ → List (ℕ × IntentNode) → Option (ℕ × IntentNode) → Type 0
IsBest side now_slot items none = (p : ℕ × IntentNode) → Memᴰ p items → is_live now_slot p.1 ≡ false
IsBest side now_slot items (some best) =
    Memᴰ best items
    × (is_live now_slot best.1 ≡ true)
    × ((p : ℕ × IntentNode)
        → Memᴰ p items
        → is_live now_slot p.1 ≡ true
        → (p ≡ best) ⊎ Precedes side best.1 p.1)

-- What the search over a list finds.
visit-IsBest :
    (side now_slot : ℕ) (items : List (ℕ × IntentNode))
    → Sorted side items
    → IsBest side now_slot items (visit (stop_at_live now_slot) items none).1
visit-IsBest side now_slot [] sorted = λ p m. absurd (Memᴰ.not-nil m)
visit-IsBest side now_slot ((k, n) ∷ rest) (before, sorted) =
    elim (Bool-cases (is_live now_slot n)) [
      | inl e ↦ rw e (
        Memᴰ.head refl,
        e,
        λ p m live. elim (Memᴰ.cases_cons m) [
          | inl same ↦ inl same
          | inr later ↦ inr (before p later)
        ],
      )
      | inr e ↦ rw e (
          go (visit (stop_at_live now_slot) rest none).1 (visit-IsBest side now_slot rest sorted) e)
    ]
  where
    go :
        (found : Option (ℕ × IntentNode))
        → IsBest side now_slot rest found
        → is_live now_slot n ≡ false
        → IsBest side now_slot ((k, n) ∷ rest) found
    go none h e = λ p m. elim (Memᴰ.cases_cons m) [
      | inl same ↦ ap (λ (q : ℕ × IntentNode). is_live now_slot q.1) same ∙ e
      | inr later ↦ h p later
    ]
    go (some best) (member, live, wins) e = (
      Memᴰ.tail member,
      live,
      λ p m alive. elim (Memᴰ.cases_cons m) [
        | inl same ↦ absurd (dead p same alive)
        | inr later ↦ wins p later alive
      ],
    )
      where
        dead : (p : ℕ × IntentNode) → p ≡ (k, n) → is_live now_slot p.1 ≡ true → ⊥
        dead p same alive = let here = ap (λ (q : ℕ × IntentNode). is_live now_slot q.1) same in cc

-- On a side whose tree has at most 64 levels and is sorted by price-time priority, the search
-- succeeds and finds the best live intent: one that is live and precedes every other live intent of
-- the side. It finds none only if none is live.
pub first_live-IsBest :
    (b : IntentBook) (side now_slot root : ℕ) (t : Tree)
    → tree_root side b ≡ ok root
    → Shape b t root
    → height t ≤ stack_cap
    → Sorted side (in_order t)
    → (found : Option (ℕ × IntentNode)) × (first_live b side now_slot ≡ ok found)
      × IsBest side now_slot (in_order t) found
unfolding first_live
first_live-IsBest b side now_slot root t at shape fits sorted = (
  (visit (stop_at_live now_slot) (in_order t) none).1,
  for_each_best_first-visit (stop_at_live now_slot) b side root t none at shape fits,
  visit-IsBest side now_slot (in_order t) sorted,
)
