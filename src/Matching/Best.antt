-- ===== src/Matching/Best.antt =====
-- What `scan_for_first_valid_pair` finds.
use mathlib.Core.List.{Memᴰ}
use polyleverage.Base.{
  ℕ, ◌≤◌, ◌<◌, ◌≡◌, inl, inr, refl, ap, Bool, true, false, Option, none, some, List, arith, leb,
  Bool-cases,
}
use polyleverage.Method.{ok}
use polyleverage.Book.{IntentBook, IntentNode, side_long, side_short}
use polyleverage.Book.IntentTree.{tree_root, stack_cap, is_live, first_live}
use polyleverage.Book.IntentTree.Walk.{Tree, Shape, height, in_order}
use polyleverage.Book.IntentTree.Best.{Sorted, IsBest, first_live-IsBest}
use polyleverage.Matching.{crossing_ids, scan_for_first_valid_pair}

-- A side of a book: a tree of at most 64 levels, sorted by price-time priority.
pub record Side (b : IntentBook) (side : ℕ) : Type 0 where
  pub root : ℕ
  pub tree : Tree
  pub found : tree_root side b ≡ ok root
  pub shape : Shape b tree root
  pub low : height tree ≤ stack_cap
  pub sorted : Sorted side (in_order tree)

abbrev pub Items : Type 0
Items = List (ℕ × IntentNode)

-- The best live intents of both sides, which cross; or no live long crosses a live short.
abbrev pub IsFirstPair : (now_slot : ℕ) → (longs shorts : Items) → Option (ℕ × ℕ) → Type 0
IsFirstPair now_slot longs shorts (some (l, s)) =
    (long short : ℕ × IntentNode) × IsBest side_long now_slot longs (some long)
    × IsBest side_short now_slot shorts (some short)
    × (long.1.id ≡ l)
    × (short.1.id ≡ s)
    × (short.1.price_fp ≤ long.1.price_fp)
IsFirstPair now_slot longs shorts none =
    (long short : ℕ × IntentNode)
    → Memᴰ long longs
    → Memᴰ short shorts
    → is_live now_slot long.1 ≡ true
    → is_live now_slot short.1 ≡ true
    → long.1.price_fp < short.1.price_fp

clash : {b : Bool} → b ≡ true → b ≡ false → ⊥
clash e f = cc

-- No live bid is above the best, and no live ask below it.
best_bid :
    (now_slot : ℕ) (items : Items) (best p : ℕ × IntentNode)
    → IsBest side_long now_slot items (some best)
    → Memᴰ p items
    → is_live now_slot p.1 ≡ true
    → p.1.price_fp ≤ best.1.price_fp
best_bid now_slot items best p (_, _, wins) m live = elim (wins p m live) [
  | inl same ↦ let e = ap (λ (q : ℕ × IntentNode). q.1.price_fp) same in omega (arith, e)
  | inr before ↦ ground arith
]

best_ask :
    (now_slot : ℕ) (items : Items) (best p : ℕ × IntentNode)
    → IsBest side_short now_slot items (some best)
    → Memᴰ p items
    → is_live now_slot p.1 ≡ true
    → best.1.price_fp ≤ p.1.price_fp
best_ask now_slot items best p (_, _, wins) m live = elim (wins p m live) [
  | inl same ↦ let e = ap (λ (q : ℕ × IntentNode). q.1.price_fp) same in omega (arith, e)
  | inr before ↦ ground arith
]

crossing_ids-IsFirstPair :
    (now_slot : ℕ) (longs shorts : Items) (best_long best_short : Option (ℕ × IntentNode))
    → IsBest side_long now_slot longs best_long
    → IsBest side_short now_slot shorts best_short
    → IsFirstPair now_slot longs shorts (crossing_ids best_long best_short)
crossing_ids-IsFirstPair now_slot longs shorts none best_short hl hs =
    λ long short ml ms ll ls. absurd (clash ll (hl long ml))
crossing_ids-IsFirstPair now_slot longs shorts (some l) none hl hs =
    λ long short ml ms ll ls. absurd (clash ls (hs short ms))
crossing_ids-IsFirstPair now_slot longs shorts (some (i, l)) (some (j, s)) hl hs =
    elim (Bool-cases (leb s.price_fp l.price_fp)) [
      | inl e ↦ rw e ((i, l), (j, s), hl, hs, refl, refl, ground arith)
      | inr e ↦ rw e (λ long short ml ms ll ls.
          let bid = best_bid now_slot longs (i, l) long hl ml ll in
          let ask = best_ask now_slot shorts (j, s) short hs ms ls in ground (arith, bid, ask))
    ]

scan-crossing_ids :
    (b : IntentBook) (now_slot : ℕ) (x y : Option (ℕ × IntentNode))
    → first_live b side_long now_slot ≡ ok x
    → first_live b side_short now_slot ≡ ok y
    → scan_for_first_valid_pair b now_slot ≡ ok (crossing_ids x y)
unfolding scan_for_first_valid_pair
scan-crossing_ids b now_slot x y fl fs = ground (arith, fl, fs)

-- On a book whose two sides are trees of at most 64 levels, sorted by price-time priority, the scan
-- succeeds. It returns the ids of the best live long and of the best live short, and these cross; or
-- nothing, and then no live long crosses a live short.
pub scan-IsFirstPair :
    (b : IntentBook) (now_slot : ℕ) (longs : Side b side_long) (shorts : Side b side_short)
    → (found : Option (ℕ × ℕ)) × (scan_for_first_valid_pair b now_slot ≡ ok found)
      × IsFirstPair now_slot (in_order longs.tree) (in_order shorts.tree) found
scan-IsFirstPair b now_slot longs shorts =
    let (best_long, fl, hl) =
      first_live-IsBest b side_long now_slot longs.root longs.tree longs.found longs.shape longs.low
        longs.sorted in
    let (best_short, fs, hs) =
      first_live-IsBest b side_short now_slot shorts.root shorts.tree shorts.found shorts.shape
        shorts.low shorts.sorted in
    (
      crossing_ids best_long best_short,
      scan-crossing_ids b now_slot best_long best_short fl fs,
      crossing_ids-IsFirstPair now_slot (in_order longs.tree) (in_order shorts.tree) best_long
          best_short hl hs,
    )
