-- ===== src/Matching/Pairs/Fills.antt =====
-- An intent that is filled contract by contract.
use native.Mathlib.Nat.{mul-div-le, suc-mul}
use polyleverage.Base.{
  ℕ, zero, suc, ◌+◌, ◌-◌, ◌*◌, ◌/◌, ◌≤◌, ◌<◌, ◌≡◌, refl, ap, ◌∙◌, true, arith, ◌==◌, if◌then◌else◌,
  u64_max, inl, inr, Bool-cases,
}
use polyleverage.Method.{Result, ok, err}
use polyleverage.Book.{IntentNode}
use polyleverage.Matching.{release_fee_buffer_for_fill}
use polyleverage.Matching.Pairs.{take_reserve, buffer_release, take_buffer}

-- A fill of one contract, as `match_pair_core` makes it on either side: what it gives back of the
-- fees set aside, and the intent that is left.
unfoldable pub fill : ℕ → IntentNode → Result (ℕ × IntentNode)
fill bucket node = elim (take_reserve bucket node) [
  | err e ↦ err e
  | ok reduced ↦ elim (buffer_release node) [
    | err e ↦ err e
    | ok release ↦ elim (take_buffer release reduced) [
      | err e ↦ err e
      | ok left ↦ ok (release, left)
    ]
  ]
]

-- Some fills in a row, with the sum of what they give back.
unfoldable pub fills : ℕ → ℕ → IntentNode → Result (ℕ × IntentNode)
fills zero bucket node = ok (0, node)
fills (suc n) bucket node = elim (fill bucket node) [
  | err e ↦ err e
  | ok (release, left) ↦ elim (fills n bucket left) [
    | err e ↦ err e
    | ok (later, end) ↦ ok (release + later, end)
  ]
]

-- The fees that a fill gives back: all of them for the last contract, else a proportional part.
abbrev pub share : IntentNode → ℕ
share node =
    if node.contracts_remaining == 1
    then node.fee_buffer
    else node.fee_buffer * 1 / node.contracts_remaining

div_le : (f n : ℕ) → 0 < n → f * 1 / n ≤ f
div_le f zero h = absurd (omega arith)
div_le f (suc m) h = omega (arith, mul-div-le (f * 1) (suc m), suc-mul m (f * 1 / suc m))

share-le : (node : IntentNode) → 0 < node.contracts_remaining → share node ≤ node.fee_buffer
share-le node h = elim (Bool-cases (node.contracts_remaining == 1)) [
  | inl e ↦ rw e (omega arith)
  | inr e ↦ rw e (div_le node.fee_buffer node.contracts_remaining h)
]

buffer_release-share :
    (node : IntentNode)
    → 0 < node.contracts_remaining
    → node.fee_buffer ≤ u64_max
    → buffer_release node ≡ ok (share node)
unfolding buffer_release release_fee_buffer_for_fill
buffer_release-share node h small = ground (arith, share-le node h)

-- A fill of an intent that has a contract left, with its collateral reserved.
abbrev pub after_fill : ℕ → IntentNode → IntentNode
after_fill bucket node = record node {
  contracts_remaining = node.contracts_remaining - 1;
  reserved_collateral = node.reserved_collateral - bucket;
  fee_buffer = node.fee_buffer - share node;
}

pub fill_lem :
    (bucket : ℕ) (node : IntentNode)
    → 0 < node.contracts_remaining
    → bucket ≤ node.reserved_collateral
    → node.fee_buffer ≤ u64_max
    → fill bucket node ≡ ok (share node, after_fill bucket node)
unfolding fill take_reserve take_buffer
fill_lem bucket node h reserved small =
    ground (arith, buffer_release-share node h small, share-le node h)

-- An intent without contracts, collateral and fees.
abbrev pub spent : IntentNode → IntentNode
spent node = record node { contracts_remaining = 0; reserved_collateral = 0; fee_buffer = 0 }

fills-suc :
    (n bucket : ℕ) (node left end : IntentNode) (release later : ℕ)
    → fill bucket node ≡ ok (release, left)
    → fills n bucket left ≡ ok (later, end)
    → fills (suc n) bucket node ≡ ok (release + later, end)
unfolding fills
fills-suc n bucket node left end release later first rest = ground (arith, first, rest)

-- An intent with a contract or more left and the collateral of each reserved can be filled contract
-- by contract to the end: every fill succeeds, together they give back exactly the fees set aside,
-- and nothing is left reserved.
pub fills-spent :
    (n bucket : ℕ) (node : IntentNode)
    → node.contracts_remaining ≡ suc n
    → node.reserved_collateral ≡ suc n * bucket
    → node.fee_buffer ≤ u64_max
    → fills (suc n) bucket node ≡ ok (node.fee_buffer, spent node)
fills-spent zero bucket node left reserved small =
    let step = fill_lem bucket node (omega (arith, left)) (omega (arith, reserved)) small in
    let none_left : fills zero bucket (after_fill bucket node) ≡ ok (0, after_fill bucket node) =
      unfold fills in refl in
    let last : (node.contracts_remaining == 1) ≡ true = ground (arith, left) in
    let all : share node ≡ node.fee_buffer = rw last refl in
    let whole : share node + 0 ≡ node.fee_buffer = omega (arith, all) in
    let none_remaining : node.contracts_remaining - 1 ≡ 0 = omega (arith, left) in
    let none_reserved : node.reserved_collateral - bucket ≡ 0 = omega (arith, reserved) in
    let none_buffered : node.fee_buffer - share node ≡ 0 = omega (arith, all) in
    fills-suc zero bucket node (after_fill bucket node) (after_fill bucket node) (share node) 0 step
      none_left
    ∙ (λ i. ok (
      whole i,
      record node {
        contracts_remaining = none_remaining i;
        reserved_collateral = none_reserved i;
        fee_buffer = none_buffered i;
      },
    ))
fills-spent (suc n) bucket node left reserved small =
    let step =
      fill_lem bucket node (omega (arith, left)) (omega (arith, reserved, suc-mul (suc n) bucket))
        small in
    let rest =
      fills-spent n bucket (after_fill bucket node) (omega (arith, left))
        (omega (arith, reserved, suc-mul (suc n) bucket)) (omega (arith, small)) in
    let whole : share node + (node.fee_buffer - share node) ≡ node.fee_buffer =
      omega (arith, share-le node (omega (arith, left))) in
    fills-suc (suc n) bucket node (after_fill bucket node) (spent node) (share node)
      (node.fee_buffer - share node) step rest
    ∙ ap (λ (x : ℕ). ok (x, spent node)) whole
