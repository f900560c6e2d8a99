-- ===== src/Book/IntentTree/Order.antt =====
-- The order of the intents on one side: price, then time.
use polyleverage.Base.{ℕ, ◌<◌, ◌≡◌, ◌↔◌, ◌⊎◌, ◌≢◌, arith}
use polyleverage.Book.{IntentNode, side_long}
use polyleverage.Book.IntentTree.{less, equal, greater, cmp, cmp_key}

-- The price of `a` is better for the other side than that of `b`: a higher bid, or a lower ask.
abbrev pub BetterPrice : ℕ → IntentNode → IntentNode → Type 0
BetterPrice side a b =
    ((side ≡ side_long) × (b.price_fp < a.price_fp))
    ⊎ ((side ≢ side_long) × (a.price_fp < b.price_fp))

-- Price-time priority: a better price, or the same price and an earlier post, or the same of both
-- and a lower id.
abbrev pub Precedes : ℕ → IntentNode → IntentNode → Type 0
Precedes side a b =
    BetterPrice side a b
    ⊎ ((a.price_fp ≡ b.price_fp)
        × ((a.post_seq < b.post_seq) ⊎ ((a.post_seq ≡ b.post_seq) × (a.id < b.id))))

-- The comparison of keys is price-time priority.
pub cmp_key_iff :
    (side : ℕ) (a b : IntentNode)
    → ((cmp_key side a b ≡ less) ↔ Precedes side a b)
      × ((cmp_key side a b ≡ greater) ↔ Precedes side b a)
      × ((cmp_key side a b ≡ equal)
          ↔ ((a.price_fp ≡ b.price_fp) × (a.post_seq ≡ b.post_seq) × (a.id ≡ b.id)))
unfolding cmp_key cmp
cmp_key_iff side a b = ground arith

-- Priority is transitive.
pub Precedes-trans :
    (side : ℕ) (a b c : IntentNode) → Precedes side a b → Precedes side b c → Precedes side a c
Precedes-trans side a b c h g = ground arith
