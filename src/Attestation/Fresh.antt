-- ===== src/Attestation/Fresh.antt =====
-- When an attestation is fresh.
use polyleverage.Base.{ℕ, ◌+◌, ◌≤◌, ◌<◌, ◌≡◌, ◌↔◌, List, arith}
use polyleverage.Method.{ok}
use polyleverage.Attestation.{market_id, timestamp, nonce, validate_freshness_and_nonce}

-- An attestation is accepted exactly when it is for the market, signed no later than now and no
-- longer ago than the bound, and carries a nonce above the last one accepted.
pub validate_freshness_and_nonce_iff :
    (att : List ℕ) (market last now staleness : ℕ)
    → (validate_freshness_and_nonce att market last now staleness ≡ ok tt) ↔ (
        (market_id att ≡ market)
        × (timestamp att ≤ now)
        × (now ≤ timestamp att + staleness)
        × (last < nonce att))
unfolding validate_freshness_and_nonce
validate_freshness_and_nonce_iff att market last now staleness =
    (λ h. ground arith, λ h. ground arith)
