-- ===== src/State/Market.antt =====
-- `MarketNonceAccount` of src/state/market_nonce.rs: the last attestation accepted for a market.
-- Padding and reserved bytes are left out.
use polyleverage.Base.{ℕ, ◌!=◌, if◌then◌else◌}
use polyleverage.Error.{custom, already_initialized}
use polyleverage.Method.{ok, err, ⊤, Method}

abbrev pub disc_market_nonce : ℕ
disc_market_nonce = 8

pub record MarketNonce : Type 0 where
  pub discriminator : ℕ
  pub is_resolved : ℕ
  pub bump : ℕ
  pub market_id : ℕ
  pub last_accepted_cre_nonce : ℕ
  pub last_accepted_twap_fp : ℕ
  pub last_accepted_ts : ℕ
  pub final_outcome_bps : ℕ

unfoldable pub init : ℕ → ℕ → Method MarketNonce ⊤
init market bump n = if n.discriminator != 0 then (err (custom already_initialized), n) else (
  ok tt,
  record {
    discriminator = disc_market_nonce;
    is_resolved = 0;
    bump = bump;
    market_id = market;
    last_accepted_cre_nonce = 0;
    last_accepted_twap_fp = 0;
    last_accepted_ts = 0;
    final_outcome_bps = 0;
  },
)
