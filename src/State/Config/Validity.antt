-- ===== src/State/Config/Validity.antt =====
-- Which instruments can be created.
use polyleverage.Base.{ℕ, ◌<◌, ◌≡◌, ◌⊎◌, ◌↔◌, true, inl, inr, contains, arith, Bool-cases}
use polyleverage.Method.{ok}
use polyleverage.State.Config.{
  InstrumentParams, InstrumentConfig, init_instrument, is_known, check_reference,
  allowed_leverage_bps, source_polymarket, source_pyth, validate_bucket_config,
}

-- A Pyth instrument has a reference price, a Polymarket instrument has none.
abbrev pub HasReference : InstrumentParams → Type 0
HasReference p =
    ((p.source ≡ source_pyth) × (0 < p.reference_usd))
    ⊎ ((p.source ≡ source_polymarket) × (p.reference_usd ≡ 0))

validate_bucket_config_iff :
    (leverage bucket tick : ℕ)
    → (validate_bucket_config leverage bucket tick ≡ ok tt)
      ↔ ((contains leverage allowed_leverage_bps ≡ true) × (0 < bucket) × (0 < tick))
unfolding validate_bucket_config
validate_bucket_config_iff leverage bucket tick =
    elim (Bool-cases (contains leverage allowed_leverage_bps)) [
      | inl e ↦ rw e (λ h. ground arith, λ h. ground arith)
      | inr e ↦ rw e (λ h. cc, λ h. cc)
    ]

check_reference_iff :
    (p : InstrumentParams)
    → ((is_known p.source ≡ true) × (check_reference p.source p.reference_usd ≡ ok tt))
      ↔ HasReference p
unfolding is_known check_reference
check_reference_iff p = (λ h. ground arith, λ h. ground arith)

-- The tests of `init_instrument`, one after the other.
init_instrument-eq-ok :
    (p : InstrumentParams) (old : InstrumentConfig)
    → ((init_instrument p old).0 ≡ ok tt) ↔ (
        (old.discriminator ≡ 0)
        × (is_known p.source ≡ true)
        × (check_reference p.source p.reference_usd ≡ ok tt)
        × (validate_bucket_config p.leverage_bps p.collateral_bucket p.tick_fp ≡ ok tt))
unfolding init_instrument
init_instrument-eq-ok p old = (λ h. ground arith, λ h. ground arith)

-- An instrument is set up exactly when its account is fresh, its leverage is in the list, its bucket
-- and its tick are positive, and it has a reference price if and only if it is a Pyth instrument.
pub init_instrument_iff :
    (p : InstrumentParams) (old : InstrumentConfig)
    → ((init_instrument p old).0 ≡ ok tt) ↔ (
        (old.discriminator ≡ 0)
        × (contains p.leverage_bps allowed_leverage_bps ≡ true)
        × (0 < p.collateral_bucket)
        × (0 < p.tick_fp)
        × HasReference p)
init_instrument_iff p old =
    let bucket = validate_bucket_config_iff p.leverage_bps p.collateral_bucket p.tick_fp in
    let reference = check_reference_iff p in
    let tests = init_instrument-eq-ok p old in
    (
      λ h.
          let (fresh, known, referenced, bucketed) = tests.0 h in
          let (leverage, positive, tick) = bucket.0 bucketed in
          (fresh, leverage, positive, tick, reference.0 (known, referenced)),
      λ (fresh, leverage, positive, tick, has).
          let (known, referenced) = reference.1 has in
          tests.1 (fresh, known, referenced, bucket.1 (leverage, positive, tick)),
    )
