-- ===== src/Attestation/Layout.antt =====
-- The layout of an attestation (src/attestation.rs): fields written and read.
use polyleverage.Base.{
  ℕ, ◌+◌, ◌^◌, ◌<◌, ◌≤◌, ◌≡◌, ◌∙◌, refl, ap, List, [], ◌∷◌, ◌++◌, arith, length, length-append,
  take, drop, fill, length-fill, fill_full, i64_max, as_i64,
}
use polyleverage.Base.Int.{pos}
use polyleverage.Base.Bytes.{
  from_le_bytes, to_le_bytes, from_be_bytes, from_le_bytes-to_le_bytes, take-append,
  drop-append_more, slice-append,
}
use polyleverage.Method.{ok}
use polyleverage.Attestation.{
  parse, attestation_magic, attestation_type, market_id, timestamp, nonce, breach_pmlc_pubkey,
  breach_mark_fp, breach_unix_ts, att_type_historical_liquidation,
}

-- `build_attestation` of the tests: magic, type, three zero bytes, market, timestamp, nonce, and a
-- payload that is filled up to 48 bytes.
abbrev pub build_attestation : ℕ → List ℕ → ℕ → ℕ → List ℕ → List ℕ
build_attestation att_type market ts n payload =
    attestation_magic
    ++ (att_type ∷ 0 ∷ 0 ∷ 0 ∷ []
        ++ (market ++ (to_le_bytes 8 ts ++ (to_le_bytes 8 n ++ fill 48 0 payload))))

-- The payload of a liquidation: contract, price and time of the breach.
abbrev pub breach_payload : List ℕ → ℕ → ℕ → List ℕ
breach_payload pmlc mark ts = pmlc ++ (to_le_bytes 8 mark ++ to_le_bytes 8 ts)

module _ (att_type : ℕ) (market : List ℕ) (ts n : ℕ) (payload : List ℕ)
    (size : length market ≡ 32) where
  abbrev built : List ℕ
  built = build_attestation att_type market ts n payload

  length-built : length built ≡ 104
  length-built = omega (
    arith,
    length-append market (to_le_bytes 8 ts ++ (to_le_bytes 8 n ++ fill 48 0 payload)),
    length-fill 48 0 payload,
  )

  -- An attestation that is laid out for a market of 32 bytes is accepted by the parser, and type,
  -- market, timestamp and nonce are read back as they were written.
  pub parse-build_attestation :
      ts < 256 ^ 8
      → n < 256 ^ 8
      → (parse built ≡ ok built)
        × (attestation_type built ≡ att_type)
        × (market_id built ≡ from_be_bytes market)
        × (timestamp built ≡ ts)
        × (nonce built ≡ n)
  unfolding parse attestation_type market_id timestamp nonce
  parse-build_attestation h k = (
    ground (arith, length-built),
    refl,
    ap from_be_bytes (take-append market _ 32 size),
    ap from_le_bytes (slice-append market (to_le_bytes 8 ts) _ 32 8 size refl)
        ∙ from_le_bytes-to_le_bytes 8 ts h,
    ap from_le_bytes (ap (take 8) (drop-append_more market _ 40 8 (omega arith)))
        ∙ from_le_bytes-to_le_bytes 8 n k,
  )

-- The payload of a liquidation attestation gives back contract, price and time of the breach; the
-- time is a positive `i64`.
pub breach-build_attestation :
    (market : List ℕ) (ts n : ℕ) (pmlc : List ℕ) (mark breach_ts : ℕ)
    → length market ≡ 32
    → length pmlc ≡ 32
    → mark < 256 ^ 8
    → breach_ts ≤ i64_max
    → let att =
        build_attestation att_type_historical_liquidation market ts n
          (breach_payload pmlc mark breach_ts) in
      (breach_pmlc_pubkey att ≡ ok (from_be_bytes pmlc))
      × (breach_mark_fp att ≡ ok mark)
      × (breach_unix_ts att ≡ ok (pos breach_ts))
unfolding breach_pmlc_pubkey breach_mark_fp breach_unix_ts attestation_type
breach-build_attestation market ts n pmlc mark breach_ts size pmlc_size h k = (
  ap (λ (bs : List ℕ). ok (from_be_bytes bs))
      (ap (take 32) (payload_at 48 0 refl) ∙ take-append pmlc _ 32 pmlc_size),
  ap (λ (bs : List ℕ). ok (from_le_bytes bs))
        (ap (take 8) (payload_at 80 32 refl)
          ∙ slice-append pmlc (to_le_bytes 8 mark) _ 32 8 pmlc_size refl)
      ∙ ap (λ (v : ℕ). ok v) (from_le_bytes-to_le_bytes 8 mark h),
  ap (λ (bs : List ℕ). ok (as_i64 (from_le_bytes bs)))
        (ap (take 8) (payload_at 88 40 refl ∙ drop-append_more pmlc _ 40 8 (omega arith)))
      ∙ ap (λ (v : ℕ). ok (as_i64 v)) (from_le_bytes-to_le_bytes 8 breach_ts (omega arith))
      ∙ ground arith,
)
  where
    payload : List ℕ
    payload = breach_payload pmlc mark breach_ts

    full : fill 48 0 payload ≡ payload
    full =
        fill_full 48 0 payload
          (omega (arith, length-append pmlc (to_le_bytes 8 mark ++ to_le_bytes 8 breach_ts)))

    payload_at :
        (k m : ℕ)
        → k ≡ 48 + m
        → drop k (market ++ (to_le_bytes 8 ts ++ (to_le_bytes 8 n ++ fill 48 0 payload)))
          ≡ drop m payload
    payload_at k m e = rw full (
        drop-append_more market _ k (16 + m) (omega arith)
        ∙ drop-append_more (to_le_bytes 8 ts ++ to_le_bytes 8 n) payload (16 + m) m (omega arith))
