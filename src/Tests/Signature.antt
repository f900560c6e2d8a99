-- ===== src/Tests/Signature.antt =====
-- Attestations at concrete bytes.
use polyleverage.Base.{ℕ, ◌+◌, ◌≤◌, ◌<◌, ◌≡◌, ◌↔◌, refl, List, arith, length}
use polyleverage.Base.Bytes.{from_be_bytes, to_le_bytes}
use polyleverage.Method.{ok}
use polyleverage.Attestation.{
  att_type_resolution, att_type_historical_liquidation, attestation_len, parse, attestation_type,
  market_id, timestamp, nonce, extract_verified_ed25519_message, check_header, check_ranges,
  validate_freshness_and_nonce,
}
use polyleverage.Attestation.Fresh.{validate_freshness_and_nonce_iff}
use polyleverage.Attestation.Layout.{build_attestation, breach_payload, parse-build_attestation}
use polyleverage.Attestation.Signed.{extract_signed}
use polyleverage.Tests.Settle.{key_bytes, ed25519_instruction}

abbrev message : List ℕ
message = build_attestation att_type_resolution (key_bytes 7) 990 6 (to_le_bytes 2 5_000)

validate_freshness_and_nonce_iff_example :
    (validate_freshness_and_nonce message 7 5 1_000 60 ≡ ok tt) ↔ (
      (market_id message ≡ 7)
      × (timestamp message ≤ 1_000)
      × (1_000 ≤ timestamp message + 60)
      × (5 < nonce message))
validate_freshness_and_nonce_iff_example = validate_freshness_and_nonce_iff message 7 5 1_000 60

-- One key has signed one message.
abbrev Signed : ℕ → List ℕ → Type 0
Signed k m = (k ≡ 99) × (m ≡ message)

extract_runs : extract_verified_ed25519_message (ed25519_instruction message) 99 ≡ ok message
unfolding extract_verified_ed25519_message check_header check_ranges
extract_runs = refl

extract_signed_example : Signed 99 message × (length message ≡ attestation_len)
extract_signed_example =
    extract_signed Signed (ed25519_instruction message) 99 (λ _ _ _ _. (refl, refl)) extract_runs

parse-build_attestation_example :
    (parse message ≡ ok message)
    × (attestation_type message ≡ att_type_resolution)
    × (market_id message ≡ from_be_bytes (key_bytes 7))
    × (timestamp message ≡ 990)
    × (nonce message ≡ 6)
parse-build_attestation_example =
    parse-build_attestation att_type_resolution (key_bytes 7) 990 6 (to_le_bytes 2 5_000) refl
      (omega arith) (omega arith)

abbrev breach : List ℕ
breach =
    build_attestation att_type_historical_liquidation (key_bytes 7) 990 6
      (breach_payload (key_bytes 5) 400 900)
