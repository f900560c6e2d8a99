-- ===== src/Attestation.antt =====
-- Attestations (src/attestation.rs): the signed message of 104 bytes, its fields, the search for it in
-- the transaction's Ed25519 instruction, and the tests of freshness.
pub mod Layout
pub mod Signed
pub mod Fresh
use polyleverage.Base.{
  ℕ, ◌+◌, ◌-◌, ◌≤◌, ◌≡◌, Bool, true, false, ◌||◌, Option, none, some, List, [], ◌∷◌, ltb, leb, ◌==◌,
  ◌!=◌, if◌then◌else◌, length, get_elem?, u16_max, as_i64,
}
use polyleverage.Base.Int.{ℤ}
use polyleverage.Base.Bytes.{from_le_bytes, from_be_bytes, slice, get_range}
use polyleverage.Error.{
  custom, invalid_instruction_data, attestation_bad_magic, attestation_wrong_type,
  attestation_wrong_market, attestation_stale, attestation_nonce_replayed, missing_ed25519_verify,
  ed25519_pubkey_mismatch, ed25519_message_mismatch,
}
use polyleverage.Method.{Result, ok, err, ⊤}

-- `ATTESTATION_LEN`
abbrev pub attestation_len : ℕ
attestation_len = 104

-- `ATTESTATION_PAYLOAD_OFFSET`
abbrev pub attestation_payload_offset : ℕ
attestation_payload_offset = 56

-- `ATTESTATION_MAGIC`, the bytes of "ATT1"
abbrev pub attestation_magic : List ℕ
attestation_magic = b'A' ∷ b'T' ∷ b'T' ∷ b'1' ∷ []

abbrev pub att_type_price_twap : ℕ
att_type_price_twap = 1

abbrev pub att_type_resolution : ℕ
att_type_resolution = 2

abbrev pub att_type_historical_liquidation : ℕ
att_type_historical_liquidation = 3

-- `byte[i]`, where `i` is known to lie inside.
abbrev pub byte_at : ℕ → List ℕ → ℕ
byte_at i bytes = elim (get_elem? bytes i) [ none ↦ 0 | some b ↦ b ]

-- Equality of byte strings.
unfoldable pub bytes_eq : List ℕ → List ℕ → Bool
bytes_eq [] [] = true
bytes_eq (x ∷ xs) (y ∷ ys) = if x == y then bytes_eq xs ys else false
bytes_eq _ _ = false

-- `Attestation::parse`: an attestation is its bytes.
unfoldable pub parse : List ℕ → Result (List ℕ)
unfolding bytes_eq
parse bytes =
    if length bytes != attestation_len
    then err (custom invalid_instruction_data)
    else if bytes_eq (slice 0 4 bytes) attestation_magic
    then ok bytes
    else err (custom attestation_bad_magic)

unfoldable pub attestation_type : List ℕ → ℕ
attestation_type bytes = byte_at 4 bytes

unfoldable pub market_id : List ℕ → ℕ
market_id bytes = from_be_bytes (slice 8 32 bytes)

unfoldable pub timestamp : List ℕ → ℕ
timestamp bytes = from_le_bytes (slice 40 8 bytes)

unfoldable pub nonce : List ℕ → ℕ
nonce bytes = from_le_bytes (slice 48 8 bytes)

-- `self.require_type(t)?` before the value of a field of the payload.
abbrev pub for_type : {A : Type 0} → ℕ → List ℕ → A → Result A
for_type t bytes a =
    if attestation_type bytes != t then err (custom attestation_wrong_type) else ok a

unfoldable pub price_fp : List ℕ → Result ℕ
price_fp bytes =
    for_type att_type_price_twap bytes (from_le_bytes (slice attestation_payload_offset 8 bytes))

unfoldable pub final_outcome_bps : List ℕ → Result ℕ
final_outcome_bps bytes =
    for_type att_type_resolution bytes (from_le_bytes (slice attestation_payload_offset 2 bytes))

unfoldable pub breach_pmlc_pubkey : List ℕ → Result ℕ
breach_pmlc_pubkey bytes =
    for_type att_type_historical_liquidation bytes
      (from_be_bytes (slice attestation_payload_offset 32 bytes))

unfoldable pub breach_mark_fp : List ℕ → Result ℕ
breach_mark_fp bytes =
    for_type att_type_historical_liquidation bytes
      (from_le_bytes (slice (attestation_payload_offset + 32) 8 bytes))

unfoldable pub breach_unix_ts : List ℕ → Result ℤ
breach_unix_ts bytes =
    for_type att_type_historical_liquidation bytes
      (as_i64 (from_le_bytes (slice (attestation_payload_offset + 40) 8 bytes)))

-- The offsets block of an Ed25519 instruction with one signature.
pub record Offsets : Type 0 where
  pub signature_offset : ℕ
  pub signature_ix_index : ℕ
  pub public_key_offset : ℕ
  pub public_key_ix_index : ℕ
  pub message_offset : ℕ
  pub message_size : ℕ
  pub message_ix_index : ℕ

abbrev pub offsets : List ℕ → Offsets
offsets bytes = record {
  signature_offset = from_le_bytes (slice 2 2 bytes);
  signature_ix_index = from_le_bytes (slice 4 2 bytes);
  public_key_offset = from_le_bytes (slice 6 2 bytes);
  public_key_ix_index = from_le_bytes (slice 8 2 bytes);
  message_offset = from_le_bytes (slice 10 2 bytes);
  message_size = from_le_bytes (slice 12 2 bytes);
  message_ix_index = from_le_bytes (slice 14 2 bytes);
}

-- The tests on the size, the two leading bytes and the instruction indices.
unfoldable pub check_header : ℕ → ℕ → ℕ → Offsets → Result ⊤
check_header size num_signatures padding o =
    if ltb size 16
    then err (custom missing_ed25519_verify)
    else if num_signatures != 1 || padding != 0
    then err (custom missing_ed25519_verify)
    else if o.signature_ix_index != u16_max
        || (o.public_key_ix_index != u16_max || o.message_ix_index != u16_max)
    then err (custom missing_ed25519_verify)
    else ok tt

-- The tests on the three byte ranges: key, signature, message.
unfoldable pub check_ranges :
    ℕ → Option (List ℕ) → Option (List ℕ) → Option (List ℕ) → Result (List ℕ)
check_ranges expected_pubkey (some pk_bytes) (some sig_bytes) (some msg_bytes) =
    if from_be_bytes pk_bytes != expected_pubkey
    then err (custom ed25519_pubkey_mismatch)
    else if length msg_bytes != attestation_len
    then err (custom ed25519_message_mismatch)
    else ok msg_bytes
check_ranges _ _ _ _ = err (custom missing_ed25519_verify)

unfoldable pub extract_verified_ed25519_message : List ℕ → ℕ → Result (List ℕ)
unfolding check_header check_ranges
extract_verified_ed25519_message bytes expected_pubkey =
    let o = offsets bytes in
    elim (check_header (length bytes) (byte_at 0 bytes) (byte_at 1 bytes) o) [
      | err e ↦ err e
      | ok _ ↦
          check_ranges expected_pubkey (get_range o.public_key_offset 32 bytes)
            (get_range o.signature_offset 64 bytes)
            (get_range o.message_offset o.message_size bytes)
    ]

unfoldable pub validate_freshness_and_nonce : List ℕ → ℕ → ℕ → ℕ → ℕ → Result ⊤
validate_freshness_and_nonce att expected_market_id last_accepted_nonce now_unix_secs
      max_staleness =
    if market_id att != expected_market_id
    then err (custom attestation_wrong_market)
    else if ltb now_unix_secs (timestamp att)
    then err (custom attestation_stale)
    else if ltb max_staleness (now_unix_secs - timestamp att)
    then err (custom attestation_stale)
    else if leb (nonce att) last_accepted_nonce
    then err (custom attestation_nonce_replayed)
    else ok tt
