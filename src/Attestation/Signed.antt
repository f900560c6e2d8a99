-- ===== src/Attestation/Signed.antt =====
-- The message that is taken from the Ed25519 instruction (src/attestation.rs), and its signer.
use polyleverage.Base.{
  ℕ, ◌≡◌, ap, subst, List, arith, Option, none, some, length, u16_max, refl, ◌∙◌,
}
use polyleverage.Base.Bytes.{slice, get_range, from_be_bytes}
use polyleverage.Method.{Result, ok, err, ⊤}
use polyleverage.Attestation.{
  attestation_len, byte_at, offsets, Offsets, check_header, check_ranges,
  extract_verified_ed25519_message,
}

check_header_sound :
    (size num_signatures padding : ℕ) (o : Offsets)
    → check_header size num_signatures padding o ≡ ok tt
    → (num_signatures ≡ 1)
      × (o.signature_ix_index ≡ u16_max)
      × (o.public_key_ix_index ≡ u16_max)
      × (o.message_ix_index ≡ u16_max)
unfolding check_header
check_header_sound size num_signatures padding o h = ground arith

check_ranges_sound :
    (key : ℕ) (pk sig msg : Option (List ℕ)) {message : List ℕ}
    → check_ranges key pk sig msg ≡ ok message
    → (k : List ℕ) × (pk ≡ some k)
      × (from_be_bytes k ≡ key)
      × (msg ≡ some message)
      × (length message ≡ attestation_len)
unfolding check_ranges
check_ranges_sound key (some k) (some s) (some m) h =
    (k, refl, ground arith, ground arith, ground arith)
check_ranges_sound key none sig msg h = cc
check_ranges_sound key (some k) none msg h = cc
check_ranges_sound key (some k) (some s) none h = cc

get_range-slice :
    (at n : ℕ) (bytes : List ℕ) {r : List ℕ} → get_range at n bytes ≡ some r → slice at n bytes ≡ r
get_range-slice at n bytes h = ground arith

ok_then :
    {B : Type 0} (r : Result ⊤) (next : Result B) {b : B}
    → elim r [ err e ↦ err e | ok _ ↦ next ] ≡ ok b
    → (r ≡ ok tt) × (next ≡ ok b)
ok_then (ok tt') next h = (refl, h)
ok_then (err e) next h = cc

-- `Signs key message`: the holder of `key` has signed `message`.
module _ (Signs : ℕ → List ℕ → Type 0) where
  -- What the Ed25519 precompile has established of the data of an instruction that it let pass, for
  -- one signature whose parts all lie in that instruction itself (index `u16::MAX`).
  abbrev pub Verified : List ℕ → Type 0
  Verified bytes =
      byte_at 0 bytes ≡ 1
      → (offsets bytes).signature_ix_index ≡ u16_max
      → (offsets bytes).public_key_ix_index ≡ u16_max
      → (offsets bytes).message_ix_index ≡ u16_max
      → Signs (from_be_bytes (slice (offsets bytes).public_key_offset 32 bytes))
          (slice (offsets bytes).message_offset (offsets bytes).message_size bytes)

  -- If the precompile has let the instruction pass and the message is extracted for a key, then the
  -- holder of that very key has signed that very message, of the length of an attestation.
  pub extract_signed :
      (bytes : List ℕ) (key : ℕ) {message : List ℕ}
      → Verified bytes
      → extract_verified_ed25519_message bytes key ≡ ok message
      → Signs key message × (length message ≡ attestation_len)
  unfolding extract_verified_ed25519_message
  extract_signed bytes key {message} verified h =
      let o = offsets bytes in
      let parts = ok_then (check_header (length bytes) (byte_at 0 bytes) (byte_at 1 bytes) o) _ h in
      let header = check_header_sound _ _ _ o parts.0 in
      let (k, found_key, key_eq, found, size) = check_ranges_sound key _ _ _ parts.1 in
      let k_eq = get_range-slice o.public_key_offset 32 bytes found_key in
      let m_eq = get_range-slice o.message_offset o.message_size bytes found in
      (
        subst (λ m. Signs key m) m_eq
            (subst (λ (n : ℕ). Signs n (slice o.message_offset o.message_size bytes))
              (ap from_be_bytes k_eq ∙ key_eq) (verified header.0 header.1 header.2 header.3)),
        size,
      )
