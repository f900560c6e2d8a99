-- ===== src/State/Session.antt =====
-- `Session` of src/state/session.rs: the bounds under which a delegate may trade for an owner.
-- Padding and reserved bytes are left out; `allowed_instruments` is the array of eight slots.
pub mod Bounds
pub mod Life
use polyleverage.Base.{
  ℕ, ◌+◌, ◌≤◌, ◌≡◌, Bool, true, false, ◌&&◌, ◌||◌, List, [], Option, ltb, leb, ◌==◌, if◌then◌else◌,
  length, take, fill, contains, min, u64_max, checked_add, saturating_add,
}
use polyleverage.Error.{
  custom, invalid_instruction_data, invalid_contract_count, arithmetic_overflow,
  session_per_intent_cap_exceeded, session_cumulative_cap_exceeded,
}
use polyleverage.Method.{Result, ok, err, ⊤, Method, pure, gets, puts, fail_if, ok_or, ◌>>=◌, ◌>>◌}

abbrev pub disc_session : ℕ
disc_session = 17

abbrev pub max_session_instruments : ℕ
max_session_instruments = 8

pub record Session : Type 0 where
  pub discriminator : ℕ
  pub bump : ℕ
  pub revoked : ℕ
  pub n_allowed_instruments : ℕ
  pub owner : ℕ
  pub delegate : ℕ
  pub expires_at_slot : ℕ
  pub per_intent_max_collateral_atoms : ℕ
  pub cumulative_collateral_used : ℕ
  pub cumulative_collateral_cap : ℕ
  pub created_at_slot : ℕ
  pub version : ℕ
  pub allowed_instruments : List ℕ

-- `Session::init`: on success the previous contents are gone.
unfoldable pub init : ℕ → ℕ → ℕ → ℕ → ℕ → ℕ → List ℕ → ℕ → Method Session ⊤
init owner delegate bump expires per_intent cap allowed created = do
  fail_if (leb expires created) (custom invalid_instruction_data)
  fail_if (per_intent == 0 || cap == 0) (custom invalid_instruction_data)
  fail_if (ltb cap per_intent) (custom invalid_instruction_data)
  fail_if (ltb max_session_instruments (length allowed)) (custom invalid_instruction_data)
  puts λ _. record {
    discriminator = disc_session;
    bump = bump;
    revoked = 0;
    n_allowed_instruments = length allowed;
    owner = owner;
    delegate = delegate;
    expires_at_slot = expires;
    per_intent_max_collateral_atoms = per_intent;
    cumulative_collateral_used = 0;
    cumulative_collateral_cap = cap;
    created_at_slot = created;
    version = 1;
    allowed_instruments = fill max_session_instruments 0 allowed;
  }

unfoldable pub is_active : ℕ → Session → Bool
is_active current_slot s =
    s.revoked == 0
    && (ltb current_slot s.expires_at_slot
        && ltb s.cumulative_collateral_used s.cumulative_collateral_cap)

unfoldable pub allows_instrument : ℕ → Session → Bool
allows_instrument instrument s =
    if s.n_allowed_instruments == 0
    then true
    else contains instrument
        (take (min s.n_allowed_instruments max_session_instruments) s.allowed_instruments)

unfoldable pub record_intent : ℕ → Method Session ℕ
record_intent collateral_atoms = do
  fail_if (collateral_atoms == 0) (custom invalid_contract_count)
  fail_if (ltb (← gets (λ s. s.per_intent_max_collateral_atoms)) collateral_atoms)
      (custom session_per_intent_cap_exceeded)
  new_used ←
      ok_or (checked_add u64_max (← gets (λ s. s.cumulative_collateral_used)) collateral_atoms)
        (custom arithmetic_overflow)
  fail_if (ltb (← gets (λ s. s.cumulative_collateral_cap)) new_used)
      (custom session_cumulative_cap_exceeded)
  puts λ s. record s {
    cumulative_collateral_used = new_used;
    version = saturating_add u64_max s.version 1;
  }
  pure new_used

unfoldable pub revoke : Session → Session
revoke s = record s { revoked = 1; version = saturating_add u64_max s.version 1 }
