-- ===== src/State/Timelock.antt =====
-- `TimelockProposal` of src/state/timelock.rs: a change by the administrators that waits for a day.
-- Padding and reserved bytes are left out.
use polyleverage.Base.{ℕ, ◌*◌, List, ◌++◌, take, drop}
use polyleverage.Base.Int.{ℤ}

abbrev pub disc_timelock : ℕ
disc_timelock = 13

abbrev pub tl_kind_set_attestation_signer : ℕ
tl_kind_set_attestation_signer = 1

abbrev pub tl_status_pending : ℕ
tl_status_pending = 0

abbrev pub tl_status_executed : ℕ
tl_status_executed = 1

abbrev pub tl_status_cancelled : ℕ
tl_status_cancelled = 2

abbrev pub timelock_delay_secs : ℕ
timelock_delay_secs = 24 * 60 * 60

abbrev pub timelock_proposal_len : ℕ
timelock_proposal_len = 168

-- The payload is its 64 bytes.
pub record TimelockProposal : Type 0 where
  pub discriminator : ℕ
  pub kind : ℕ
  pub status : ℕ
  pub bump : ℕ
  pub proposal_id : ℕ
  pub proposer : ℕ
  pub payload : List ℕ
  pub proposed_slot : ℕ
  pub proposed_unix_ts : ℤ
  pub executable_after_unix_ts : ℤ

unfoldable pub new_signer : TimelockProposal → List ℕ
new_signer t = take 32 t.payload

-- For a key of 32 bytes.
unfoldable pub set_new_signer : List ℕ → TimelockProposal → TimelockProposal
set_new_signer v t = record t { payload = v ++ drop 32 t.payload }
