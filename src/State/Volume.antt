-- ===== src/State/Volume.antt =====
-- `UserVolume` of src/state/user_volume.rs: a trader's volume in the running and the previous epoch.
-- Padding and reserved bytes are left out.
pub mod Epochs
use polyleverage.Base.{
  ℕ, ◌+◌, ◌-◌, ◌*◌, ◌/◌, ◌≤◌, ◌≡◌, Bool, ltb, leb, ◌==◌, ◌!=◌, if◌then◌else◌, min, max, u64_max,
  checked_add, checked_mul,
}
use polyleverage.Error.{custom, already_initialized, arithmetic_overflow}
use polyleverage.Method.{Result, ok, err, ⊤, Method, gets, puts, fail_if, ok_or, ◌>>=◌, ◌>>◌}

abbrev pub disc_user_volume : ℕ
disc_user_volume = 11

-- `USER_VOLUME_EPOCH_SLOTS`
abbrev pub user_volume_epoch_slots : ℕ
user_volume_epoch_slots = 6_480_000

pub record UserVolume : Type 0 where
  pub discriminator : ℕ
  pub bump : ℕ
  pub owner : ℕ
  pub collateral_mint : ℕ
  pub volume_current_atoms : ℕ
  pub volume_prev_atoms : ℕ
  pub epoch_start_slot : ℕ
  pub epoch_length_slots : ℕ

unfoldable pub init : ℕ → ℕ → ℕ → ℕ → Method UserVolume ⊤
init owner mint now_slot bump v =
    if v.discriminator != 0 then (err (custom already_initialized), v) else (
      ok tt,
      record {
        discriminator = disc_user_volume;
        bump = bump;
        owner = owner;
        collateral_mint = mint;
        volume_current_atoms = 0;
        volume_prev_atoms = 0;
        epoch_start_slot = now_slot;
        epoch_length_slots = user_volume_epoch_slots;
      },
    )

-- The volumes after `epochs_elapsed` epochs, one or more.
abbrev shift_epochs : ℕ → UserVolume → UserVolume
shift_epochs epochs_elapsed v =
    if epochs_elapsed == 1
    then record v { volume_prev_atoms = v.volume_current_atoms; volume_current_atoms = 0 }
    else record v { volume_prev_atoms = 0; volume_current_atoms = 0 }

-- The end of `maybe_roll_epoch`, once at least one epoch has passed.
unfoldable pub roll_epochs : ℕ → ℕ → Method UserVolume ⊤
roll_epochs epochs_elapsed length = do
  puts (shift_epochs epochs_elapsed)
  slots ← ok_or (checked_mul u64_max epochs_elapsed length) (custom arithmetic_overflow)
  start ←
      ok_or (checked_add u64_max (← gets (λ v. v.epoch_start_slot)) slots)
        (custom arithmetic_overflow)
  puts λ v. record v { epoch_start_slot = start }

unfoldable pub maybe_roll_epoch : ℕ → Method UserVolume ⊤
maybe_roll_epoch now_slot v =
    let length = max v.epoch_length_slots 1 in
    let elapsed = now_slot - v.epoch_start_slot in
    if ltb now_slot v.epoch_start_slot
    then (ok tt, v)
    else if ltb elapsed length
    then (ok tt, v)
    else roll_epochs (elapsed / length) length v

unfoldable pub add_volume : ℕ → ℕ → Method UserVolume ⊤
add_volume amount now_slot = do
  maybe_roll_epoch now_slot
  total ←
      ok_or (checked_add u64_max (← gets (λ v. v.volume_current_atoms)) amount)
        (custom arithmetic_overflow)
  puts λ v. record v { volume_current_atoms = total }

-- Works on a copy, and ignores an error of the roll.
unfoldable pub effective_30d_volume : ℕ → UserVolume → ℕ
effective_30d_volume now_slot self =
    let v = (maybe_roll_epoch now_slot self).1 in max v.volume_current_atoms v.volume_prev_atoms
