-- ===== src/State/Volume/Epochs.antt =====
-- The epochs of a trader's volume (src/state/user_volume.rs).
use native.Mathlib.Nat.{
  div-mul-le_self, div-eq_of_lt, le-div_iff_mul-le, zero-mul, add-mul-div_right,
}
use polyleverage.Base.{
  ℕ, ◌+◌, ◌-◌, ◌*◌, ◌/◌, ◌≤◌, ◌<◌, ◌≡◌, sym, ap, ◌∙◌, arith, max, ◌==◌, if◌then◌else◌, u64_max,
}
use polyleverage.Method.{Result, ok, ⊤}
use polyleverage.State.Volume.{UserVolume, roll_epochs, maybe_roll_epoch, effective_30d_volume}

-- The account `epochs` epochs later, with no trade in between.
abbrev pub rolled : ℕ → UserVolume → UserVolume
rolled epochs v = record v {
  epoch_start_slot = v.epoch_start_slot + epochs * max v.epoch_length_slots 1;
  volume_current_atoms = if epochs == 0 then v.volume_current_atoms else 0;
  volume_prev_atoms =
      if epochs == 0
      then v.volume_prev_atoms
      else if epochs == 1
      then v.volume_current_atoms
      else 0;
}

-- The whole epochs that have passed at a slot.
abbrev pub epochs_at : ℕ → UserVolume → ℕ
epochs_at now v = (now - v.epoch_start_slot) / max v.epoch_length_slots 1

quotient_pos : (n d : ℕ) → 0 < d → d ≤ n → 0 < n / d
quotient_pos n d h k = (le-div_iff_mul-le h).1 (omega (arith, k))

roll_epochs_lem :
    (epochs length : ℕ) (v : UserVolume)
    → v.epoch_start_slot + epochs * length ≤ u64_max
    → 0 < epochs
    → roll_epochs epochs length v ≡ (
      ok tt,
      record v {
        epoch_start_slot = v.epoch_start_slot + epochs * length;
        volume_current_atoms = 0;
        volume_prev_atoms = if epochs == 1 then v.volume_current_atoms else 0;
      },
    )
unfolding roll_epochs
roll_epochs_lem epochs length v h k = ground arith

-- From the start of the epoch on, and within `u64`, a roll succeeds: it moves the start on by the
-- whole epochs that have passed; after one the volume moves to the previous epoch, after more both
-- volumes are gone.
pub maybe_roll_epoch_lem :
    (now : ℕ) (v : UserVolume)
    → v.epoch_start_slot ≤ now
    → now ≤ u64_max
    → maybe_roll_epoch now v ≡ (ok tt, rolled (epochs_at now v) v)
unfolding maybe_roll_epoch
maybe_roll_epoch_lem now v h k =
    let length = max v.epoch_length_slots 1 in
    let epochs = epochs_at now v in
    ground (
      arith,
      div-mul-le_self (now - v.epoch_start_slot) length,
      quotient_pos (now - v.epoch_start_slot) length (omega arith),
      div-eq_of_lt {n = now - v.epoch_start_slot} {m = length},
      zero-mul length,
      roll_epochs_lem epochs length v,
    )

-- The volume that counts for the fee tier: within the first epoch the greater of the two volumes, in
-- the next epoch what was traded in the one before, and later nothing.
pub effective_30d_volume_lem :
    (now : ℕ) (v : UserVolume)
    → v.epoch_start_slot ≤ now
    → now ≤ u64_max
    → let epochs = epochs_at now v in
      effective_30d_volume now v ≡ (
        if epochs == 0
        then max v.volume_current_atoms v.volume_prev_atoms
        else if epochs == 1
        then v.volume_current_atoms
        else 0)
unfolding effective_30d_volume
effective_30d_volume_lem now v h k = ground (arith, maybe_roll_epoch_lem now v h k)

split_quotient : (a b d : ℕ) → 0 < d → a ≤ b → b / d ≡ a / d + (b - a / d * d) / d
split_quotient a b d h k =
    let split : b ≡ (b - a / d * d) + a / d * d = omega (arith, div-mul-le_self a d) in
    ap (λ (n : ℕ). n / d) split ∙ add-mul-div_right (b - a / d * d) (a / d) h ∙ omega arith

epochs_at-rolled :
    (early late : ℕ) (v : UserVolume)
    → early ≤ late
    → epochs_at late v ≡ epochs_at early v + epochs_at late (rolled (epochs_at early v) v)
epochs_at-rolled early late v k =
    let length = max v.epoch_length_slots 1 in
    split_quotient (early - v.epoch_start_slot) (late - v.epoch_start_slot) length (omega arith)
      (omega arith)
    ∙ ap (λ (n : ℕ). epochs_at early v + n / length) (omega arith)

rolled-rolled : (a b : ℕ) (v : UserVolume) → rolled b (rolled a v) ≡ rolled (a + b) v
rolled-rolled a b v = ground arith

-- Rolling at an earlier slot makes no difference to a roll later on: only the slots of the trades
-- count, and not how often the account is touched.
pub maybe_roll_epoch-maybe_roll_epoch :
    (early late : ℕ) (v : UserVolume)
    → v.epoch_start_slot ≤ early
    → early ≤ late
    → late ≤ u64_max
    → maybe_roll_epoch late (maybe_roll_epoch early v).1 ≡ maybe_roll_epoch late v
maybe_roll_epoch-maybe_roll_epoch early late v h k b =
    rw
      (
        maybe_roll_epoch_lem early v h (omega arith),
        maybe_roll_epoch_lem late v (omega arith) b,
        maybe_roll_epoch_lem late (rolled (epochs_at early v) v)
            (omega
              (arith, div-mul-le_self (early - v.epoch_start_slot) (max v.epoch_length_slots 1)))
            b,
      )
      (let done : UserVolume → Result ⊤ × UserVolume = λ u. (ok tt, u) in
        ap done
          (rolled-rolled _ _ v ∙ ap (λ n. rolled n v) (sym (epochs_at-rolled early late v k))))
