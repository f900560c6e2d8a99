-- ===== src/State/Fees/Tiers.antt =====
-- Fee tiers: the fee that the loop finds, and its bounds.
use polyleverage.Base.{ℕ, ◌≤◌, ◌<◌, ◌≡◌, refl, List, [], ◌∷◌, arith, ltb, leb, if◌then◌else◌}
use polyleverage.Method.{ok}
use polyleverage.State.Fees.{
  FeeTier, FeeSchedule, max_fee_from, compute_max_fee_bps, fee_from, first_fee, fee_for_volume,
  validate_from, validate_tiers,
}

-- Every tier has a property.
abbrev pub All : (FeeTier → Type 0) → List FeeTier → Type 0
All P [] = Unit
All P (t ∷ ts) = P t × All P ts

-- The thresholds do not fall, from a given one on.
abbrev pub IsAscending : ℕ → List FeeTier → Type 0
IsAscending prev [] = Unit
IsAscending prev (t ∷ ts) = (prev ≤ t.volume_threshold) × IsAscending t.volume_threshold ts

validate_from_sound :
    (prev : ℕ) (ts : List FeeTier)
    → validate_from prev ts ≡ ok tt
    → IsAscending prev ts × All (λ t. t.fee_bps ≤ 1_000) ts
unfolding validate_from
validate_from_sound prev [] h = (tt, tt)
validate_from_sound prev (t ∷ ts) h = ground (arith, validate_from_sound t.volume_threshold ts)

validate_from_complete :
    (prev : ℕ) (ts : List FeeTier)
    → IsAscending prev ts
    → All (λ t. t.fee_bps ≤ 1_000) ts
    → validate_from prev ts ≡ ok tt
unfolding validate_from
validate_from_complete prev [] a b = refl
validate_from_complete prev (t ∷ ts) a b =
    ground (arith, validate_from_complete t.volume_threshold ts a.1 b.1)

-- A table is accepted exactly when its thresholds do not fall and no fee is above 10%.
pub validate_tiers_iff :
    (ts : List FeeTier)
    → (validate_tiers ts ≡ ok tt → IsAscending 0 ts × All (λ t. t.fee_bps ≤ 1_000) ts)
      × (IsAscending 0 ts → All (λ t. t.fee_bps ≤ 1_000) ts → validate_tiers ts ≡ ok tt)
unfolding validate_tiers
validate_tiers_iff ts = (validate_from_sound 0 ts, validate_from_complete 0 ts)

max_fee_from_grows :
    (m : ℕ) (ts : List FeeTier)
    → (m ≤ max_fee_from m ts) × All (λ t. t.fee_bps ≤ max_fee_from m ts) ts
unfolding max_fee_from
max_fee_from_grows m [] = (omega arith, tt)
max_fee_from_grows m (t ∷ ts) =
    ground (arith, max_fee_from_grows (if ltb m t.fee_bps then t.fee_bps else m) ts)

fee_from_bounded :
    (m found volume : ℕ) (ts : List FeeTier)
    → found ≤ m
    → All (λ t. t.fee_bps ≤ m) ts
    → fee_from found volume ts ≤ m
unfolding fee_from
fee_from_bounded m found volume [] h a = h
fee_from_bounded m found volume (t ∷ ts) h a =
    fee_from_bounded m (if leb t.volume_threshold volume then t.fee_bps else found) volume ts
      (ground arith) a.1

-- No trader's fee is above the maximum that is cached for the table.
pub fee_for_volume-le-max :
    (volume : ℕ) (s : FeeSchedule) → fee_for_volume volume s ≤ compute_max_fee_bps s.tiers
unfolding fee_for_volume compute_max_fee_bps
fee_for_volume-le-max volume s =
    let grows = max_fee_from_grows 0 s.tiers in
    fee_from_bounded (max_fee_from 0 s.tiers) (first_fee s.tiers) volume s.tiers
      (first s.tiers grows.1) grows.1
  where
    first : (ts : List FeeTier) {m : ℕ} → All (λ t. t.fee_bps ≤ m) ts → first_fee ts ≤ m
    first [] a = omega arith
    first (t ∷ ts) a = a.0

-- The fee of the last tier that a volume has reached, by the documentation: the tiers are read up to
-- the first threshold above the volume.
pub tier_fee : ℕ → ℕ → List FeeTier → ℕ
tier_fee reached volume [] = reached
tier_fee reached volume (t ∷ ts) =
    let rest = tier_fee t.fee_bps volume ts in
    if leb t.volume_threshold volume then rest else reached

fee_from_above :
    (found volume prev : ℕ) (ts : List FeeTier)
    → IsAscending prev ts
    → volume < prev
    → fee_from found volume ts ≡ found
unfolding fee_from
fee_from_above found volume prev [] a h = refl
fee_from_above found volume prev (t ∷ ts) a h =
    ground (arith, fee_from_above found volume t.volume_threshold ts a.1)

fee_from-tier_fee :
    (found volume prev : ℕ) (ts : List FeeTier)
    → IsAscending prev ts
    → fee_from found volume ts ≡ tier_fee found volume ts
unfolding fee_from tier_fee
fee_from-tier_fee found volume prev [] a = refl
fee_from-tier_fee found volume prev (t ∷ ts) a = ground (
  arith,
  fee_from_above found volume t.volume_threshold ts a.1,
  fee_from-tier_fee t.fee_bps volume t.volume_threshold ts a.1,
)

-- On an accepted table the loop over all tiers finds the fee of the tier with the largest threshold
-- that the volume reaches, and of the first tier if it reaches none.
pub fee_for_volume-tier_fee :
    (volume : ℕ) (s : FeeSchedule)
    → validate_tiers s.tiers ≡ ok tt
    → fee_for_volume volume s ≡ tier_fee (first_fee s.tiers) volume s.tiers
unfolding fee_for_volume
fee_for_volume-tier_fee volume s h =
    fee_from-tier_fee (first_fee s.tiers) volume 0 s.tiers ((validate_tiers_iff s.tiers).0 h).0
