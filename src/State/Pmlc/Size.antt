-- ===== src/State/Pmlc/Size.antt =====
-- The size of a contract, kept in two words.
use polyleverage.Base.{ℕ, ◌≤◌, ◌≡◌, arith, u128_max}
use polyleverage.State.Pmlc.{Pmlc, size_fp, set_size_fp}

-- The size that is read is the one that was stored, for every `u128`.
pub size_fp-set_size_fp :
    (value : ℕ) (p : Pmlc) → value ≤ u128_max → size_fp (set_size_fp value p) ≡ value
unfolding size_fp set_size_fp
size_fp-set_size_fp value p h = omega arith
