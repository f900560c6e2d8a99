-- ===== src/State/Multisig/Quorum.antt =====
-- `check_threshold` of src/state/admin_multisig.rs, and who has signed when it passes.
use polyleverage.Base.{
  ◌==◌, zero, suc, some, get_elem?, ◌&&◌, Distinct, ℕ, ◌+◌, ◌≤◌, ◌<◌, ◌≡◌, refl, true, false, Bool,
  List, [], ◌∷◌, arith, contains, length, take, fill, take-fill, min, if◌then◌else◌, Bool-cases,
  inl, inr, subst, sym, ◌∙◌, ap,
}
use polyleverage.Method.{ok, puts, >>=-eq-ok}
use polyleverage.State.Multisig.{
  AdminMultisig, max_multisig_signers, has_duplicate, check_signers, init, active_signers,
  is_member, has_signed, count_from, count_approvals, check_threshold, rotate, set_up,
  replace_signers,
}

abbrev pub All : (ℕ → Type 0) → List ℕ → Type 0
All P [] = Unit
All P (k ∷ ks) = P k × All P ks

-- One of the accounts has the key and is a signer.
abbrev pub Signed : ℕ → List (ℕ × Bool) → Type 0
Signed k accounts = (i : ℕ) × (get_elem? accounts i ≡ some (k, true))

pub has_signed-Signed :
    (k : ℕ) (accounts : List (ℕ × Bool)) → has_signed k accounts ≡ true → Signed k accounts
unfolding has_signed
has_signed-Signed k [] h = cc
has_signed-Signed k ((j, is_signer) ∷ accounts) h = elim (Bool-cases (is_signer && j == k)) [
  | inl e ↦ (0, ground arith)
  | inr e ↦ let (i, at) = has_signed-Signed k accounts (ground arith) in (suc i, at)
]

pub has_signed_complete :
    (k : ℕ) (accounts : List (ℕ × Bool)) (i : ℕ)
    → get_elem? accounts i ≡ some (k, true)
    → has_signed k accounts ≡ true
unfolding has_signed
has_signed_complete k [] i h = cc
has_signed_complete k ((j, is_signer) ∷ accounts) zero h = ground arith
has_signed_complete k ((j, is_signer) ∷ accounts) (suc i) h =
    let rest = has_signed_complete k accounts i h in ground arith

-- Enough different members have signed.
abbrev pub Quorum : List (ℕ × Bool) → AdminMultisig → Type 0
Quorum accounts v =
    (ks : List ℕ) × Distinct ks
    × All (λ k. (is_member k v ≡ true) × Signed k accounts) ks
    × (v.threshold ≤ length ks)

-- The threshold lies between one and the number of signers, and no signer is listed twice.
pub record IsValid (v : AdminMultisig) : Type 0 where
  pub size : v.n_signers ≤ max_multisig_signers
  pub positive : 0 < v.threshold
  pub reachable : v.threshold ≤ v.n_signers
  pub distinct : Distinct (active_signers v)

-- The signers among the keys.
approving : List ℕ → List (ℕ × Bool) → List ℕ
approving [] accounts = []
approving (s ∷ ss) accounts =
    if has_signed s accounts then s ∷ approving ss accounts else approving ss accounts

count_from-le :
    (m : ℕ) (ss : List ℕ) (accounts : List (ℕ × Bool))
    → count_from m ss accounts ≤ m + length (approving ss accounts)
unfolding count_from approving
count_from-le m [] accounts = omega arith
count_from-le m (s ∷ ss) accounts = elim (Bool-cases (has_signed s accounts)) [
  | inl e ↦ rw e (ground (arith, count_from-le (min (m + 1) 255) ss accounts))
  | inr e ↦ rw e (count_from-le m ss accounts)
]

contains-approving :
    (k : ℕ) (ss : List ℕ) (accounts : List (ℕ × Bool))
    → contains k ss ≡ false
    → contains k (approving ss accounts) ≡ false
unfolding approving
contains-approving k [] accounts h = refl
contains-approving k (s ∷ ss) accounts h = elim (Bool-cases (has_signed s accounts)) [
  | inl e ↦ rw e (ground (arith, contains-approving k ss accounts))
  | inr e ↦ rw e (ground (arith, contains-approving k ss accounts))
]

approving-Distinct :
    (ss : List ℕ) (accounts : List (ℕ × Bool)) → Distinct ss → Distinct (approving ss accounts)
unfolding approving
approving-Distinct [] accounts d = tt
approving-Distinct (s ∷ ss) accounts d = elim (Bool-cases (has_signed s accounts)) [
  | inl e ↦ rw e (contains-approving s ss accounts d.0, approving-Distinct ss accounts d.1)
  | inr e ↦ rw e (approving-Distinct ss accounts d.1)
]

approving-All :
    (P : ℕ → Type 0) (ss : List ℕ) (accounts : List (ℕ × Bool))
    → ((k : ℕ) → contains k ss ≡ true → has_signed k accounts ≡ true → P k)
    → All P (approving ss accounts)
unfolding approving
approving-All P [] accounts h = tt
approving-All P (s ∷ ss) accounts h = elim (Bool-cases (has_signed s accounts)) [
  | inl e ↦ rw e (h s (ground arith) e, approving-All P ss accounts (λ k m. h k (ground arith)))
  | inr e ↦ rw e (approving-All P ss accounts (λ k m. h k (ground arith)))
]

-- When the check of the threshold passes on a valid multisig, as many different members as the
-- threshold says have signed.
pub check_threshold-Quorum :
    (accounts : List (ℕ × Bool)) (v : AdminMultisig)
    → IsValid v
    → check_threshold accounts v ≡ ok tt
    → Quorum accounts v
unfolding check_threshold count_approvals is_member
check_threshold-Quorum accounts v valid h = (
  approving (active_signers v) accounts,
  approving-Distinct (active_signers v) accounts valid.distinct,
  approving-All _ (active_signers v) accounts (λ k m s. (m, has_signed-Signed k accounts s)),
  ground (arith, count_from-le 0 (active_signers v) accounts),
)

has_duplicate-Distinct : (ks : List ℕ) → has_duplicate ks ≡ false → Distinct ks
unfolding has_duplicate
has_duplicate-Distinct [] h = tt
has_duplicate-Distinct (k ∷ ks) h = (ground arith, has_duplicate-Distinct ks (ground arith))

check_signers_sound :
    {S : Type 0} (signers : List ℕ) (threshold : ℕ) (s : S) {t : S}
    → check_signers signers threshold s ≡ (ok tt, t)
    → (length signers ≤ max_multisig_signers)
      × (0 < threshold)
      × (threshold ≤ length signers)
      × Distinct signers
      × (s ≡ t)
unfolding check_signers
check_signers_sound signers threshold s {t} h = ground (arith, has_duplicate-Distinct signers)

-- Signers that pass the tests are valid once they are stored.
stored-IsValid :
    (signers : List ℕ) (v : AdminMultisig)
    → v.n_signers ≡ length signers
    → v.signers ≡ fill max_multisig_signers 0 signers
    → length signers ≤ max_multisig_signers
    → 0 < v.threshold
    → v.threshold ≤ length signers
    → Distinct signers
    → IsValid v
unfolding active_signers
stored-IsValid signers v n stored size positive reachable distinct = record {
  size = omega (arith, n);
  positive = positive;
  reachable = omega (arith, n);
  distinct =
      subst Distinct
        (sym (take-fill max_multisig_signers 0 signers size)
          ∙ ap (λ (m : ℕ). take m (fill max_multisig_signers 0 signers)) (omega (arith, n))
          ∙ ap (take (min v.n_signers max_multisig_signers)) (sym stored))
        distinct;
}

-- A multisig that `rotate` has changed is valid, whatever it was before.
pub rotate-IsValid :
    (signers : List ℕ) (threshold : ℕ) (v u : AdminMultisig)
    → rotate signers threshold v ≡ (ok tt, u)
    → IsValid u
unfolding rotate
rotate-IsValid signers threshold v u h =
    let (_, t, checked, put) =
      >>=-eq-ok (check_signers signers threshold) (λ _. puts (replace_signers signers threshold)) v
        u h in
    let (size, positive, reachable, distinct, same) =
      check_signers_sound signers threshold v checked in
    stored-IsValid signers u (ground arith) (ground arith) size (ground arith) (ground arith)
      distinct

-- A multisig that `init` has set up is valid.
pub init-IsValid :
    (bootstrap_admin : ℕ) (signers : List ℕ) (threshold bump : ℕ) (v u : AdminMultisig)
    → init bootstrap_admin signers threshold bump v ≡ (ok tt, u)
    → IsValid u
unfolding init
init-IsValid bootstrap_admin signers threshold bump v u h =
    let (_, t, checked, put) =
      >>=-eq-ok (check_signers signers threshold)
        (λ _. set_up bootstrap_admin signers threshold bump) v u h in
    let (size, positive, reachable, distinct, same) =
      check_signers_sound signers threshold v checked in
    stored-IsValid signers u (ground arith) (ground arith) size (ground arith) (ground arith)
      distinct
