-- ===== src/Admin/Authority.antt =====
-- Who has signed when an administrative call goes through.
use polyleverage.Base.{
  ℕ, ◌≡◌, ◌⊎◌, ◌↔◌, inl, inr, refl, ap, sym, ◌∙◌, subst, Bool, true, false, ◌||◌, not, Option, none,
  some, List, [], ◌∷◌, arith, ◌!=◌, contains, if◌then◌else◌, map,
}
use polyleverage.Error.{ProgramError, custom, invalid_account_owner}
use polyleverage.Method.{Result, ok, err, ⊤, Method, lift, fail_if, ◌>>◌, >>=-eq-ok}
use polyleverage.State.Config.{ProgramConfig}
use polyleverage.State.Multisig.{AdminMultisig, check_threshold, rotate}
use polyleverage.State.Multisig.Quorum.{
  Quorum, Signed, has_signed-Signed, has_signed_complete, IsValid, check_threshold-Quorum,
  rotate-IsValid,
}
use polyleverage.Accounts.Views.{on-eq-ok}
use polyleverage.Accounts.{
  World, AccountInfo, Runtime, seed_admin_multisig, load, store, on, foreign, assert_writable,
  multisig_layout,
}
use polyleverage.Accounts.Moves.{Does, Does-reads}
use polyleverage.Admin.{
  looks_like_multisig, find_multisig, signer_flags, decided_by, authorize_admin_or_multisig,
  first_two, rotate_with_quorum, process_rotate_admin_multisig,
}

-- The address of the multisig.
abbrev pub multisig_address : Runtime → ℕ
multisig_address rt = (rt.find_program_address seed_admin_multisig).0

-- The keys of the accounts that are passed.
abbrev pub keys_of : List AccountInfo → List ℕ
keys_of ais = map (λ ai. ai.key) ais

-- What is found loads at the address of the multisig.
find_multisig_sound :
    (rt : Runtime) (w : World) (ais : List AccountInfo) (r : Result AdminMultisig)
    → find_multisig rt w ais ≡ some r
    → load multisig_layout (multisig_address rt) w ≡ r
unfolding find_multisig
find_multisig_sound rt w [] r h = cc
find_multisig_sound rt w (ai ∷ ais) r h =
    go
      ((w ai.key).program != rt.program_id
        || (not (looks_like_multisig (w ai.key).contents) || ai.key != multisig_address rt))
      refl h (find_multisig_sound rt w ais r)
  where
    go :
        (skip : Bool)
        → ((w ai.key).program != rt.program_id
            || (not (looks_like_multisig (w ai.key).contents) || ai.key != multisig_address rt))
          ≡ skip
        → (if skip then find_multisig rt w ais else some (load multisig_layout ai.key w)) ≡ some r
        → (find_multisig rt w ais ≡ some r → load multisig_layout (multisig_address rt) w ≡ r)
        → load multisig_layout (multisig_address rt) w ≡ r
    go true e g rest = rest g
    go false e g rest =
        let here : ai.key ≡ multisig_address rt = ground arith in
        ap (λ (k : ℕ). load multisig_layout k w) (sym here) ∙ ground arith

find_multisig_absent :
    (rt : Runtime) (w : World) (ais : List AccountInfo)
    → contains (multisig_address rt) (keys_of ais) ≡ false
    → find_multisig rt w ais ≡ none
unfolding find_multisig
find_multisig_absent rt w [] h = refl
find_multisig_absent rt w (ai ∷ ais) h = ground (arith, find_multisig_absent rt w ais)

-- If a call is authorized, then a quorum of the multisig at the derived address has signed, or the
-- single admin of the configuration has. The multisig at that address, if there is one, is valid.
pub authorize_sound :
    (rt : Runtime) (config : ProgramConfig) (accounts : List AccountInfo) (w : World)
    → ((ms : AdminMultisig) → load multisig_layout (multisig_address rt) w ≡ ok ms → IsValid ms)
    → authorize_admin_or_multisig rt config accounts w ≡ ok tt
    → ((ms : AdminMultisig) × (load multisig_layout (multisig_address rt) w ≡ ok ms)
        × Quorum (signer_flags accounts) ms)
      ⊎ Signed config.admin (signer_flags accounts)
unfolding authorize_admin_or_multisig
authorize_sound rt config accounts w valid h = go (find_multisig rt w accounts) refl h
  where
    go :
        (found : Option (Result AdminMultisig))
        → find_multisig rt w accounts ≡ found
        → decided_by found config.admin (signer_flags accounts) ≡ ok tt
        → ((ms : AdminMultisig) × (load multisig_layout (multisig_address rt) w ≡ ok ms)
            × Quorum (signer_flags accounts) ms)
          ⊎ Signed config.admin (signer_flags accounts)
    go (some (ok ms)) e h' =
        let loaded = find_multisig_sound rt w accounts (ok ms) e in
        inl (ms, loaded, check_threshold-Quorum (signer_flags accounts) ms (valid ms loaded) h')
    go (some (err x)) e h' = cc
    go none e h' = inr (has_signed-Signed config.admin (signer_flags accounts) (ground arith))

-- If the caller leaves the multisig out of the account list, the single admin of the configuration
-- decides alone, whatever multisig there is: the call is authorized exactly when that admin has
-- signed.
pub authorize_without_multisig :
    (rt : Runtime) (config : ProgramConfig) (accounts : List AccountInfo) (w : World)
    → contains (multisig_address rt) (keys_of accounts) ≡ false
    → (authorize_admin_or_multisig rt config accounts w ≡ ok tt)
      ↔ Signed config.admin (signer_flags accounts)
unfolding authorize_admin_or_multisig
authorize_without_multisig rt config accounts w h =
    let absent =
      ap (λ (r : Option (Result AdminMultisig)). decided_by r config.admin (signer_flags accounts))
        (find_multisig_absent rt w accounts h) in
    (
      λ e. has_signed-Signed config.admin (signer_flags accounts) (ground arith),
      λ (i, at).
          let signed = has_signed_complete config.admin (signer_flags accounts) i at in
          ground arith,
    )

-- A rotation of the multisig at a key, by a quorum of the one that was there.
abbrev pub RotatedBy : List (ℕ × Bool) → ℕ → World → World → Type 0
RotatedBy accounts k w u =
    (old new : AdminMultisig) × (load multisig_layout k w ≡ ok old)
    × Quorum accounts old
    × IsValid new
    × (u ≡ store multisig_layout k new w)

-- If the multisig that is there is valid, it is rotated.
abbrev Rotates : List (ℕ × Bool) → ℕ → World → World → Type 0
Rotates accounts k w u =
    ((ms : AdminMultisig) → load multisig_layout k w ≡ ok ms → IsValid ms)
    → RotatedBy accounts k w u

rotate_with_quorum-Rotates :
    (k : ℕ) (accounts : List (ℕ × Bool)) (signers : List ℕ) (threshold : ℕ)
    → Does (Rotates accounts k) (rotate_with_quorum k accounts signers threshold)
unfolding rotate_with_quorum
rotate_with_quorum-Rotates k accounts signers threshold =
    Does-reads (Rotates accounts k) (load multisig_layout k) λ ms w u b loaded h valid.
      let (_, t, checked, rotated) =
        >>=-eq-ok (lift (check_threshold accounts ms))
          (λ _. on multisig_layout k (rotate signers threshold)) w u h in
      let quorum : check_threshold accounts ms ≡ ok tt =
        ap (λ (q : Result ⊤ × World). q.0) checked in
      let same : t ≡ w = sym (ap (λ (q : Result ⊤ × World). q.1) checked) in
      let (old, new, loaded_again, called, stored) =
        on-eq-ok multisig_layout k (rotate signers threshold) t u rotated in
      (
        ms,
        new,
        loaded,
        check_threshold-Quorum accounts ms (valid ms loaded) quorum,
        rotate-IsValid signers threshold old new called,
        stored ∙ ap (λ (v : World). store multisig_layout k new v) same,
      )

Does-fail_if :
    {B : Type 0} (P : World → World → Type 0) (b : Bool) (e : ProgramError) (g : Method World B)
    → Does P g
    → Does P (fail_if b e >> g)
Does-fail_if P true e g d w u a h = cc
Does-fail_if P false e g d w u a h = d w u a h

-- A rotation that succeeds has been signed by a quorum of the multisig that was there, provided that
-- one was valid, and leaves a valid multisig there and all else as it was.
pub process_rotate-RotatedBy :
    (rt : Runtime) (accounts : List AccountInfo) (signers : List ℕ) (threshold : ℕ) (w u : World)
    (config_ai ms_ai : AccountInfo)
    → first_two accounts ≡ ok (config_ai, ms_ai)
    → ((ms : AdminMultisig) → load multisig_layout ms_ai.key w ≡ ok ms → IsValid ms)
    → process_rotate_admin_multisig rt accounts signers threshold w ≡ (ok tt, u)
    → RotatedBy (signer_flags accounts) ms_ai.key w u
unfolding process_rotate_admin_multisig
process_rotate-RotatedBy rt accounts signers threshold w u config_ai ms_ai two valid h =
    Does-reads P (λ _. first_two accounts)
      (λ pair w u b e h.
        let same : pair.1.key ≡ ms_ai.key = cc in
        subst (λ k. Rotates (signer_flags accounts) k w u) same
          (Does-reads (Rotates (signer_flags accounts) pair.1.key) (λ _. assert_writable pair.1)
            (λ _ w u b e h.
              Does-reads (Rotates (signer_flags accounts) pair.1.key)
                (λ w. ok (foreign rt w (pair.0 ∷ pair.1 ∷ [])))
                (λ is_foreign w u b e h.
                  Does-fail_if (Rotates (signer_flags accounts) pair.1.key) is_foreign
                    (custom invalid_account_owner)
                    (rotate_with_quorum pair.1.key (signer_flags accounts) signers threshold)
                    (rotate_with_quorum-Rotates pair.1.key (signer_flags accounts) signers
                      threshold)
                    w u b h)
                w u b h)
            w u b h))
      w u tt h valid
  where
    P : World → World → Type 0
    P = Rotates (signer_flags accounts) ms_ai.key
