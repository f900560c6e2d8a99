-- ===== src/State/Multisig.antt =====
-- `AdminMultisig` of src/state/admin_multisig.rs: the administrators and how many of them must sign.
-- Padding and reserved bytes are left out; `signers` is the array of sixteen slots. Of the accounts
-- that are passed with an instruction only key and signer flag are read: they are a list of pairs.
pub mod Quorum
use polyleverage.Base.{
  ℕ, Bool, true, false, ◌||◌, ◌&&◌, List, [], ◌∷◌, ltb, leb, ◌==◌, ◌!=◌, if◌then◌else◌, contains,
  length, take, fill, min, u8_max, u64_max, saturating_add,
}
use polyleverage.Error.{
  custom, invalid_instruction_data, already_initialized, insufficient_multisig_approvals,
}
use polyleverage.Method.{Result, ok, err, ⊤, Method, gets, puts, fail_if, ◌>>=◌, ◌>>◌}

abbrev pub disc_admin_multisig : ℕ
disc_admin_multisig = 14

abbrev pub max_multisig_signers : ℕ
max_multisig_signers = 16

-- `ADMIN_MULTISIG_LEN`
abbrev pub admin_multisig_len : ℕ
admin_multisig_len = 624

pub record AdminMultisig : Type 0 where
  pub discriminator : ℕ
  pub bump : ℕ
  pub threshold : ℕ
  pub n_signers : ℕ
  pub bootstrap_admin : ℕ
  pub version : ℕ
  pub signers : List ℕ

-- The two nested loops: some key stands twice.
unfoldable pub has_duplicate : List ℕ → Bool
has_duplicate [] = false
has_duplicate (k ∷ ks) = contains k ks || has_duplicate ks

-- The tests on the new signers that `init` and `rotate` share.
unfoldable pub check_signers : {S : Type 0} → List ℕ → ℕ → Method S ⊤
check_signers signers threshold = do
  fail_if (length signers == 0 || ltb max_multisig_signers (length signers))
      (custom invalid_instruction_data)
  fail_if (threshold == 0 || ltb (length signers) threshold) (custom invalid_instruction_data)
  fail_if (has_duplicate signers) (custom invalid_instruction_data)

-- The rest of `init`, once the signers have passed.
abbrev pub set_up : ℕ → List ℕ → ℕ → ℕ → Method AdminMultisig ⊤
set_up bootstrap_admin signers threshold bump = do
  fail_if ((← gets (λ v. v.discriminator)) != 0) (custom already_initialized)
  puts λ _. record {
    discriminator = disc_admin_multisig;
    bump = bump;
    threshold = threshold;
    n_signers = length signers;
    bootstrap_admin = bootstrap_admin;
    version = 1;
    signers = fill max_multisig_signers 0 signers;
  }

unfoldable pub init : ℕ → List ℕ → ℕ → ℕ → Method AdminMultisig ⊤
init bootstrap_admin signers threshold bump = do
  check_signers signers threshold
  set_up bootstrap_admin signers threshold bump

-- `&self.signers[..n]`
unfoldable pub active_signers : AdminMultisig → List ℕ
active_signers v = take (min v.n_signers max_multisig_signers) v.signers

unfoldable pub is_member : ℕ → AdminMultisig → Bool
is_member key v = contains key (active_signers v)

-- The inner loop: an account with this key has signed.
unfoldable pub has_signed : ℕ → List (ℕ × Bool) → Bool
has_signed s [] = false
has_signed s ((key, is_signer) ∷ accounts) =
    if is_signer && key == s then true else has_signed s accounts

-- The outer loop, from the count so far.
unfoldable pub count_from : ℕ → List ℕ → List (ℕ × Bool) → ℕ
count_from matched [] accounts = matched
count_from matched (s ∷ ss) accounts =
    count_from (if has_signed s accounts then saturating_add u8_max matched 1 else matched) ss
      accounts

unfoldable pub count_approvals : List (ℕ × Bool) → AdminMultisig → ℕ
count_approvals accounts v = count_from 0 (active_signers v) accounts

unfoldable pub check_threshold : List (ℕ × Bool) → AdminMultisig → Result ⊤
check_threshold accounts v =
    if leb v.threshold (count_approvals accounts v)
    then ok tt
    else err (custom insufficient_multisig_approvals)

-- The rest of `rotate`, once the signers have passed.
abbrev pub replace_signers : List ℕ → ℕ → AdminMultisig → AdminMultisig
replace_signers signers threshold v = record v {
  signers = fill max_multisig_signers 0 signers;
  n_signers = length signers;
  threshold = threshold;
  version = saturating_add u64_max v.version 1;
}

unfoldable pub rotate : List ℕ → ℕ → Method AdminMultisig ⊤
rotate signers threshold = do
  check_signers signers threshold
  puts (replace_signers signers threshold)
