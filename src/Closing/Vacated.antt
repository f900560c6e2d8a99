-- ===== src/Closing/Vacated.antt =====
-- What is left of a contract's account, and where its lamports are.
use polyleverage.Base.{
  ℕ, ◌+◌, ◌≤◌, ◌≡◌, ◌≢◌, refl, ap, ◌∙◌, sym, subst, true, false, not, ◌==◌, List, [], ◌∷◌, arith,
  u64_max, if◌then◌else◌,
}
use polyleverage.Error.{custom, not_initialized, pmlc_not_live, invalid_account_owner}
use polyleverage.Method.{
  Result, ok, err, ⊤, Method, reads, lift, gets, puts, fail_if, ◌>>=◌, ◌>>◌, >>=-eq-ok,
}
use polyleverage.State.Pmlc.{Pmlc}
use polyleverage.Accounts.{
  AccountInfo, Runtime, SystemProgram, load, check_loaded, pmlc_layout, foreign, assert_signer,
  assert_writable,
}
use polyleverage.Closing.{
  Ledger, put_lamports, refund, vacate, close_pmlc_account, is_closed, closable, process_close_pmlc,
}

guarded-eq-ok :
    (rt : Runtime) (recipient contract : AccountInfo) (k : Method Ledger ⊤) (s t : Ledger)
    → (do
      lift (assert_signer recipient)
      lift (assert_writable recipient)
      lift (assert_writable contract)
      is_foreign ← gets λ (s : Ledger). foreign rt s.world (contract ∷ [])
      fail_if is_foreign (custom invalid_account_owner)
      k)
        s
      ≡ (ok tt, t)
    → (recipient.is_signer ≡ true) × (k s ≡ (ok tt, t))
guarded-eq-ok rt recipient contract k s t h = ground arith

closable-eq-ok :
    (rt : Runtime) (recipient contract : AccountInfo) (s t : Ledger)
    → closable rt recipient contract s ≡ (ok tt, t)
    → (p : Pmlc) × (load pmlc_layout contract.key s.world ≡ ok p)
      × (is_closed p ≡ true)
      × (recipient.is_signer ≡ true)
      × (t ≡ s)
unfolding closable
closable-eq-ok rt recipient contract s t h =
    let (signed, rest) =
      guarded-eq-ok rt recipient contract
        (do
          p ← reads λ s. load pmlc_layout contract.key s.world
          fail_if (not (is_closed p)) (custom pmlc_not_live))
        s t h in
    go (load pmlc_layout contract.key s.world) refl signed rest
  where
    go :
        (r : Result Pmlc)
        → load pmlc_layout contract.key s.world ≡ r
        → recipient.is_signer ≡ true
        → (lift r >>= λ p. fail_if (not (is_closed p)) (custom pmlc_not_live)) s ≡ (ok tt, t)
        → (p : Pmlc) × (load pmlc_layout contract.key s.world ≡ ok p)
          × (is_closed p ≡ true)
          × (recipient.is_signer ≡ true)
          × (t ≡ s)
    go (err e) l signed h = cc
    go (ok p) l signed h = ground arith

refund-eq-ok :
    (recipient key : ℕ) (s t : Ledger)
    → refund recipient key s ≡ (ok tt, t)
    → (left : ℕ) × (left ≡ (if recipient == key then 0 else s.lamports recipient))
      × (left + s.lamports key ≤ u64_max)
      × (t ≡ put_lamports recipient (left + s.lamports key) (put_lamports key 0 s))
unfolding refund
refund-eq-ok recipient key s t h = ground arith

-- The account of a settled contract after the call: it no longer loads and is the system program's,
-- its lamports are at the recipient, and every other account is as before.
pub record Vacates (sys : SystemProgram) (recipient key : ℕ) (s t : Ledger) : Type 0 where
  pub contract : Pmlc
  pub found : load pmlc_layout key s.world ≡ ok contract
  pub settled : is_closed contract ≡ true
  pub gone : load pmlc_layout key t.world ≡ err (custom not_initialized)
  pub assigned : (t.world key).program ≡ sys.id
  pub untouched : (k : ℕ) → k ≢ key → t.world k ≡ s.world k
  pub paid :
      recipient ≢ key
      → (t.lamports recipient ≡ s.lamports recipient + s.lamports key) × (t.lamports key ≡ 0)
  pub kept : recipient ≡ key → t.lamports key ≡ s.lamports key
  pub others : (k : ℕ) → k ≢ key → k ≢ recipient → t.lamports k ≡ s.lamports k

vacate-gone :
    (sys : SystemProgram) (key : ℕ) (s : Ledger)
    → load pmlc_layout key (vacate sys key s).world ≡ err (custom not_initialized)
unfolding load check_loaded
vacate-gone sys key s = let here : (key == key) ≡ true = ground arith in rw here refl

closed-Vacates :
    (sys : SystemProgram) (recipient key left : ℕ) (p : Pmlc) (s : Ledger)
    → load pmlc_layout key s.world ≡ ok p
    → is_closed p ≡ true
    → left ≡ (if recipient == key then 0 else s.lamports recipient)
    → Vacates sys recipient key s
        (vacate sys key (put_lamports recipient (left + s.lamports key) (put_lamports key 0 s)))
closed-Vacates sys recipient key left p s found settled counted = record {
  contract = p;
  found = found;
  settled = settled;
  gone = vacate-gone sys key s;
  assigned = let here : (key == key) ≡ true = ground arith in rw here refl;
  untouched = λ k apart. let off : (k == key) ≡ false = ground arith in rw off refl;
  paid = λ apart.
      let off : (recipient == key) ≡ false = ground arith in
      let off' : (key == recipient) ≡ false = ground arith in
      let here : (recipient == recipient) ≡ true = ground arith in
      let here' : (key == key) ≡ true = ground arith in
      let all : left ≡ s.lamports recipient = rw off at counted in
      (rw here (ap (λ n. n + s.lamports key) all), rw (off', here') refl);
  kept = λ same.
      let here : (recipient == key) ≡ true = ground arith in
      let here' : (key == recipient) ≡ true = ground arith in
      let nothing : left ≡ 0 = rw here at counted in rw here' (omega (arith, nothing));
  others = λ k apart apart'.
      let off : (k == key) ≡ false = ground arith in
      let off' : (k == recipient) ≡ false = ground arith in rw (off', off) refl;
}

-- A call that succeeds: the account held a contract that was closed, liquidated or resolved; it no
-- longer loads and is the system program's; its lamports are the recipient's, or its own if it is
-- the recipient; every other account and its lamports are as before.
pub process_close_pmlc-Vacates :
    (sys : SystemProgram) (rt : Runtime) (recipient contract : AccountInfo)
    (rest : List AccountInfo) (s t : Ledger)
    → process_close_pmlc sys rt (recipient ∷ contract ∷ rest) s ≡ (ok tt, t)
    → Vacates sys recipient.key contract.key s t
unfolding process_close_pmlc close_pmlc_account
process_close_pmlc-Vacates sys rt recipient contract rest s t h =
    let (_, s', first, later) =
      >>=-eq-ok (closable rt recipient contract)
        (λ _. close_pmlc_account sys recipient.key contract.key) s t h in
    let (p, found, settled, signed, same) = closable-eq-ok rt recipient contract s s' first in
    let (_, u, second, third) =
      >>=-eq-ok (refund recipient.key contract.key) (λ _. puts (vacate sys contract.key)) s' t
        later in
    let (left, counted, fits, moved) = refund-eq-ok recipient.key contract.key s' u second in
    let payout : Ledger → Ledger = λ v.
      put_lamports recipient.key (left + v.lamports contract.key) (put_lamports contract.key 0 v) in
    let result : t ≡ vacate sys contract.key (payout s) =
      sym (ap (λ (q : Result ⊤ × Ledger). q.1) third)
      ∙ (ap (vacate sys contract.key) moved ∙ ap (λ v. vacate sys contract.key (payout v)) same) in
    let owed : Ledger → ℕ =
      λ v. if recipient.key == contract.key then 0 else v.lamports recipient.key in
    subst (Vacates sys recipient.key contract.key s) (sym result) (
      closed-Vacates sys recipient.key contract.key left p s found settled (counted ∙ ap owed same))
