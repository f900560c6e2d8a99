-- ===== src/State/Buckets/Allowed.antt =====
-- What an edit of the registry allows.
use polyleverage.Base.{
  ℕ, ◌≤◌, ◌<◌, ◌≡◌, ap, subst, true, List, [], ◌∷◌, arith, length, take, fill, take-fill, contains,
  Distinct, min,
}
use polyleverage.Method.{Result, ok, ⊤, puts, >>=-eq-ok}
use polyleverage.State.Buckets.{
  BucketRegistry, max_leverage_slots, max_collateral_slots, check_leverages, check_buckets,
  validate_inputs, edited, set_lists, allows_leverage, allows_bucket,
}

-- The used part of the slots is the list that was written.
take_filled :
    (slots : ℕ) (xs : List ℕ)
    → length xs ≤ slots
    → take (min (length xs) slots) (fill slots 0 xs) ≡ xs
take_filled slots xs h =
    let all_used : min (length xs) slots ≡ length xs = omega arith in
    rw all_used (take-fill slots 0 xs h)

check_leverages_sound :
    (ls : List ℕ)
    → check_leverages ls ≡ ok tt
    → Distinct ls × ((x : ℕ) → contains x ls ≡ true → (0 < x) × (x ≤ 10_000_000))
unfolding check_leverages
check_leverages_sound [] h = (tt, λ x e. cc)
check_leverages_sound (l ∷ ls) h =
    let (distinct, bounds) = check_leverages_sound ls (ground arith) in
    ((ground arith, distinct), λ x e. let at = bounds x in ground arith)

check_buckets_sound :
    (bs : List ℕ)
    → check_buckets bs ≡ ok tt
    → Distinct bs × ((x : ℕ) → contains x bs ≡ true → 0 < x)
unfolding check_buckets
check_buckets_sound [] h = (tt, λ x e. cc)
check_buckets_sound (b ∷ bs) h =
    let (distinct, bounds) = check_buckets_sound bs (ground arith) in
    ((ground arith, distinct), λ x e. let at = bounds x in ground arith)

validate_inputs_sound :
    (ls bs : List ℕ) (r s : BucketRegistry)
    → validate_inputs ls bs r ≡ (ok tt, s)
    → (length ls ≤ max_leverage_slots)
      × (length bs ≤ max_collateral_slots)
      × (check_leverages ls ≡ ok tt)
      × (check_buckets bs ≡ ok tt)
      × (s ≡ r)
unfolding validate_inputs
validate_inputs_sound ls bs r s h = ground arith

-- After an edit that succeeds, the registry allows exactly the leverages and the buckets that were
-- passed; these are listed once each and positive, and no leverage is above 1000.
pub set_lists-allows :
    (ls bs : List ℕ) (r s : BucketRegistry)
    → set_lists ls bs r ≡ (ok tt, s)
    → ((x : ℕ) → allows_leverage x s ≡ contains x ls)
      × ((x : ℕ) → allows_bucket x s ≡ contains x bs)
      × (Distinct ls × ((x : ℕ) → contains x ls ≡ true → (0 < x) × (x ≤ 10_000_000)))
      × (Distinct bs × ((x : ℕ) → contains x bs ≡ true → 0 < x))
unfolding set_lists allows_leverage allows_bucket
set_lists-allows ls bs r s h =
    let (_, t, checked, written) =
      >>=-eq-ok (validate_inputs ls bs) (λ _. puts (edited ls bs)) r s h in
    let (short_ls, short_bs, fine_ls, fine_bs, same) = validate_inputs_sound ls bs r t checked in
    let s_eq : edited ls bs t ≡ s = ap (λ (q : Result ⊤ × BucketRegistry). q.1) written in
    subst
      (λ v.
        ((x : ℕ)
          → contains x (take (min v.n_leverage max_leverage_slots) v.leverage_bps) ≡ contains x ls)
        × ((x : ℕ)
            → contains x (take (min v.n_collateral max_collateral_slots) v.collateral_buckets)
              ≡ contains x bs)
        × (Distinct ls × ((x : ℕ) → contains x ls ≡ true → (0 < x) × (x ≤ 10_000_000)))
        × (Distinct bs × ((x : ℕ) → contains x bs ≡ true → 0 < x)))
      s_eq
      (
        λ x. ap (contains x) (take_filled max_leverage_slots ls short_ls),
        λ x. ap (contains x) (take_filled max_collateral_slots bs short_bs),
        check_leverages_sound ls fine_ls,
        check_buckets_sound bs fine_bs,
      )
