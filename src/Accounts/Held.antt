-- ===== src/Accounts/Held.antt =====
-- The atoms that a list of accounts holds, and how the calls change it.
use polyleverage.Base.{
  Distinct, ℕ, ◌+◌, ◌≡◌, inl, inr, refl, ap, ◌∙◌, sym, true, false, List, [], ◌∷◌, arith, ◌==◌,
  if◌then◌else◌, contains, Bool-cases, ==_iff, subst,
}
use polyleverage.Method.{ok, Method}
use polyleverage.State.Margin.Laws.{total}
use polyleverage.Accounts.{World, Contents, margin, fee_treasury, Layout, load, store, on}
use polyleverage.Accounts.Views.{IsFaithful, on-eq-ok, load-view}

-- What an account holds of a vault's tokens: the three parts of a margin account, or the accrued fees
-- of a treasury; other accounts hold nothing.
abbrev pub held : Contents → ℕ
held (margin m) = total m
held (fee_treasury t) = t.accrued_atoms
held _ = 0

-- What the accounts with the given keys hold.
abbrev pub total_held : List ℕ → World → ℕ
total_held [] w = 0
total_held (k ∷ ks) w = held (w k).contents + total_held ks w

-- A call that changes no account's holding, whatever it returns.
abbrev pub SameHeld : World → World → Type 0
SameHeld w u = (k : ℕ) → held (u k).contents ≡ held (w k).contents

pub total_held-SameHeld :
    (ks : List ℕ) (w u : World) → SameHeld w u → total_held ks u ≡ total_held ks w
total_held-SameHeld [] w u h = refl
total_held-SameHeld (k ∷ ks) w u h = omega (arith, h k, total_held-SameHeld ks w u h)

-- A write to an account that is not listed.
total_held-store_other :
    {T : Type 0} (L : Layout T) (k : ℕ) (t : T) (w : World) (ks : List ℕ)
    → contains k ks ≡ false
    → total_held ks (store L k t w) ≡ total_held ks w
unfolding store
total_held-store_other L k t w [] h = refl
total_held-store_other L k t w (j ∷ ks) h = ground (arith, total_held-store_other L k t w ks)

module _ {T : Type 0} (L : Layout T) where
  pub stored_held :
      (k : ℕ) (t : T) (w : World) (j : ℕ)
      → held (store L k t w j).contents
        ≡ (if j == k then held (L.contents_of t) else held (w j).contents)
  unfolding store
  stored_held k t w j = elim (Bool-cases (j == k)) [ inl e ↦ rw e refl | inr e ↦ rw e refl ]

  -- A write to a listed account changes the sum by what that account gains or loses.
  pub total_held-store :
      (k : ℕ) (t : T) (w : World) (ks : List ℕ)
      → Distinct ks
      → contains k ks ≡ true
      → total_held ks (store L k t w) + held (w k).contents
        ≡ total_held ks w + held (L.contents_of t)
  total_held-store k t w [] d h = cc
  total_held-store k t w (j ∷ ks) d h = elim (Bool-cases (j == k)) [
    | inl here ↦
        let e = (==_iff j k).0 here in
        let others = total_held-store_other L k t w ks (subst (λ n. contains n ks ≡ false) e d.0) in
        let at = ap (λ (n : ℕ). held (w n).contents) e in
        ground (arith, stored_held k t w j, others, at)
    | inr there ↦ ground (arith, stored_held k t w j, total_held-store k t w ks d.1)
  ]

  module _ (faithful : IsFaithful L) where
    -- What an account that loads holds.
    pub load-held :
        (k : ℕ) (w : World) (t : T)
        → load L k w ≡ ok t
        → held (w k).contents ≡ held (L.contents_of t)
    load-held k w t loaded = ap held (faithful (w k).contents t (load-view L k w t loaded))

    -- An account's call that succeeds, and changes the account's holding from `minus` to `plus`,
    -- changes the sum over the listed accounts in the same way.
    pub on-total_held :
        {A : Type 0} (k : ℕ) (f : Method T A) (w u : World) (a : A) (ks : List ℕ) (plus minus : ℕ)
        → ((s t : T)
            → f s ≡ (ok a, t)
            → held (L.contents_of t) + minus ≡ held (L.contents_of s) + plus)
        → Distinct ks
        → contains k ks ≡ true
        → on L k f w ≡ (ok a, u)
        → total_held ks u + minus ≡ total_held ks w + plus
    on-total_held k f w u a ks plus minus shift d member h =
        let (s, t, loaded, called, stored) = on-eq-ok L k f w u h in
        rw stored (
          omega
            (arith, shift s t called, load-held k w s loaded, total_held-store k t w ks d member))

    -- Where the values of a type hold nothing, a write changes nothing.
    pub on-SameHeld :
        {A : Type 0}
        → ((t : T) → held (L.contents_of t) ≡ 0)
        → (k : ℕ) (f : Method T A) (w u : World) (a : A) → on L k f w ≡ (ok a, u)
        → SameHeld w u
    on-SameHeld empty k f w u a h j =
        let (s, t, loaded, called, stored) = on-eq-ok L k f w u h in
        ap (λ (x : World). held (x j).contents) stored
        ∙ (stored_held k t w j ∙ elim (Bool-cases (j == k)) [
          | inl e ↦ rw e (
              empty t
              ∙ sym (
                  ap (λ (i : ℕ). held (w i).contents) ((==_iff j k).0 e)
                  ∙ (load-held k w s loaded ∙ empty s)))
          | inr e ↦ rw e refl
        ])

    -- The same for each account: only the one that is written gains or loses.
    pub on-held :
        {A : Type 0} (k : ℕ) (f : Method T A) (w u : World) (a : A) (plus minus : ℕ)
        → ((s t : T)
            → f s ≡ (ok a, t)
            → held (L.contents_of t) + minus ≡ held (L.contents_of s) + plus)
        → on L k f w ≡ (ok a, u)
        → (j : ℕ)
        → held (u j).contents + (if j == k then minus else 0)
          ≡ held (w j).contents + (if j == k then plus else 0)
    on-held k f w u a plus minus shift h j =
        let (s, t, loaded, called, stored) = on-eq-ok L k f w u h in
        let now = ap (λ (x : World). held (x j).contents) stored ∙ stored_held k t w j in
        elim (Bool-cases (j == k)) [
          | inl e ↦
              let at = ap (λ (i : ℕ). held (w i).contents) ((==_iff j k).0 e) in
              ground (arith, now, at, shift s t called, load-held k w s loaded)
          | inr e ↦ ground (arith, now)
        ]

-- What one account loses and one account gains, in a sum over the accounts.
pub total_held-moved :
    (p q minus plus : ℕ) (w u : World)
    → ((k : ℕ)
        → held (u k).contents + (if k == p then minus else 0)
          ≡ held (w k).contents + (if k == q then plus else 0))
    → (ks : List ℕ) → Distinct ks
    → total_held ks u + (if contains p ks then minus else 0)
      ≡ total_held ks w + (if contains q ks then plus else 0)
total_held-moved p q minus plus w u moved [] d = refl
total_held-moved p q minus plus w u moved (k ∷ ks) d =
    let rest = total_held-moved p q minus plus w u moved ks d.1 in
    let here = moved k in
    let p_once : k ≡ p → contains p ks ≡ false = λ e. subst (λ n. contains n ks ≡ false) e d.0 in
    let q_once : k ≡ q → contains q ks ≡ false = λ e. subst (λ n. contains n ks ≡ false) e d.0 in
    ground (arith, rest, here, p_once, q_once)
