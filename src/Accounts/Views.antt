-- ===== src/Accounts/Views.antt =====
-- What accounts read as, before and after a call that writes an account of another type.
pub mod Faithful
use polyleverage.Base.{
  arith, ℕ, ◌≡◌, refl, ap, ◌∙◌, sym, true, false, Option, none, some, ◌==◌, ◌≢◌, inl, inr,
  Bool-cases, ==_iff,
}
use polyleverage.Method.{Result, ok, err, puts, Method}
use polyleverage.Accounts.{World, Contents, Layout, load, store, on, check_loaded}

-- A call on an account that succeeds has loaded it, has succeeded on what was loaded, and has left
-- all other accounts alone.
pub on-eq-ok :
    {T A : Type 0} (L : Layout T) (k : ℕ) (f : Method T A) (w u : World) {a : A}
    → on L k f w ≡ (ok a, u)
    → (t v : T) × (load L k w ≡ ok t) × (f t ≡ (ok a, v)) × (u ≡ store L k v w)
unfolding on
on-eq-ok {T} {A} L k f w u {a} h = go (load L k w) refl h
  where
    called :
        (t : T) (p : Result A × T)
        → f t ≡ p
        → ◌≡◌ {A = Result A × World} (p.0, store L k p.1 w) (ok a, u)
        → (f t ≡ (ok a, p.1)) × (u ≡ store L k p.1 w)
    called t (r, v) e g =
        let r_eq : r ≡ ok a = ap (λ (q : Result A × World). q.0) g in
        (e ∙ ap (λ (x : Result A). (x, v)) r_eq, sym (ap (λ (q : Result A × World). q.1) g))

    go :
        (r : Result T)
        → load L k w ≡ r
        → ◌≡◌ {A = Result A × World}
            (elim r [ err e ↦ (err e, w) | ok t ↦ let (x, v) = f t in (x, store L k v w) ])
            (ok a, u)
        → (t v : T) × (load L k w ≡ ok t) × (f t ≡ (ok a, v)) × (u ≡ store L k v w)
    go (err e) l g = cc
    go (ok t) l g = let both = called t (f t) refl g in (t, (f t).1, l, both.0, both.1)

module _ {T : Type 0} (L : Layout T) where
  -- Contents that read as a value are the contents that the value is written as.
  abbrev pub IsFaithful : Type 0
  IsFaithful = (c : Contents) (t : T) → L.view c ≡ some t → c ≡ L.contents_of t

  -- What a load returns has been found.
  pub load-view : (k : ℕ) (w : World) (t : T) → load L k w ≡ ok t → L.view (w k).contents ≡ some t
  unfolding load check_loaded
  load-view k w t loaded = go (L.view (w k).contents) loaded
    where
      go : (o : Option T) → check_loaded L o ≡ ok t → o ≡ some t
      go none e = cc
      go (some v) e = ground arith

  -- What a load returns is marked as of its type.
  pub load-check_loaded :
      (k : ℕ) (w : World) (t : T) → load L k w ≡ ok t → check_loaded L (some t) ≡ ok t
  unfolding load
  load-check_loaded k w t loaded = ap (check_loaded L) (sym (load-view k w t loaded)) ∙ loaded

  -- What was stored, and is marked as of its type, loads.
  pub load-store :
      (k : ℕ) (w : World) (t : T)
      → L.view (L.contents_of t) ≡ some t
      → check_loaded L (some t) ≡ ok t
      → load L k (store L k t w) ≡ ok t
  unfolding load store
  load-store k w t reads_back marked =
      let here : (k == k) ≡ true = ground arith in rw here (ap (check_loaded L) reads_back ∙ marked)

  -- A write in place to an account that loads: what loads afterwards, and the other accounts.
  pub on_puts-load :
      (k : ℕ) (f : T → T) (w u : World) (t : T)
      → load L k w ≡ ok t
      → L.view (L.contents_of (f t)) ≡ some (f t)
      → check_loaded L (some (f t)) ≡ ok (f t)
      → on L k (puts f) w ≡ (ok tt, u)
      → (load L k u ≡ ok (f t)) × ((j : ℕ) → j ≢ k → u j ≡ w j)
  unfolding store
  on_puts-load k f w u t found reads_back marked h =
      let (t', v, loaded, called, stored) = on-eq-ok L k (puts f) w u h in
      let v_eq : v ≡ f t = cc in
      (
        ap (load L k) (stored ∙ ap (λ x. store L k x w) v_eq)
            ∙ load-store k w (f t) reads_back marked,
        λ j other.
            let elsewhere : (j == k) ≡ false = ground arith in
            ap (λ (x : World). x j) stored ∙ rw elsewhere refl,
      )

  -- A view that cannot tell the values of the layout apart sees no write.
  pub on-view :
      {A V : Type 0} (view : Contents → Option V)
      → IsFaithful
      → ((x y : T) → view (L.contents_of x) ≡ view (L.contents_of y))
      → (k : ℕ) (f : Method T A) (w u : World) {a : A} → on L k f w ≡ (ok a, u)
      → (j : ℕ) → view (u j).contents ≡ view (w j).contents
  unfolding store
  on-view view faithful blind k f w u h j =
      let (t, v, loaded, called, stored) = on-eq-ok L k f w u h in
      let found = faithful (w k).contents t (load-view k w t loaded) in
      ap (λ (x : World). view (x j).contents) stored ∙ elim (Bool-cases (j == k)) [
        | inl e ↦
            rw e (
              blind v t ∙ ap view (sym (ap (λ (i : ℕ). (w i).contents) ((==_iff j k).0 e) ∙ found)))
        | inr e ↦ rw e refl
      ]
