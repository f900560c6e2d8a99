-- ===== src/Accounts/Moves.antt =====
-- How handlers change what the listed accounts hold: step by step, along their do blocks.
use polyleverage.Base.{
  Distinct, ℕ, ◌+◌, ◌≡◌, refl, ap, ◌∙◌, sym, Bool, true, false, Option, none, some, List, arith,
  contains,
}
use polyleverage.Error.{ProgramError}
use polyleverage.Method.{
  Result, ok, err, Method, pure, reads, lift, fail_if, ◌>>=◌, ◌>>◌, >>=-eq-ok,
}
use polyleverage.State.Margin.{MarginAccount}
use polyleverage.State.Market.{MarketNonce}
use polyleverage.State.Fees.{FeeTreasury}
use polyleverage.State.Pmlc.{Pmlc}
use polyleverage.Accounts.{
  World, Contents, margin, market_nonce, pmlc, program_config, instrument, multisig, timelock,
  session, fee_schedule, fee_treasury, user_volume, book, token_data, other, Layout, load, on,
  check_loaded, margin_layout, pmlc_layout, instrument_layout, market_nonce_layout,
  fee_treasury_layout,
}
use polyleverage.Accounts.Views.{IsFaithful, on-view}
use polyleverage.Accounts.Views.Faithful.{
  margin_layout-IsFaithful, market_nonce_layout-IsFaithful, pmlc_layout-IsFaithful,
}
use polyleverage.Accounts.Held.{
  held, total_held, SameHeld, total_held-SameHeld, on-total_held, on-SameHeld,
}

-- Every margin account, treasury, contract and instrument reads as before.
pub record SameReads (w u : World) : Type 0 where
  pub margins : (k : ℕ) → margin_layout.view (u k).contents ≡ margin_layout.view (w k).contents
  pub treasuries :
      (k : ℕ) → fee_treasury_layout.view (u k).contents ≡ fee_treasury_layout.view (w k).contents
  pub pmlcs : (k : ℕ) → pmlc_layout.view (u k).contents ≡ pmlc_layout.view (w k).contents
  pub instruments :
      (k : ℕ) → instrument_layout.view (u k).contents ≡ instrument_layout.view (w k).contents

pub SameReads-refl : (w : World) → SameReads w w
SameReads-refl w = record {
  margins = λ k. refl;
  treasuries = λ k. refl;
  pmlcs = λ k. refl;
  instruments = λ k. refl;
}

-- What an account holds, from what it reads as.
held_of : Option MarginAccount → Option FeeTreasury → ℕ
held_of (some m) t = held (margin m)
held_of none (some t) = held (fee_treasury t)
held_of none none = 0

held-held_of : (c : Contents) → held c ≡ held_of (margin_layout.view c) (fee_treasury_layout.view c)
unfolding held_of
held-held_of (margin n) = refl
held-held_of (market_nonce n) = refl
held-held_of (pmlc p) = refl
held-held_of (program_config p) = refl
held-held_of (instrument i) = refl
held-held_of (multisig v) = refl
held-held_of (timelock t) = refl
held-held_of (session s) = refl
held-held_of (fee_schedule x) = refl
held-held_of (fee_treasury x) = refl
held-held_of (user_volume x) = refl
held-held_of (book b) = refl
held-held_of (token_data t) = refl
held-held_of (other s b) = refl

pub SameReads-SameHeld : {w u : World} → SameReads w u → SameHeld w u
SameReads-SameHeld {w} {u} r k =
    held-held_of (u k).contents
    ∙ ((λ i. held_of (r.margins k i) (r.treasuries k i)) ∙ sym (held-held_of (w k).contents))

module _ {A : Type 0} where
  -- A call that, if it succeeds, leaves margin accounts, contracts and instruments as they read.
  abbrev pub Quiet : Method World A → Type 0
  Quiet f = (w u : World) (a : A) → f w ≡ (ok a, u) → SameReads w u

  -- A call that, if it succeeds, changes the sum over the listed accounts from `minus` to `plus`.
  abbrev pub Moves : List ℕ → ℕ → ℕ → Method World A → Type 0
  Moves ks plus minus f =
      (w u : World) (a : A) → f w ≡ (ok a, u) → total_held ks u + minus ≡ total_held ks w + plus

  pub Quiet-reads : (f : World → Result A) → Quiet (reads f)
  Quiet-reads f w u a h = record {
    margins = λ k. ap (λ (q : Result A × World). margin_layout.view (q.1 k).contents) (sym h);
    treasuries =
        λ k. ap (λ (q : Result A × World). fee_treasury_layout.view (q.1 k).contents) (sym h);
    pmlcs = λ k. ap (λ (q : Result A × World). pmlc_layout.view (q.1 k).contents) (sym h);
    instruments =
        λ k. ap (λ (q : Result A × World). instrument_layout.view (q.1 k).contents) (sym h);
  }

  pub Quiet-pure : (a : A) → Quiet (pure a)
  Quiet-pure a = Quiet-reads λ _. ok a

  pub Quiet-Moves : (ks : List ℕ) (f : Method World A) → Quiet f → Moves ks 0 0 f
  Quiet-Moves ks f q w u a h =
      omega (arith, total_held-SameHeld ks w u (SameReads-SameHeld (q w u a h)))

module _ {A B : Type 0} where
  pub Quiet->>= :
      (f : Method World A) (g : A → Method World B)
      → Quiet f
      → ((a : A) → Quiet (g a))
      → Quiet (f >>= g)
  Quiet->>= f g qf qg w u b h =
      let (a, t, first, rest) = >>=-eq-ok f g w u h in
      let r = qf w t a first in
      let s = qg a t u b rest in
      record {
        margins = λ k. s.margins k ∙ r.margins k;
        treasuries = λ k. s.treasuries k ∙ r.treasuries k;
        pmlcs = λ k. s.pmlcs k ∙ r.pmlcs k;
        instruments = λ k. s.instruments k ∙ r.instruments k;
      }

  pub Moves->>= :
      (ks : List ℕ) (p m q n : ℕ) (f : Method World A) (g : A → Method World B)
      → Moves ks p m f
      → ((a : A) → Moves ks q n (g a))
      → Moves ks (p + q) (m + n) (f >>= g)
  Moves->>= ks p m q n f g mf mg w u b h =
      let (a, t, first, rest) = >>=-eq-ok f g w u h in
      omega (arith, mf w t a first, mg a t u b rest)

  pub Moves-then :
      (ks : List ℕ) (p m q n : ℕ) (f : Method World A) {g : Method World B}
      → Moves ks p m f
      → Moves ks q n g
      → Moves ks (p + q) (m + n) (f >> g)
  Moves-then ks p m q n f {g} mf mg = Moves->>= ks p m q n f (λ _. g) mf (λ _. mg)

  pub Moves-Quiet :
      (ks : List ℕ) (p m : ℕ) (f : Method World A) {g : Method World B}
      → Quiet f
      → Moves ks p m g
      → Moves ks p m (f >> g)
  Moves-Quiet ks p m f {g} qf mg w u a h =
      omega (arith, Moves->>= ks 0 0 p m f (λ _. g) (Quiet-Moves ks f qf) (λ _. mg) w u a h)

pub Quiet-fail_if : (b : Bool) (e : ProgramError) → Quiet (fail_if b e)
Quiet-fail_if true e = Quiet-reads (λ _. err e)
Quiet-fail_if false e = Quiet-reads (λ _. ok tt)

-- The steps that only look.
module _ {A B : Type 0} where
  pub Quiet-lift :
      (r : Result A) {g : A → Method World B} → ((a : A) → Quiet (g a)) → Quiet (lift r >>= g)
  Quiet-lift r {g} q = Quiet->>= (lift r) g (Quiet-reads _) q

  pub Quiet-load :
      (f : World → Result A) {g : A → Method World B}
      → ((a : A) → Quiet (g a))
      → Quiet (reads f >>= g)
  Quiet-load f {g} q = Quiet->>= (reads f) g (Quiet-reads _) q

pub Quiet-guard :
    {B : Type 0} (b : Bool) (e : ProgramError) {g : Method World B}
    → Quiet g
    → Quiet (fail_if b e >> g)
Quiet-guard b e {g} q = Quiet->>= (fail_if b e) (λ _. g) (Quiet-fail_if b e) (λ _. q)

-- Writes to an account whose type none of the four views reads are quiet.
pub Quiet-on :
    {T A : Type 0} (L : Layout T)
    → IsFaithful L
    → ((x y : T) → margin_layout.view (L.contents_of x) ≡ margin_layout.view (L.contents_of y))
    → ((x y : T)
        → fee_treasury_layout.view (L.contents_of x) ≡ fee_treasury_layout.view (L.contents_of y))
    → ((x y : T) → pmlc_layout.view (L.contents_of x) ≡ pmlc_layout.view (L.contents_of y))
    → ((x y : T)
        → instrument_layout.view (L.contents_of x) ≡ instrument_layout.view (L.contents_of y))
    → (k : ℕ) (f : Method T A) → Quiet (on L k f)
Quiet-on L faithful bm bt bp bi k f w u a h = record {
  margins = on-view L margin_layout.view faithful bm k f w u h;
  treasuries = on-view L fee_treasury_layout.view faithful bt k f w u h;
  pmlcs = on-view L pmlc_layout.view faithful bp k f w u h;
  instruments = on-view L instrument_layout.view faithful bi k f w u h;
}

pub Quiet-on_market_nonce :
    {A : Type 0} (k : ℕ) (f : Method MarketNonce A) → Quiet (on market_nonce_layout k f)
Quiet-on_market_nonce k f =
    Quiet-on market_nonce_layout market_nonce_layout-IsFaithful (λ x y. refl) (λ x y. refl)
      (λ x y. refl) (λ x y. refl) k f

pub on_margin-Moves :
    {A : Type 0} (ks : List ℕ) (k : ℕ) (f : Method MarginAccount A) (plus minus : ℕ)
    → ((m n : MarginAccount) (a : A)
        → f m ≡ (ok a, n)
        → held (margin n) + minus ≡ held (margin m) + plus)
    → Distinct ks
    → contains k ks ≡ true
    → Moves ks plus minus (on margin_layout k f)
on_margin-Moves ks k f plus minus shift d member w u a h =
    on-total_held margin_layout margin_layout-IsFaithful k f w u a ks plus minus
      (λ m n. shift m n a) d member h

pub on_pmlc-Moves :
    {A : Type 0} (ks : List ℕ) (k : ℕ) (f : Method Pmlc A) → Moves ks 0 0 (on pmlc_layout k f)
on_pmlc-Moves ks k f w u a h = omega (
  arith,
  total_held-SameHeld ks w u
      (on-SameHeld pmlc_layout pmlc_layout-IsFaithful (λ p. refl) k f w u a h),
)

-- What a call does that succeeds, as a relation of the state before and after.
abbrev pub Does : {A : Type 0} → (World → World → Type 0) → Method World A → Type 0
Does {A} P f = (w u : World) (a : A) → f w ≡ (ok a, u) → P w u

module _ {A B : Type 0} (P : World → World → Type 0) where
  -- A relation that sees only what reads stays as it is, before a call that looks.
  pub Does-Quiet :
      ((v w u : World) → SameReads v w → P w u → P v u)
      → (f : Method World A) {g : A → Method World B} → Quiet f
      → ((a : A) → Does P (g a))
      → Does P (f >>= g)
  Does-Quiet stable f {g} q rest w u b h =
      let (a, t, first, then) = >>=-eq-ok f g w u h in
      stable w t u (q w t a first) (rest a t u b then)

  -- After a read, the relation may speak of what was read.
  pub Does-reads :
      (f : World → Result A) {g : A → Method World B}
      → ((a : A) (w u : World) (b : B) → f w ≡ ok a → g a w ≡ (ok b, u) → P w u)
      → Does P (reads f >>= g)
  Does-reads f {g} rest w u b h = go (f w) refl h
    where
      go :
          (r : Result A)
          → f w ≡ r
          → elim r [ ok a ↦ g a w | err e ↦ (err e, w) ] ≡ (ok b, u)
          → P w u
      go (ok a) e h = rest a w u b e h
      go (err e) e' h = cc

pub load-SameReads_pmlc :
    {v w : World} → SameReads v w → (k : ℕ) → load pmlc_layout k w ≡ load pmlc_layout k v
unfolding load
load-SameReads_pmlc r k = ap (check_loaded pmlc_layout) (r.pmlcs k)

pub load-SameReads_instrument :
    {v w : World}
    → SameReads v w
    → (k : ℕ) → load instrument_layout k w ≡ load instrument_layout k v
unfolding load
load-SameReads_instrument r k = ap (check_loaded instrument_layout) (r.instruments k)
