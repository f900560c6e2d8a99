-- ===== src/Accounts/Looks.antt =====
-- Steps of a handler that only look.
use polyleverage.Base.{◌≡◌, refl, ap, ◌∙◌, sym, subst, Bool, true, false}
use polyleverage.Error.{ProgramError}
use polyleverage.Method.{Result, ok, err, Method, reads, lift, fail_if, ◌>>=◌, ◌>>◌, >>=-eq-ok}
use polyleverage.Accounts.{World}
use polyleverage.Accounts.Moves.{Does}

-- A call that, if it succeeds, changes nothing.
abbrev pub Looks : {A : Type 0} → Method World A → Type 0
Looks {A} f = (w u : World) (a : A) → f w ≡ (ok a, u) → u ≡ w

pub Looks-reads : {A : Type 0} (f : World → Result A) → Looks (reads f)
Looks-reads {A} f w u a h = sym (ap (λ (q : Result A × World). q.1) h)

pub Looks-fail_if : (b : Bool) (e : ProgramError) → Looks (fail_if b e)
Looks-fail_if true e = Looks-reads (λ _. err e)
Looks-fail_if false e = Looks-reads (λ _. ok tt)

pub Looks->>= :
    {A B : Type 0} (f : Method World A) (g : A → Method World B)
    → Looks f
    → ((a : A) → Looks (g a))
    → Looks (f >>= g)
Looks->>= f g lf lg w u b h =
    let (a, t, first, rest) = >>=-eq-ok f g w u h in lg a t u b rest ∙ lf w t a first

module _ {A B : Type 0} (P : World → World → Type 0) where
  -- What a handler does after a look is what it does.
  pub Does-Looks :
      (f : Method World A) {g : A → Method World B}
      → Looks f
      → ((a : A) → Does P (g a))
      → Does P (f >>= g)
  Does-Looks f {g} look rest w u b h =
      let (a, t, first, then) = >>=-eq-ok f g w u h in
      subst (λ x. P x u) (look w t a first) (rest a t u b then)

pub Does-guard :
    {B : Type 0} (P : World → World → Type 0) (b : Bool) (e : ProgramError) {g : Method World B}
    → (b ≡ false → Does P g)
    → Does P (fail_if b e >> g)
Does-guard P true e rest w u b h = cc
Does-guard P false e rest w u b h = rest refl w u b h

pub Does-lift :
    {A B : Type 0} (P : World → World → Type 0) (r : Result A) {g : A → Method World B}
    → ((a : A) → r ≡ ok a → Does P (g a))
    → Does P (lift r >>= g)
Does-lift P (ok a) rest w u b h = rest a refl w u b h
Does-lift P (err e) rest w u b h = cc
