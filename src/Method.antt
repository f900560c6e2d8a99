-- ===== src/Method.antt =====
-- A Rust method or handler: it changes a state and returns a value or an error. The state comes back
-- with an error too, since what was written before an early return stays written until the runtime
-- rolls the transaction back; a caller that swallows the error sees it.
use polyleverage.Base.{◌≡◌, refl, ap, Bool, true, false, Option, none, some}
use polyleverage.Error.{ProgramError}

pub data Result {ℓ} (A : Type ℓ) : Type ℓ where
  ok : A → Result A
  err : ProgramError → Result A

abbrev pub ⊤ : Type 0
⊤ = Unit {0}

abbrev pub Method : Type 0 → Type 0 → Type 0
Method S A = S → Result A × S

module _ {S A : Type 0} where
  abbrev pub pure : A → Method S A
  pure a s = (ok a, s)

  abbrev pub raise : ProgramError → Method S A
  raise e s = (err e, s)

  abbrev pub gets : (S → A) → Method S A
  gets f s = (ok (f s), s)

  -- A call that only reads, and may fail.
  abbrev pub reads : (S → Result A) → Method S A
  reads f s = (f s, s)

  abbrev pub lift : Result A → Method S A
  lift r s = (r, s)

  abbrev pub ok_or : Option A → ProgramError → Method S A
  ok_or none e = raise e
  ok_or (some a) e = pure a

abbrev pub puts : {S : Type 0} → (S → S) → Method S ⊤
puts f s = (ok tt, f s)

-- `if test { return Err(e) }`
abbrev pub fail_if : {S : Type 0} → Bool → ProgramError → Method S ⊤
fail_if true e s = (err e, s)
fail_if false e s = (ok tt, s)

infixl 5 ◌>>=◌ ◌>>◌
abbrev pub ◌>>=◌ : {S A B : Type 0} → Method S A → (A → Method S B) → Method S B
◌>>=◌ m f s = let (r, t) = m s in elim r [ ok a ↦ f a t | err e ↦ (err e, t) ]

abbrev pub ◌>>◌ : {S A B : Type 0} → Method S A → Method S B → Method S B
m >> k = m >>= λ _. k

-- What the runtime keeps of a call: the state that it left, or on an error the one before.
abbrev pub committed : {S A : Type 0} → Method S A → S → S
committed m s = let (r, t) = m s in elim r [ ok _ ↦ t | err _ ↦ s ]

-- Inversion of a successful sequence.
pub >>=-eq-ok :
    {S A B : Type 0} (m : Method S A) (f : A → Method S B) (s u : S) {b : B}
    → (m >>= f) s ≡ (ok b, u)
    → (a : A) × (t : S) × (m s ≡ (ok a, t)) × (f a t ≡ (ok b, u))
>>=-eq-ok {S} {A} {B} m f s u {b} h = go (m s) refl h
  where
    go :
        (p : Result A × S)
        → m s ≡ p
        → elim p.0 [ ok a ↦ f a p.1 | err e ↦ (err e, p.1) ] ≡ (ok b, u)
        → (a : A) × (t : S) × (m s ≡ (ok a, t)) × (f a t ≡ (ok b, u))
    go (ok a, t) e h' = (a, t, e, h')
    go (err e, t) e' h' = cc

-- Inversion of a successful read and of a guard that was passed.
pub reads-eq-ok :
    {S A B : Type 0} (f : S → Result A) (g : A → Method S B) (s u : S) {b : B}
    → (reads f >>= g) s ≡ (ok b, u)
    → (a : A) × (f s ≡ ok a) × (g a s ≡ (ok b, u))
reads-eq-ok {S} {A} {B} f g s u {b} h = go (f s) refl h
  where
    go :
        (r : Result A)
        → f s ≡ r
        → elim r [ ok a ↦ g a s | err e ↦ (err e, s) ] ≡ (ok b, u)
        → (a : A) × (f s ≡ ok a) × (g a s ≡ (ok b, u))
    go (ok a) e h' = (a, e, h')
    go (err e) e' h' = cc

pub guard-eq-ok :
    {S B : Type 0} (test : Bool) (e : ProgramError) (g : Method S B) (s u : S) {b : B}
    → (fail_if test e >> g) s ≡ (ok b, u)
    → (test ≡ false) × (g s ≡ (ok b, u))
guard-eq-ok true e g s u h = absurd (cc)
guard-eq-ok false e g s u h = (refl, h)

-- What an answer that is known was made of.
pub pure-eq-ok : {S A : Type 0} (a : A) (s u : S) {b : A} → pure a s ≡ (ok b, u) → (a ≡ b) × (s ≡ u)
pure-eq-ok {S} {A} a s u {b} h =
    let answer : ◌≡◌ {A = Result A} (ok a) (ok b) = ap (λ (q : Result A × S). q.0) h in
    (cc, ap (λ (q : Result A × S). q.1) h)

-- Inversion of `?` on a result: what goes on has been given a value.
pub elim-eq-ok :
    {A B : Type 0} (r : Result A) (f : A → Result B) {b : B}
    → elim r [ err e ↦ err e | ok a ↦ f a ] ≡ ok b
    → (a : A) × (r ≡ ok a) × (f a ≡ ok b)
elim-eq-ok (ok a) f h = (a, refl, h)
elim-eq-ok (err e) f h = absurd (cc)
