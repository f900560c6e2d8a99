-- ===== src/Accounts/Creates.antt =====
-- New accounts, and what the listed accounts hold.
use polyleverage.Base.{
  ℕ, ◌≡◌, refl, ap, ◌∙◌, sym, true, Option, none, some, ◌==◌, inl, inr, Bool-cases, ==_iff, arith,
}
use polyleverage.Error.{panic}
use polyleverage.Method.{Result, ok, err, ⊤}
use polyleverage.Accounts.{
  World, Contents, SystemProgram, CreatesOnly, CreatesFresh, Layout, is_empty, store, overwrite,
  margin, market_nonce, pmlc, program_config, instrument, multisig, timelock, session, fee_schedule,
  fee_treasury, user_volume, book, token_data, other,
}
use polyleverage.Accounts.Held.{held, SameHeld, stored_held}

pub overwrite-eq-ok :
    {T : Type 0} (L : Layout T) (k : ℕ) (t : T) (w u : World)
    → overwrite L k t w ≡ (ok tt, u)
    → u ≡ store L k t w
unfolding overwrite
overwrite-eq-ok {T} L k t w u h = go (L.view (w k).contents) h
  where
    go :
        (o : Option T)
        → ◌≡◌ {A = Result ⊤ × World}
            (elim o [ none ↦ (err panic, w) | some _ ↦ (ok tt, store L k t w) ])
            (ok tt, u)
        → u ≡ store L k t w
    go none g = cc
    go (some s) g = sym (ap (λ (q : Result ⊤ × World). q.1) g)

is_empty-held : (c : Contents) → is_empty c ≡ true → held c ≡ 0
is_empty-held (margin n) h = cc
is_empty-held (market_nonce n) h = cc
is_empty-held (pmlc p) h = cc
is_empty-held (program_config p) h = cc
is_empty-held (instrument i) h = cc
is_empty-held (multisig v) h = cc
is_empty-held (timelock t) h = cc
is_empty-held (session s) h = cc
is_empty-held (fee_schedule x) h = cc
is_empty-held (fee_treasury x) h = cc
is_empty-held (user_volume x) h = cc
is_empty-held (book b) h = cc
is_empty-held (token_data t) h = cc
is_empty-held (other s b) h = refl

-- A new account and a write of a value that holds nothing.
pub made-SameHeld :
    {T : Type 0} (sys : SystemProgram) (L : Layout T) (payer k space : ℕ) (t : T) (w v : World)
    → CreatesOnly sys
    → CreatesFresh sys
    → sys.create_account payer k space w ≡ (ok tt, v)
    → held (L.contents_of t) ≡ 0
    → SameHeld w (store L k t v)
made-SameHeld sys L payer k space t w v only fresh made empty j =
    stored_held L k t v j ∙ elim (Bool-cases (j == k)) [
      | inl e ↦ rw e (
          empty
          ∙ sym (
              ap (λ (i : ℕ). held (w i).contents) ((==_iff j k).0 e)
              ∙ is_empty-held (w k).contents (fresh payer k space w v made)))
      | inr e ↦ rw e (ap held (only payer k space w v made j (ground arith)))
    ]
