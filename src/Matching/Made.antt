-- ===== src/Matching/Made.antt =====
-- The accounts that a match makes (src/processor/match_ix.rs), and what accounts hold.
use polyleverage.Base.{
  ℕ, ◌≡◌, refl, ap, ◌∙◌, sym, Bool, true, false, ◌||◌, not, Option, none, some, arith, ◌!=◌,
  if◌then◌else◌,
}
use polyleverage.Error.{custom, account_data_too_small, invalid_pda, invalid_account_owner}
use polyleverage.Method.{Result, ok, err, ⊤, Method, reads, lift, gets, ◌>>=◌, ◌>>◌, >>=-eq-ok}
use polyleverage.State.Fees.{FeeTreasury, init_treasury}
use polyleverage.State.Volume.{init}
use polyleverage.Accounts.{
  World, Runtime, SystemProgram, assert_pda, seed_treasury, seed_user_volume, CreatesOnly,
  CreatesFresh, Layout, is_empty, load, store, overwrite, fee_treasury_layout, user_volume_layout,
  pmlc_layout,
}
use polyleverage.Accounts.Held.{held, SameHeld}
use polyleverage.Accounts.Creates.{overwrite-eq-ok, made-SameHeld}
use polyleverage.Accounts.Moves.{
  Does, SameReads-SameHeld, Quiet-guard, Quiet, Quiet-reads, Quiet-fail_if, Quiet-load,
}
use polyleverage.Fees.{fee_treasury_len, init_at, ensure_fee_treasury, check_treasury}
use polyleverage.Matching.{MatchCtx}
use polyleverage.Fixed.{notional_atoms, position_size_fp}
use polyleverage.State.Config.{InstrumentConfig}
use polyleverage.Matching.Core.{
  user_volume_len, pmlc_len, ensure_user_volume, check_user_volume, ensure_fee_accounts,
  create_pmlc, new_pmlc,
}
use polyleverage.Matching.Pairs.{MatchResult}

-- A call of `init` on the data of an account.
pub init_at-eq-ok :
    {T : Type 0} (L : Layout T) (k : ℕ) (init : Method T ⊤) (w u : World)
    → init_at L k init w ≡ (ok tt, u)
    → (s t : T) × (init s ≡ (ok tt, t)) × (u ≡ store L k t w)
unfolding init_at
init_at-eq-ok {T} L k init w u h = go (L.view (w k).contents) h
  where
    called :
        (s : T) (p : Result ⊤ × T)
        → init s ≡ p
        → ◌≡◌ {A = Result ⊤ × World} (p.0, store L k p.1 w) (ok tt, u)
        → (s t : T) × (init s ≡ (ok tt, t)) × (u ≡ store L k t w)
    called s (r, t) e g =
        let r_eq : r ≡ ok tt = ap (λ (q : Result ⊤ × World). q.0) g in
        (s, t, e ∙ ap (λ (x : Result ⊤). (x, t)) r_eq, sym (ap (λ (q : Result ⊤ × World). q.1) g))

    go :
        (o : Option T)
        → ◌≡◌ {A = Result ⊤ × World}
            (elim o [
              | none ↦ (err (custom account_data_too_small), w)
              | some t ↦ let (r, u) = init t in (r, store L k u w)
            ])
            (ok tt, u)
        → (s t : T) × (init s ≡ (ok tt, t)) × (u ≡ store L k t w)
    go none g = cc
    go (some s) g = called s (init s) refl g

-- Calls that succeed and change no holding, one after the other.
pub Quiet-SameHeld : {A : Type 0} (f : Method World A) → Quiet f → Does SameHeld f
Quiet-SameHeld f q w u a h = SameReads-SameHeld (q w u a h)

SameHeld->>= :
    {A B : Type 0} (f : Method World A) (g : A → Method World B)
    → Does SameHeld f
    → ((a : A) → Does SameHeld (g a))
    → Does SameHeld (f >>= g)
SameHeld->>= f g sf sg w u b h =
    let (a, t, first, rest) = >>=-eq-ok f g w u h in λ k. sg a t u b rest k ∙ sf w t a first k

pub SameHeld-reads : {A : Type 0} (f : World → Result A) → Does SameHeld (reads f)
SameHeld-reads f = Quiet-SameHeld (reads f) (Quiet-reads f)

-- A new account that is set up to hold nothing.
made_init-SameHeld :
    {T : Type 0} (sys : SystemProgram) (L : Layout T) (payer k space : ℕ) (init : Method T ⊤)
    → CreatesOnly sys
    → CreatesFresh sys
    → ((s t : T) → init s ≡ (ok tt, t) → held (L.contents_of t) ≡ 0)
    → Does SameHeld (do sys.create_account payer k space; init_at L k init)
made_init-SameHeld sys L payer k space init only fresh empty w u b h =
    let (_, v, made, rest) =
      >>=-eq-ok (sys.create_account payer k space) (λ _. init_at L k init) w u h in
    let (s, t, called, stored) = init_at-eq-ok L k init v u rest in
    λ j.
      ap (λ (x : World). held (x j).contents) stored
      ∙ made-SameHeld sys L payer k space t w v only fresh made (empty s t called) j

check_treasury-Quiet : (rt : Runtime) (key mint bump : ℕ) → Quiet (check_treasury rt key mint bump)
unfolding check_treasury
check_treasury-Quiet rt key mint bump =
    Quiet-load (λ w. ok (w key).program)
      λ owner. Quiet-guard (owner != rt.program_id) (custom invalid_account_owner) (
        Quiet-load (load fee_treasury_layout key)
          λ t. Quiet-fail_if (t.collateral_mint != mint || t.bump != bump) (custom invalid_pda))

check_user_volume-Quiet :
    (rt : Runtime) (key owner mint bump : ℕ) → Quiet (check_user_volume rt key owner mint bump)
unfolding check_user_volume
check_user_volume-Quiet rt key owner mint bump =
    Quiet-load (λ w. ok (w key).program)
      λ program. Quiet-guard (program != rt.program_id) (custom invalid_account_owner) (
        Quiet-load (load user_volume_layout key) λ v.
          Quiet-fail_if (v.owner != owner || (v.collateral_mint != mint || v.bump != bump))
            (custom invalid_pda))

init_treasury-held :
    (mint bump : ℕ) (s t : FeeTreasury)
    → init_treasury mint bump s ≡ (ok tt, t)
    → t.accrued_atoms ≡ 0
unfolding init_treasury
init_treasury-held mint bump s t h = ground arith

-- The account of the contract is new, and the contract is written to it.
pub create_pmlc-eq-ok :
    (sys : SystemProgram) (rt : Runtime) (ctx : MatchCtx) (inst : InstrumentConfig)
    (m : MatchResult) (w u : World)
    → create_pmlc sys rt ctx inst m w ≡ (ok tt, u)
    → (v : World) × (notional size_fp : ℕ) × (sys.create_account ctx.payer.key ctx.pmlc_ai.key
          pmlc_len w
        ≡ (ok tt, v))
      × (notional_atoms inst.collateral_bucket inst.leverage_bps ≡ ok notional)
      × (position_size_fp notional m.entry_fp ≡ ok size_fp)
      × (u
          ≡ store pmlc_layout ctx.pmlc_ai.key
              (new_pmlc rt ctx.instrument_ai.key inst m notional size_fp)
              v)
unfolding create_pmlc
create_pmlc-eq-ok sys rt ctx inst m w u h =
    let write : ℕ → ℕ → Method World ⊤ = λ notional size_fp.
      overwrite pmlc_layout ctx.pmlc_ai.key
        (new_pmlc rt ctx.instrument_ai.key inst m notional size_fp) in
    let (_, v, made, rest) =
      >>=-eq-ok (sys.create_account ctx.payer.key ctx.pmlc_ai.key pmlc_len)
        (λ _. lift (notional_atoms inst.collateral_bucket inst.leverage_bps) >>= λ notional.
          lift (position_size_fp notional m.entry_fp) >>= write notional)
        w u h in
    let (notional, v1, first, rest1) =
      >>=-eq-ok (lift (notional_atoms inst.collateral_bucket inst.leverage_bps))
        (λ notional. lift (position_size_fp notional m.entry_fp) >>= write notional) v u rest in
    let (size_fp, v2, second, third) =
      >>=-eq-ok (lift (position_size_fp notional m.entry_fp)) (write notional) v1 u rest1 in
    let same : v2 ≡ v =
      sym (ap (λ (q : Result ℕ × World). q.1) second)
      ∙ sym (ap (λ (q : Result ℕ × World). q.1) first) in
    let contract = new_pmlc rt ctx.instrument_ai.key inst m notional size_fp in
    (
      v,
      notional,
      size_fp,
      made,
      ap (λ (q : Result ℕ × World). q.0) first,
      ap (λ (q : Result ℕ × World). q.0) second,
      overwrite-eq-ok pmlc_layout ctx.pmlc_ai.key contract v2 u third
          ∙ ap (store pmlc_layout ctx.pmlc_ai.key contract) same,
    )

module _ (sys : SystemProgram) (rt : Runtime) (only : CreatesOnly sys)
    (fresh : CreatesFresh sys) where
  ensure_fee_treasury-SameHeld :
      (payer key mint : ℕ) → Does SameHeld (ensure_fee_treasury sys rt payer key mint)
  unfolding ensure_fee_treasury
  ensure_fee_treasury-SameHeld payer key mint =
      SameHeld->>= (lift (assert_pda rt (seed_treasury mint) key)) _ (SameHeld-reads _) λ bump.
        SameHeld->>= (gets λ w. is_empty (w key).contents) _ (SameHeld-reads _)
          λ empty. go bump (not empty)
    where
      go :
          (bump : ℕ) (there : Bool)
          → Does SameHeld (
              if there
              then check_treasury rt key mint bump
              else (sys.create_account payer key fee_treasury_len
                  >> init_at fee_treasury_layout key (init_treasury mint bump)))
      go bump true =
          Quiet-SameHeld (check_treasury rt key mint bump) (check_treasury-Quiet rt key mint bump)
      go bump false =
          made_init-SameHeld sys fee_treasury_layout payer key fee_treasury_len
            (init_treasury mint bump) only fresh (init_treasury-held mint bump)

  ensure_user_volume-SameHeld :
      (payer key owner mint : ℕ) → Does SameHeld (ensure_user_volume sys rt payer key owner mint)
  unfolding ensure_user_volume
  ensure_user_volume-SameHeld payer key owner mint =
      SameHeld->>= (lift (assert_pda rt (seed_user_volume owner mint) key)) _ (SameHeld-reads _)
        λ bump.
          SameHeld->>= (gets λ w. is_empty (w key).contents) _ (SameHeld-reads _)
            λ empty. go bump (not empty)
    where
      go :
          (bump : ℕ) (there : Bool)
          → Does SameHeld (
              if there
              then check_user_volume rt key owner mint bump
              else (sys.create_account payer key user_volume_len
                  >> init_at user_volume_layout key (init owner mint rt.slot bump)))
      go bump true =
          Quiet-SameHeld (check_user_volume rt key owner mint bump)
            (check_user_volume-Quiet rt key owner mint bump)
      go bump false =
          made_init-SameHeld sys user_volume_layout payer key user_volume_len
            (init owner mint rt.slot bump) only fresh (λ s t h. refl)

  pub ensure_fee_accounts-SameHeld :
      (ctx : MatchCtx) (m : MatchResult) (mint : ℕ)
      → Does SameHeld (ensure_fee_accounts sys rt ctx m mint)
  unfolding ensure_fee_accounts
  ensure_fee_accounts-SameHeld ctx m mint =
      SameHeld->>= (ensure_fee_treasury sys rt ctx.payer.key ctx.fee_ctx.fee_treasury_ai.key mint) _
        (ensure_fee_treasury-SameHeld _ _ _)
        λ _.
          SameHeld->>=
            (ensure_user_volume sys rt ctx.payer.key ctx.fee_ctx.taker_volume_ai.key _ mint) _
            (ensure_user_volume-SameHeld _ _ _ _) λ _. ensure_user_volume-SameHeld _ _ _ _

  pub create_pmlc-SameHeld :
      (ctx : MatchCtx) (inst : InstrumentConfig) (m : MatchResult)
      → Does SameHeld (create_pmlc sys rt ctx inst m)
  create_pmlc-SameHeld ctx inst m w u b h =
      let (v, notional, size_fp, made, _, _, stored) = create_pmlc-eq-ok sys rt ctx inst m w u h in
      λ j.
        ap (λ (x : World). held (x j).contents) stored
        ∙ made-SameHeld sys pmlc_layout ctx.payer.key ctx.pmlc_ai.key pmlc_len
            (new_pmlc rt ctx.instrument_ai.key inst m notional size_fp) w v only fresh made refl j
