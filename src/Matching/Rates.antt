-- ===== src/Matching/Rates.antt =====
-- The fee schedule that a match reads (`match_pair_core` of src/processor/match_ix.rs), and the accounts
-- that are made before it is read.
use polyleverage.Base.{
  ℕ, ◌≡◌, refl, ap, ◌∙◌, sym, Bool, true, false, ◌||◌, not, none, some, arith, ◌==◌, ◌!=◌, ltb, inl,
  inr, Bool-cases, if◌then◌else◌,
}
use polyleverage.Error.{custom, invalid_pda, invalid_account_owner}
use polyleverage.Method.{
  ok, err, ⊤, Method, pure, reads, lift, gets, fail_if, ◌>>=◌, ◌>>◌, >>=-eq-ok, reads-eq-ok,
  pure-eq-ok, elim-eq-ok,
}
use polyleverage.State.Fees.{FeeSchedule, init_treasury, fee_for_volume, accrue}
use polyleverage.State.Volume.{init, add_volume, effective_30d_volume}
use polyleverage.Accounts.{
  World, Runtime, SystemProgram, CreatesOnly, Layout, seed_margin, seed_treasury, seed_user_volume,
  assert_pda, is_empty, load, store, on, check_loaded, margin_layout, fee_schedule_layout,
  fee_treasury_layout, user_volume_layout,
}
use polyleverage.Accounts.Views.{load-view}
use polyleverage.Accounts.Moves.{Does}
use polyleverage.Accounts.Looks.{Looks, Looks-reads, Looks-fail_if, Looks->>=}
use polyleverage.Fees.{fee_treasury_len, init_at, ensure_fee_treasury, check_treasury}
use polyleverage.Settlement.{validate_margin_pda}
use polyleverage.Matching.{MatchCtx}
use polyleverage.Matching.Core.{
  user_volume_len, ensure_user_volume, check_user_volume, ensure_fee_accounts, taker_fee,
  charge_fee, fee_at,
}
use polyleverage.Matching.Pairs.{when, MatchResult}
use polyleverage.Matching.Made.{init_at-eq-ok}

-- A schedule that is read after a call was there before it.
abbrev pub WasScheduled : World → World → Type 0
WasScheduled w u =
    (k : ℕ) (s : FeeSchedule)
    → fee_schedule_layout.view (u k).contents ≡ some s
    → fee_schedule_layout.view (w k).contents ≡ some s

pub same-WasScheduled :
    (w u : World)
    → ((k : ℕ) → fee_schedule_layout.view (u k).contents ≡ fee_schedule_layout.view (w k).contents)
    → WasScheduled w u
same-WasScheduled w u same k s h = sym (same k) ∙ h

Looks-WasScheduled : {A : Type 0} (f : Method World A) → Looks f → Does WasScheduled f
Looks-WasScheduled f look w u a h =
    same-WasScheduled w u
      λ k. ap (λ (x : World). fee_schedule_layout.view (x k).contents) (look w u a h)

then-WasScheduled :
    {A B : Type 0} (f : Method World A) (g : A → Method World B)
    → Does WasScheduled f
    → ((a : A) → Does WasScheduled (g a))
    → Does WasScheduled (f >>= g)
then-WasScheduled f g kf kg w u b h =
    let (a, t, first, rest) = >>=-eq-ok f g w u h in
    λ k s there. kf w t a first k s (kg a t u b rest k s there)

-- An account that is made for something else than a schedule.
made-WasScheduled :
    {T : Type 0} (sys : SystemProgram) (L : Layout T) (payer k space : ℕ) (init : Method T ⊤)
    → CreatesOnly sys
    → ((t : T) → fee_schedule_layout.view (L.contents_of t) ≡ none)
    → Does WasScheduled (do sys.create_account payer k space; init_at L k init)
unfolding store
made-WasScheduled sys L payer k space init only other w u b h =
    let (_, v, made, rest) =
      >>=-eq-ok (sys.create_account payer k space) (λ _. init_at L k init) w u h in
    let (x, t, called, stored) = init_at-eq-ok L k init v u rest in
    λ j s there.
      let now = sym (ap (λ (x : World). fee_schedule_layout.view (x j).contents) stored) ∙ there in
      elim (Bool-cases (j == k)) [
        | inl e ↦
            let at_k : fee_schedule_layout.view (L.contents_of t) ≡ some s = rw e at now in
            absurd (let nothing = other t in cc)
        | inr e ↦
            let before : fee_schedule_layout.view (v j).contents ≡ some s = rw e at now in
            sym (ap fee_schedule_layout.view (only payer k space w v made j (ground arith)))
            ∙ before
      ]

pub validate_margin_pda-WasScheduled :
    (rt : Runtime) (key owner mint : ℕ) → Does WasScheduled (validate_margin_pda rt key owner mint)
unfolding validate_margin_pda
validate_margin_pda-WasScheduled rt key owner mint = Looks-WasScheduled _ (
    Looks->>= (lift (assert_pda rt (seed_margin owner mint) key)) _ (Looks-reads _)
      λ bump. Looks->>= (reads (load margin_layout key)) _ (Looks-reads _) λ m. Looks-fail_if _ _)

check_treasury-Looks : (rt : Runtime) (key mint bump : ℕ) → Looks (check_treasury rt key mint bump)
unfolding check_treasury
check_treasury-Looks rt key mint bump =
    Looks->>= (reads (λ w. ok (w key).program)) _ (Looks-reads _) λ owner.
      Looks->>= (fail_if (owner != rt.program_id) (custom invalid_account_owner)) _
        (Looks-fail_if _ _)
        λ _.
          Looks->>= (reads (load fee_treasury_layout key)) _ (Looks-reads _)
            λ t. Looks-fail_if (t.collateral_mint != mint || t.bump != bump) (custom invalid_pda)

check_user_volume-Looks :
    (rt : Runtime) (key owner mint bump : ℕ) → Looks (check_user_volume rt key owner mint bump)
unfolding check_user_volume
check_user_volume-Looks rt key owner mint bump =
    Looks->>= (reads (λ w. ok (w key).program)) _ (Looks-reads _) λ program.
      Looks->>= (fail_if (program != rt.program_id) (custom invalid_account_owner)) _
        (Looks-fail_if _ _)
        λ _. Looks->>= (reads (load user_volume_layout key)) _ (Looks-reads _) λ t.
          Looks-fail_if (t.owner != owner || (t.collateral_mint != mint || t.bump != bump))
            (custom invalid_pda)

module _ (sys : SystemProgram) (rt : Runtime) (only : CreatesOnly sys) where
  ensure_fee_treasury-WasScheduled :
      (payer key mint : ℕ) → Does WasScheduled (ensure_fee_treasury sys rt payer key mint)
  unfolding ensure_fee_treasury
  ensure_fee_treasury-WasScheduled payer key mint =
      then-WasScheduled (lift (assert_pda rt (seed_treasury mint) key)) _
        (Looks-WasScheduled _ (Looks-reads _))
        λ bump.
          then-WasScheduled (gets λ w. is_empty (w key).contents) _
            (Looks-WasScheduled _ (Looks-reads _)) λ empty. go bump (not empty)
    where
      go :
          (bump : ℕ) (there : Bool)
          → Does WasScheduled (
              if there
              then check_treasury rt key mint bump
              else (sys.create_account payer key fee_treasury_len
                  >> init_at fee_treasury_layout key (init_treasury mint bump)))
      go bump true =
          Looks-WasScheduled (check_treasury rt key mint bump)
            (check_treasury-Looks rt key mint bump)
      go bump false =
          made-WasScheduled sys fee_treasury_layout payer key fee_treasury_len
            (init_treasury mint bump) only (λ t. refl)

  ensure_user_volume-WasScheduled :
      (payer key owner mint : ℕ)
      → Does WasScheduled (ensure_user_volume sys rt payer key owner mint)
  unfolding ensure_user_volume
  ensure_user_volume-WasScheduled payer key owner mint =
      then-WasScheduled (lift (assert_pda rt (seed_user_volume owner mint) key)) _
        (Looks-WasScheduled _ (Looks-reads _))
        λ bump.
          then-WasScheduled (gets λ w. is_empty (w key).contents) _
            (Looks-WasScheduled _ (Looks-reads _)) λ empty. go bump (not empty)
    where
      go :
          (bump : ℕ) (there : Bool)
          → Does WasScheduled (
              if there
              then check_user_volume rt key owner mint bump
              else (sys.create_account payer key user_volume_len
                  >> init_at user_volume_layout key (init owner mint rt.slot bump)))
      go bump true =
          Looks-WasScheduled (check_user_volume rt key owner mint bump)
            (check_user_volume-Looks rt key owner mint bump)
      go bump false =
          made-WasScheduled sys user_volume_layout payer key user_volume_len
            (init owner mint rt.slot bump) only (λ t. refl)

  pub ensure_fee_accounts-WasScheduled :
      (ctx : MatchCtx) (m : MatchResult) (mint : ℕ)
      → Does WasScheduled (ensure_fee_accounts sys rt ctx m mint)
  unfolding ensure_fee_accounts
  ensure_fee_accounts-WasScheduled ctx m mint =
      then-WasScheduled
        (ensure_fee_treasury sys rt ctx.payer.key ctx.fee_ctx.fee_treasury_ai.key mint) _
        (ensure_fee_treasury-WasScheduled _ _ _)
        λ _.
          then-WasScheduled
            (ensure_user_volume sys rt ctx.payer.key ctx.fee_ctx.taker_volume_ai.key _ mint) _
            (ensure_user_volume-WasScheduled _ _ _ _) λ _. ensure_user_volume-WasScheduled _ _ _ _

-- The fee is on the amount, at the rate that the schedule has for a volume.
abbrev pub IsRated : FeeSchedule → (per_side fee : ℕ) → Type 0
IsRated sched per_side fee = (volume : ℕ) × (fee ≡ fee_at (fee_for_volume volume sched) per_side)

pub charge_fee-IsRated :
    (rt : Runtime) (ctx : MatchCtx) (per_side fee : ℕ) (w u : World)
    → charge_fee rt ctx per_side w ≡ (ok fee, u)
    → (sched : FeeSchedule) × (load fee_schedule_layout ctx.fee_ctx.fee_schedule_ai.key w
        ≡ ok sched)
      × IsRated sched per_side fee
unfolding charge_fee taker_fee
charge_fee-IsRated rt ctx per_side fee w u h =
    let fees = ctx.fee_ctx in
    let grow : ℕ → Method World ⊤ = λ k. on user_volume_layout k (add_volume per_side rt.slot) in
    let credit : ℕ → Method World ⊤ =
      λ fee. when (ltb 0 fee) (on fee_treasury_layout fees.fee_treasury_ai.key (accrue fee)) in
    let (x, read, rest) =
      reads-eq-ok (taker_fee rt ctx per_side)
        (λ fee.
          grow fees.taker_volume_ai.key
          >> (grow fees.maker_volume_ai.key >> (credit fee >> pure fee)))
        w u h in
    let (_, w1, _, rest1) =
      >>=-eq-ok (grow fees.taker_volume_ai.key)
        (λ _. grow fees.maker_volume_ai.key >> (credit x >> pure x)) w u rest in
    let (_, w2, _, rest2) =
      >>=-eq-ok (grow fees.maker_volume_ai.key) (λ _. credit x >> pure x) w1 u rest1 in
    let (_, w3, _, last) = >>=-eq-ok (credit x) (λ _. pure x) w2 u rest2 in
    let (answer, _) = pure-eq-ok x w3 u last in
    let (sched, scheduled, read1) =
      elim-eq-ok (load fee_schedule_layout fees.fee_schedule_ai.key w)
        (λ sched. elim (load user_volume_layout fees.taker_volume_ai.key w) [
          | err e ↦ err e
          | ok vol ↦ ok (fee_at (fee_for_volume (effective_30d_volume rt.slot vol) sched) per_side)
        ])
        read in
    let (vol, _, read2) =
      elim-eq-ok (load user_volume_layout fees.taker_volume_ai.key w)
        (λ vol. ok (fee_at (fee_for_volume (effective_30d_volume rt.slot vol) sched) per_side))
        read1 in
    (sched, scheduled, (effective_30d_volume rt.slot vol, cc))

-- A schedule that loads after a call loaded before it.
pub load-WasScheduled :
    (w u : World)
    → WasScheduled w u
    → (k : ℕ) (s : FeeSchedule) → load fee_schedule_layout k u ≡ ok s
    → load fee_schedule_layout k w ≡ ok s
unfolding load
load-WasScheduled w u was k s h =
    let after = load-view fee_schedule_layout k u s h in
    ap (check_loaded fee_schedule_layout) (was k s after ∙ sym after) ∙ h
