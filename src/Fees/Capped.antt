-- ===== src/Fees/Capped.antt =====
-- The fee schedule before and after `process_set_fee_schedule` (src/processor/fees.rs).
use polyleverage.Base.{
  ℕ, ◌≤◌, ◌≡◌, refl, ap, ◌∙◌, Bool, true, false, some, List, [], ◌∷◌, arith, ◌!=◌,
}
use polyleverage.Error.{custom, invalid_account_owner, invalid_admin_signer}
use polyleverage.Method.{
  Result, ok, ⊤, Method, lift, gets, fail_if, ◌>>=◌, ◌>>◌, >>=-eq-ok, reads-eq-ok,
}
use polyleverage.State.Fees.{
  FeeTier, FeeSchedule, validate_tiers, fee_for_volume, compute_max_fee_bps,
}
use polyleverage.State.Fees.Tiers.{fee_for_volume-le-max}
use polyleverage.State.Config.{ProgramConfig}
use polyleverage.Accounts.{
  World, AccountInfo, Runtime, assert_signer, assert_writable, foreign, load, on, check_loaded,
  fee_schedule_layout, program_config_layout,
}
use polyleverage.Accounts.Views.{on-eq-ok, load-store, load-check_loaded}
use polyleverage.Fees.{check_admin, replace_tiers, set_fee_schedule_with, process_set_fee_schedule}

-- The schedule before and after a change, and the administrator who made it.
pub record Capped (admin : AccountInfo) (config_key schedule_key : ℕ) (tiers : List FeeTier)
    (w u : World) : Type 0 where
  pub cfg : ProgramConfig
  pub before : FeeSchedule
  pub after : FeeSchedule
  pub signed : admin.is_signer ≡ true
  pub configured : load program_config_layout config_key w ≡ ok cfg
  pub its_admin : cfg.admin ≡ admin.key
  pub was : load fee_schedule_layout schedule_key w ≡ ok before
  pub is_now : load fee_schedule_layout schedule_key u ≡ ok after
  pub replaced : after.tiers ≡ tiers
  pub valid : validate_tiers tiers ≡ ok tt
  pub no_higher : after.max_tier_fee_bps ≤ before.max_tier_fee_bps
  pub capped : (volume : ℕ) → fee_for_volume volume after ≤ before.max_tier_fee_bps

signed-eq-ok :
    (rt : Runtime) (admin config schedule : AccountInfo) (rest : Method World ⊤) (w u : World)
    → (do
      lift (assert_signer admin)
      lift (assert_writable schedule)
      is_foreign ← gets λ w. foreign rt w (config ∷ schedule ∷ [])
      fail_if is_foreign (custom invalid_account_owner)
      rest)
        w
      ≡ (ok tt, u)
    → (admin.is_signer ≡ true) × (rest w ≡ (ok tt, u))
signed-eq-ok rt admin config schedule rest w u h = ground arith

same_number : (a b : ℕ) → (a != b) ≡ false → a ≡ b
same_number a b h = ground arith

check_admin-eq-ok :
    (config_key admin : ℕ) (w u : World)
    → check_admin config_key admin w ≡ (ok tt, u)
    → (cfg : ProgramConfig) × (load program_config_layout config_key w ≡ ok cfg)
      × (cfg.admin ≡ admin)
      × (w ≡ u)
unfolding check_admin
check_admin-eq-ok config_key admin w u h =
    let (cfg, l, h1) =
      reads-eq-ok (load program_config_layout config_key)
        (λ cfg. fail_if (cfg.admin != admin) (custom invalid_admin_signer)) w u h in
    let (same, state) = passed (cfg.admin != admin) w u h1 in
    (cfg, l, same_number cfg.admin admin same, state)
  where
    passed :
        (b : Bool) (w u : World)
        → fail_if b (custom invalid_admin_signer) w ≡ (ok tt, u)
        → (b ≡ false) × (w ≡ u)
    passed true w u h = absurd (cc)
    passed false w u h = (refl, ap (λ (q : Result ⊤ × World). q.1) h)

replace_tiers-eq-ok :
    (now_slot : ℕ) (tiers : List FeeTier) (s t : FeeSchedule)
    → replace_tiers now_slot tiers s ≡ (ok tt, t)
    → (t.tiers ≡ tiers)
      × (compute_max_fee_bps tiers ≤ s.max_tier_fee_bps)
      × (t.max_tier_fee_bps ≡ compute_max_fee_bps tiers)
      × (t.discriminator ≡ s.discriminator)
unfolding replace_tiers
replace_tiers-eq-ok now_slot tiers s t h = ground arith

marked :
    (s t : FeeSchedule)
    → t.discriminator ≡ s.discriminator
    → check_loaded fee_schedule_layout (some s) ≡ ok s
    → check_loaded fee_schedule_layout (some t) ≡ ok t
unfolding check_loaded
marked s t same h = ground (arith, same)

-- A change of the fee schedule that succeeds was signed by the administrator of the configuration. The
-- schedule then has the tiers of the call, which are valid; the greatest fee has not grown, and no
-- volume pays more than the greatest fee of the schedule before.
pub process_set_fee_schedule-Capped :
    (rt : Runtime) (admin config schedule : AccountInfo) (rest : List AccountInfo)
    (tiers : List FeeTier) (w u : World)
    → process_set_fee_schedule rt (admin ∷ config ∷ schedule ∷ rest) tiers w ≡ (ok tt, u)
    → Capped admin config.key schedule.key tiers w u
unfolding process_set_fee_schedule set_fee_schedule_with
process_set_fee_schedule-Capped rt admin config schedule rest tiers w u h =
    let edit : Method World ⊤ = on fee_schedule_layout schedule.key (replace_tiers rt.slot tiers) in
    let checked : Method World ⊤ = lift (validate_tiers tiers) >> edit in
    let (signed, h1) =
      signed-eq-ok rt admin config schedule (check_admin config.key admin.key >> checked) w u h in
    let (_, v, first, second) =
      >>=-eq-ok (check_admin config.key admin.key) (λ _. checked) w u h1 in
    let (cfg, configured, its_admin, same) = check_admin-eq-ok config.key admin.key w v first in
    let (_, valid, h2) = reads-eq-ok (λ _. validate_tiers tiers) (λ _. edit) v u second in
    let (s, t, loaded, called, stored) =
      on-eq-ok fee_schedule_layout schedule.key (replace_tiers rt.slot tiers) v u h2 in
    let (replaced, low, cached, disc) = replace_tiers-eq-ok rt.slot tiers s t called in
    let mark = marked s t disc (load-check_loaded fee_schedule_layout schedule.key v s loaded) in
    record {
      cfg = cfg;
      before = s;
      after = t;
      signed = signed;
      configured = configured;
      its_admin = its_admin;
      was = ap (load fee_schedule_layout schedule.key) same ∙ loaded;
      is_now =
          ap (load fee_schedule_layout schedule.key) stored
          ∙ load-store fee_schedule_layout schedule.key v t refl mark;
      replaced = replaced;
      valid = valid;
      no_higher = omega (arith, low, cached);
      capped = λ volume.
          let below = fee_for_volume-le-max volume t in
          let same_max = ap compute_max_fee_bps replaced in omega (arith, below, same_max, low);
    }
