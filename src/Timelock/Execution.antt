-- ===== src/Timelock/Execution.antt =====
-- What the execution and the cancellation of a proposal do.
use polyleverage.Base.{ℕ, ◌≡◌, ◌≢◌, refl, sym, ap, ◌∙◌, subst, some, List, [], ◌∷◌, arith, ◌!=◌}
use polyleverage.Base.Int.{ltb_ℤ, ◌≤ℤ◌}
use polyleverage.Base.Bytes.{from_be_bytes}
use polyleverage.Error.{custom, invalid_account_owner, timelock_not_executable}
use polyleverage.Method.{
  Result, ok, err, ⊤, Method, pure, reads, lift, gets, puts, fail_if, ◌>>=◌, ◌>>◌, >>=-eq-ok,
}
use polyleverage.State.Config.{ProgramConfig}
use polyleverage.State.Timelock.{
  TimelockProposal, tl_kind_set_attestation_signer, tl_status_pending, tl_status_executed,
  new_signer,
}
use polyleverage.Accounts.{
  World, AccountInfo, Runtime, seed_timelock, assert_signer, assert_writable, assert_pda, foreign,
  load, on, check_loaded, program_config_layout, timelock_layout,
}
use polyleverage.Accounts.Views.{on_puts-load, load-check_loaded, on-view}
use polyleverage.Accounts.Views.Faithful.{
  program_config_layout-IsFaithful, timelock_layout-IsFaithful,
}
use polyleverage.Accounts.Moves.{Does}
use polyleverage.Accounts.Looks.{Looks-reads, Does-Looks, Does-guard, Does-lift}
use polyleverage.Admin.{authorize_admin_or_multisig}
use polyleverage.Timelock.{
  first_three, executable, authorize, rotate_signer, execute_with,
  process_execute_set_attestation_signer,
}

-- The configuration with the signer of a proposal, and the proposal marked as executed.
abbrev pub rotated : TimelockProposal → ProgramConfig → ProgramConfig
rotated t c = record c { attestation_signer = from_be_bytes (new_signer t) }

abbrev pub done : TimelockProposal → TimelockProposal
done t = record t { status = tl_status_executed }

-- A pending proposal for a new signer, due by the clock and authorised by the administrators, sets
-- the signer of the configuration and is marked; nothing else changes.
pub record Executes (rt : Runtime) (accounts : List AccountInfo) (config_key tl_key : ℕ)
    (w u : World) : Type 0 where
  pub request : TimelockProposal
  pub config : ProgramConfig
  pub found : load timelock_layout tl_key w ≡ ok request
  pub pending : request.status ≡ tl_status_pending
  pub kind : request.kind ≡ tl_kind_set_attestation_signer
  pub due : request.executable_after_unix_ts ≤ℤ rt.unix_timestamp
  pub configured : load program_config_layout config_key w ≡ ok config
  pub authorised : authorize_admin_or_multisig rt config accounts w ≡ ok tt
  pub signer_set : load program_config_layout config_key u ≡ ok (rotated request config)
  pub marked : load timelock_layout tl_key u ≡ ok (done request)
  pub others : (k : ℕ) → k ≢ config_key → k ≢ tl_key → u k ≡ w k

rotated-check_loaded :
    (t : TimelockProposal) (c : ProgramConfig)
    → check_loaded program_config_layout (some c) ≡ ok c
    → check_loaded program_config_layout (some (rotated t c)) ≡ ok (rotated t c)
unfolding check_loaded
rotated-check_loaded t c h = ground arith

done-check_loaded :
    (t : TimelockProposal)
    → check_loaded timelock_layout (some t) ≡ ok t
    → check_loaded timelock_layout (some (done t)) ≡ ok (done t)
unfolding check_loaded
done-check_loaded t h = ground arith

-- The two writes, with what was found before them.
rotate_signer-Executes :
    (rt : Runtime) (accounts : List AccountInfo) (config_key tl_key : ℕ) (t : TimelockProposal)
    (c : ProgramConfig) (w u : World)
    → load timelock_layout tl_key w ≡ ok t
    → t.status ≡ tl_status_pending
    → t.kind ≡ tl_kind_set_attestation_signer
    → t.executable_after_unix_ts ≤ℤ rt.unix_timestamp
    → load program_config_layout config_key w ≡ ok c
    → authorize_admin_or_multisig rt c accounts w ≡ ok tt
    → rotate_signer config_key tl_key t w ≡ (ok tt, u)
    → Executes rt accounts config_key tl_key w u
unfolding rotate_signer load
rotate_signer-Executes rt accounts config_key tl_key t c w u found pending kind due configured
      authorised h =
    let set_signer : Method ProgramConfig ⊤ = puts (rotated t) in
    let mark : Method TimelockProposal ⊤ = puts done in
    let (_, v, first, second) =
      >>=-eq-ok (on program_config_layout config_key set_signer)
        (λ _. on timelock_layout tl_key mark) w u h in
    let (signer_set, others) =
      on_puts-load program_config_layout config_key (rotated t) w v c configured refl
        (rotated-check_loaded t c
          (load-check_loaded program_config_layout config_key w c configured))
        first in
    let found' : load timelock_layout tl_key v ≡ ok t =
      ap (check_loaded timelock_layout) (
        on-view program_config_layout timelock_layout.view program_config_layout-IsFaithful
          (λ x y. refl) config_key set_signer w v first tl_key)
      ∙ found in
    let (marked, others') =
      on_puts-load timelock_layout tl_key done v u t found' refl
        (done-check_loaded t (load-check_loaded timelock_layout tl_key w t found)) second in
    record {
      request = t;
      config = c;
      found = found;
      pending = pending;
      kind = kind;
      due = due;
      configured = configured;
      authorised = authorised;
      signer_set =
          ap (check_loaded program_config_layout) (
            on-view timelock_layout program_config_layout.view timelock_layout-IsFaithful
              (λ x y. refl) tl_key mark v u second config_key)
          ∙ signer_set;
      marked = marked;
      others = λ k no_config no_tl. others' k no_tl ∙ others k no_config;
    }

-- A proposal that may be executed.
pub executable-eq-ok :
    (rt : Runtime) (tl_key : ℕ) (w u : World) (t : TimelockProposal)
    → executable rt tl_key w ≡ (ok t, u)
    → (load timelock_layout tl_key w ≡ ok t)
      × (t.status ≡ tl_status_pending)
      × (t.kind ≡ tl_kind_set_attestation_signer)
      × (t.executable_after_unix_ts ≤ℤ rt.unix_timestamp)
      × (u ≡ w)
unfolding executable
executable-eq-ok rt tl_key w u t h = go (load timelock_layout tl_key w) refl h
  where
    go :
        (r : Result TimelockProposal)
        → load timelock_layout tl_key w ≡ r
        → ((lift r >>= λ t.
              fail_if (t.status != tl_status_pending) (custom timelock_not_executable) >>= λ _.
              fail_if (t.kind != tl_kind_set_attestation_signer) (custom timelock_not_executable)
              >>= λ _.
                  fail_if
                    (ltb_ℤ rt.unix_timestamp t.executable_after_unix_ts)
                    (custom timelock_not_executable)
                  >>= λ _. pure t)
            w)
          ≡ (ok t, u)
        → (load timelock_layout tl_key w ≡ ok t)
          × (t.status ≡ tl_status_pending)
          × (t.kind ≡ tl_kind_set_attestation_signer)
          × (t.executable_after_unix_ts ≤ℤ rt.unix_timestamp)
          × (u ≡ w)
    go (err e) l h = cc
    go (ok q) l h = ground arith

authorize-eq-ok :
    (rt : Runtime) (config_key : ℕ) (accounts : List AccountInfo) (w u : World)
    → authorize rt config_key accounts w ≡ (ok tt, u)
    → (c : ProgramConfig) × (load program_config_layout config_key w ≡ ok c)
      × (authorize_admin_or_multisig rt c accounts w ≡ ok tt)
      × (u ≡ w)
unfolding authorize
authorize-eq-ok rt config_key accounts w u h = go (load program_config_layout config_key w) refl h
  where
    go :
        (r : Result ProgramConfig)
        → load program_config_layout config_key w ≡ r
        → ((lift r >>= λ c. reads (authorize_admin_or_multisig rt c accounts)) w) ≡ (ok tt, u)
        → (c : ProgramConfig) × (load program_config_layout config_key w ≡ ok c)
          × (authorize_admin_or_multisig rt c accounts w ≡ ok tt)
          × (u ≡ w)
    go (err e) l h = cc
    go (ok c) l h =
        (c, l, ap (λ (q : Result ⊤ × World). q.0) h, sym (ap (λ (q : Result ⊤ × World). q.1) h))

-- From the proposal on.
execute-Executes :
    (rt : Runtime) (accounts : List AccountInfo) (config_key tl_key : ℕ)
    → Does (Executes rt accounts config_key tl_key) (do
      t ← executable rt tl_key
      authorize rt config_key accounts
      rotate_signer config_key tl_key t)
execute-Executes rt accounts config_key tl_key w u b h =
    let (t, v, first, rest) =
      >>=-eq-ok (executable rt tl_key)
        (λ t. authorize rt config_key accounts >>= λ _. rotate_signer config_key tl_key t) w u h in
    let (found, pending, kind, due, same) = executable-eq-ok rt tl_key w v t first in
    let (_, x, second, third) =
      >>=-eq-ok (authorize rt config_key accounts) (λ _. rotate_signer config_key tl_key t) v u
        rest in
    let (c, configured, authorised, same') = authorize-eq-ok rt config_key accounts v x second in
    subst (λ y. Executes rt accounts config_key tl_key y u) same
      (rotate_signer-Executes rt accounts config_key tl_key t c v u
        (ap (load timelock_layout tl_key) same ∙ found) pending kind due configured authorised
        (subst (λ y. rotate_signer config_key tl_key t y ≡ (ok tt, u)) same' third))

-- The handler, once the accounts are unpacked.
unpacked-Executes :
    (rt : Runtime) (accounts : List AccountInfo) (proposal_id : ℕ) (admin config tl : AccountInfo)
    → Does
        (Executes rt accounts config.key tl.key)
        (execute_with rt accounts proposal_id admin config tl)
unfolding execute_with
unpacked-Executes rt accounts proposal_id admin config tl =
    let P = Executes rt accounts config.key tl.key in
    Does-lift P (assert_signer admin) λ _ _. Does-lift P (assert_writable config) λ _ _.
      Does-lift P (assert_writable tl) λ _ _.
        Does-Looks P (gets λ w. foreign rt w (config ∷ tl ∷ [])) (Looks-reads _) λ is_foreign.
          Does-guard P is_foreign (custom invalid_account_owner) λ _.
            Does-lift P (assert_pda rt (seed_timelock proposal_id) tl.key)
              λ _ _. execute-Executes rt accounts config.key tl.key

-- An execution that succeeds: the proposal was pending, of the right kind, due by the clock, and
-- authorised by the single admin or the multisig; the configuration has the proposed signer
-- afterwards, the proposal is marked as executed, and no other account has changed.
pub process_execute-Executes :
    (rt : Runtime) (accounts : List AccountInfo) (proposal_id : ℕ) (w u : World)
    (admin config tl : AccountInfo)
    → first_three accounts ≡ ok (admin, config, tl)
    → process_execute_set_attestation_signer rt accounts proposal_id w ≡ (ok tt, u)
    → Executes rt accounts config.key tl.key w u
unfolding process_execute_set_attestation_signer
process_execute-Executes rt accounts proposal_id w u admin config tl three h =
    Does-lift (Executes rt accounts config.key tl.key) (first_three accounts)
      {g = λ (a, c, t). execute_with rt accounts proposal_id a c t}
      (λ (a, c, t) e v u' b h'.
        let c_eq : c ≡ config = cc in
        let t_eq : t ≡ tl = cc in
        subst (λ x. Executes rt accounts x.key tl.key v u') c_eq
          (subst (λ x. Executes rt accounts c.key x.key v u') t_eq
            (unpacked-Executes rt accounts proposal_id a c t v u' b h')))
      w u tt h
