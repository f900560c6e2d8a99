-- ===== src/Sessions/Opening.antt =====
-- What it takes to open a session.
use polyleverage.Base.{
  ℕ, ◌≤◌, ◌<◌, ◌≡◌, ◌⊎◌, inl, inr, refl, sym, ap, ◌∙◌, subst, Bool, true, false, Option, none, some,
  List, [], ◌∷◌, arith, length, fill, ◌!=◌, if◌then◌else◌, Bool-cases,
}
use polyleverage.Error.{
  custom, invalid_account_data, invalid_account_owner, global_paused, account_data_too_small,
}
use polyleverage.Method.{Result, ok, err, ⊤, reads, lift, gets, fail_if, ◌>>=◌, ◌>>◌, >>=-eq-ok}
use polyleverage.State.Session.{Session, disc_session, max_session_instruments, init, is_active}
use polyleverage.State.Config.{ProgramConfig}
use polyleverage.Accounts.{
  World, AccountInfo, Runtime, SystemProgram, seed_session, assert_signer, assert_writable,
  assert_pda, foreign, is_empty, load, check_loaded, store, program_config_layout, session_layout,
}
use polyleverage.Accounts.Views.{load-store}
use polyleverage.Accounts.Looks.{Looks-reads, Does-Looks, Does-guard, Does-lift}
use polyleverage.Sessions.{
  CreateSessionArgs, session_len, check_args, check_replaceable, make_room, init_session,
  open_session, create_session_with, process_create_session,
}

-- The bounds that a session needs.
pub record Bounded (now_slot : ℕ) (args : CreateSessionArgs) : Type 0 where
  pub unexpired : now_slot < args.expires_at_slot
  pub allowance : 0 < args.per_intent_max_collateral_atoms
  pub within_cap : args.per_intent_max_collateral_atoms ≤ args.cumulative_collateral_cap
  pub few : length args.allowed_instruments ≤ max_session_instruments

check_args-Bounded :
    (now_slot : ℕ) (args : CreateSessionArgs) (w u : World)
    → check_args now_slot args w ≡ (ok tt, u)
    → Bounded now_slot args × (u ≡ w)
unfolding check_args
check_args-Bounded now_slot args w u h = ground arith

-- There was no session at the key, or one of the same owner that was not active.
abbrev pub Replaceable : (now_slot owner key : ℕ) → World → Type 0
Replaceable now_slot owner key w =
    (is_empty (w key).contents ≡ true)
    ⊎ ((old : Session) × (load session_layout key w ≡ ok old)
        × (old.owner ≡ owner)
        × (is_active now_slot old ≡ false))

make_room-Replaceable :
    (sys : SystemProgram) (now_slot owner key : ℕ) (w u : World)
    → make_room sys now_slot owner key w ≡ (ok tt, u)
    → Replaceable now_slot owner key w
unfolding make_room check_replaceable
make_room-Replaceable sys now_slot owner key w u h = room (is_empty (w key).contents) refl h
  where
    existing :
        (r : Result Session)
        → load session_layout key w ≡ r
        → (lift r >>= λ existing. lift (check_replaceable now_slot owner existing)) w ≡ (ok tt, u)
        → Replaceable now_slot owner key w
    existing (err x) l h = cc
    existing (ok old) l h =
        let accepted : (old.owner ≡ owner) × (is_active now_slot old ≡ false) = ground arith in
        inr (old, l, accepted.0, accepted.1)

    room :
        (b : Bool)
        → is_empty (w key).contents ≡ b
        → (if b
              then sys.create_account owner key session_len
              else (reads (load session_layout key) >>= λ existing.
                  lift (check_replaceable now_slot owner existing)))
            w
          ≡ (ok tt, u)
        → Replaceable now_slot owner key w
    room true e h = inl e
    room false e h = existing (load session_layout key w) refl h

-- The session that the arguments describe, unused and not revoked.
abbrev pub opened : (now_slot owner bump : ℕ) → CreateSessionArgs → Session
opened now_slot owner bump args = record {
  discriminator = disc_session;
  bump = bump;
  revoked = 0;
  n_allowed_instruments = length args.allowed_instruments;
  owner = owner;
  delegate = args.delegate;
  expires_at_slot = args.expires_at_slot;
  per_intent_max_collateral_atoms = args.per_intent_max_collateral_atoms;
  cumulative_collateral_used = 0;
  cumulative_collateral_cap = args.cumulative_collateral_cap;
  created_at_slot = now_slot;
  version = 1;
  allowed_instruments = fill max_session_instruments 0 args.allowed_instruments;
}

init-opened :
    (now_slot owner bump : ℕ) (args : CreateSessionArgs) (s t : Session)
    → init owner args.delegate bump args.expires_at_slot args.per_intent_max_collateral_atoms
        args.cumulative_collateral_cap args.allowed_instruments now_slot s
      ≡ (ok tt, t)
    → t ≡ opened now_slot owner bump args
unfolding init
init-opened now_slot owner bump args s t h = ground arith

init_session-opened :
    (now_slot owner key bump : ℕ) (args : CreateSessionArgs) (w u : World)
    → init_session now_slot owner key bump args w ≡ (ok tt, u)
    → load session_layout key u ≡ ok (opened now_slot owner bump args)
unfolding init_session check_loaded
init_session-opened now_slot owner key bump args w u h = go (session_layout.view (w key).contents) h
  where
    written :
        (s : Session) (p : Result ⊤ × Session)
        → init owner args.delegate bump args.expires_at_slot args.per_intent_max_collateral_atoms
            args.cumulative_collateral_cap args.allowed_instruments now_slot s
          ≡ p
        → ◌≡◌ {A = Result ⊤ × World} (p.0, store session_layout key p.1 w) (ok tt, u)
        → load session_layout key u ≡ ok (opened now_slot owner bump args)
    written s (r, t) e h =
        let done : r ≡ ok tt = ap (λ (q : Result ⊤ × World). q.0) h in
        let result : t ≡ opened now_slot owner bump args =
          init-opened now_slot owner bump args s t (e ∙ ap (λ (x : Result ⊤). (x, t)) done) in
        ap (load session_layout key) (sym (ap (λ (q : Result ⊤ × World). q.1) h))
        ∙ (ap (λ x. load session_layout key (store session_layout key x w)) result
            ∙ load-store session_layout key w (opened now_slot owner bump args) refl refl)

    go :
        (o : Option Session)
        → ◌≡◌ {A = Result ⊤ × World}
            (elim o [
              | none ↦ (err (custom account_data_too_small), w)
              | some s ↦
                  let (r, t) =
                    init owner args.delegate bump args.expires_at_slot
                      args.per_intent_max_collateral_atoms args.cumulative_collateral_cap
                      args.allowed_instruments now_slot s in
                  (r, store session_layout key t w)
            ])
            (ok tt, u)
        → load session_layout key u ≡ ok (opened now_slot owner bump args)
    go none h = cc
    go (some s) h = written s _ refl h

opened-is_active :
    (now_slot owner bump : ℕ) (args : CreateSessionArgs)
    → Bounded now_slot args
    → is_active now_slot (opened now_slot owner bump args) ≡ true
unfolding is_active
opened-is_active now_slot owner bump args b = ground (arith, b.unexpired, b.allowance, b.within_cap)

-- The owner signed, the program is not paused and the arguments are within bounds; the session
-- stands at the owner's address, where no other session was active, and is active.
pub record Opens (rt : Runtime) (owner : AccountInfo) (config_key key : ℕ)
    (args : CreateSessionArgs) (w u : World) : Type 0 where
  pub signed : owner.is_signer ≡ true
  pub unpaused :
      (c : ProgramConfig) × (load program_config_layout config_key w ≡ ok c) × (c.global_pause ≡ 0)
  pub address : (rt.find_program_address (seed_session owner.key)).0 ≡ key
  pub bounded : Bounded rt.slot args
  pub replaceable : Replaceable rt.slot owner.key key w
  pub bump : ℕ
  pub found : load session_layout key u ≡ ok (opened rt.slot owner.key bump args)
  pub active : is_active rt.slot (opened rt.slot owner.key bump args) ≡ true

-- From the address on.
open_session-Opens :
    (sys : SystemProgram) (rt : Runtime) (owner : AccountInfo) (config_key key : ℕ)
    (args : CreateSessionArgs) (c : ProgramConfig) (w u : World)
    → owner.is_signer ≡ true
    → load program_config_layout config_key w ≡ ok c
    → c.global_pause ≡ 0
    → open_session sys rt owner.key key args w ≡ (ok tt, u)
    → Opens rt owner config_key key args w u
unfolding open_session
open_session-Opens sys rt owner config_key key args c w u signed configured unpaused h =
    let (bump, w0, first, rest) =
      >>=-eq-ok (lift (assert_pda rt (seed_session owner.key) key))
        (λ bump.
          check_args rt.slot args
          >> (make_room sys rt.slot owner.key key >> init_session rt.slot owner.key key bump args))
        w u h in
    let (_, w1, second, rest1) =
      >>=-eq-ok (check_args rt.slot args)
        (λ _. make_room sys rt.slot owner.key key >> init_session rt.slot owner.key key bump args)
        w0 u rest in
    let (_, w2, third, fourth) =
      >>=-eq-ok (make_room sys rt.slot owner.key key)
        (λ _. init_session rt.slot owner.key key bump args) w1 u rest1 in
    let (bounded, same1) = check_args-Bounded rt.slot args w0 w1 second in
    let same0 : w0 ≡ w = sym (ap (λ (q : Result ℕ × World). q.1) first) in
    let address : (rt.find_program_address (seed_session owner.key)).0 ≡ key = ground arith in
    record {
      signed = signed;
      unpaused = (c, configured, unpaused);
      address = address;
      bounded = bounded;
      replaceable =
          subst (Replaceable rt.slot owner.key key) (same1 ∙ same0)
            (make_room-Replaceable sys rt.slot owner.key key w1 w2 third);
      bump = bump;
      found = init_session-opened rt.slot owner.key key bump args w2 u fourth;
      active = opened-is_active rt.slot owner.key bump args bounded;
    }

unpaused-Opens :
    (sys : SystemProgram) (rt : Runtime) (owner : AccountInfo) (config_key key : ℕ)
    (args : CreateSessionArgs) (w u : World)
    → owner.is_signer ≡ true
    → (reads (load program_config_layout config_key) >>= λ config.
          fail_if (config.global_pause != 0) (custom global_paused)
          >> open_session sys rt owner.key key args)
        w
      ≡ (ok tt, u)
    → Opens rt owner config_key key args w u
unpaused-Opens sys rt owner config_key key args w u signed h =
    go (load program_config_layout config_key w) refl h
  where
    go :
        (r : Result ProgramConfig)
        → load program_config_layout config_key w ≡ r
        → (lift r >>= λ config.
              fail_if (config.global_pause != 0) (custom global_paused)
              >> open_session sys rt owner.key key args)
            w
          ≡ (ok tt, u)
        → Opens rt owner config_key key args w u
    go (err e) l h = cc
    go (ok c) l h = elim (Bool-cases (c.global_pause != 0)) [
      | inl e ↦
          let failed : ◌≡◌ {A = Result ⊤ × World} (err (custom global_paused), w) (ok tt, u) =
            rw e at h in
          cc
      | inr e ↦
          open_session-Opens sys rt owner config_key key args c w u signed l (ground arith)
            (rw e at h)
    ]

-- A call that succeeds: the owner signed, the program is not paused and the arguments are within
-- bounds; at the owner's address, where there was no session or an inactive one of the same owner,
-- stands the session that the arguments describe, and it is active.
pub process_create_session-Opens :
    (sys : SystemProgram) (rt : Runtime) (owner config session system : AccountInfo)
    (rest : List AccountInfo) (args : CreateSessionArgs) (w u : World)
    → process_create_session sys rt (owner ∷ config ∷ session ∷ system ∷ rest) args w ≡ (ok tt, u)
    → Opens rt owner config.key session.key args w u
unfolding process_create_session create_session_with
process_create_session-Opens sys rt owner config session system rest args w u h =
    let P : World → World → Type 0 = Opens rt owner config.key session.key args in
    Does-lift P (assert_signer owner)
      (λ _ signed. Does-lift P (assert_writable owner) λ _ _.
        Does-lift P (assert_writable session) λ _ _.
          Does-Looks P (gets λ w. foreign rt w (config ∷ [])) (Looks-reads _) λ is_foreign.
            Does-guard P is_foreign (custom invalid_account_owner) λ _.
              Does-guard P (system.key != sys.id) invalid_account_data λ _ w u b h.
                unpaused-Opens sys rt owner config.key session.key args w u (ground arith) h)
      w u tt h
