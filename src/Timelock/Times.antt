-- ===== src/Timelock/Times.antt =====
-- The two times of the proposals in src/processor/timelock.rs, over the calls of the handlers.
use polyleverage.Base.{
  ℕ, ◌≡◌, ◌≢◌, ◌⊎◌, inl, inr, refl, sym, ap, ◌∙◌, subst, Bool, true, false, not, Option, none, some,
  List, arith, ◌==◌, ==_iff, Bool-cases, if◌then◌else◌, i64_max, fits_ℤ,
}
use polyleverage.Base.Int.{ℤ, pos, ◌+ℤ◌}
use polyleverage.Error.{ProgramError, custom, already_initialized, arithmetic_overflow, panic}
use polyleverage.Method.{
  Result, ok, err, ⊤, Method, reads, puts, ok_or, fail_if, ◌>>=◌, ◌>>◌, >>=-eq-ok,
}
use polyleverage.State.Timelock.{
  TimelockProposal, timelock_delay_secs, timelock_proposal_len, set_new_signer,
}
use polyleverage.State.Config.{ProgramConfig}
use polyleverage.Accounts.{
  World, Runtime, SystemProgram, CreatesOnly, seed_timelock, assert_pda, timelock, is_empty, store,
  on, overwrite, program_config_layout, timelock_layout,
}
use polyleverage.Accounts.Views.{on-eq-ok, load-view, on-view}
use polyleverage.Accounts.Views.Faithful.{program_config_layout-IsFaithful}
use polyleverage.Accounts.Moves.{Does}
use polyleverage.Accounts.Looks.{Looks-reads, Does-guard}
use polyleverage.Timelock.{proposal, write_proposal}

abbrev pub reads_as : World → ℕ → Option TimelockProposal
reads_as w k = timelock_layout.view (w k).contents

-- A proposal made now.
abbrev pub MadeNow : Runtime → TimelockProposal → Type 0
MadeNow rt t =
    (t.proposed_unix_ts ≡ rt.unix_timestamp)
    × (t.executable_after_unix_ts ≡ rt.unix_timestamp +ℤ pos timelock_delay_secs)

-- A proposal with the times of one that was there.
abbrev pub WasThere : World → ℕ → TimelockProposal → Type 0
WasThere w k t =
    (s : TimelockProposal) × (reads_as w k ≡ some s)
    × (t.proposed_unix_ts ≡ s.proposed_unix_ts)
    × (t.executable_after_unix_ts ≡ s.executable_after_unix_ts)

-- A proposal with times that a call may give to the proposals that it makes for a key.
abbrev pub MakesAt : (ℕ → ℤ → ℤ → Type 0) → ℕ → TimelockProposal → Type 0
MakesAt Made k t = Made k t.proposed_unix_ts t.executable_after_unix_ts

-- Each proposal after the call is one that the call may make, or has the times that it had.
abbrev pub KeepsTimes : (ℕ → ℤ → ℤ → Type 0) → World → World → Type 0
KeepsTimes Made w u =
    (k : ℕ) (t : TimelockProposal) → reads_as u k ≡ some t → MakesAt Made k t ⊎ WasThere w k t

-- What a proposal's account reads as after a write, and what the others read as.
store-reads_as :
    (key k : ℕ) (v : TimelockProposal) (w : World)
    → reads_as (store timelock_layout key v w) k ≡ (if k == key then some v else reads_as w k)
unfolding store
store-reads_as key k v w = at (k == key)
  where
    at :
        (b : Bool)
        → timelock_layout.view
            (if b
              then record { program = (w key).program; contents = timelock v }
              else w k).contents
          ≡ (if b then some v else reads_as w k)
    at true = refl
    at false = refl

ok_or-eq-ok :
    {A : Type 0} (o : Option A) (e : ProgramError) (w u : World) (a : A)
    → ok_or o e w ≡ (ok a, u)
    → (o ≡ some a) × (u ≡ w)
ok_or-eq-ok none e w u a h = cc
ok_or-eq-ok {A} (some x) e w u a h =
    (ap some (sym same_value), sym (ap (λ (q : Result A × World). q.1) h))
  where
    same_value : a ≡ x
    same_value = cc

fits_ℤ-eq-some : (top : ℕ) (z a : ℤ) → fits_ℤ top z ≡ some a → a ≡ z
fits_ℤ-eq-some top z a h = ground arith

overwrite-eq-ok :
    (k : ℕ) (t : TimelockProposal) (w u : World)
    → overwrite timelock_layout k t w ≡ (ok tt, u)
    → u ≡ store timelock_layout k t w
unfolding overwrite
overwrite-eq-ok k t w u h = go (reads_as w k) h
  where
    go :
        (o : Option TimelockProposal)
        → ◌≡◌ {A = Result ⊤ × World}
            (elim o [ none ↦ (err panic, w) | some _ ↦ (ok tt, store timelock_layout k t w) ])
            (ok tt, u)
        → u ≡ store timelock_layout k t w
    go none e = cc
    go (some x) e = sym (ap (λ (q : Result ⊤ × World). q.1) e)

-- A proposal of now has the times of now.
proposal-MadeNow :
    (rt : Runtime) (bump proposal_id payer : ℕ) (signer : List ℕ) (after : ℤ)
    → after ≡ rt.unix_timestamp +ℤ pos timelock_delay_secs
    → MadeNow rt (proposal rt bump proposal_id payer signer after)
unfolding proposal set_new_signer
proposal-MadeNow rt bump proposal_id payer signer after e = (refl, e)

module _ (Made : ℕ → ℤ → ℤ → Type 0) where
  pub same-KeepsTimes :
      (w u : World) → ((k : ℕ) → reads_as u k ≡ reads_as w k) → KeepsTimes Made w u
  same-KeepsTimes w u same k t h = inr (t, sym (same k) ∙ h, refl, refl)

  pub KeepsTimes-trans :
      (w v u : World) → KeepsTimes Made w v → KeepsTimes Made v u → KeepsTimes Made w u
  KeepsTimes-trans w v u first second k t h = elim (second k t h) [
    | inl made ↦ inl made
    | inr (s, found, proposed, due) ↦ elim (first k s found) [
      | inl made ↦ inl (
          subst (λ z. Made k z t.executable_after_unix_ts) (sym proposed)
            (subst (Made k s.proposed_unix_ts) (sym due) made))
      | inr (r, found', proposed', due') ↦ inr (r, found', proposed ∙ proposed', due ∙ due')
    ]
  ]

  module _ {A B : Type 0} where
    pub Does->>=_KeepsTimes :
        (f : Method World A) (g : A → Method World B)
        → Does (KeepsTimes Made) f
        → ((a : A) → Does (KeepsTimes Made) (g a))
        → Does (KeepsTimes Made) (f >>= g)
    Does->>=_KeepsTimes f g kf kg w u b h =
        let (a, v, first, rest) = >>=-eq-ok f g w u h in
        KeepsTimes-trans w v u (kf w v a first) (kg a v u b rest)

    pub after_reads :
        (f : World → Result A) {g : A → Method World B}
        → ((a : A) → Does (KeepsTimes Made) (g a))
        → Does (KeepsTimes Made) (reads f >>= g)
    after_reads f {g} kg =
        Does->>=_KeepsTimes (reads f) g
          (λ w u a h. same-KeepsTimes w u λ k. ap (λ x. reads_as x k) (Looks-reads f w u a h)) kg

  -- A write to a proposal that leaves its times.
  pub on_timelock-KeepsTimes :
      (key : ℕ) (f : TimelockProposal → TimelockProposal)
      → ((t : TimelockProposal)
          → ((f t).proposed_unix_ts ≡ t.proposed_unix_ts)
            × ((f t).executable_after_unix_ts ≡ t.executable_after_unix_ts))
      → Does (KeepsTimes Made) (on timelock_layout key (puts f))
  unfolding store
  on_timelock-KeepsTimes key f times w u a h k t found =
      let (s, v, loaded, called, stored) = on-eq-ok timelock_layout key (puts f) w u h in
      let after = ap (λ x. reads_as x k) (sym stored) in
      let reads_now : (if k == key then some v else reads_as w k) ≡ some t =
        sym (store-reads_as key k v w) ∙ (after ∙ found) in
      split (Bool-cases (k == key)) s v (load-view timelock_layout key w s loaded) called reads_now
    where
      split :
          ((k == key) ≡ true) ⊎ ((k == key) ≡ false)
          → (s v : TimelockProposal) → reads_as w key ≡ some s
          → ◌≡◌ {A = Result ⊤ × TimelockProposal} (ok tt, f s) (ok tt, v)
          → (if k == key then some v else reads_as w k) ≡ some t
          → MakesAt Made k t ⊎ WasThere w k t
      split (inl e) s v there called now =
          let now' : some v ≡ some t = rw e at now in
          let t_eq : f s ≡ t = cc in
          inr (
            s,
            ap (reads_as w) ((==_iff k key).0 e) ∙ there,
            sym (ap (λ (x : TimelockProposal). x.proposed_unix_ts) t_eq) ∙ (times s).0,
            sym (ap (λ (x : TimelockProposal). x.executable_after_unix_ts) t_eq) ∙ (times s).1,
          )
      split (inr e) s v there called now =
          let now' : reads_as w k ≡ some t = rw e at now in inr (t, now', refl, refl)

  pub on_config-KeepsTimes :
      (key : ℕ) (f : Method ProgramConfig ⊤)
      → Does (KeepsTimes Made) (on program_config_layout key f)
  on_config-KeepsTimes key f w u a h = same-KeepsTimes w u (
      on-view program_config_layout timelock_layout.view program_config_layout-IsFaithful
        (λ x y. refl) key f w u h)

  -- An account that is made and written as a proposal of now.
  pub write_proposal-KeepsTimes :
      (rt : Runtime) (sys : SystemProgram) (payer tl_key proposal_id : ℕ) (signer : List ℕ)
      → ((t : TimelockProposal) → MadeNow rt t → MakesAt Made tl_key t)
      → CreatesOnly sys
      → Does (KeepsTimes Made) (write_proposal sys rt payer tl_key proposal_id signer)
  unfolding write_proposal
  write_proposal-KeepsTimes rt sys payer tl_key proposal_id signer makes creates =
      after_reads (λ _. assert_pda rt (seed_timelock proposal_id) tl_key)
        λ bump.
          after_reads (λ w. ok (is_empty (w tl_key).contents))
            λ empty. guard (not empty) (custom already_initialized) (made bump)
    where
      guard :
          (b : Bool) (e : ProgramError) {g : Method World ⊤}
          → Does (KeepsTimes Made) g
          → Does (KeepsTimes Made) (fail_if b e >> g)
      guard b e k = Does-guard (KeepsTimes Made) b e λ _. k

      made :
          (bump : ℕ)
          → Does (KeepsTimes Made) (do
            sys.create_account payer tl_key timelock_proposal_len
            executable_after ←
                ok_or
                  (fits_ℤ i64_max (rt.unix_timestamp +ℤ pos timelock_delay_secs))
                  (custom arithmetic_overflow)
            overwrite timelock_layout tl_key
                (proposal rt bump proposal_id payer signer executable_after))
      made bump w u b h k t found =
          let write : ℤ → Method World ⊤ = λ after.
            overwrite timelock_layout tl_key (proposal rt bump proposal_id payer signer after) in
          let due = fits_ℤ i64_max (rt.unix_timestamp +ℤ pos timelock_delay_secs) in
          let (_, v, first, rest) =
            >>=-eq-ok (sys.create_account payer tl_key timelock_proposal_len)
              (λ _. ok_or due (custom arithmetic_overflow) >>= write) w u h in
          let (after, x, second, third) =
            >>=-eq-ok (ok_or due (custom arithmetic_overflow)) write v u rest in
          let (is_due, same) = ok_or-eq-ok due (custom arithmetic_overflow) v x after second in
          let p = proposal rt bump proposal_id payer signer after in
          let now =
            sym (store-reads_as tl_key k p x)
            ∙ (ap (λ y. reads_as y k) (sym (overwrite-eq-ok tl_key p x u third)) ∙ found) in
          split (Bool-cases (k == tl_key)) p x
            (proposal-MadeNow rt bump proposal_id payer signer after
              (fits_ℤ-eq-some i64_max _ after is_due))
            (λ other.
              ap (λ y. reads_as y k) same
              ∙ ap timelock_layout.view
                  (creates payer tl_key timelock_proposal_len w v first k other))
            now
        where
          split :
              ((k == tl_key) ≡ true) ⊎ ((k == tl_key) ≡ false)
              → (p : TimelockProposal) (x : World) → MadeNow rt p
              → (k ≢ tl_key → reads_as x k ≡ reads_as w k)
              → (if k == tl_key then some p else reads_as x k) ≡ some t
              → MakesAt Made k t ⊎ WasThere w k t
          split (inl e) p x made same now =
              let now' : some p ≡ some t = rw e at now in
              let t_eq : p ≡ t = cc in
              inl (
                subst (λ j. MakesAt Made j t) (sym ((==_iff k tl_key).0 e))
                  (makes t (subst (MadeNow rt) t_eq made)))
          split (inr e) p x made same now =
              let now' : reads_as x k ≡ some t = rw e at now in
              inr (t, sym (same (ground arith)) ∙ now', refl, refl)
