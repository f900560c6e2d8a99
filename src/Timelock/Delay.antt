-- ===== src/Timelock/Delay.antt =====
-- The handlers of src/processor/timelock.rs one after the other, and their clocks.
use polyleverage.Base.{
  ℕ, ◌≡◌, ◌⊎◌, inl, inr, refl, sym, ap, ◌∙◌, subst, Bool, none, some, List, [], ◌∷◌, ◌!=◌,
}
use polyleverage.Base.Int.{ℤ, pos, ◌≤ℤ◌, ◌+ℤ◌}
use polyleverage.Error.{
  ProgramError, custom, invalid_account_owner, invalid_account_data, timelock_not_executable,
  invalid_admin_signer,
}
use polyleverage.Method.{Result, ok, ⊤, Method, puts, fail_if, ◌>>=◌, ◌>>◌}
use polyleverage.State.Timelock.{
  TimelockProposal, tl_status_pending, tl_status_cancelled, timelock_delay_secs,
}
use polyleverage.Accounts.{
  World, AccountInfo, Runtime, SystemProgram, CreatesOnly, seed_timelock, assert_signer,
  assert_writable, assert_pda, foreign, load, program_config_layout, timelock_layout, on,
}
use polyleverage.Accounts.Views.{load-view}
use polyleverage.Accounts.Moves.{Does, Does-reads}
use polyleverage.Accounts.Looks.{Does-guard}
use polyleverage.Admin.{first_two}
use polyleverage.Timelock.{
  first_three, first_four, executable, authorize, rotate_signer, execute_with, cancel_pending,
  process_propose_set_attestation_signer, process_execute_set_attestation_signer,
  process_cancel_timelock,
}
use polyleverage.Timelock.Execution.{
  Executes, rotated, done, executable-eq-ok, process_execute-Executes,
}
use polyleverage.Timelock.Times.{
  KeepsTimes, WasThere, reads_as, Does->>=_KeepsTimes, after_reads, on_timelock-KeepsTimes,
  on_config-KeepsTimes, same-KeepsTimes, write_proposal-KeepsTimes,
}

module _ (rt : Runtime) (Made : ℕ → ℤ → ℤ → Type 0) where
  after_guard :
      (b : Bool) (e : ProgramError) {g : Method World ⊤}
      → Does (KeepsTimes Made) g
      → Does (KeepsTimes Made) (fail_if b e >> g)
  after_guard b e kept = Does-guard (KeepsTimes Made) b e λ _. kept

  authorize-KeepsTimes :
      (config_key : ℕ) (accounts : List AccountInfo) {g : Method World ⊤}
      → Does (KeepsTimes Made) g
      → Does (KeepsTimes Made) (authorize rt config_key accounts >> g)
  unfolding authorize
  authorize-KeepsTimes config_key accounts {g} kept =
      Does->>=_KeepsTimes Made (authorize rt config_key accounts) (λ _. g)
        (after_reads Made (load program_config_layout config_key) λ c w u a h.
          same-KeepsTimes Made w u (λ k. ap (λ (q : Result ⊤ × World). reads_as q.1 k) (sym h)))
        λ _. kept

  rotate_signer-KeepsTimes :
      (config_key tl_key : ℕ) (t : TimelockProposal)
      → Does (KeepsTimes Made) (rotate_signer config_key tl_key t)
  unfolding rotate_signer
  rotate_signer-KeepsTimes config_key tl_key t =
      Does->>=_KeepsTimes Made (on program_config_layout config_key (puts (rotated t)))
        (λ _. on timelock_layout tl_key (puts done))
        (on_config-KeepsTimes Made config_key (puts (rotated t)))
        λ _. on_timelock-KeepsTimes Made tl_key done λ p. (refl, refl)

  execute-KeepsTimes :
      (accounts : List AccountInfo) (proposal_id : ℕ)
      → Does (KeepsTimes Made) (process_execute_set_attestation_signer rt accounts proposal_id)
  unfolding process_execute_set_attestation_signer execute_with
  execute-KeepsTimes accounts proposal_id =
      after_reads Made (λ _. first_three accounts)
        λ (admin, config, tl).
          after_reads Made (λ _. assert_signer admin)
            λ _.
              after_reads Made (λ _. assert_writable config)
                λ _.
                  after_reads Made (λ _. assert_writable tl)
                    λ _.
                      after_reads Made (λ w. ok (foreign rt w (config ∷ tl ∷ [])))
                        λ is_foreign. after_guard is_foreign (custom invalid_account_owner) (
                          after_reads Made (λ _. assert_pda rt (seed_timelock proposal_id) tl.key)
                            λ _.
                              Does->>=_KeepsTimes Made (executable rt tl.key)
                                (λ t. authorize rt config.key accounts >>= λ _.
                                  rotate_signer config.key tl.key t)
                                (look tl.key)
                                λ t.
                                  authorize-KeepsTimes config.key accounts
                                    (rotate_signer-KeepsTimes config.key tl.key t))
    where
      look : (key : ℕ) → Does (KeepsTimes Made) (executable rt key)
      look key w u t h =
          let (_, _, _, _, same) = executable-eq-ok rt key w u t h in
          same-KeepsTimes Made w u λ k. ap (λ x. reads_as x k) same

  cancel_pending-KeepsTimes :
      (admin_key tl_key : ℕ) → Does (KeepsTimes Made) (cancel_pending admin_key tl_key)
  unfolding cancel_pending
  cancel_pending-KeepsTimes admin_key tl_key = after_reads Made (load timelock_layout tl_key) λ t.
      after_guard (t.proposer != admin_key) (custom invalid_admin_signer) (
        after_guard (t.status != tl_status_pending) (custom timelock_not_executable) (
          on_timelock-KeepsTimes Made tl_key (λ p. record p { status = tl_status_cancelled })
            λ p. (refl, refl)))

  cancel-KeepsTimes :
      (accounts : List AccountInfo) (proposal_id : ℕ)
      → Does (KeepsTimes Made) (process_cancel_timelock rt accounts proposal_id)
  unfolding process_cancel_timelock
  cancel-KeepsTimes accounts proposal_id =
      after_reads Made (λ _. first_two accounts)
        λ (admin, tl).
          after_reads Made (λ _. assert_signer admin)
            λ _.
              after_reads Made (λ _. assert_writable tl)
                λ _.
                  after_reads Made (λ w. ok (foreign rt w (tl ∷ [])))
                    λ is_foreign. after_guard is_foreign (custom invalid_account_owner) (
                      after_reads Made (λ _. assert_pda rt (seed_timelock proposal_id) tl.key)
                        λ _. cancel_pending-KeepsTimes admin.key tl.key)

-- What a call of the first handler proposes: for the third account of the call, with the times of now.
abbrev MadeFor : Runtime → List AccountInfo → ℕ → ℤ → ℤ → Type 0
MadeFor rt accounts k made due =
    ((made ≡ rt.unix_timestamp) × (due ≡ rt.unix_timestamp +ℤ pos timelock_delay_secs))
    × ((x : AccountInfo × AccountInfo × AccountInfo × AccountInfo) × (first_four accounts ≡ ok x)
        × (x.2.key ≡ k))

propose-KeepsTimes :
    (rt : Runtime) (sys : SystemProgram) (accounts : List AccountInfo) (proposal_id : ℕ)
    (signer : List ℕ)
    → CreatesOnly sys
    → Does
        (KeepsTimes (MadeFor rt accounts))
        (process_propose_set_attestation_signer sys rt accounts proposal_id signer)
unfolding process_propose_set_attestation_signer
propose-KeepsTimes rt sys accounts proposal_id signer creates =
    let Made = MadeFor rt accounts in
    Does-reads (KeepsTimes Made) (λ _. first_four accounts)
      λ (admin, config, tl, system) w u b four h.
        after_reads Made (λ _. assert_signer admin)
          (λ _.
            after_reads Made (λ _. assert_writable admin)
              λ _.
                after_reads Made (λ _. assert_writable tl)
                  λ _.
                    after_reads Made (λ w. ok (foreign rt w (config ∷ [])))
                      λ is_foreign. after_guard rt Made is_foreign (custom invalid_account_owner) (
                        after_guard rt Made (system.key != sys.id) invalid_account_data (
                          authorize-KeepsTimes rt Made config.key accounts (
                            write_proposal-KeepsTimes Made rt sys admin.key tl.key proposal_id
                              signer (λ t made. (made, ((admin, config, tl, system), four, refl)))
                              creates))))
          w u b h

-- The worlds that the three handlers lead to, from one without proposals, while the clock runs on
-- and other programs and handlers leave the proposals as they read.
pub data History (sys : SystemProgram) : World → ℤ → Type 0 where
  started : (w : World) (now : ℤ) → ((k : ℕ) → reads_as w k ≡ none) → History sys w now
  waited : (w : World) (now later : ℤ) → History sys w now → now ≤ℤ later → History sys w later
  elsewhere :
      (w u : World) (now : ℤ)
      → History sys w now
      → ((k : ℕ) → reads_as u k ≡ reads_as w k)
      → History sys u now
  proposed :
      (rt : Runtime) (accounts : List AccountInfo) (proposal_id : ℕ) (signer : List ℕ) (w u : World)
      → History sys w rt.unix_timestamp
      → process_propose_set_attestation_signer sys rt accounts proposal_id signer w ≡ (ok tt, u)
      → History sys u rt.unix_timestamp
  executed :
      (rt : Runtime) (accounts : List AccountInfo) (proposal_id : ℕ) (w u : World)
      → History sys w rt.unix_timestamp
      → process_execute_set_attestation_signer rt accounts proposal_id w ≡ (ok tt, u)
      → History sys u rt.unix_timestamp
  cancelled :
      (rt : Runtime) (accounts : List AccountInfo) (proposal_id : ℕ) (w u : World)
      → History sys w rt.unix_timestamp
      → process_cancel_timelock rt accounts proposal_id w ≡ (ok tt, u)
      → History sys u rt.unix_timestamp

-- A call in the history has proposed, by its third account and at the given clock.
abbrev pub ProposedAt :
    (sys : SystemProgram) (tl_key : ℕ) (clock : ℤ) (w : World) (now : ℤ)
    → History sys w now
    → Type 0
ProposedAt sys tl_key clock _ _ (started _ _ _) = ⊥
ProposedAt sys tl_key clock _ _ (waited w now _ past _) = ProposedAt sys tl_key clock w now past
ProposedAt sys tl_key clock _ _ (elsewhere w _ now past _) = ProposedAt sys tl_key clock w now past
ProposedAt sys tl_key clock _ _ (proposed rt accounts _ _ w _ past _) =
    ((clock ≡ rt.unix_timestamp)
      × ((x : AccountInfo × AccountInfo × AccountInfo × AccountInfo) × (first_four accounts ≡ ok x)
          × (x.2.key ≡ tl_key)))
    ⊎ ProposedAt sys tl_key clock w rt.unix_timestamp past
ProposedAt sys tl_key clock _ _ (executed rt _ _ w _ past _) =
    ProposedAt sys tl_key clock w rt.unix_timestamp past
ProposedAt sys tl_key clock _ _ (cancelled rt _ _ w _ past _) =
    ProposedAt sys tl_key clock w rt.unix_timestamp past

-- Proposed by a call of the history, and due a day after that call.
abbrev IsTimed :
    (sys : SystemProgram) (w : World) (now : ℤ) → History sys w now → ℕ → TimelockProposal → Type 0
IsTimed sys w now past k t =
    ProposedAt sys k t.proposed_unix_ts w now past
    × (t.executable_after_unix_ts ≡ t.proposed_unix_ts +ℤ pos timelock_delay_secs)

abbrev AllTimed : (sys : SystemProgram) (w : World) (now : ℤ) → History sys w now → Type 0
AllTimed sys w now past =
    (k : ℕ) (t : TimelockProposal) → reads_as w k ≡ some t → IsTimed sys w now past k t

-- The times of a proposal that was there are those of a call of the history.
AllTimed-WasThere :
    (sys : SystemProgram) (w : World) (now : ℤ) (past : History sys w now)
    → AllTimed sys w now past
    → (k : ℕ) (t : TimelockProposal) → WasThere w k t
    → IsTimed sys w now past k t
AllTimed-WasThere sys w now past timed k t (s, found, made, due) =
    let (before, after) = timed k s found in
    (
      subst (λ z. ProposedAt sys k z w now past) (sym made) before,
      due ∙ (after ∙ ap (λ (z : ℤ). z +ℤ pos timelock_delay_secs) (sym made)),
    )

History-AllTimed :
    (sys : SystemProgram)
    → CreatesOnly sys
    → (w : World) (now : ℤ) (past : History sys w now) → AllTimed sys w now past
History-AllTimed sys creates w now (started _ _ none_there) k t h = let nothing = none_there k in cc
History-AllTimed sys creates w later (waited _ now _ past le) k t h =
    History-AllTimed sys creates w now past k t h
History-AllTimed sys creates u now (elsewhere w _ _ past same) k t h =
    History-AllTimed sys creates w now past k t (sym (same k) ∙ h)
History-AllTimed sys creates u _ (proposed rt accounts id signer w _ past h) k t r =
    let before = History-AllTimed sys creates w rt.unix_timestamp past in
    elim (propose-KeepsTimes rt sys accounts id signer creates w u tt h k t r) [
      | inl ((made, due), four) ↦
          (inl (made, four), due ∙ ap (λ (z : ℤ). z +ℤ pos timelock_delay_secs) (sym made))
      | inr there ↦
          let (called, due) = AllTimed-WasThere sys w rt.unix_timestamp past before k t there in
          (inr called, due)
    ]
History-AllTimed sys creates u _ (executed rt accounts id w _ past h) k t r =
    let before = History-AllTimed sys creates w rt.unix_timestamp past in
    elim (execute-KeepsTimes rt (λ _ _ _. ⊥) accounts id w u tt h k t r) [
      | inl never ↦ absurd never
      | inr there ↦ AllTimed-WasThere sys w rt.unix_timestamp past before k t there
    ]
History-AllTimed sys creates u _ (cancelled rt accounts id w _ past h) k t r =
    let before = History-AllTimed sys creates w rt.unix_timestamp past in
    elim (cancel-KeepsTimes rt (λ _ _ _. ⊥) accounts id w u tt h k t r) [
      | inl never ↦ absurd never
      | inr there ↦ AllTimed-WasThere sys w rt.unix_timestamp past before k t there
    ]

-- In a history of calls of the three handlers that starts without proposals, in which the clock runs
-- on and other programs leave the proposals as they read, and given that the system program changes
-- only the data of the account that it makes: an execution that succeeds follows a call of the
-- history that proposed by the same account, and whose clock was at least a day behind the clock of
-- the execution.
pub process_execute_delayed :
    (sys : SystemProgram) (rt : Runtime) (accounts : List AccountInfo) (proposal_id : ℕ)
    (w u : World) (admin config tl : AccountInfo) (past : History sys w rt.unix_timestamp)
    → CreatesOnly sys
    → first_three accounts ≡ ok (admin, config, tl)
    → process_execute_set_attestation_signer rt accounts proposal_id w ≡ (ok tt, u)
    → Executes rt accounts config.key tl.key w u
      × ((clock : ℤ) × ProposedAt sys tl.key clock w rt.unix_timestamp past
          × (clock +ℤ pos timelock_delay_secs ≤ℤ rt.unix_timestamp))
process_execute_delayed sys rt accounts proposal_id w u admin config tl past creates three h =
    let e = process_execute-Executes rt accounts proposal_id w u admin config tl three h in
    let (made, due) =
      History-AllTimed sys creates w rt.unix_timestamp past tl.key e.request
        (load-view timelock_layout tl.key w e.request e.found) in
    (e, (e.request.proposed_unix_ts, made, subst (λ z. z ≤ℤ rt.unix_timestamp) due e.due))
