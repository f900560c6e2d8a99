-- ===== src/Intents/Authority.antt =====
-- Who may cancel an intent, and what a cancellation conserves.
use polyleverage.Base.{
  ℕ, ◌≤◌, ◌≡◌, ◌⊎◌, ap, ◌∙◌, Bool, true, false, not, List, [], ◌∷◌, arith, leb, ◌!=◌,
}
use polyleverage.Error.{
  custom, invalid_account_owner, session_delegate_mismatch, session_not_active,
  session_instrument_not_allowed,
}
use polyleverage.Method.{
  ok, ⊤, Method, pure, lift, gets, fail_if, ◌>>=◌, ◌>>◌, >>=-eq-ok, reads-eq-ok, guard-eq-ok,
  pure-eq-ok,
}
use polyleverage.State.Session.{Session, is_active, allows_instrument}
use polyleverage.Accounts.{
  World, AccountInfo, Runtime, seed_session, assert_signer, assert_writable, assert_pda, foreign,
  load, session_layout,
}
use polyleverage.Intents.{session_owner_for}
use polyleverage.Intents.Cancel.{
  owner_or_expired, owner_of_session, cancel_intent, cancel_with, process_cancel_intent, cancel_for,
  process_cancel_intent_delegated,
}
use polyleverage.Intents.Refunds.{assert_pda-eq-ok, Refunds, cancel_intent-Refunds}

-- The checks of the accounts, before the rest of the call.
signed-eq-ok :
    (rt : Runtime) (caller instrument book margin : AccountInfo) (rest : Method World ⊤)
    (w u : World)
    → (do
      lift (assert_signer caller)
      lift (assert_writable book)
      lift (assert_writable margin)
      is_foreign ← gets λ w. foreign rt w (instrument ∷ book ∷ margin ∷ [])
      fail_if is_foreign (custom invalid_account_owner)
      rest)
        w
      ≡ (ok tt, u)
    → (caller.is_signer ≡ true) × (rest w ≡ (ok tt, u))
signed-eq-ok rt caller instrument book margin rest w u h = ground arith

owner_or_expired-eq-ok :
    (caller trader expires now : ℕ)
    → owner_or_expired caller trader (leb expires now) ≡ ok tt
    → (trader ≡ caller) ⊎ (expires ≤ now)
unfolding owner_or_expired
owner_or_expired-eq-ok caller trader expires now h = ground arith

-- A cancellation that succeeds was signed by the trader of the intent, or the intent had expired. The
-- intent was in the instrument's book under the id of the call; whoever called, exactly what was set
-- aside for it, collateral and fees, went from the reserved to the free part of the margin account
-- that is derived from its trader, and what the accounts listed hold in all stays the same, each
-- listed once and that margin account among them.
pub process_cancel_intent-Refunds :
    (rt : Runtime) (caller instrument book margin : AccountInfo) (rest : List AccountInfo)
    (intent_id : ℕ) (w u : World)
    → process_cancel_intent rt (caller ∷ instrument ∷ book ∷ margin ∷ rest) intent_id w ≡ (ok tt, u)
    → (caller.is_signer ≡ true)
      × (r : Refunds rt
          (owner_or_expired caller.key)
          instrument.key
          book.key
          margin.key
          intent_id
          w
          u)
      × ((r.intent_of.owner.trader ≡ caller.key) ⊎ (r.intent_of.node.expiration_slot ≤ rt.slot))
unfolding process_cancel_intent cancel_with
process_cancel_intent-Refunds rt caller instrument book margin rest intent_id w u h =
    let (signed, h1) =
      signed-eq-ok rt caller instrument book margin
        (cancel_intent rt (owner_or_expired caller.key) instrument.key book.key margin.key
          intent_id)
        w u h in
    let r =
      cancel_intent-Refunds rt (owner_or_expired caller.key) instrument.key book.key margin.key
        intent_id w u h1 in
    (
      signed,
      r,
      owner_or_expired-eq-ok caller.key r.intent_of.owner.trader r.intent_of.node.expiration_slot
          rt.slot r.intent_of.allowed,
    )

same_number : (a b : ℕ) → (a != b) ≡ false → a ≡ b
same_number a b h = ground arith

holds : (b : Bool) → not b ≡ false → b ≡ true
holds b h = ground arith

-- An active session at its owner's address that lets the delegate trade the instrument.
pub record Delegates (rt : Runtime) (delegate_key instrument_key session_key owner : ℕ) (w : World)
    : Type 0 where
  pub session : Session
  pub loaded : load session_layout session_key w ≡ ok session
  pub delegate : session.delegate ≡ delegate_key
  pub active : is_active rt.slot session ≡ true
  pub allowed : allows_instrument instrument_key session ≡ true
  pub address : (rt.find_program_address (seed_session session.owner)).0 ≡ session_key
  pub its_owner : session.owner ≡ owner

pub session_owner_for-Delegates :
    (rt : Runtime) (delegate_key instrument_key session_key owner : ℕ) (w u : World)
    → session_owner_for rt delegate_key instrument_key session_key w ≡ (ok owner, u)
    → Delegates rt delegate_key instrument_key session_key owner w × (w ≡ u)
unfolding session_owner_for
session_owner_for-Delegates rt delegate_key instrument_key session_key owner w u h =
    let found : Session → Method World ℕ =
      λ s. lift (assert_pda rt (seed_session s.owner) session_key) >> pure s.owner in
    let allowed : Session → Method World ℕ = λ s.
      fail_if (not (allows_instrument instrument_key s)) (custom session_instrument_not_allowed)
      >> found s in
    let active : Session → Method World ℕ =
      λ s. fail_if (not (is_active rt.slot s)) (custom session_not_active) >> allowed s in
    let (s, l, h1) =
      reads-eq-ok (load session_layout session_key)
        (λ s. fail_if (s.delegate != delegate_key) (custom session_delegate_mismatch) >> active s) w
        u h in
    let (d, h2) =
      guard-eq-ok (s.delegate != delegate_key) (custom session_delegate_mismatch) (active s) w u
        h1 in
    let (a, h3) =
      guard-eq-ok (not (is_active rt.slot s)) (custom session_not_active) (allowed s) w u h2 in
    let (i, h4) =
      guard-eq-ok (not (allows_instrument instrument_key s)) (custom session_instrument_not_allowed)
        (found s) w u h3 in
    let (bump, derived, h5) =
      reads-eq-ok (λ _. assert_pda rt (seed_session s.owner) session_key) (λ _. pure s.owner) w u
        h4 in
    let (same, state) = pure-eq-ok s.owner w u h5 in
    (
      record {
        session = s;
        loaded = l;
        delegate = same_number s.delegate delegate_key d;
        active = holds (is_active rt.slot s) a;
        allowed = holds (allows_instrument instrument_key s) i;
        address = assert_pda-eq-ok rt (seed_session s.owner) session_key bump derived;
        its_owner = same;
      },
      state,
    )

delegated-eq-ok :
    (rt : Runtime) (fee_payer delegate instrument book margin session : AccountInfo)
    (rest : Method World ⊤) (w u : World)
    → (do
      lift (assert_signer fee_payer)
      lift (assert_writable fee_payer)
      lift (assert_signer delegate)
      lift (assert_writable book)
      lift (assert_writable margin)
      is_foreign ← gets λ w. foreign rt w (instrument ∷ book ∷ margin ∷ session ∷ [])
      fail_if is_foreign (custom invalid_account_owner)
      rest)
        w
      ≡ (ok tt, u)
    → (delegate.is_signer ≡ true) × (rest w ≡ (ok tt, u))
delegated-eq-ok rt fee_payer delegate instrument book margin session rest w u h = ground arith

owner_of_session-eq-ok :
    (owner trader : ℕ) (is_expired : Bool)
    → owner_of_session owner trader is_expired ≡ ok tt
    → trader ≡ owner
unfolding owner_of_session
owner_of_session-eq-ok owner trader is_expired h = ground arith

-- A delegated cancellation that succeeds was signed by the delegate of an active session, at its
-- owner's address, that allows the instrument; the intent's trader is the session's owner, exactly
-- what was set aside for the intent became free on that trader's margin account, and what the accounts
-- listed hold in all stays the same, each listed once and that margin account among them.
pub process_cancel_intent_delegated-Refunds :
    (rt : Runtime) (fee_payer delegate instrument book margin session : AccountInfo)
    (rest : List AccountInfo) (intent_id : ℕ) (w u : World)
    → process_cancel_intent_delegated rt
        (fee_payer ∷ delegate ∷ instrument ∷ book ∷ margin ∷ session ∷ rest)
        intent_id
        w
      ≡ (ok tt, u)
    → (delegate.is_signer ≡ true)
      × ((owner : ℕ) × Delegates rt delegate.key instrument.key session.key owner w
          × (r : Refunds rt
              (owner_of_session owner)
              instrument.key
              book.key
              margin.key
              intent_id
              w
              u)
          × (r.intent_of.owner.trader ≡ owner))
unfolding process_cancel_intent_delegated cancel_for
process_cancel_intent_delegated-Refunds rt fee_payer delegate instrument book margin session rest
      intent_id w u h =
    let cancel : ℕ → Method World ⊤ = λ owner.
      cancel_intent rt (owner_of_session owner) instrument.key book.key margin.key intent_id in
    let (signed, h1) =
      delegated-eq-ok rt fee_payer delegate instrument book margin session
        (session_owner_for rt delegate.key instrument.key session.key >>= cancel) w u h in
    let (owner, v, first, second) =
      >>=-eq-ok (session_owner_for rt delegate.key instrument.key session.key) cancel w u h1 in
    let (delegates, same) =
      session_owner_for-Delegates rt delegate.key instrument.key session.key owner w v first in
    let r =
      cancel_intent-Refunds rt (owner_of_session owner) instrument.key book.key margin.key intent_id
        w u (ap (cancel owner) same ∙ second) in
    (
      signed,
      (
        owner,
        delegates,
        r,
        owner_of_session-eq-ok owner r.intent_of.owner.trader
            (leb r.intent_of.node.expiration_slot rt.slot) r.intent_of.allowed,
      ),
    )
