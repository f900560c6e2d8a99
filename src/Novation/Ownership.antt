-- ===== src/Novation/Ownership.antt =====
-- `process_novate` (src/processor/novate.rs): the contract, its owners and the margin accounts.
use polyleverage.Base.{
  Distinct, ℕ, ◌≡◌, refl, ap, ◌∙◌, sym, subst, true, some, List, arith, contains,
}
use polyleverage.Method.{ok, ⊤, Method, lift, puts, ◌>>=◌, ◌>>◌, >>=-eq-ok}
use polyleverage.State.Margin.{
  MarginAccount, move_locked_to_free, debit_locked, credit_free, debit_free, credit_locked,
}
use polyleverage.State.Pmlc.{Pmlc, require_live}
use polyleverage.Accounts.{
  World, AccountInfo, Runtime, seed_margin, assert_pda, check_loaded, load, store, on,
  margin_layout, pmlc_layout,
}
use polyleverage.Accounts.Held.{total_held, total_held-SameHeld}
use polyleverage.Accounts.Views.{on-eq-ok, on-view, load-store, load-check_loaded}
use polyleverage.Accounts.Views.Faithful.{margin_layout-IsFaithful}
use polyleverage.Accounts.Moves.{
  Moves, SameReads, SameReads-SameHeld, load-SameReads_pmlc, Does, Does-Quiet, Does-reads,
  Quiet-reads, on_margin-Moves, on_pmlc-Moves,
}
use polyleverage.Settlement.{unpaused_signer}
use polyleverage.Settlement.Holdings.{unpaused_signer-Quiet}
use polyleverage.Novation.{
  NovateAccounts, unpack, check_accounts, check_side, side_owner, set_side_owner, owned_pmlc,
  check_instrument, check_margin, release_side, take_side, hand_over, transfer_side, process_novate,
}
use polyleverage.Novation.Checks.{
  check_accounts-Quiet, check_accounts-signed, check_instrument-Quiet, owned_pmlc-eq-ok,
}

module _ (ks : List ℕ) (d : Distinct ks) (k : ℕ) (member : contains k ks ≡ true) where
  release_side-Moves :
      (owner mint c : ℕ) → Moves ks 0 0 (on margin_layout k (release_side owner mint c))
  unfolding release_side check_margin move_locked_to_free debit_locked credit_free
  release_side-Moves owner mint c =
      on_margin-Moves ks k (release_side owner mint c) 0 0 (λ m n a h. ground arith) d member

  take_side-Moves : (owner mint c : ℕ) → Moves ks 0 0 (on margin_layout k (take_side owner mint c))
  unfolding take_side check_margin debit_free credit_locked
  take_side-Moves owner mint c =
      on_margin-Moves ks k (take_side owner mint c) 0 0 (λ m n a h. ground arith) d member

-- The contract after it was handed over.
abbrev pub handed_over : Runtime → ℕ → ℕ → Pmlc → Pmlc
handed_over rt side owner p = record (set_side_owner side owner p) { last_mark_slot = rt.slot }

-- Writes to a margin account leave every contract.
on_margin-load :
    (k : ℕ) (f : Method MarginAccount ⊤) (w u : World)
    → on margin_layout k f w ≡ (ok tt, u)
    → (j : ℕ) → load pmlc_layout j u ≡ load pmlc_layout j w
unfolding load
on_margin-load k f w u h j =
    ap (check_loaded pmlc_layout)
      (on-view margin_layout pmlc_layout.view margin_layout-IsFaithful (λ x y. refl) k f w u h j)

-- A contract that is handed over keeps its mark.
handed_over-check_loaded :
    (rt : Runtime) (side owner : ℕ) (p : Pmlc)
    → check_loaded pmlc_layout (some p) ≡ ok p
    → check_loaded pmlc_layout (some (handed_over rt side owner p))
      ≡ ok (handed_over rt side owner p)
unfolding check_loaded set_side_owner
handed_over-check_loaded rt side owner p h = ground arith

-- The side of the contract that is live passes from the one owner to the other, and both have
-- signed; nothing else of the contract changes but the slot of its last mark, and the sum of what
-- the accounts hold stays.
pub record HandsOver (ks : List ℕ) (rt : Runtime) (a : NovateAccounts) (side : ℕ) (w u : World)
    : Type 0 where
  pub contract : Pmlc
  pub signed : a.current_owner.is_signer ≡ true
  pub new_signed : a.new_owner.is_signer ≡ true
  pub found : load pmlc_layout a.pmlc.key w ≡ ok contract
  pub live : require_live contract ≡ ok tt
  pub owned : side_owner side contract ≡ a.current_owner.key
  pub left : load pmlc_layout a.pmlc.key u ≡ ok (handed_over rt side a.new_owner.key contract)
  pub conserved : total_held ks u ≡ total_held ks w

module _ (ks : List ℕ) (d : Distinct ks) (rt : Runtime) (a : NovateAccounts) (side : ℕ) where
  HandsOver-stable :
      (v w u : World) → SameReads v w → HandsOver ks rt a side w u → HandsOver ks rt a side v u
  HandsOver-stable v w u r done = record {
    contract = done.contract;
    signed = done.signed;
    new_signed = done.new_signed;
    found = sym (load-SameReads_pmlc r a.pmlc.key) ∙ done.found;
    live = done.live;
    owned = done.owned;
    left = done.left;
    conserved = done.conserved ∙ total_held-SameHeld ks v w (SameReads-SameHeld r);
  }

  module _ (ml : contains a.current_margin.key ks ≡ true)
      (mn : contains a.new_margin.key ks ≡ true) where
    abbrev Signed : Type 0
    Signed = (a.current_owner.is_signer ≡ true) × (a.new_owner.is_signer ≡ true)

    -- The three writes.
    hand_over-HandsOver :
        (p : Pmlc) (w u : World)
        → Signed
        → load pmlc_layout a.pmlc.key w ≡ ok p
        → require_live p ≡ ok tt
        → side_owner side p ≡ a.current_owner.key
        → hand_over rt a side p w ≡ (ok tt, u)
        → HandsOver ks rt a side w u
    unfolding hand_over
    hand_over-HandsOver p w u both found live owned h =
        let release = release_side a.current_owner.key p.collateral_mint p.collateral_per_side in
        let take = take_side a.new_owner.key p.collateral_mint p.collateral_per_side in
        let mark : Method Pmlc ⊤ = puts (handed_over rt side a.new_owner.key) in
        let (_, s, first, rest) =
          >>=-eq-ok (on margin_layout a.current_margin.key release)
            (λ _. on margin_layout a.new_margin.key take >>= λ _. on pmlc_layout a.pmlc.key mark) w
            u h in
        let (_, t, second, third) =
          >>=-eq-ok (on margin_layout a.new_margin.key take) (λ _. on pmlc_layout a.pmlc.key mark) s
            u rest in
        let (q, q', loaded, called, stored) = on-eq-ok pmlc_layout a.pmlc.key mark t u third in
        let same : load pmlc_layout a.pmlc.key t ≡ ok p =
          on_margin-load a.new_margin.key take s t second a.pmlc.key
          ∙ (on_margin-load a.current_margin.key release w s first a.pmlc.key ∙ found) in
        let p_q : p ≡ q = cc in
        let q_eq : handed_over rt side a.new_owner.key p ≡ q' = cc in
        record {
          contract = p;
          signed = both.0;
          new_signed = both.1;
          found = found;
          live = live;
          owned = owned;
          left =
              ap (load pmlc_layout a.pmlc.key)
                (stored ∙ ap (λ x. store pmlc_layout a.pmlc.key x t) (sym q_eq))
              ∙ load-store pmlc_layout a.pmlc.key t (handed_over rt side a.new_owner.key p) refl (
                  handed_over-check_loaded rt side a.new_owner.key p
                    (load-check_loaded pmlc_layout a.pmlc.key w p found));
          conserved = omega (
            arith,
            release_side-Moves ks d a.current_margin.key ml _ _ _ w s tt first,
            take_side-Moves ks d a.new_margin.key mn _ _ _ s t tt second,
            on_pmlc-Moves ks a.pmlc.key mark t u tt third,
          );
        }

    -- From the check of the instrument on, for a contract that loads.
    abbrev AsFound : Pmlc → World → World → Type 0
    AsFound p w u = load pmlc_layout a.pmlc.key w ≡ ok p → HandsOver ks rt a side w u

    AsFound-stable : (p : Pmlc) (v w u : World) → SameReads v w → AsFound p w u → AsFound p v u
    AsFound-stable p v w u r done found =
        HandsOver-stable v w u r (done (load-SameReads_pmlc r a.pmlc.key ∙ found))

    transfer_side-AsFound :
        (p : Pmlc)
        → Signed
        → require_live p ≡ ok tt
        → side_owner side p ≡ a.current_owner.key
        → Does (AsFound p) (do check_instrument a.instrument.key p; transfer_side rt a side p)
    unfolding transfer_side
    transfer_side-AsFound p both live owned =
        Does-Quiet (AsFound p) (AsFound-stable p) (check_instrument a.instrument.key p)
          (check_instrument-Quiet a.instrument.key p)
          λ _.
            Does-Quiet (AsFound p) (AsFound-stable p)
              (lift (
                assert_pda rt (seed_margin a.current_owner.key p.collateral_mint)
                  a.current_margin.key))
              (Quiet-reads _)
              λ _.
                Does-Quiet (AsFound p) (AsFound-stable p)
                  (lift (
                    assert_pda rt (seed_margin a.new_owner.key p.collateral_mint) a.new_margin.key))
                  (Quiet-reads _)
                  λ _ w u _ h found. hand_over-HandsOver p w u both found live owned h

    -- The handler from the check of the program's pause on.
    abbrev after_checks : Method World ⊤
    after_checks = do
      unpaused_signer a.program_config.key
      lift (check_side side)
      p ← owned_pmlc a.pmlc.key side a.current_owner.key
      check_instrument a.instrument.key p
      transfer_side rt a side p

    signed-HandsOver : Signed → Does (HandsOver ks rt a side) after_checks
    signed-HandsOver both =
        Does-Quiet (HandsOver ks rt a side) HandsOver-stable (unpaused_signer a.program_config.key)
          (unpaused_signer-Quiet _)
          λ _.
            Does-Quiet (HandsOver ks rt a side) HandsOver-stable (lift (check_side side))
              (Quiet-reads _)
              λ _ w u b h.
                let (p, t, first, rest) =
                  >>=-eq-ok (owned_pmlc a.pmlc.key side a.current_owner.key)
                    (λ p. check_instrument a.instrument.key p >>= λ _. transfer_side rt a side p) w
                    u h in
                let (found, live, owned, same) =
                  owned_pmlc-eq-ok a.pmlc.key side a.current_owner.key w t p first in
                subst (λ x. HandsOver ks rt a side x u) same
                  (transfer_side-AsFound p both live owned t u b rest
                    (ap (load pmlc_layout a.pmlc.key) same ∙ found))

    -- The handler, once the accounts are unpacked.
    unpacked-HandsOver : Does (HandsOver ks rt a side) (do check_accounts rt a; after_checks)
    unpacked-HandsOver w u b h =
        let (_, t, first, rest) = >>=-eq-ok (check_accounts rt a) (λ _. after_checks) w u h in
        HandsOver-stable w t u (check_accounts-Quiet rt a w t tt first)
          (signed-HandsOver (check_accounts-signed rt a w t first) t u b rest)

abbrev Asked : List ℕ → Runtime → ℕ → NovateAccounts → World → World → Type 0
Asked ks rt side a w u =
    contains a.current_margin.key ks ≡ true
    → contains a.new_margin.key ks ≡ true
    → HandsOver ks rt a side w u

pub process_novate-HandsOver :
    (ks : List ℕ) (rt : Runtime) (accounts : List AccountInfo) (side : ℕ) (w u : World)
    (a : NovateAccounts)
    → Distinct ks
    → unpack accounts ≡ ok a
    → contains a.current_margin.key ks ≡ true
    → contains a.new_margin.key ks ≡ true
    → process_novate rt accounts side w ≡ (ok tt, u)
    → HandsOver ks rt a side w u
unfolding process_novate
process_novate-HandsOver ks rt accounts side w u a d ua ml mn h =
    Does-reads (Asked ks rt side a) (λ _. unpack accounts)
      (λ a' w u b ua' h.
        let a_eq : a' ≡ a = cc in
        subst (λ x. Asked ks rt side x w u) a_eq
          λ ml mn. unpacked-HandsOver ks d rt a' side ml mn w u b h)
      w u tt h ml mn
