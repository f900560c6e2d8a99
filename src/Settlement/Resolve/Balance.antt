-- ===== src/Settlement/Resolve/Balance.antt =====
-- What a resolution does to the collateral that the margin accounts hold.
use polyleverage.Base.{
  Distinct, ℕ, ◌+◌, ◌*◌, ◌≤◌, ◌≡◌, ap, ◌∙◌, subst, true, List, [], ◌∷◌, arith, ◌==◌, ◌!=◌, contains,
  u64_max, saturating_sub,
}
use polyleverage.Base.Int.{ℤ, ◌+ℤ◌}
use polyleverage.Error.{
  custom, account_borrow_failed, attestation_wrong_type, invalid_account_owner,
}
use polyleverage.Method.{ok, ⊤, reads, lift, fail_if, puts, ◌>>=◌, ◌>>◌, >>=-eq-ok}
use polyleverage.Fixed.{bounded_equity}
use polyleverage.State.Margin.{MarginAccount, debit_locked, credit_free}
use polyleverage.State.Margin.Laws.{total}
use polyleverage.State.Pmlc.{Pmlc, pmlc_status_resolved, close_reason_resolved}
use polyleverage.State.Config.{InstrumentConfig}
use polyleverage.Attestation.{
  attestation_type, att_type_resolution, final_outcome_bps, nonce, validate_freshness_and_nonce,
}
use polyleverage.Accounts.{
  World, AccountInfo, Runtime, load, on, margin_layout, pmlc_layout, instrument_layout,
  market_nonce_layout, assert_pda, assert_signer, assert_writable, foreign, seed_market_nonce,
  now_unix,
}
use polyleverage.Accounts.Held.{total_held, total_held-SameHeld}
use polyleverage.Accounts.Moves.{
  Quiet, Moves, SameReads, SameReads-SameHeld, load-SameReads_pmlc, Does, Does-Quiet, Does-reads,
  Quiet-reads, Quiet-fail_if, Quiet->>=, Quiet-lift, Quiet-load, Quiet-Moves, Moves-then,
  Moves-Quiet, on_margin-Moves, Quiet-on_market_nonce,
}
use polyleverage.Settlement.{validate_margin_pda, unpaused_signer, verified_attestation, live_pmlc}
use polyleverage.Settlement.Holdings.{
  validate_margin_pda-Quiet, unpaused_signer-Quiet, verified_attestation-Quiet, live_pmlc-eq-ok,
  close_pmlc-Moves,
}
use polyleverage.Settlement.Liquidate.{pot}
use polyleverage.Settlement.Resolve.{
  ResolveAccounts, unpack, check_accounts, accept_resolution, final_mark, resolution_pnl,
  note_result, settle_side, settle_resolution, process_resolve,
}

check_accounts-Quiet : (rt : Runtime) (a : ResolveAccounts) → Quiet (check_accounts rt a)
unfolding check_accounts
check_accounts-Quiet rt a = Quiet-lift (assert_signer a.caller) λ _.
    Quiet-lift (assert_writable a.pmlc) λ _. Quiet-lift (assert_writable a.market_nonce) λ _.
      Quiet-lift (assert_writable a.long_margin) λ _.
        Quiet-lift (assert_writable a.short_margin) λ _.
          Quiet-load
            (λ w. ok (
              foreign rt w (
                a.program_config ∷ a.instrument ∷ a.pmlc ∷ a.market_nonce ∷ a.long_margin
                ∷ a.short_margin ∷ [])))
            λ is_foreign. Quiet-fail_if is_foreign (custom invalid_account_owner)

accept_resolution-Quiet :
    (rt : Runtime) (k : ℕ) (inst : InstrumentConfig) (att : List ℕ)
    → Quiet (accept_resolution rt k inst att)
unfolding accept_resolution
accept_resolution-Quiet rt k inst att =
    Quiet-lift (assert_pda rt (seed_market_nonce inst.market_id) k) λ _.
      Quiet-load (load market_nonce_layout k) λ n.
        Quiet-lift
          (validate_freshness_and_nonce att inst.market_id n.last_accepted_cre_nonce (now_unix rt)
            inst.max_staleness_secs)
          λ _.
            Quiet->>= (on market_nonce_layout k _) _
              (Quiet-on_market_nonce k (
                puts λ m. record m {
                  last_accepted_cre_nonce = nonce att;
                  last_accepted_ts = now_unix rt;
                }))
              λ _. Quiet-lift (final_outcome_bps att) λ mark. Quiet-on_market_nonce k _

-- One side is settled.
settle_side-total :
    (c eq : ℕ) (m n : MarginAccount) (a : ⊤)
    → settle_side c eq m ≡ (ok a, n)
    → total n + c ≡ total m + eq
unfolding settle_side note_result debit_locked credit_free ◌+ℤ◌
settle_side-total c eq m n a h = ground arith

-- The equity is at most the pot.
bounded_equity-le : (c : ℕ) (pnl : ℤ) → c * 2 ≤ u64_max → bounded_equity c pnl ≤ c * 2
unfolding bounded_equity ◌+ℤ◌
bounded_equity-le c pnl h = ground arith

-- Both margin accounts are listed.
abbrev pub Listed : List ℕ → ResolveAccounts → Type 0
Listed ks a = (contains a.long_margin.key ks ≡ true) × (contains a.short_margin.key ks ≡ true)

-- The sum over the listed accounts is kept, if twice the collateral of the contract that loads fits.
abbrev Keeps : List ℕ → ResolveAccounts → World → World → Type 0
Keeps ks a w u =
    (p : Pmlc)
    → load pmlc_layout a.pmlc.key w ≡ ok p
    → p.collateral_per_side * 2 ≤ u64_max
    → total_held ks u ≡ total_held ks w

module _ (ks : List ℕ) (d : Distinct ks) (rt : Runtime) (a : ResolveAccounts) where
  settle_side-Moves :
      (k c eq : ℕ) → contains k ks ≡ true → Moves ks eq c (on margin_layout k (settle_side c eq))
  settle_side-Moves k c eq member =
      on_margin-Moves ks k (settle_side c eq) eq c (settle_side-total c eq) d member

  settle_resolution-Moves :
      (inst : InstrumentConfig) (p : Pmlc) (eq_long : ℕ)
      → Listed ks a
      → Moves ks
          (eq_long + saturating_sub (pot p) eq_long)
          (p.collateral_per_side + p.collateral_per_side)
          (settle_resolution rt a inst p eq_long)
  unfolding settle_resolution
  settle_resolution-Moves inst p eq_long (ml, ms) w u r h =
      let c = p.collateral_per_side in
      let long = a.long_margin.key in
      let short = a.short_margin.key in
      let eq_short = saturating_sub (pot p) eq_long in
      omega (
        arith,
        Moves-Quiet ks _ _ (validate_margin_pda rt long p.long_owner inst.collateral_mint)
            (validate_margin_pda-Quiet rt long p.long_owner inst.collateral_mint)
            (Moves-Quiet ks _ _ (validate_margin_pda rt short p.short_owner inst.collateral_mint)
              (validate_margin_pda-Quiet rt short p.short_owner inst.collateral_mint)
              (Moves-then ks eq_long c _ _ (on margin_layout long (settle_side c eq_long))
                (settle_side-Moves long c eq_long ml)
                (Moves-Quiet ks _ _ (fail_if (long == short) account_borrow_failed)
                  (Quiet-fail_if _ _)
                  (Moves-then ks eq_short c 0 0 (on margin_layout short (settle_side c eq_short))
                    (settle_side-Moves short c eq_short ms)
                    (close_pmlc-Moves ks a.pmlc.key pmlc_status_resolved close_reason_resolved
                      rt.slot)))))
            w u r h,
      )

  Keeps-stable : (v w u : World) → SameReads v w → Keeps ks a w u → Keeps ks a v u
  Keeps-stable v w u r q p lp fits =
      q p (load-SameReads_pmlc r a.pmlc.key ∙ lp) fits
      ∙ total_held-SameHeld ks v w (SameReads-SameHeld r)

  settle-Does :
      (inst : InstrumentConfig) (outcome final_fp : ℕ)
      → Listed ks a
      → Does (Keeps ks a) (do
        p ← live_pmlc a.pmlc.key a.instrument.key inst
        pnl_long ← lift (resolution_pnl outcome final_fp p)
        settle_resolution rt a inst p (bounded_equity p.collateral_per_side pnl_long))
  settle-Does inst outcome final_fp listed w u b h =
      let (p, t, first, rest) =
        >>=-eq-ok (live_pmlc a.pmlc.key a.instrument.key inst)
          (λ p. lift (resolution_pnl outcome final_fp p) >>= λ pnl.
            settle_resolution rt a inst p (bounded_equity p.collateral_per_side pnl))
          w u h in
      let (pnl, t', second, last) =
        >>=-eq-ok (lift (resolution_pnl outcome final_fp p))
          (λ pnl. settle_resolution rt a inst p (bounded_equity p.collateral_per_side pnl)) t u
          rest in
      let (loaded, live, same) = live_pmlc-eq-ok a.pmlc.key a.instrument.key inst w t p first in
      λ q lq fits.
        let p_q : p ≡ q = cc in
        let c_eq = ap (λ (x : Pmlc). x.collateral_per_side) p_q in
        let eq_long = bounded_equity p.collateral_per_side pnl in
        ground (
          arith,
          ap (total_held ks) same,
          Quiet-Moves ks (lift (resolution_pnl outcome final_fp p)) (Quiet-reads _) t t' pnl second,
          bounded_equity-le p.collateral_per_side pnl (omega (arith, c_eq)),
          settle_resolution-Moves inst p eq_long listed t' u b last,
        )

  unpacked-Does :
      (offset : ℕ)
      → Listed ks a
      → Does (Keeps ks a) (do
        check_accounts rt a
        signer ← unpaused_signer a.program_config.key
        inst ← reads (load instrument_layout a.instrument.key)
        att ← verified_attestation rt a.sysvar_ix.key signer offset
        fail_if (attestation_type att != att_type_resolution) (custom attestation_wrong_type)
        accept_resolution rt a.market_nonce.key inst att
        outcome ← lift (final_outcome_bps att)
        final_fp ← lift (final_mark outcome)
        p ← live_pmlc a.pmlc.key a.instrument.key inst
        pnl_long ← lift (resolution_pnl outcome final_fp p)
        settle_resolution rt a inst p (bounded_equity p.collateral_per_side pnl_long))
  unpacked-Does offset listed =
      let P = Keeps ks a in
      Does-Quiet P Keeps-stable (check_accounts rt a) (check_accounts-Quiet rt a) λ _.
        Does-Quiet P Keeps-stable (unpaused_signer a.program_config.key) (unpaused_signer-Quiet _)
          λ signer.
            Does-Quiet P Keeps-stable (reads (load instrument_layout a.instrument.key))
              (Quiet-reads _)
              λ inst.
                Does-Quiet P Keeps-stable (verified_attestation rt a.sysvar_ix.key signer offset)
                  (verified_attestation-Quiet _ _ _ _)
                  λ att.
                    Does-Quiet P Keeps-stable
                      (fail_if (attestation_type att != att_type_resolution)
                        (custom attestation_wrong_type))
                      (Quiet-fail_if _ _)
                      λ _.
                        Does-Quiet P Keeps-stable (accept_resolution rt a.market_nonce.key inst att)
                          (accept_resolution-Quiet _ _ _ _)
                          λ _.
                            Does-Quiet P Keeps-stable (lift (final_outcome_bps att)) (Quiet-reads _)
                              λ outcome.
                                Does-Quiet P Keeps-stable (lift (final_mark outcome))
                                  (Quiet-reads _)
                                  λ final_fp. settle-Does inst outcome final_fp listed

-- A resolution that succeeds conserves the collateral of the accounts listed, each once and the two
-- margin accounts of the call among them, if twice the collateral per side of the contract that
-- loads before the call fits in `u64`.
pub process_resolve-conserves :
    (ks : List ℕ) (rt : Runtime) (accounts : List AccountInfo) (offset : ℕ) (w u : World)
    (a : ResolveAccounts) (p : Pmlc)
    → Distinct ks
    → unpack accounts ≡ ok a
    → Listed ks a
    → load pmlc_layout a.pmlc.key w ≡ ok p
    → p.collateral_per_side * 2 ≤ u64_max
    → process_resolve rt accounts offset w ≡ (ok tt, u)
    → total_held ks u ≡ total_held ks w
unfolding process_resolve
process_resolve-conserves ks rt accounts offset w u a p d ua listed lp fits h =
    Does-reads (λ w u. Keeps ks a w u) (λ _. unpack accounts)
      (λ a' w u b ua' h.
        let a_eq : a' ≡ a = cc in
        subst (λ x. Listed ks x → Keeps ks x w u) a_eq
          (λ m. unpacked-Does ks d rt a' offset m w u b h) listed)
      w u tt h p lp fits
