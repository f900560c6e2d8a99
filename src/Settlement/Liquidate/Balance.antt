-- ===== src/Settlement/Liquidate/Balance.antt =====
-- What a liquidation does to the collateral that the margin accounts hold.
use native.Mathlib.Nat.{mod-le, mul-le-mul_right}
use polyleverage.Base.{
  Distinct, ℕ, ◌+◌, ◌*◌, ◌^◌, ◌/◌, ◌≤◌, ◌≡◌, refl, ap, ◌∙◌, Bool, true, false, List, [], ◌∷◌, arith,
  ltb, ◌!=◌, if◌then◌else◌, contains, subst, max, u64_max, saturating_sub, as_i64,
}
use polyleverage.Error.{
  custom, not_liquidatable, attestation_wrong_type, attestation_wrong_pmlc, invalid_account_owner,
  invalid_account_data,
}
use polyleverage.Method.{ok, ⊤, Method, pure, reads, lift, puts, ◌>>=◌, ◌>>◌, >>=-eq-ok}
use polyleverage.Fixed.{bps_denom, pnl_long_atoms}
use polyleverage.State.Margin.{debit_locked, credit_free}
use polyleverage.State.Pmlc.{Pmlc, size_fp, pmlc_status_liquidated, close_reason_liquidated}
use polyleverage.State.Config.{InstrumentConfig}
use polyleverage.Attestation.{
  breach_mark_fp, breach_pmlc_pubkey, breach_unix_ts, nonce, validate_freshness_and_nonce,
}
use polyleverage.Accounts.{
  World, AccountInfo, Runtime, load, on, margin_layout, pmlc_layout, instrument_layout,
  market_nonce_layout, assert_pda, assert_signer, assert_writable, foreign, seed_market_nonce,
  now_unix,
}
use polyleverage.Accounts.Held.{total_held, total_held-SameHeld}
use polyleverage.Accounts.Moves.{
  Quiet, Moves, SameReads, SameReads, SameReads-SameHeld, load-SameReads_pmlc,
  load-SameReads_instrument, Does, Does-Quiet, Does-reads, Quiet-reads, Quiet-pure, Quiet-fail_if,
  Quiet->>=, Quiet-lift, Quiet-load, Quiet-guard, Quiet-Moves, Moves-then, Moves-Quiet,
  Quiet-on_market_nonce,
}
use polyleverage.Settlement.{
  validate_margin_pda, unpaused_signer, verified_attestation, live_pmlc, borrow_both, close_pmlc,
}
use polyleverage.Settlement.Holdings.{
  validate_margin_pda-Quiet, borrow_both-Quiet, unpaused_signer-Quiet, verified_attestation-Quiet,
  live_pmlc-eq-ok, debit_locked-Moves, credit_free-Moves, add_pnl-Moves, sub_pnl-Moves,
  close_pmlc-Moves,
}
use polyleverage.Settlement.Liquidate.{
  LiquidateAccounts, unpack, check_accounts, check_breach, accept_breach, bps_of, pot,
  liquidation_outcome, pay_winner, pay_keeper, settle_liquidation, process_liquidate,
}

check_accounts-Quiet : (rt : Runtime) (a : LiquidateAccounts) → Quiet (check_accounts rt a)
unfolding check_accounts
check_accounts-Quiet rt a = Quiet-lift (assert_signer a.keeper) λ _.
    Quiet-lift (assert_writable a.pmlc) λ _. Quiet-lift (assert_writable a.market_nonce) λ _.
      Quiet-lift (assert_writable a.long_margin) λ _.
        Quiet-lift (assert_writable a.short_margin) λ _.
          Quiet-lift (assert_writable a.keeper_margin) λ _.
            Quiet-load
              (λ w. ok (
                foreign rt w (
                  a.program_config ∷ a.instrument ∷ a.pmlc ∷ a.market_nonce ∷ a.long_margin
                  ∷ a.short_margin ∷ a.keeper_margin ∷ [])))
              λ is_foreign.
                Quiet-guard is_foreign (custom invalid_account_owner) (
                  Quiet-fail_if (a.sysvar_ix.key != rt.sysvar_instructions_id) invalid_account_data)

check_breach-Quiet : (k now : ℕ) (att : List ℕ) → Quiet (check_breach k now att)
unfolding check_breach
check_breach-Quiet k now att = Quiet-guard _ (custom attestation_wrong_type) (
    Quiet-lift (breach_pmlc_pubkey att) λ bound_to.
      Quiet-guard (bound_to != k) (custom attestation_wrong_pmlc)
        (Quiet-lift (breach_unix_ts att) λ _. Quiet-fail_if _ _))

accept_breach-Quiet :
    (rt : Runtime) (k : ℕ) (inst : InstrumentConfig) (att : List ℕ)
    → Quiet (accept_breach rt k inst att)
unfolding accept_breach
accept_breach-Quiet rt k inst att =
    Quiet-lift (assert_pda rt (seed_market_nonce inst.market_id) k) λ _.
      Quiet-load (load market_nonce_layout k) λ n.
        Quiet-lift
          (validate_freshness_and_nonce att inst.market_id n.last_accepted_cre_nonce (now_unix rt)
            inst.max_staleness_secs)
          λ _.
            Quiet->>= (on market_nonce_layout k _) _
              (Quiet-on_market_nonce k (
                puts λ m. record m {
                  last_accepted_cre_nonce = nonce att;
                  last_accepted_ts = now_unix rt;
                }))
              λ _. Quiet-lift (breach_mark_fp att) λ mark. Quiet-on_market_nonce k _

liquidation_outcome-Quiet :
    (inst : InstrumentConfig) (p : Pmlc) (mark : ℕ) → Quiet (liquidation_outcome inst p mark)
unfolding liquidation_outcome
liquidation_outcome-Quiet inst p mark =
    Quiet-lift (pnl_long_atoms p.entry_price_fp mark (size_fp p))
      λ pnl. Quiet-guard _ (custom not_liquidatable) (Quiet-pure _)

module _ (ks : List ℕ) (d : Distinct ks) where
  pay_keeper-Moves : (k bounty : ℕ) → contains k ks ≡ true → Moves ks bounty 0 (pay_keeper k bounty)
  unfolding pay_keeper
  pay_keeper-Moves k bounty member = paid (ltb 0 bounty) refl
    where
      paid :
          (b : Bool)
          → ltb 0 bounty ≡ b
          → Moves ks bounty 0 (if b then on margin_layout k (credit_free bounty) else pure tt)
      paid true e w u a h = credit_free-Moves ks d k member bounty w u a h
      paid false e w u a h =
          ground (arith, Quiet-Moves ks (pure {S = World} tt) (Quiet-pure tt) w u a h)

  -- Both sides are debited, one is credited, and two calls only note profits.
  pay-Moves :
      (long short winner c two_c bounty : ℕ) (f g : Method World ⊤)
      → contains long ks ≡ true
      → contains short ks ≡ true
      → contains winner ks ≡ true
      → Moves ks 0 0 f
      → Moves ks 0 0 g
      → Moves ks (saturating_sub two_c bounty) (c + c) (do
        on margin_layout long (debit_locked c)
        on margin_layout short (debit_locked c)
        on margin_layout winner (credit_free (saturating_sub two_c bounty))
        f
        g)
  pay-Moves long short winner c two_c bounty f g ml ms mw mf mg w u a h =
      let credit = saturating_sub two_c bounty in
      omega (
        arith,
        Moves-then ks 0 c _ _ (on margin_layout long (debit_locked c))
            (debit_locked-Moves ks d long ml c)
            (Moves-then ks 0 c _ _ (on margin_layout short (debit_locked c))
              (debit_locked-Moves ks d short ms c)
              (Moves-then ks credit 0 _ _ (on margin_layout winner (credit_free credit))
                (credit_free-Moves ks d winner mw credit) (Moves-then ks 0 0 0 0 f mf mg)))
            w u a h,
      )

  pay_winner-Moves :
      (long_wins : Bool) (long short c two_c bounty : ℕ)
      → contains long ks ≡ true
      → contains short ks ≡ true
      → Moves ks
          (saturating_sub two_c bounty)
          (c + c)
          (pay_winner long_wins long short c two_c bounty)
  unfolding pay_winner
  pay_winner-Moves true long short c two_c bounty ml ms =
      pay-Moves long short long c two_c bounty _ _ ml ms ml (sub_pnl-Moves ks d short ms (as_i64 c))
        (add_pnl-Moves ks d long ml (as_i64 (saturating_sub c bounty)))
  pay_winner-Moves false long short c two_c bounty ml ms =
      pay-Moves long short short c two_c bounty _ _ ml ms ms (sub_pnl-Moves ks d long ml (as_i64 c))
        (add_pnl-Moves ks d short ms (as_i64 (saturating_sub c bounty)))

  settle_liquidation-Moves :
      (rt : Runtime) (a : LiquidateAccounts) (inst : InstrumentConfig) (p : Pmlc) (long_wins : Bool)
      → contains a.long_margin.key ks ≡ true
      → contains a.short_margin.key ks ≡ true
      → contains a.keeper_margin.key ks ≡ true
      → let bounty = bps_of p.collateral_per_side inst.liquidation_bounty_bps in
        Moves ks
          (max (pot p) bounty)
          (p.collateral_per_side + p.collateral_per_side)
          (settle_liquidation rt a inst p long_wins)
  unfolding settle_liquidation
  settle_liquidation-Moves rt a inst p long_wins ml ms mk w u r h =
      let c = p.collateral_per_side in
      let bounty = bps_of c inst.liquidation_bounty_bps in
      let long = a.long_margin.key in
      let short = a.short_margin.key in
      let mint = inst.collateral_mint in
      ground (
        arith,
        Moves-Quiet ks _ _ (validate_margin_pda rt long p.long_owner mint)
            (validate_margin_pda-Quiet rt long p.long_owner mint)
            (Moves-Quiet ks _ _ (validate_margin_pda rt short p.short_owner mint)
              (validate_margin_pda-Quiet rt short p.short_owner mint)
              (Moves-Quiet ks _ _ (borrow_both long short) (borrow_both-Quiet long short) (
                Moves-then ks (saturating_sub (pot p) bounty) (c + c) _ _
                  (pay_winner long_wins long short c (pot p) bounty)
                  (pay_winner-Moves long_wins long short c (pot p) bounty ml ms)
                  (Moves-then ks 0 0 bounty 0
                    (close_pmlc a.pmlc.key pmlc_status_liquidated close_reason_liquidated rt.slot)
                    (close_pmlc-Moves ks a.pmlc.key pmlc_status_liquidated close_reason_liquidated
                      rt.slot)
                    (pay_keeper-Moves a.keeper_margin.key bounty mk)))))
            w u r h,
      )

-- What a liquidation of the contract `p` does to the sum over the listed accounts: both sides lose
-- their collateral, and what is paid out is the pot or, where it is more, the bounty.
abbrev pub PaysOut : List ℕ → InstrumentConfig → Pmlc → World → World → Type 0
PaysOut ks inst p w u =
    total_held ks u + (p.collateral_per_side + p.collateral_per_side)
    ≡ total_held ks w + max (pot p) (bps_of p.collateral_per_side inst.liquidation_bounty_bps)

-- The sum changes as it does for the instrument `inst`, and the contract that loads.
abbrev LiquidatesAs : List ℕ → LiquidateAccounts → InstrumentConfig → World → World → Type 0
LiquidatesAs ks a inst w u =
    (p : Pmlc) → load pmlc_layout a.pmlc.key w ≡ ok p → PaysOut ks inst p w u

abbrev Liquidates : List ℕ → LiquidateAccounts → World → World → Type 0
Liquidates ks a w u =
    (inst : InstrumentConfig)
    → load instrument_layout a.instrument.key w ≡ ok inst
    → LiquidatesAs ks a inst w u

-- The three margin accounts are listed.
abbrev pub Listed : List ℕ → LiquidateAccounts → Type 0
Listed ks a =
    (contains a.long_margin.key ks ≡ true)
    × (contains a.short_margin.key ks ≡ true)
    × (contains a.keeper_margin.key ks ≡ true)

-- At most twice the amount, for at most 20_000 basis points.
bps_of-le : (x bps : ℕ) → bps ≤ 20000 → bps_of x bps ≤ x * 2
bps_of-le x bps h = omega (arith, mod-le (x * bps / bps_denom) (2 ^ 64), mul-le-mul_right x h)

module _ (ks : List ℕ) (d : Distinct ks) (rt : Runtime) (a : LiquidateAccounts) where
  LiquidatesAs-stable :
      (inst : InstrumentConfig) (v w u : World)
      → SameReads v w
      → LiquidatesAs ks a inst w u
      → LiquidatesAs ks a inst v u
  LiquidatesAs-stable inst v w u r q p lp = omega (
    arith,
    total_held-SameHeld ks v w (SameReads-SameHeld r),
    q p (load-SameReads_pmlc r a.pmlc.key ∙ lp),
  )

  Liquidates-stable : (v w u : World) → SameReads v w → Liquidates ks a w u → Liquidates ks a v u
  Liquidates-stable v w u r q inst li =
      LiquidatesAs-stable inst v w u r (q inst (load-SameReads_instrument r a.instrument.key ∙ li))

  -- From the contract's check on.
  settle-Does :
      (inst : InstrumentConfig) (mark : ℕ)
      → Listed ks a
      → Does (LiquidatesAs ks a inst) (do
        p ← live_pmlc a.pmlc.key a.instrument.key inst
        long_wins ← liquidation_outcome inst p mark
        settle_liquidation rt a inst p long_wins)
  settle-Does inst mark (ml, ms, mk) w u b h =
      let (p, t, first, rest) =
        >>=-eq-ok (live_pmlc a.pmlc.key a.instrument.key inst)
          (λ p. liquidation_outcome inst p mark >>= λ long_wins.
            settle_liquidation rt a inst p long_wins)
          w u h in
      let (long_wins, t', second, last) =
        >>=-eq-ok (liquidation_outcome inst p mark) (settle_liquidation rt a inst p) t u rest in
      let (loaded, live, same) = live_pmlc-eq-ok a.pmlc.key a.instrument.key inst w t p first in
      λ q lq.
        let p_q : p ≡ q = cc in
        subst (λ x. PaysOut ks inst x w u) p_q
          (omega (
            arith,
            ap (total_held ks) same,
            Quiet-Moves ks _ (liquidation_outcome-Quiet inst p mark) t t' long_wins second,
            settle_liquidation-Moves ks d rt a inst p long_wins ml ms mk t' u b last,
          ))

  -- The handler, once the accounts are unpacked.
  unpacked-Does :
      (offset : ℕ)
      → Listed ks a
      → Does (Liquidates ks a) (do
        check_accounts rt a
        signer ← unpaused_signer a.program_config.key
        inst ← reads (load instrument_layout a.instrument.key)
        validate_margin_pda rt a.keeper_margin.key a.keeper.key inst.collateral_mint
        att ← verified_attestation rt a.sysvar_ix.key signer offset
        check_breach a.pmlc.key (now_unix rt) att
        accept_breach rt a.market_nonce.key inst att
        mark ← lift (breach_mark_fp att)
        p ← live_pmlc a.pmlc.key a.instrument.key inst
        long_wins ← liquidation_outcome inst p mark
        settle_liquidation rt a inst p long_wins)
  unpacked-Does offset listed =
      Does-Quiet (Liquidates ks a) Liquidates-stable (check_accounts rt a)
        (check_accounts-Quiet rt a)
        λ _.
          Does-Quiet (Liquidates ks a) Liquidates-stable (unpaused_signer a.program_config.key)
            (unpaused_signer-Quiet a.program_config.key)
            λ signer.
              Does-reads (Liquidates ks a) (load instrument_layout a.instrument.key)
                λ inst w u b li h inst' li'.
                  let inst_eq : inst ≡ inst' = cc in
                  subst (λ i. LiquidatesAs ks a i w u) inst_eq (loaded inst signer w u b h)
    where
      loaded :
          (inst : InstrumentConfig) (signer : ℕ)
          → Does (LiquidatesAs ks a inst) (do
            validate_margin_pda rt a.keeper_margin.key a.keeper.key inst.collateral_mint
            att ← verified_attestation rt a.sysvar_ix.key signer offset
            check_breach a.pmlc.key (now_unix rt) att
            accept_breach rt a.market_nonce.key inst att
            mark ← lift (breach_mark_fp att)
            p ← live_pmlc a.pmlc.key a.instrument.key inst
            long_wins ← liquidation_outcome inst p mark
            settle_liquidation rt a inst p long_wins)
      loaded inst signer =
          let stable = LiquidatesAs-stable inst in
          let P = LiquidatesAs ks a inst in
          Does-Quiet P stable
            (validate_margin_pda rt a.keeper_margin.key a.keeper.key inst.collateral_mint)
            (validate_margin_pda-Quiet _ _ _ _)
            λ _.
              Does-Quiet P stable (verified_attestation rt a.sysvar_ix.key signer offset)
                (verified_attestation-Quiet _ _ _ _)
                λ att.
                  Does-Quiet P stable (check_breach a.pmlc.key (now_unix rt) att)
                    (check_breach-Quiet _ _ _)
                    λ _.
                      Does-Quiet P stable (accept_breach rt a.market_nonce.key inst att)
                        (accept_breach-Quiet _ _ _ _)
                        λ _.
                          Does-Quiet P stable (lift (breach_mark_fp att)) (Quiet-reads _)
                            λ mark. settle-Does inst mark listed

-- Whatever a liquidation does that succeeds: the accounts listed, each once and the three margin
-- accounts of the call among them, hold afterwards what they held, less twice the collateral per
-- side of the contract, plus the greater of the pot (that sum, cut off at the top of `u64`) and the
-- keeper's bounty. The contract and the instrument are the ones that load before the call.
pub process_liquidate-total_held :
    (ks : List ℕ) (rt : Runtime) (accounts : List AccountInfo) (offset : ℕ) (w u : World)
    (a : LiquidateAccounts) (inst : InstrumentConfig) (p : Pmlc)
    → Distinct ks
    → unpack accounts ≡ ok a
    → Listed ks a
    → load instrument_layout a.instrument.key w ≡ ok inst
    → load pmlc_layout a.pmlc.key w ≡ ok p
    → process_liquidate rt accounts offset w ≡ (ok tt, u)
    → PaysOut ks inst p w u
unfolding process_liquidate
process_liquidate-total_held ks rt accounts offset w u a inst p d ua listed li lp h =
    Does-reads (λ w u. Liquidates ks a w u) (λ _. unpack accounts)
      (λ a' w u b ua' h.
        let a_eq : a' ≡ a = cc in
        subst (λ x. Listed ks x → Liquidates ks x w u) a_eq
          (λ m. unpacked-Does ks d rt a' offset m w u b h) listed)
      w u tt h inst li p lp

-- A liquidation that succeeds conserves the collateral of the accounts listed, each once and the
-- three margin accounts of the call among them, if the instrument's bounty is at most 20_000 basis
-- points and twice the collateral per side fits in `u64`.
pub process_liquidate-conserves :
    (ks : List ℕ) (rt : Runtime) (accounts : List AccountInfo) (offset : ℕ) (w u : World)
    (a : LiquidateAccounts) (inst : InstrumentConfig) (p : Pmlc)
    → Distinct ks
    → unpack accounts ≡ ok a
    → Listed ks a
    → load instrument_layout a.instrument.key w ≡ ok inst
    → load pmlc_layout a.pmlc.key w ≡ ok p
    → inst.liquidation_bounty_bps ≤ 20000
    → p.collateral_per_side * 2 ≤ u64_max
    → process_liquidate rt accounts offset w ≡ (ok tt, u)
    → total_held ks u ≡ total_held ks w
process_liquidate-conserves ks rt accounts offset w u a inst p d ua listed li lp bounty fits h =
    ground (
      arith,
      process_liquidate-total_held ks rt accounts offset w u a inst p d ua listed li lp h,
      bps_of-le p.collateral_per_side inst.liquidation_bounty_bps bounty,
    )
