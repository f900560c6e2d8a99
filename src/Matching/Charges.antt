-- ===== src/Matching/Charges.antt =====
-- Who pays for a match, and who is paid (`match_pair_core` of src/processor/match_ix.rs).
use polyleverage.Base.{
  Distinct, ℕ, ◌+◌, ◌≡◌, refl, ap, ◌∙◌, sym, Bool, true, false, List, arith, ltb, ◌==◌,
  if◌then◌else◌, contains,
}
use polyleverage.Method.{ok}
use polyleverage.State.Config.{InstrumentConfig}
use polyleverage.State.Fees.{FeeSchedule}
use polyleverage.Book.{IntentBook}
use polyleverage.Accounts.{
  World, Runtime, SystemProgram, CreatesOnly, CreatesFresh, load, book_layout, instrument_layout,
  fee_schedule_layout,
}
use polyleverage.Accounts.Views.{on-eq-ok, on-view}
use polyleverage.Accounts.Views.Faithful.{book_layout-IsFaithful}
use polyleverage.Accounts.Held.{held, total_held, total_held-moved, on-SameHeld}
use polyleverage.Accounts.Moves.{Does}
use polyleverage.Settlement.{validate_margin_pda}
use polyleverage.Matching.{MatchCtx}
use polyleverage.Matching.Rates.{
  WasScheduled, IsRated, same-WasScheduled, validate_margin_pda-WasScheduled,
  ensure_fee_accounts-WasScheduled, charge_fee-IsRated, load-WasScheduled,
}
use polyleverage.Matching.Core.{match_pair_core}
use polyleverage.Matching.Pairs.{Pair, match_in_book}
use polyleverage.Matching.Opening.{IsMatch, match_in_book-Results}
use polyleverage.Matching.Conserves.{
  payer_of, match_pair_core-Steps, settle_match-Settled, settle_match-moved,
}

-- The accounts that a match credits and debits.
abbrev pub Listed : List ℕ → MatchCtx → Type 0
Listed ks ctx =
    (contains ctx.long_margin_ai.key ks ≡ true)
    × (contains ctx.short_margin_ai.key ks ≡ true)
    × (contains ctx.fee_ctx.fee_treasury_ai.key ks ≡ true)

-- The pair of intents that is matched, with the fee, at a rate of the schedule on the instrument's
-- collateral bucket: the margin account of the side that was posted
-- later loses it, the treasury gains it, and no other account holds more or less than before.
pub record Charges (ks : List ℕ) (rt : Runtime) (ctx : MatchCtx) (long_id short_id : ℕ)
    (w u : World) : Type 0 where
  pub book : IntentBook
  pub pair : Pair
  pub fee : ℕ
  pub found : load book_layout ctx.book_ai.key w ≡ ok book
  pub is_match : IsMatch rt.slot long_id short_id book pair
  pub inst : InstrumentConfig
  pub sched : FeeSchedule
  pub loaded : load instrument_layout ctx.instrument_ai.key w ≡ ok inst
  pub scheduled : load fee_schedule_layout ctx.fee_ctx.fee_schedule_ai.key w ≡ ok sched
  pub rated : IsRated sched inst.collateral_bucket fee
  pub moved :
      (k : ℕ)
      → held (u k).contents
          + (if k == payer_of ctx (ltb pair.short.post_seq pair.long.post_seq) then fee else 0)
        ≡ held (w k).contents + (if k == ctx.fee_ctx.fee_treasury_ai.key then fee else 0)
  pub conserved : total_held ks u ≡ total_held ks w

-- A match that succeeds, by whichever handler, charges the side whose intent was posted later, of the
-- two intents of the book that it matches. The fee is on the instrument's collateral bucket, at the rate
-- that the schedule has for some volume; that side's margin account loses it, the treasury gains it,
-- and no other account, the other side's included, holds more or less than before. So the
-- accounts listed hold in all what they held, each listed once and the two margin accounts and the
-- treasury of the call among them. Given that the system program makes new accounts where there were
-- none and leaves the data of all others alone.
pub match_pair_core-Charges :
    (ks : List ℕ) (sys : SystemProgram) (rt : Runtime) (ctx : MatchCtx)
    (long_id short_id max_contracts : ℕ) (w u : World)
    → Distinct ks
    → CreatesOnly sys
    → CreatesFresh sys
    → Listed ks ctx
    → match_pair_core sys rt ctx long_id short_id max_contracts w ≡ (ok tt, u)
    → Charges ks rt ctx long_id short_id w u
match_pair_core-Charges ks sys rt ctx long_id short_id max_contracts w u d only fresh listed h =
    let s = match_pair_core-Steps sys rt ctx long_id short_id max_contracts w u h in
    let call =
      match_in_book rt ctx.instrument_ai.key s.inst.collateral_bucket ctx.pmlc_ai.key long_id
        short_id in
    let (b, c, found, called, _) =
      on-eq-ok book_layout ctx.book_ai.key call w s.between s.matched in
    let r =
      match_in_book-Results rt ctx.instrument_ai.key s.inst.collateral_bucket ctx.pmlc_ai.key
        long_id short_id b c s.result called in
    let t = settle_match-Settled sys rt ctx s.inst s.result s.between u s.settled in
    let payer = payer_of ctx (ltb r.pair.short.post_seq r.pair.long.post_seq) in
    let treasury = ctx.fee_ctx.fee_treasury_ai.key in
    let moved : (k : ℕ)
        → held (u k).contents + (if k == payer then t.fee else 0)
          ≡ held (w k).contents + (if k == treasury then t.fee else 0) =
      λ k.
        let e1 =
          on-SameHeld book_layout book_layout-IsFaithful (λ b. refl) ctx.book_ai.key call w
            s.between s.result s.matched k in
        let e2 = settle_match-moved sys rt ctx s.inst s.result s.between u only fresh t k in
        ap (λ x. held (u k).contents + (if k == payer_of ctx x then t.fee else 0)) (sym r.taker)
        ∙ (e2 ∙ ap (λ x. x + (if k == treasury then t.fee else 0)) e1) in
    let valid : (key trader : ℕ)
        → Does WasScheduled (validate_margin_pda rt key trader s.inst.collateral_mint) =
      λ key trader. validate_margin_pda-WasScheduled rt key trader s.inst.collateral_mint in
    let on_the_book = same-WasScheduled w s.between (
      on-view book_layout fee_schedule_layout.view book_layout-IsFaithful (λ x y. refl)
        ctx.book_ai.key call w s.between s.matched) in
    let was : WasScheduled w t.w3 = λ k x there. on_the_book k x (
      valid ctx.long_margin_ai.key s.result.long_trader s.between t.w1 tt t.long_valid k x (
        valid ctx.short_margin_ai.key s.result.short_trader t.w1 t.w2 tt t.short_valid k x (
          ensure_fee_accounts-WasScheduled sys rt only ctx s.result s.inst.collateral_mint t.w2 t.w3
            tt t.ensured k x there))) in
    let (sched, at_w3, rated) =
      charge_fee-IsRated rt ctx s.inst.collateral_bucket t.fee t.w3 t.w4 t.charged in
    record {
      book = b;
      pair = r.pair;
      fee = t.fee;
      found = found;
      is_match = r.is_match;
      inst = s.inst;
      sched = sched;
      loaded = s.loaded;
      scheduled = load-WasScheduled w t.w3 was ctx.fee_ctx.fee_schedule_ai.key sched at_w3;
      rated = rated;
      moved = moved;
      conserved =
          sums t.fee (ltb r.pair.short.post_seq r.pair.long.post_seq) listed
            (total_held-moved payer treasury t.fee t.fee w u moved ks d);
    }
  where
    sums :
        (fee : ℕ) (taker_is_long : Bool)
        → Listed ks ctx
        → total_held ks u + (if contains (payer_of ctx taker_is_long) ks then fee else 0)
          ≡ total_held ks w + (if contains ctx.fee_ctx.fee_treasury_ai.key ks then fee else 0)
        → total_held ks u ≡ total_held ks w
    sums _ true (ml, ms, mt) e = ground arith
    sums _ false (ml, ms, mt) e = ground arith
