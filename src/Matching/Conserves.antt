-- ===== src/Matching/Conserves.antt =====
-- The calls of `match_pair_core` and `settle_match` (src/processor/match_ix.rs), one by one, and what
-- each account holds after them.
use polyleverage.Base.{
  ℕ, ◌+◌, ◌≡◌, refl, ap, sym, subst, ◌==◌, ◌!=◌, if◌then◌else◌, Bool, true, false, not, arith,
}
use polyleverage.Method.{Result, ok, err, ⊤, Method, reads, lift, fail_if, ◌>>=◌, ◌>>◌, >>=-eq-ok}
use polyleverage.Error.{custom, invalid_pda}
use polyleverage.State.Config.{InstrumentConfig, require_active}
use polyleverage.Book.{IntentBook}
use polyleverage.Accounts.{
  World, Runtime, SystemProgram, CreatesOnly, CreatesFresh, load, instrument_layout, on,
  margin_layout, book_layout,
}
use polyleverage.Accounts.Held.{held}
use polyleverage.Accounts.Books.{on_book, check_book_size}
use polyleverage.Settlement.{validate_margin_pda}
use polyleverage.Settlement.Holdings.{validate_margin_pda-Quiet}
use polyleverage.Matching.{MatchCtx}
use polyleverage.Matching.Core.{
  lock_side, charge_fee, ensure_fee_accounts, create_pmlc, settle_match, match_pair_core,
}
use polyleverage.Matching.Pairs.{MatchResult, match_in_book}
use polyleverage.Matching.Effects.{lock_side-held, charge_fee-held}
use polyleverage.Matching.Made.{Quiet-SameHeld, ensure_fee_accounts-SameHeld, create_pmlc-SameHeld}

-- The calls of `settle_match`, with the states between them.
pub record Settled (sys : SystemProgram) (rt : Runtime) (ctx : MatchCtx) (inst : InstrumentConfig)
    (m : MatchResult) (w u : World) : Type 0 where
  pub w1 : World
  pub w2 : World
  pub w3 : World
  pub w4 : World
  pub w5 : World
  pub w6 : World
  pub fee : ℕ
  pub long_valid :
      validate_margin_pda rt ctx.long_margin_ai.key m.long_trader inst.collateral_mint w
      ≡ (ok tt, w1)
  pub short_valid :
      validate_margin_pda rt ctx.short_margin_ai.key m.short_trader inst.collateral_mint w1
      ≡ (ok tt, w2)
  pub ensured : ensure_fee_accounts sys rt ctx m inst.collateral_mint w2 ≡ (ok tt, w3)
  pub charged : charge_fee rt ctx inst.collateral_bucket w3 ≡ (ok fee, w4)
  pub long_locked :
      on margin_layout ctx.long_margin_ai.key
        (lock_side inst.collateral_bucket m.fee_buf_release_long m.taker_is_long fee)
        w4
      ≡ (ok tt, w5)
  pub short_locked :
      on margin_layout ctx.short_margin_ai.key
        (lock_side inst.collateral_bucket m.fee_buf_release_short (not m.taker_is_long) fee)
        w5
      ≡ (ok tt, w6)
  pub created : create_pmlc sys rt ctx inst m w6 ≡ (ok tt, u)

pub settle_match-Settled :
    (sys : SystemProgram) (rt : Runtime) (ctx : MatchCtx) (inst : InstrumentConfig)
    (m : MatchResult) (w u : World)
    → settle_match sys rt ctx inst m w ≡ (ok tt, u)
    → Settled sys rt ctx inst m w u
unfolding settle_match
settle_match-Settled sys rt ctx inst m w u h =
    let bucket = inst.collateral_bucket in
    let mint = inst.collateral_mint in
    let valid : ℕ → ℕ → Method World ⊤ = λ key trader. validate_margin_pda rt key trader mint in
    let long : ℕ → Method World ⊤ = λ fee.
      on margin_layout ctx.long_margin_ai.key
        (lock_side bucket m.fee_buf_release_long m.taker_is_long fee) in
    let short : ℕ → Method World ⊤ = λ fee.
      on margin_layout ctx.short_margin_ai.key
        (lock_side bucket m.fee_buf_release_short (not m.taker_is_long) fee) in
    let new : Method World ⊤ = create_pmlc sys rt ctx inst m in
    let rest4 : Method World ⊤ =
      charge_fee rt ctx bucket >>= λ fee. long fee >> (short fee >> new) in
    let rest3 : Method World ⊤ = ensure_fee_accounts sys rt ctx m mint >> rest4 in
    let rest2 : Method World ⊤ = valid ctx.short_margin_ai.key m.short_trader >> rest3 in
    let (_, w1, s1, r1) =
      >>=-eq-ok (valid ctx.long_margin_ai.key m.long_trader) (λ _. rest2) w u h in
    let (_, w2, s2, r2) =
      >>=-eq-ok (valid ctx.short_margin_ai.key m.short_trader) (λ _. rest3) w1 u r1 in
    let (_, w3, s3, r3) = >>=-eq-ok (ensure_fee_accounts sys rt ctx m mint) (λ _. rest4) w2 u r2 in
    let (fee, w4, s4, r4) =
      >>=-eq-ok (charge_fee rt ctx bucket) (λ fee. long fee >> (short fee >> new)) w3 u r3 in
    let (_, w5, s5, r5) = >>=-eq-ok (long fee) (λ _. short fee >> new) w4 u r4 in
    let (_, w6, s6, s7) = >>=-eq-ok (short fee) (λ _. new) w5 u r5 in
    record {
      w1 = w1;
      w2 = w2;
      w3 = w3;
      w4 = w4;
      w5 = w5;
      w6 = w6;
      fee = fee;
      long_valid = s1;
      short_valid = s2;
      ensured = s3;
      charged = s4;
      long_locked = s5;
      short_locked = s6;
      created = s7;
    }

-- The margin account of the side that takes.
abbrev pub payer_of : MatchCtx → (taker_is_long : Bool) → ℕ
payer_of ctx taker_is_long =
    if taker_is_long then ctx.long_margin_ai.key else ctx.short_margin_ai.key

-- The margin account of the taker loses the fee, the treasury gains it, and no other account's
-- holding changes.
pub settle_match-moved :
    (sys : SystemProgram) (rt : Runtime) (ctx : MatchCtx) (inst : InstrumentConfig)
    (m : MatchResult) (w u : World)
    → CreatesOnly sys
    → CreatesFresh sys
    → (s : Settled sys rt ctx inst m w u) (k : ℕ)
    → held (u k).contents + (if k == payer_of ctx m.taker_is_long then s.fee else 0)
      ≡ held (w k).contents + (if k == ctx.fee_ctx.fee_treasury_ai.key then s.fee else 0)
settle_match-moved sys rt ctx inst m w u only fresh s k =
    let bucket = inst.collateral_bucket in
    let valid_held : (key trader : ℕ) (w v : World)
        → validate_margin_pda rt key trader inst.collateral_mint w ≡ (ok tt, v)
        → held (v k).contents ≡ held (w k).contents =
      λ key trader w v h.
        Quiet-SameHeld (validate_margin_pda rt key trader inst.collateral_mint)
          (validate_margin_pda-Quiet rt key trader inst.collateral_mint) w v tt h k in
    let e1 = valid_held ctx.long_margin_ai.key m.long_trader w s.w1 s.long_valid in
    let e2 = valid_held ctx.short_margin_ai.key m.short_trader s.w1 s.w2 s.short_valid in
    let e3 =
      ensure_fee_accounts-SameHeld sys rt only fresh ctx m inst.collateral_mint s.w2 s.w3 tt
        s.ensured k in
    let e4 = charge_fee-held rt ctx bucket s.fee s.w3 s.w4 s.charged k in
    let e5 =
      lock_side-held ctx.long_margin_ai.key bucket m.fee_buf_release_long m.taker_is_long s.fee s.w4
        s.w5 s.long_locked k in
    let e6 =
      lock_side-held ctx.short_margin_ai.key bucket m.fee_buf_release_short (not m.taker_is_long)
        s.fee s.w5 s.w6 s.short_locked k in
    let e7 = create_pmlc-SameHeld sys rt only fresh ctx inst m s.w6 u tt s.created k in
    split m.taker_is_long e5 e6 (e1, e2, e3, e4, e7)
  where
    split :
        (taker_is_long : Bool)
        → held (s.w5 k).contents
            + (if k == ctx.long_margin_ai.key then (if taker_is_long then s.fee else 0) else 0)
          ≡ held (s.w4 k).contents
        → held (s.w6 k).contents
            + (if k == ctx.short_margin_ai.key then (if not taker_is_long then s.fee else 0) else 0)
          ≡ held (s.w5 k).contents
        → (held (s.w1 k).contents ≡ held (w k).contents)
          × (held (s.w2 k).contents ≡ held (s.w1 k).contents)
          × (held (s.w3 k).contents ≡ held (s.w2 k).contents)
          × (held (s.w4 k).contents
              ≡ held (s.w3 k).contents
                + (if k == ctx.fee_ctx.fee_treasury_ai.key then s.fee else 0))
          × (held (u k).contents ≡ held (s.w6 k).contents)
        → held (u k).contents + (if k == payer_of ctx taker_is_long then s.fee else 0)
          ≡ held (w k).contents + (if k == ctx.fee_ctx.fee_treasury_ai.key then s.fee else 0)
    split true e5 e6 (e1, e2, e3, e4, e7) = ground arith
    split false e5 e6 (e1, e2, e3, e4, e7) = ground arith

-- A call on the book is a call on its account.
pub on_book-on :
    {A : Type 0} (k : ℕ) (f : Method IntentBook A) (w u : World) (a : A)
    → on_book k f w ≡ (ok a, u)
    → on book_layout k f w ≡ (ok a, u)
unfolding on_book
on_book-on k f w u a h =
    let (_, v, first, rest) =
      >>=-eq-ok (reads (check_book_size k)) (λ _. on book_layout k f) w u h in
    subst (λ x. on book_layout k f x ≡ (ok a, u)) (sym (ap (λ (q : Result ⊤ × World). q.1) first))
      rest

-- The steps of a match, with the states between them.
pub record Steps (sys : SystemProgram) (rt : Runtime) (ctx : MatchCtx) (long_id short_id : ℕ)
    (w u : World) : Type 0 where
  pub inst : InstrumentConfig
  pub result : MatchResult
  pub between : World
  pub loaded : load instrument_layout ctx.instrument_ai.key w ≡ ok inst
  pub active : require_active inst ≡ ok tt
  pub its_book : inst.intent_book ≡ ctx.book_ai.key
  pub matched :
      on book_layout ctx.book_ai.key
        (match_in_book rt ctx.instrument_ai.key inst.collateral_bucket ctx.pmlc_ai.key long_id
          short_id)
        w
      ≡ (ok result, between)
  pub settled : settle_match sys rt ctx inst result between ≡ (ok tt, u)

pub match_pair_core-Steps :
    (sys : SystemProgram) (rt : Runtime) (ctx : MatchCtx) (long_id short_id max_contracts : ℕ)
    (w u : World)
    → match_pair_core sys rt ctx long_id short_id max_contracts w ≡ (ok tt, u)
    → Steps sys rt ctx long_id short_id w u
unfolding match_pair_core
match_pair_core-Steps sys rt ctx long_id short_id max_contracts w u h =
    go (load instrument_layout ctx.instrument_ai.key w) refl h
  where
    core : InstrumentConfig → Method World ⊤
    core inst =
        on_book ctx.book_ai.key (
          match_in_book rt ctx.instrument_ai.key inst.collateral_bucket ctx.pmlc_ai.key long_id
            short_id)
        >>= settle_match sys rt ctx inst

    later :
        (inst : InstrumentConfig)
        → load instrument_layout ctx.instrument_ai.key w ≡ ok inst
        → (require_active inst ≡ ok tt)
          × (inst.intent_book ≡ ctx.book_ai.key)
          × (core inst w ≡ (ok tt, u))
        → Steps sys rt ctx long_id short_id w u
    later inst l (active, its_book, rest) =
        let call =
          match_in_book rt ctx.instrument_ai.key inst.collateral_bucket ctx.pmlc_ai.key long_id
            short_id in
        let (result, v, first, second) =
          >>=-eq-ok (on_book ctx.book_ai.key call) (settle_match sys rt ctx inst) w u rest in
        record {
          inst = inst;
          result = result;
          between = v;
          loaded = l;
          active = active;
          its_book = its_book;
          matched = on_book-on ctx.book_ai.key call w v result first;
          settled = second;
        }

    passed :
        (a : Result ⊤) (b : Bool) (inst : InstrumentConfig)
        → require_active inst ≡ a
        → (inst.intent_book != ctx.book_ai.key) ≡ b
        → (lift a >> (fail_if b (custom invalid_pda) >> core inst)) w ≡ (ok tt, u)
        → (require_active inst ≡ ok tt)
          × (inst.intent_book ≡ ctx.book_ai.key)
          × (core inst w ≡ (ok tt, u))
    passed (err e) b inst ea eb h = absurd (cc)
    passed (ok _) true inst ea eb h = absurd (cc)
    passed (ok _) false inst ea eb h = (ea, ground arith, h)

    go :
        (r : Result InstrumentConfig)
        → load instrument_layout ctx.instrument_ai.key w ≡ r
        → (lift r >>= λ inst.
              lift (require_active inst)
              >> (fail_if (inst.intent_book != ctx.book_ai.key) (custom invalid_pda) >> core inst))
            w
          ≡ (ok tt, u)
        → Steps sys rt ctx long_id short_id w u
    go (err e) l h = cc
    go (ok inst) l h =
        later inst l
          (passed (require_active inst) (inst.intent_book != ctx.book_ai.key) inst refl refl h)
