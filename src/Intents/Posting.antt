-- ===== src/Intents/Posting.antt =====
-- The checks of a post (src/processor/intent.rs) and the amounts that it sets aside.
use polyleverage.Base.{
  ℕ, ◌+◌, ◌*◌, ◌≡◌, ap, ◌∙◌, subst, false, [], ◌∷◌, arith, ◌!=◌, u64_max, checked_add, checked_mul,
}
use polyleverage.Error.{
  custom, invalid_pda, invalid_account_owner, global_paused, arithmetic_overflow,
}
use polyleverage.Method.{
  Result, ok, Method, pure, reads, lift, gets, fail_if, ok_or, ◌>>=◌, ◌>>◌, >>=-eq-ok, reads-eq-ok,
  guard-eq-ok, pure-eq-ok,
}
use polyleverage.State.Config.{ProgramConfig, InstrumentConfig, require_active}
use polyleverage.Book.{IntentBook}
use polyleverage.Accounts.{
  World, AccountInfo, Runtime, seed_margin, assert_writable, assert_pda, foreign, load, book_layout,
  program_config_layout, instrument_layout,
}
use polyleverage.Accounts.Books.{load_book, check_book_size}
use polyleverage.Intents.{PostAccounts, Reserve, check_post_accounts, reserve_for, fee_buffer_for}
use polyleverage.Intents.Refunds.{assert_pda-eq-ok}

-- What the checks of the accounts establish.
pub record Checked (rt : Runtime) (a : PostAccounts) (inst : InstrumentConfig) (w : World)
    : Type 0 where
  pub cfg : ProgramConfig
  pub configured : load program_config_layout a.program_config.key w ≡ ok cfg
  pub running : cfg.global_pause ≡ 0
  pub loaded : load instrument_layout a.instrument.key w ≡ ok inst
  pub active : require_active inst ≡ ok tt
  pub its_book : inst.intent_book ≡ a.book.key
  pub address :
      (rt.find_program_address (seed_margin a.effective_owner inst.collateral_mint)).0
      ≡ a.margin.key

writable-eq-ok :
    {A : Type 0} (rt : Runtime) (config instrument book margin : AccountInfo)
    (rest : Method World A) (w u : World) (x : A)
    → (do
      lift (assert_writable book)
      lift (assert_writable margin)
      is_foreign ← gets λ w. foreign rt w (config ∷ instrument ∷ book ∷ margin ∷ [])
      fail_if is_foreign (custom invalid_account_owner)
      rest)
        w
      ≡ (ok x, u)
    → rest w ≡ (ok x, u)
writable-eq-ok rt config instrument book margin rest w u x h = ground arith

same_number : (a b : ℕ) → (a != b) ≡ false → a ≡ b
same_number a b h = ground arith

pub check_post_accounts-Checked :
    (rt : Runtime) (a : PostAccounts) (x : InstrumentConfig × ℕ) (w u : World)
    → check_post_accounts rt a w ≡ (ok x, u)
    → Checked rt a x.0 w × (w ≡ u)
unfolding check_post_accounts
check_post_accounts-Checked rt a x w u h =
    let Found : Type 0 = InstrumentConfig × ℕ in
    let derived : InstrumentConfig → Method World Found = λ inst.
      lift (assert_pda rt (seed_margin a.effective_owner inst.collateral_mint) a.margin.key)
      >>= λ bump. pure (inst, bump) in
    let booked : InstrumentConfig → Method World Found =
      λ inst. fail_if (inst.intent_book != a.book.key) (custom invalid_pda) >> derived inst in
    let with_inst : InstrumentConfig → Method World Found =
      λ inst. lift (require_active inst) >> booked inst in
    let instrument : Method World Found =
      reads (load instrument_layout a.instrument.key) >>= with_inst in
    let with_cfg : ProgramConfig → Method World Found =
      λ cfg. fail_if (cfg.global_pause != 0) (custom global_paused) >> instrument in
    let h1 =
      writable-eq-ok rt a.program_config a.instrument a.book a.margin
        (reads (load program_config_layout a.program_config.key) >>= with_cfg) w u x h in
    let (cfg, l1, h2) =
      reads-eq-ok (load program_config_layout a.program_config.key) with_cfg w u h1 in
    let (running, h3) =
      guard-eq-ok (cfg.global_pause != 0) (custom global_paused) instrument w u h2 in
    let (inst, l2, h4) = reads-eq-ok (load instrument_layout a.instrument.key) with_inst w u h3 in
    let (_, active, h5) = reads-eq-ok (λ _. require_active inst) (λ _. booked inst) w u h4 in
    let (its_book, h6) =
      guard-eq-ok (inst.intent_book != a.book.key) (custom invalid_pda) (derived inst) w u h5 in
    let (bump, l3, h7) =
      reads-eq-ok
        (λ _. assert_pda rt (seed_margin a.effective_owner inst.collateral_mint) a.margin.key)
        (λ bump. pure (inst, bump)) w u h6 in
    let (answer, same) = pure-eq-ok (inst, bump) w u h7 in
    let checked : Checked rt a inst w = record {
      cfg = cfg;
      configured = l1;
      running = same_number cfg.global_pause 0 running;
      loaded = l2;
      active = active;
      its_book = same_number inst.intent_book a.book.key its_book;
      address =
          assert_pda-eq-ok rt (seed_margin a.effective_owner inst.collateral_mint) a.margin.key bump
            l3;
    } in
    (subst (λ (x : Found). Checked rt a x.0 w) answer checked, same)

sum-eq-ok :
    {S : Type 0} (a b x : ℕ) (s t : S)
    → ok_or (checked_add u64_max a b) (custom arithmetic_overflow) s ≡ (ok x, t)
    → (x ≡ a + b) × (s ≡ t)
sum-eq-ok a b x s t h = ground arith

product-eq-ok :
    {S : Type 0} (a b x : ℕ) (s t : S)
    → ok_or (checked_mul u64_max a b) (custom arithmetic_overflow) s ≡ (ok x, t)
    → (x ≡ a * b) × (s ≡ t)
product-eq-ok a b x s t h = ground arith

load_book-eq-ok :
    (k : ℕ) (w u : World) (b : IntentBook)
    → load_book k w ≡ (ok b, u)
    → (load book_layout k w ≡ ok b) × (w ≡ u)
unfolding load_book
load_book-eq-ok k w u b h =
    let (_, _, h1) = reads-eq-ok (check_book_size k) (λ _. reads (load book_layout k)) w u h in
    (ap (λ (q : Result IntentBook × World). q.0) h1, ap (λ (q : Result IntentBook × World). q.1) h1)

-- What is set aside for a number of contracts: a bucket for each, and the fees at the greatest rate
-- that the book was made with.
pub record Amounts (book_key bucket contracts : ℕ) (r : Reserve) (w : World) : Type 0 where
  pub book : IntentBook
  pub found : load book_layout book_key w ≡ ok book
  pub collateral : r.collateral ≡ contracts * bucket
  pub buffer : fee_buffer_for contracts bucket book.header.cached_max_fee_bps ≡ ok r.fee_buffer
  pub total : r.total ≡ r.collateral + r.fee_buffer

pub reserve_for-Amounts :
    (book_key bucket contracts : ℕ) (r : Reserve) (w u : World)
    → reserve_for book_key bucket contracts w ≡ (ok r, u)
    → Amounts book_key bucket contracts r w × (w ≡ u)
unfolding reserve_for
reserve_for-Amounts book_key bucket contracts r w u h =
    let answer : ℕ → ℕ → ℕ → Reserve =
      λ c f t. record { collateral = c; fee_buffer = f; total = t } in
    let overflow = custom arithmetic_overflow in
    let add : ℕ → ℕ → Method World Reserve =
      λ c f. ok_or (checked_add u64_max c f) overflow >>= λ t. pure (answer c f t) in
    let fees : ℕ → IntentBook → Method World Reserve =
      λ c b. lift (fee_buffer_for contracts bucket b.header.cached_max_fee_bps) >>= add c in
    let (c, w1, s1, h1) =
      >>=-eq-ok (ok_or (checked_mul u64_max contracts bucket) overflow)
        (λ c. load_book book_key >>= fees c) w u h in
    let (b, w2, s2, h2) = >>=-eq-ok (load_book book_key) (fees c) w1 u h1 in
    let (f, s3, h3) =
      reads-eq-ok (λ _. fee_buffer_for contracts bucket b.header.cached_max_fee_bps) (add c) w2 u
        h2 in
    let (t, w3, s4, h4) =
      >>=-eq-ok (ok_or (checked_add u64_max c f) overflow) (λ t. pure (answer c f t)) w2 u h3 in
    let (ca, e1) = product-eq-ok contracts bucket c w w1 s1 in
    let (found, e2) = load_book-eq-ok book_key w1 w2 b s2 in
    let (ta, e3) = sum-eq-ok c f t w2 w3 s4 in
    let (is_r, e4) = pure-eq-ok (answer c f t) w3 u h4 in
    let amounts : Amounts book_key bucket contracts (answer c f t) w = record {
      book = b;
      found = ap (load book_layout book_key) e1 ∙ found;
      collateral = ca;
      buffer = s3;
      total = ta;
    } in
    (subst (λ r. Amounts book_key bucket contracts r w) is_r amounts, e1 ∙ (e2 ∙ (e3 ∙ e4)))
