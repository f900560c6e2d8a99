-- ===== src/Intents/Posted.antt =====
-- A whole post (`do_post_intent_inner` of src/processor/intent.rs up to the inline match).
use polyleverage.Base.{
  Distinct, ℕ, ◌+◌, ◌≤◌, ◌≡◌, refl, ap, ◌∙◌, sym, subst, true, Option, none, some, List, arith,
  contains,
}
use polyleverage.Method.{
  Result, ok, ⊤, Method, pure, lift, ◌>>=◌, ◌>>◌, >>=-eq-ok, reads-eq-ok, pure-eq-ok,
}
use polyleverage.State.Margin.{MarginAccount}
use polyleverage.State.Session.{Session, record_intent}
use polyleverage.State.Config.{InstrumentConfig}
use polyleverage.Accounts.{
  World, AccountInfo, Runtime, load, on, check_loaded, margin_layout, session_layout, book_layout,
}
use polyleverage.Accounts.Views.{on-eq-ok, on-view, load-store, load-check_loaded}
use polyleverage.Accounts.Views.Faithful.{session_layout-IsFaithful}
use polyleverage.Accounts.Held.{total_held, total_held-SameHeld, on-SameHeld}
use polyleverage.Book.{IntentBook}
use polyleverage.Intents.Pruned.{IsDueBack}
use polyleverage.Intents.Holding.{Reserves, commit, commit-Holds}
use polyleverage.Intents.Posting.{
  Checked, Amounts, check_post_accounts-Checked, reserve_for-Amounts,
}
use polyleverage.Intents.{
  PostIntentArgs, PostAccounts, Reserve, check_post_accounts, check_post_args, reserve_for,
  charge_session, post_intent,
}

-- A session that was charged an amount, within both caps.
pub record Charged (session_key amount : ℕ) (w u : World) : Type 0 where
  pub before : Session
  pub after : Session
  pub was : load session_layout session_key w ≡ ok before
  pub is_now : load session_layout session_key u ≡ ok after
  pub each : amount ≤ before.per_intent_max_collateral_atoms
  pub used : after.cumulative_collateral_used ≡ before.cumulative_collateral_used + amount
  pub capped : after.cumulative_collateral_used ≤ before.cumulative_collateral_cap

abbrev pub ChargedIfAny : Option AccountInfo → ℕ → World → World → Type 0
ChargedIfAny none amount w u = Unit
ChargedIfAny (some ai) amount w u = Charged ai.key amount w u

record_intent-eq-ok :
    (amount r : ℕ) (s t : Session)
    → record_intent amount s ≡ (ok r, t)
    → (amount ≤ s.per_intent_max_collateral_atoms)
      × (t.cumulative_collateral_used ≡ s.cumulative_collateral_used + amount)
      × (t.cumulative_collateral_used ≤ s.cumulative_collateral_cap)
      × (t.discriminator ≡ s.discriminator)
unfolding record_intent
record_intent-eq-ok amount r s t h = ground arith

marked_session :
    (s t : Session)
    → t.discriminator ≡ s.discriminator
    → check_loaded session_layout (some s) ≡ ok s
    → check_loaded session_layout (some t) ≡ ok t
unfolding check_loaded
marked_session s t same h = ground (arith, same)

charge_session-Charged :
    (ai : Option AccountInfo) (amount : ℕ) (w u : World)
    → charge_session ai amount w ≡ (ok tt, u)
    → ChargedIfAny ai amount w u
      × ((k : ℕ) → margin_layout.view (u k).contents ≡ margin_layout.view (w k).contents)
      × ((k : ℕ) → book_layout.view (u k).contents ≡ book_layout.view (w k).contents)
      × ((ks : List ℕ) → total_held ks u ≡ total_held ks w)
unfolding charge_session
charge_session-Charged none amount w u h = (
  tt,
  λ k. ap (λ (q : Result ⊤ × World). margin_layout.view (q.1 k).contents) (sym h),
  λ k. ap (λ (q : Result ⊤ × World). book_layout.view (q.1 k).contents) (sym h),
  λ ks. ap (λ (q : Result ⊤ × World). total_held ks q.1) (sym h),
)
charge_session-Charged (some ai) amount w u h =
    let (r, v, first, rest) =
      >>=-eq-ok (on session_layout ai.key (record_intent amount)) (λ _. pure tt) w u h in
    let (_, same) = pure-eq-ok tt v u rest in
    let (s, t, loaded, called, stored) =
      on-eq-ok session_layout ai.key (record_intent amount) w v first in
    let (each, used, capped, marked) = record_intent-eq-ok amount r s t called in
    let mark = marked_session s t marked (load-check_loaded session_layout ai.key w s loaded) in
    (
      record {
        before = s;
        after = t;
        was = loaded;
        is_now =
            ap (load session_layout ai.key) (sym same ∙ stored)
            ∙ load-store session_layout ai.key w t refl mark;
        each = each;
        used = used;
        capped = capped;
      },
      λ k.
          ap (λ (x : World). margin_layout.view (x k).contents) (sym same)
          ∙ on-view session_layout margin_layout.view session_layout-IsFaithful (λ x y. refl) ai.key
              (record_intent amount) w v first k,
      λ k.
          ap (λ (x : World). book_layout.view (x k).contents) (sym same)
          ∙ on-view session_layout book_layout.view session_layout-IsFaithful (λ x y. refl) ai.key
              (record_intent amount) w v first k,
      λ ks.
          ap (total_held ks) (sym same)
          ∙ total_held-SameHeld ks w v (
              on-SameHeld session_layout session_layout-IsFaithful (λ s. refl) ai.key
                (record_intent amount) w v r first),
    )

-- Later calls that leave what sessions read as.
later-Charged :
    (ai : Option AccountInfo) (amount : ℕ) (w v u : World)
    → ((k : ℕ) → session_layout.view (u k).contents ≡ session_layout.view (v k).contents)
    → ChargedIfAny ai amount w v
    → ChargedIfAny ai amount w u
unfolding load
later-Charged none amount w v u same c = tt
later-Charged (some ai) amount w v u same c = record {
  before = c.before;
  after = c.after;
  was = c.was;
  is_now = ap (check_loaded session_layout) (same ai.key) ∙ c.is_now;
  each = c.each;
  used = c.used;
  capped = c.capped;
}

-- A post: the checks it has passed, the amounts set aside, the margin account and the session.
pub record Posts (rt : Runtime) (a : PostAccounts) (args : PostIntentArgs) (w u : World)
    : Type 0 where
  pub inst : InstrumentConfig
  pub reserve : Reserve
  pub refund : ℕ
  pub book : IntentBook
  pub before : MarginAccount
  pub after : MarginAccount
  pub checked : Checked rt a inst w
  pub valid : check_post_args rt.slot inst.tick_fp args ≡ ok tt
  pub amounts : Amounts a.book.key inst.collateral_bucket args.contracts reserve w
  pub was : load margin_layout a.margin.key w ≡ ok before
  pub is_now : load margin_layout a.margin.key u ≡ ok after
  pub its_owner : before.owner ≡ a.effective_owner
  pub found : load book_layout a.book.key w ≡ ok book
  pub due_back : IsDueBack rt.slot a.effective_owner book refund
  pub reserved : Reserves refund reserve.total before after
  pub charged : ChargedIfAny a.session reserve.total w u
  pub conserved :
      (ks : List ℕ)
      → Distinct ks
      → contains a.margin.key ks ≡ true
      → total_held ks u ≡ total_held ks w

-- Before it may be matched, a post that succeeds has passed the checks, with the program running and
-- the instrument active. It has moved what it sets aside, a collateral bucket for each contract and
-- the fees, from the free to the reserved part of its owner's margin account at the derived address,
-- after a refund the other way of what was reserved, with the fees, for the first four intents of the
-- owner in the book that had expired with contracts left; and it has charged the session, if there is one,
-- within the session's two caps. What the accounts listed hold in all stays the same, each listed once
-- and the margin account among them.
pub post_intent-Posts :
    (rt : Runtime) (a : PostAccounts) (args : PostIntentArgs) (id : ℕ) (w u : World)
    → post_intent rt a args w ≡ (ok id, u)
    → Posts rt a args w u
unfolding post_intent load
post_intent-Posts rt a args id w u h =
    let set_aside : InstrumentConfig → Method World Reserve =
      λ inst. reserve_for a.book.key inst.collateral_bucket args.contracts in
    let with_reserve : InstrumentConfig → ℕ → Reserve → Method World ℕ = λ inst bump r.
      charge_session a.session r.total >> commit rt a args inst.collateral_mint bump r in
    let with_inst : InstrumentConfig × ℕ → Method World ℕ = λ (x : InstrumentConfig × ℕ).
      lift (check_post_args rt.slot x.0.tick_fp args) >> (set_aside x.0 >>= with_reserve x.0 x.1) in
    let (x, w0, s0, h0) = >>=-eq-ok (check_post_accounts rt a) with_inst w u h in
    let (checked, e0) = check_post_accounts-Checked rt a x w w0 s0 in
    let (_, valid, h1) =
      reads-eq-ok (λ _. check_post_args rt.slot x.0.tick_fp args)
        (λ _. set_aside x.0 >>= with_reserve x.0 x.1) w0 u h0 in
    let (r, w1, s1, h2) = >>=-eq-ok (set_aside x.0) (with_reserve x.0 x.1) w0 u h1 in
    let (amounts, e1) =
      reserve_for-Amounts a.book.key x.0.collateral_bucket args.contracts r w0 w1 s1 in
    let (_, w2, s2, h3) =
      >>=-eq-ok (charge_session a.session r.total) (λ _. commit rt a args x.0.collateral_mint x.1 r)
        w1 u h2 in
    let (charged, margins, books, kept) = charge_session-Charged a.session r.total w1 w2 s2 in
    let same : w1 ≡ w = sym (e0 ∙ e1) in
    let holds = commit-Holds rt a args x.0.collateral_mint x.1 r id w2 u h3 in
    record {
      inst = x.0;
      reserve = r;
      refund = holds.refund;
      book = holds.book;
      before = holds.before;
      after = holds.after;
      checked = checked;
      valid = valid;
      amounts = subst (Amounts a.book.key x.0.collateral_bucket args.contracts r) (sym e0) amounts;
      was =
          ap (check_loaded margin_layout) (
            ap (λ (w : World). margin_layout.view (w a.margin.key).contents) (sym same)
            ∙ sym (margins a.margin.key))
          ∙ holds.was;
      is_now = holds.is_now;
      its_owner = holds.its_owner;
      found =
          ap (check_loaded book_layout) (
            ap (λ (w : World). book_layout.view (w a.book.key).contents) (sym same)
            ∙ sym (books a.book.key))
          ∙ holds.found;
      due_back = holds.due_back;
      reserved = holds.reserved;
      charged =
          later-Charged a.session r.total w w2 u holds.sessions
            (subst (λ w. ChargedIfAny a.session r.total w w2) same charged);
      conserved = λ ks d member. holds.conserved ks d member ∙ (kept ks ∙ ap (total_held ks) same);
    }
