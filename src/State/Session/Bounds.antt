-- ===== src/State/Session/Bounds.antt =====
-- What a session's delegate can commit, and for which instruments.
use polyleverage.Base.{
  ℕ, ◌+◌, ◌≤◌, ◌<◌, ◌≡◌, ◌↔◌, true, List, [], ◌∷◌, arith, length, contains, take-fill, u64_max,
  if◌then◌else◌, ◌==◌,
}
use polyleverage.Method.{Result, ok, err}
use polyleverage.State.Session.{
  Session, max_session_instruments, init, is_active, allows_instrument, record_intent,
}

-- A charge goes through exactly when the amount is positive, within the cap for one intent, and
-- within what is left of the cumulative cap.
pub record_intent_iff :
    (amount : ℕ) (s : Session)
    → s.cumulative_collateral_cap ≤ u64_max
    → ((r : ℕ) × ((record_intent amount s).0 ≡ ok r)) ↔ (
        (0 < amount)
        × (amount ≤ s.per_intent_max_collateral_atoms)
        × (s.cumulative_collateral_used + amount ≤ s.cumulative_collateral_cap))
unfolding record_intent
record_intent_iff amount s h =
    (λ p. ground arith, λ p. (s.cumulative_collateral_used + amount, ground arith))

-- What a charge that returned `r` has committed.
abbrev committed_by : Result ℕ → ℕ → ℕ
committed_by (ok _) amount = amount
committed_by (err _) amount = 0

-- Posts in turn: each amount is charged, and the second result is what the posts that went through
-- have committed.
pub charge_all : List ℕ → Session → Session × ℕ
charge_all [] s = (s, 0)
charge_all (x ∷ xs) s =
    let (r, t) = record_intent x s in let (u, n) = charge_all xs t in (u, committed_by r x + n)

charge_step :
    (x : ℕ) (s : Session)
    → s.cumulative_collateral_used ≤ s.cumulative_collateral_cap
    → let (r, t) = record_intent x s in
      (t.cumulative_collateral_used ≡ s.cumulative_collateral_used + committed_by r x)
      × (t.cumulative_collateral_used ≤ t.cumulative_collateral_cap)
      × (t.cumulative_collateral_cap ≡ s.cumulative_collateral_cap)
unfolding record_intent
charge_step x s h = ground arith

-- However many posts a delegate tries, what goes through in all is what the session's counter shows,
-- and with what was used before it stays within the cumulative cap.
pub charge_all_bounded :
    (xs : List ℕ) (s : Session)
    → s.cumulative_collateral_used ≤ s.cumulative_collateral_cap
    → let (t, n) = charge_all xs s in
      (t.cumulative_collateral_used ≡ s.cumulative_collateral_used + n)
      × (s.cumulative_collateral_used + n ≤ s.cumulative_collateral_cap)
unfolding charge_all
charge_all_bounded [] s h = (omega arith, omega arith)
charge_all_bounded (x ∷ xs) s h =
    let step = charge_step x s h in
    let rest = charge_all_bounded xs (record_intent x s).1 step.1 in
    (omega (arith, step.0, rest.0), omega (arith, step.0, step.2, rest.1))

-- A fresh session is active at the slot of its creation, and it allows an instrument exactly when its
-- list is empty or names the instrument.
pub init_lem :
    (owner delegate bump expires per_intent cap : ℕ) (allowed : List ℕ) (created instrument : ℕ)
    (old new : Session)
    → init owner delegate bump expires per_intent cap allowed created old ≡ (ok tt, new)
    → (is_active created new ≡ true)
      × (allows_instrument instrument new
          ≡ (if length allowed == 0 then true else contains instrument allowed))
unfolding init is_active allows_instrument
init_lem owner delegate bump expires per_intent cap allowed created instrument old new h =
    (ground arith, ground (arith, take-fill max_session_instruments 0 allowed))
