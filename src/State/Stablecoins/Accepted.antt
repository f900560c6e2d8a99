-- ===== src/State/Stablecoins/Accepted.antt =====
-- The registry as a list of mints.
use polyleverage.Base.{
  ℕ, zero, suc, ◌≤◌, ◌<◌, ◌≡◌, ◌⊎◌, inl, inr, refl, ap, ◌∙◌, true, false, ◌||◌, List, [], ◌∷◌, ◌++◌,
  arith, length, length-append, set, fill, take-fill, contains, Distinct, min, leb, ◌==◌,
  Bool-cases,
}
use polyleverage.Error.{custom, invalid_instruction_data, already_initialized}
use polyleverage.Method.{ok, err}
use polyleverage.State.Stablecoins.{
  StablecoinRegistry, max_stablecoin_slots, is_accepted, appended, add_mint,
}

-- The registry holds these mints, in this order, each once; the slots behind them are zero.
pub record Holds (ms : List ℕ) (r : StablecoinRegistry) : Type 0 where
  pub count : r.n_mints ≡ length ms
  pub room : length ms ≤ max_stablecoin_slots
  pub slots : r.mints ≡ fill max_stablecoin_slots 0 ms
  pub distinct : Distinct ms

-- A write behind the last item appends it.
fill-append :
    (n : ℕ) (ms : List ℕ) (m : ℕ)
    → length ms < n
    → set (fill n 0 ms) (length ms) m ≡ fill n 0 (ms ++ (m ∷ []))
fill-append zero ms m h = absurd (omega arith)
fill-append (suc n) [] m h = refl
fill-append (suc n) (x ∷ ms) m h = ap (◌∷◌ x) (fill-append n ms m (omega arith))

contains-append : (x m : ℕ) (ms : List ℕ) → contains x (ms ++ (m ∷ [])) ≡ (contains x ms || m == x)
contains-append x m [] = ground arith
contains-append x m (y ∷ ms) = ground (arith, contains-append x m ms)

Distinct-append :
    (m : ℕ) (ms : List ℕ) → Distinct ms → contains m ms ≡ false → Distinct (ms ++ (m ∷ []))
Distinct-append m [] d new = (refl, tt)
Distinct-append m (y ∷ ms) (fresh, d) new =
    (ground (arith, contains-append y m ms), Distinct-append m ms d (ground arith))

is_accepted-contains :
    (ms : List ℕ) (r : StablecoinRegistry) (x : ℕ) → Holds ms r → is_accepted x r ≡ contains x ms
unfolding is_accepted
is_accepted-contains ms r x h =
    let used : min r.n_mints max_stablecoin_slots ≡ length ms = omega (arith, h.count, h.room) in
    rw (used, h.slots) (ap (contains x) (take-fill max_stablecoin_slots 0 ms h.room))

-- Adding a mint: refused if it is there or if all slots are in use, with the registry unchanged;
-- else the registry holds the mints as before and the new one behind them.
pub add_mint-Holds :
    (ms : List ℕ) (r : StablecoinRegistry) (m : ℕ)
    → Holds ms r
    → ((contains m ms ≡ true) × (add_mint m r ≡ (err (custom already_initialized), r)))
      ⊎ ((contains m ms ≡ false)
          × (length ms ≡ max_stablecoin_slots)
          × (add_mint m r ≡ (err (custom invalid_instruction_data), r)))
      ⊎ ((contains m ms ≡ false)
          × ((s : StablecoinRegistry) × (add_mint m r ≡ (ok tt, s)) × Holds (ms ++ (m ∷ [])) s))
unfolding add_mint
add_mint-Holds ms r m h = elim (Bool-cases (contains m ms)) [
  | inl there ↦
      let listed : is_accepted m r ≡ true = is_accepted-contains ms r m h ∙ there in
      inl (there, rw listed refl)
  | inr new ↦
      let unlisted : is_accepted m r ≡ false = is_accepted-contains ms r m h ∙ new in
      elim (Bool-cases (leb max_stablecoin_slots r.n_mints)) [
        | inl full ↦ inr (inl (new, ground (arith, h.count, h.room), rw (unlisted, full) refl))
        | inr free ↦
            let room : length ms < max_stablecoin_slots = ground (arith, h.count) in
            inr (inr (new, (appended m r, rw (unlisted, free) refl, holding room new)))
      ]
]
  where
    holding :
        length ms < max_stablecoin_slots
        → contains m ms ≡ false
        → Holds (ms ++ (m ∷ [])) (appended m r)
    holding room new = record {
      count = omega (arith, h.count, length-append ms (m ∷ []));
      room = omega (arith, room, length-append ms (m ∷ []));
      slots =
          ap (λ (xs : List ℕ). set xs r.n_mints m) h.slots
          ∙ (ap (λ (i : ℕ). set (fill max_stablecoin_slots 0 ms) i m) h.count
              ∙ fill-append max_stablecoin_slots ms m room);
      distinct = Distinct-append m ms h.distinct new;
    }
