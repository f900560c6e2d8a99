-- ===== src/Tests/Registry.antt =====
-- Edits of the two registries.
use polyleverage.Base.{
  ℕ, ◌≤◌, ◌<◌, ◌≡◌, ◌⊎◌, refl, true, false, List, [], ◌∷◌, ◌++◌, arith, length, contains, Distinct,
  fill,
}
use polyleverage.Error.{custom, invalid_instruction_data, already_initialized}
use polyleverage.Method.{ok, err}
use polyleverage.State.Buckets.{
  BucketRegistry, disc_bucket_registry, check_leverages, check_buckets, validate_inputs, set_lists,
  allows_leverage, allows_bucket,
}
use polyleverage.State.Buckets.Allowed.{set_lists-allows}
use polyleverage.State.Stablecoins.{
  StablecoinRegistry, disc_stablecoin_registry, max_stablecoin_slots, add_mint, position, fill_gap,
  remove_mint,
}
use polyleverage.State.Stablecoins.Accepted.{Holds, add_mint-Holds}

abbrev buckets : BucketRegistry
buckets = record {
  discriminator = disc_bucket_registry;
  bump = 244;
  n_leverage = 1;
  n_collateral = 1;
  version = 1;
  leverage_bps = fill 16 0 (20_000 ∷ []);
  collateral_buckets = fill 16 0 (100 ∷ []);
}

abbrev new_leverages : List ℕ
new_leverages = 20_000 ∷ 50_000 ∷ 100_000 ∷ []

abbrev new_buckets : List ℕ
new_buckets = 100_000_000 ∷ 1_000_000_000 ∷ []

abbrev edited_buckets : BucketRegistry
edited_buckets = (set_lists new_leverages new_buckets buckets).1

edit_runs : set_lists new_leverages new_buckets buckets ≡ (ok tt, edited_buckets)
unfolding set_lists validate_inputs check_leverages check_buckets
edit_runs = refl

set_lists-allows_example :
    ((x : ℕ) → allows_leverage x edited_buckets ≡ contains x new_leverages)
    × ((x : ℕ) → allows_bucket x edited_buckets ≡ contains x new_buckets)
    × (Distinct new_leverages
        × ((x : ℕ) → contains x new_leverages ≡ true → (0 < x) × (x ≤ 10_000_000)))
    × (Distinct new_buckets × ((x : ℕ) → contains x new_buckets ≡ true → 0 < x))
set_lists-allows_example =
    set_lists-allows new_leverages new_buckets buckets edited_buckets edit_runs

abbrev mints_now : List ℕ
mints_now = 31 ∷ 32 ∷ 33 ∷ []

abbrev coins : StablecoinRegistry
coins = record {
  discriminator = disc_stablecoin_registry;
  bump = 243;
  n_mints = 3;
  wusd_decimals = 6;
  wusd_mint = 70;
  version = 4;
  mints = fill 16 0 mints_now;
}

coins-Holds : Holds mints_now coins
coins-Holds = record {
  count = refl;
  room = omega arith;
  slots = refl;
  distinct = (refl, (refl, (refl, tt)));
}

add_mint-Holds_example :
    ((contains 34 mints_now ≡ true)
      × (add_mint 34 coins ≡ (err (custom already_initialized), coins)))
    ⊎ ((contains 34 mints_now ≡ false)
        × (length mints_now ≡ max_stablecoin_slots)
        × (add_mint 34 coins ≡ (err (custom invalid_instruction_data), coins)))
    ⊎ ((contains 34 mints_now ≡ false)
        × ((s : StablecoinRegistry) × (add_mint 34 coins ≡ (ok tt, s))
            × Holds (mints_now ++ (34 ∷ [])) s))
add_mint-Holds_example = add_mint-Holds mints_now coins 34 coins-Holds

-- The last mint moves into the gap.
remove_runs :
    (remove_mint 31 coins).1
    ≡ record coins { n_mints = 2; version = 5; mints = fill 16 0 (33 ∷ 32 ∷ []) }
unfolding remove_mint position fill_gap
remove_runs = refl
