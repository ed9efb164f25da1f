-- ===== src/Seeds/Tests.antt =====
-- Runs of the seed pair.
use mix_tor.Base.{◌≢◌, replicate, arith, List, ◌≡◌, ℕ, ◌∷◌, refl, none, some, ok, err}
use mix_tor.Seeds.{
  generate_seed, SessionSeeds, duplicate_seeds, timing_and_pool, burst_composition, generate,
  rotate,
}
use mix_tor.Seeds.Rotation.{IsSound, rotate-IsSound}

abbrev draw_a : List ℕ
draw_a = 1 ∷ replicate 31 0

abbrev draw_b : List ℕ
draw_b = 2 ∷ replicate 31 0

abbrev seeds : SessionSeeds
seeds = record {
  timing = record { role = timing_and_pool; bytes = draw_a };
  burst = record { role = burst_composition; bytes = draw_b };
  generated_at = 7;
  rotation_interval = 30;
}

generates : generate 30 (some draw_a) (some draw_b) 7 ≡ ok seeds
unfolding generate generate_seed
generates = refl

equal_draws : generate 30 (some draw_a) (some draw_a) 7 ≡ err duplicate_seeds
unfolding generate generate_seed
equal_draws = refl

seeds-IsSound : IsSound seeds
seeds-IsSound = record {
  timing_role = refl;
  burst_role = refl;
  timing_nonzero = refl;
  burst_nonzero = refl;
  different = refl;
  rotates = omega arith;
}

-- The generator fails at the second draw.
rotated_seeds :
    let (s', fault) = rotate seeds (some draw_b) none 50 in
    IsSound s'
    × (s'.rotation_interval ≡ seeds.rotation_interval)
    × ((fault ≢ none) → s' ≡ seeds)
    × ((fault ≡ none) → s'.generated_at ≡ 50)
rotated_seeds = rotate-IsSound seeds (some draw_b) none 50 seeds-IsSound
