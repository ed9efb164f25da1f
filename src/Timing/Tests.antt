-- ===== src/Timing/Tests.antt =====
-- Runs of the scheduler, with floats that count hundredths and a generator that draws the lower end.
use mix_tor.Base.{
  true, ◌+◌, ltb, max, leb, if◌then◌else◌, min, ◌^◌, ◌/◌, ◌*◌, ℕ, List, [], ◌∷◌, some, refl, arith,
}
use mix_tor.Seeds.{EphemeralSeed, timing_and_pool}
use mix_tor.Samples.{zeros}
use mix_tor.Timing.{Sampler}
use mix_tor.Timing.Sound.{Asks, observes, decides}

abbrev steady : Sampler
steady = record {
  rng = zeros;
  F = ℕ;
  of_nat = λ n. n * 100;
  literal = λ n d. n * 100 / 10 ^ d;
  mul = λ x y. min (x * y / 100) (if leb y 100 then x else x * y / 100);
  div = λ x y. max (x * 100 / y) 1;
  larger = max;
  at_most = leb;
  below = ltb;
  rounded = λ x. (x + 50) / 100;
  range = λ lo hi s. (lo, s);
  flip = λ p s. (true, s);
  sample_poisson = λ x s. (some x, s);
  sample_pareto = λ x y s. (some x, s);
  sample_exp = λ x s. (some x, s);
  of_nat_mono = λ m n h. ground arith;
  of_nat_pos = λ n h. ground arith;
  below_at_most = λ x y z h k. ground arith;
  larger_left = λ x y. ground arith;
  larger_right = λ x y. ground arith;
  larger_least = λ x y z h k. ground arith;
  mul_share = λ n p h. rw h (ground arith);
  div_pos = λ x n h k. ground arith;
  literals_pos = refl;
  shapes = refl;
  odds_bimodal = refl;
  odds_burst = refl;
  part_bimodal = refl;
  part_burst = refl;
  range_bounds = λ lo hi s h. (ground arith, h);
  poisson_accepts = λ x s h. (x, refl);
  pareto_accepts = λ x y s h k. (x, refl);
  exp_accepts = λ x s h. (x, refl);
}

abbrev asks : List (Asks steady)
asks = decides ∷ observes 30_000 10 ∷ decides ∷ []

abbrev timing_seed : EphemeralSeed
timing_seed = record { role = timing_and_pool; bytes = 1 ∷ 2 ∷ [] }
