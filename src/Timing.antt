-- ===== src/Timing.antt =====
-- src/timing.rs: `TimingConfig`, `SeedATimingScheduler`. Durations are nanoseconds; a panic is a way to
-- stop beside the errors.
pub mod Sound
pub mod Ranges
mod Tests
use mix_tor.Base.{
  ℕ, zero, suc, ◌+◌, ◌*◌, ◌/◌, ◌≤◌, ◌<◌, ◌^◌, List, [], ◌∷◌, Option, none, some, Result, ok, err,
  ◌>>=◌, ◌>>◌, Bool, true, false, ◌||◌, ◌==◌, ltb, leb, if◌then◌else◌, min, max, saturating_add,
  ◌≡◌,
}
use mix_tor.Base.Random.{Rng}
use mix_tor.Seeds.{SeedRole, EphemeralSeed, timing_and_pool, burst_composition}
use mix_tor.Packet.{ClumpingError}
use mix_tor.Clump.{ClumpingConfig, CycleThresholds, default_config, validate, micros}

pub data TimingDistributionKind : Type 0 where
  poisson pareto bimodal burst_and_silence uniform exponential : TimingDistributionKind

-- The crates rand and rand_distr with the floats: `at_most` and `below` are `<=` and `<`, `literal n d` is
-- n / 10^d as the source writes it, `rounded` is `round` as a whole number and 0 below it. `range` and
-- `flip` are `gen_range` and `gen_bool` where they do not panic, and each `sample_` is a constructor and
-- its sample, `none` where the constructor refuses. The laws are the order of the floats, that whole
-- numbers keep their order, how six literals compare, and that the constructors accept what is positive.
pub record Sampler : Type 1 where
  pub rng : Rng
  pub F : Type 0
  pub of_nat : ℕ → F
  pub literal : ℕ → ℕ → F
  pub mul : F → F → F
  pub div : F → F → F
  pub larger : F → F → F
  pub at_most : F → F → Bool
  pub below : F → F → Bool
  pub rounded : F → ℕ
  pub range : F → F → Rng.State rng → F × Rng.State rng
  pub flip : F → Rng.State rng → Bool × Rng.State rng
  pub sample_poisson : F → Rng.State rng → Option F × Rng.State rng
  pub sample_pareto : F → F → Rng.State rng → Option F × Rng.State rng
  pub sample_exp : F → Rng.State rng → Option F × Rng.State rng
  pub of_nat_mono : (m n : ℕ) → m ≤ n → at_most (of_nat m) (of_nat n) ≡ true
  pub of_nat_pos : (n : ℕ) → 0 < n → below (of_nat 0) (of_nat n) ≡ true
  pub below_at_most : (x y z : F) → below x y ≡ true → at_most y z ≡ true → below x z ≡ true
  pub larger_left : (x y : F) → at_most x (larger x y) ≡ true
  pub larger_right : (x y : F) → at_most y (larger x y) ≡ true
  pub larger_least :
      (x y z : F) → at_most x z ≡ true → at_most y z ≡ true → at_most (larger x y) z ≡ true
  pub mul_share :
      (n : ℕ) (p : F) → at_most p (of_nat 1) ≡ true → at_most (mul (of_nat n) p) (of_nat n) ≡ true
  pub div_pos :
      (x : F) (n : ℕ)
      → below (of_nat 0) x ≡ true
      → at_most x (of_nat n) ≡ true
      → below (of_nat 0) (div (of_nat 1) x) ≡ true
  pub literals_pos : below (of_nat 0) (literal 12 1) ≡ true
  pub shapes : at_most (literal 12 1) (literal 28 1) ≡ true
  pub odds_bimodal : at_most (literal 68 2) (of_nat 1) ≡ true
  pub odds_burst : at_most (literal 82 2) (of_nat 1) ≡ true
  pub part_bimodal : at_most (literal 55 2) (of_nat 1) ≡ true
  pub part_burst : at_most (literal 60 2) (of_nat 1) ≡ true
  pub range_bounds :
      (lo hi : F) (s : Rng.State rng)
      → at_most lo hi ≡ true
      → (at_most lo (range lo hi s).0 ≡ true) × (at_most (range lo hi s).0 hi ≡ true)
  pub poisson_accepts :
      (x : F) (s : Rng.State rng)
      → below (of_nat 0) x ≡ true
      → (y : F) × ((sample_poisson x s).0 ≡ some y)
  pub pareto_accepts :
      (x z : F) (s : Rng.State rng)
      → below (of_nat 0) x ≡ true
      → below (of_nat 0) z ≡ true
      → (y : F) × ((sample_pareto x z s).0 ≡ some y)
  pub exp_accepts :
      (x : F) (s : Rng.State rng)
      → below (of_nat 0) x ≡ true
      → (y : F) × ((sample_exp x s).0 ≡ some y)

pub record RegimeSwitchThreshold : Type 0 where
  pub bytes : ℕ
  pub packets : ℕ

pub record TimingRegime : Type 0 where
  pub kind : TimingDistributionKind
  pub switch_after : RegimeSwitchThreshold

pub record TimingDecision : Type 0 where
  pub delay : ℕ
  pub regime : TimingRegime
  pub pool_thresholds : CycleThresholds

pub record TimingConfig : Type 0 where
  pub min_delay : ℕ
  pub max_delay : ℕ
  pub min_regime_bytes : ℕ
  pub max_regime_bytes : ℕ
  pub min_regime_packets : ℕ
  pub max_regime_packets : ℕ
  pub clumping : ClumpingConfig

-- The texts of `InvalidConfig`, as constructors.
pub data TimingFault : Type 0 where
  zero_delay delay_above zero_regime regime_bytes_above regime_packets_above : TimingFault

pub data TimingError : Type 0 where
  invalid_timing : TimingFault → TimingError
  invalid_clumping : ClumpingError → TimingError
  wrong_timing_role : SeedRole → SeedRole → TimingError

pub data TimingStop : Type 0 where
  refused : TimingError → TimingStop
  panics : TimingStop

abbrev pub millis : ℕ → ℕ
millis n = n * 1_000_000

-- `Duration::as_millis`
abbrev pub as_millis : ℕ → ℕ
as_millis d = d / 1_000_000

-- `TimingConfig::default`
abbrev pub timing_default : TimingConfig
timing_default = record {
  min_delay = millis 4;
  max_delay = millis 240;
  min_regime_bytes = 24 * 1024;
  max_regime_bytes = 512 * 1024;
  min_regime_packets = 48;
  max_regime_packets = 1024;
  clumping = default_config;
}

-- `if b { return Err(InvalidConfig(..)) }`
unfoldable pub reject_if : Bool → TimingFault → Result TimingStop (Unit {0})
reject_if true fault = err (refused (invalid_timing fault))
reject_if false fault = ok tt

-- `?` on what `ClumpingConfig::validate` returns
unfoldable pub or_timing {ℓ} : {A : Type ℓ} → Result ClumpingError A → Result TimingStop A
or_timing (ok a) = ok a
or_timing (err e) = err (refused (invalid_clumping e))

unfoldable pub validate_timing : TimingConfig → Result TimingStop TimingConfig
validate_timing c = do
  reject_if (c.min_delay == 0) zero_delay
  reject_if (ltb c.max_delay c.min_delay) delay_above
  reject_if (c.min_regime_bytes == 0 || c.min_regime_packets == 0) zero_regime
  reject_if (ltb c.max_regime_bytes c.min_regime_bytes) regime_bytes_above
  reject_if (ltb c.max_regime_packets c.min_regime_packets) regime_packets_above
  _ ← or_timing (validate c.clumping)
  ok c

-- `gen_range(lo..=hi)`, which panics on an empty range
unfoldable pub draw : (g : Rng) → ℕ → ℕ → Rng.State g → Result TimingStop (ℕ × Rng.State g)
draw g lo hi s = if ltb hi lo then err panics else ok (Rng.range g lo hi s)

-- `match rng.gen_range(0..6)`
abbrev pub timing_kind : ℕ → TimingDistributionKind
timing_kind n =
    if n == 0
    then poisson
    else if n == 1
    then pareto
    else if n == 2
    then bimodal
    else if n == 3
    then burst_and_silence
    else if n == 4
    then uniform
    else exponential

abbrev pub check_timing_role : SeedRole → Result TimingStop (Unit {0})
check_timing_role timing_and_pool = ok tt
check_timing_role burst_composition =
    err (refused (wrong_timing_role timing_and_pool burst_composition))

module _ (t : Sampler) where
  pub record TimingScheduler : Type 0 where
    pub config : TimingConfig
    pub rng : Rng.State (Sampler.rng t)
    pub regime : TimingRegime
    pub bytes_in_regime : ℕ
    pub packets_in_regime : ℕ

  unfoldable pub next_timing_regime :
      TimingConfig
      → Rng.State (Sampler.rng t)
      → Result TimingStop (TimingRegime × Rng.State (Sampler.rng t))
  next_timing_regime config s = do
    (n, s₁) ← draw (Sampler.rng t) 0 5 s
    (bytes, s₂) ← draw (Sampler.rng t) config.min_regime_bytes config.max_regime_bytes s₁
    (packets, s₃) ← draw (Sampler.rng t) config.min_regime_packets config.max_regime_packets s₂
    ok (
      record { kind = timing_kind n; switch_after = record { bytes = bytes; packets = packets } },
      s₃,
    )

  -- `SeedATimingScheduler::with_config`; `seeded` is the generator of the seed's derived bytes.
  unfoldable pub scheduler_with_config :
      (EphemeralSeed → Rng.State (Sampler.rng t))
      → EphemeralSeed
      → TimingConfig
      → Result TimingStop TimingScheduler
  scheduler_with_config seeded seed_a given = do
    _ ← check_timing_role seed_a.role
    config ← validate_timing given
    (regime, rng) ← next_timing_regime config (seeded seed_a)
    ok (record {
      config = config;
      rng = rng;
      regime = regime;
      bytes_in_regime = 0;
      packets_in_regime = 0;
    })

  switched : TimingScheduler → Result TimingStop TimingScheduler
  switched s = do
    (regime, rng) ← next_timing_regime s.config s.rng
    ok (record s { rng = rng; regime = regime; bytes_in_regime = 0; packets_in_regime = 0 })

  unfoldable pub observe_burst : TimingScheduler → ℕ → ℕ → Result TimingStop TimingScheduler
  unfolding switched
  observe_burst s bytes packets =
      let b = saturating_add s.bytes_in_regime bytes in
      let q = saturating_add s.packets_in_regime packets in
      let s' = record s { bytes_in_regime = b; packets_in_regime = q } in
      if leb s.regime.switch_after.bytes b || leb s.regime.switch_after.packets q
      then switched s'
      else ok s'

  -- `gen_range` on floats, which panics where the ends are out of order
  draw_float : t.F → t.F → Rng.State t.rng → Result TimingStop (t.F × Rng.State t.rng)
  draw_float lo hi s = if t.at_most lo hi then ok (t.range lo hi s) else err panics

  -- `gen_bool`, which panics on more than 1
  toss : t.F → Rng.State t.rng → Result TimingStop (Bool × Rng.State t.rng)
  toss p s = if t.at_most p (t.of_nat 1) then ok (t.flip p s) else err panics

  -- `expect` on a constructor's result
  expects : Option t.F × Rng.State t.rng → Result TimingStop (t.F × Rng.State t.rng)
  expects (none, s) = err panics
  expects (some x, s) = ok (x, s)

  -- A short range with the odds `p`, up to the share `low`, and else a long one from the share `high`.
  two_ranges :
      t.F → t.F → t.F → t.F → t.F → Rng.State t.rng → Result TimingStop (t.F × Rng.State t.rng)
  unfolding draw_float toss
  two_ranges p low high min_ms max_ms s = toss p s >>= λ out.
      if out.0
      then draw_float min_ms (t.larger (t.mul max_ms low) min_ms) out.1
      else draw_float (t.larger (t.mul max_ms high) min_ms) max_ms out.1

  -- The match on the kind in `next_delay`.
  pub sampled :
      TimingDistributionKind
      → t.F
      → t.F
      → Rng.State t.rng
      → Result TimingStop (t.F × Rng.State t.rng)
  unfolding draw_float expects two_ranges
  sampled poisson min_ms max_ms s = do
    (x, s₁) ← draw_float min_ms max_ms s
    expects (t.sample_poisson (t.larger x (t.of_nat 1)) s₁)
  sampled pareto min_ms max_ms s = do
    (scale, s₁) ← draw_float min_ms (t.larger (t.div max_ms (t.of_nat 3)) min_ms) s
    (shape, s₂) ← draw_float (t.literal 12 1) (t.literal 28 1) s₁
    expects (t.sample_pareto scale shape s₂)
  sampled bimodal min_ms max_ms s =
      two_ranges (t.literal 68 2) (t.literal 30 2) (t.literal 55 2) min_ms max_ms s
  sampled burst_and_silence min_ms max_ms s =
      two_ranges (t.literal 82 2) (t.literal 18 2) (t.literal 60 2) min_ms max_ms s
  sampled uniform min_ms max_ms s = draw_float min_ms max_ms s
  sampled exponential min_ms max_ms s = do
    (x, s₁) ← draw_float min_ms max_ms s
    expects (t.sample_exp (t.div (t.of_nat 1) (t.larger x (t.of_nat 1))) s₁)

  -- `next_delay`; the bounds of the clamp are whole milliseconds.
  unfoldable pub next_delay : TimingScheduler → Result TimingStop (ℕ × TimingScheduler)
  unfolding sampled
  next_delay s = do
    let min_ms = as_millis s.config.min_delay
    let max_ms = as_millis s.config.max_delay
    (x, rng) ← sampled s.regime.kind (t.of_nat min_ms) (t.of_nat max_ms) s.rng
    ok (millis (min (max (t.rounded x) min_ms) max_ms), record s { rng = rng })

  unfoldable pub next_pool_thresholds :
      TimingScheduler → Result TimingStop (CycleThresholds × TimingScheduler)
  next_pool_thresholds s = do
    let c = s.config.clumping
    (max_packets, s₁) ← draw (Sampler.rng t) c.min_packets_per_burst c.max_packets_per_burst s.rng
    (us, s₂) ← draw (Sampler.rng t) (micros c.min_timeout) (micros c.max_timeout) s₁
    ok (record { max_packets = max_packets; timeout = us * 1000 }, record s { rng = s₂ })

  unfoldable pub next_decision :
      TimingScheduler → Result TimingStop (TimingDecision × TimingScheduler)
  next_decision s = do
    (delay, s₁) ← next_delay s
    (thresholds, s₂) ← next_pool_thresholds s₁
    ok (record { delay = delay; regime = s₁.regime; pool_thresholds = thresholds }, s₂)
