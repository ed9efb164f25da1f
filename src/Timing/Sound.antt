-- ===== src/Timing/Sound.antt =====
-- What a scheduler of src/timing.rs keeps and decides, over every history.
use mix_tor.Base.{
  ◌∙◌, ◌==◌, ℕ, ◌+◌, ◌/◌, ◌≤◌, ◌<◌, List, [], ◌∷◌, Result, ok, ◌>>=◌, false, ◌||◌, ltb, min, max,
  ◌≡◌, refl, arith, Returns, Returns-bind,
}
use mix_tor.Base.Random.{Rng}
use mix_tor.Seeds.{EphemeralSeed, timing_and_pool}
use mix_tor.Clump.{ClumpingConfig, micros, validate}
use mix_tor.Clump.Flush.{IsValid, IsWithin}
use mix_tor.Timing.Ranges.{sampled-Returns}
use mix_tor.Timing.{
  Sampler, TimingRegime, TimingDecision, TimingConfig, TimingStop, TimingScheduler, millis,
  as_millis, validate_timing, reject_if, or_timing, draw, next_timing_regime, scheduler_with_config,
  observe_burst, next_delay, next_pool_thresholds, next_decision,
}

-- A configuration that `validate` accepts, with a least delay of a millisecond at least and timeouts
-- whose microseconds fit in 64 bits.
pub record IsTimely (c : TimingConfig) : Type 0 where
  pub whole : millis 1 ≤ c.min_delay
  pub delays : c.min_delay ≤ c.max_delay
  pub bytes : (0 < c.min_regime_bytes) × (c.min_regime_bytes ≤ c.max_regime_bytes)
  pub packets : (0 < c.min_regime_packets) × (c.min_regime_packets ≤ c.max_regime_packets)
  pub clumping : IsValid c.clumping

-- A delay within the bounds, down to the whole millisecond, and thresholds of the pool's configuration,
-- the timeout down to the whole microsecond.
pub record IsDecision (c : TimingConfig) (d : TimingDecision) : Type 0 where
  pub not_early : c.min_delay < d.delay + millis 1
  pub not_late : d.delay ≤ c.max_delay
  pub thresholds : IsWithin c.clumping d.pool_thresholds
  pub not_soon : c.clumping.min_timeout < d.pool_thresholds.timeout + 1000

-- A regime with thresholds of the configuration.
pub record IsRegime (c : TimingConfig) (r : TimingRegime) : Type 0 where
  bytes : (c.min_regime_bytes ≤ r.switch_after.bytes) × (r.switch_after.bytes ≤ c.max_regime_bytes)
  packets :
      (c.min_regime_packets ≤ r.switch_after.packets)
      × (r.switch_after.packets ≤ c.max_regime_packets)

draw-Returns :
    (g : Rng) (lo hi : ℕ) (s : Rng.State g)
    → lo ≤ hi
    → Returns {E = TimingStop} (λ r. (lo ≤ r.0) × (r.0 ≤ hi)) (draw g lo hi s)
unfolding draw
draw-Returns g lo hi s h =
    let e : ltb hi lo ≡ false = ground arith in
    rw e (Rng.range g lo hi s, refl, Rng.range_bounds g lo hi s h)

validate-IsValid : (c : ClumpingConfig) → IsValid c → validate c ≡ ok c
unfolding validate
validate-IsValid c v = ground (arith, v.some_packets, v.packets, v.some_time, v.timeouts)

validate_timing-IsTimely : (c : TimingConfig) → IsTimely c → validate_timing c ≡ ok c
unfolding validate_timing reject_if or_timing
validate_timing-IsTimely c v =
    let a : (c.min_delay == 0) ≡ false = ground (arith, v.whole) in
    let b : ltb c.max_delay c.min_delay ≡ false = ground (arith, v.delays) in
    let d : (c.min_regime_bytes == 0 || c.min_regime_packets == 0) ≡ false =
      ground (arith, v.bytes.0, v.packets.0) in
    let e : ltb c.max_regime_bytes c.min_regime_bytes ≡ false = ground (arith, v.bytes.1) in
    let f : ltb c.max_regime_packets c.min_regime_packets ≡ false = ground (arith, v.packets.1) in
    rw (a, b, d, e, f, validate-IsValid c.clumping v.clumping) refl

module _ (t : Sampler) where
  -- A scheduler whose regime has not reached its end.
  pub record IsScheduled (s : TimingScheduler t) : Type 0 where
    pub timely : IsTimely s.config
    pub regime : IsRegime s.config s.regime
    pub bytes : s.bytes_in_regime < s.regime.switch_after.bytes
    pub packets : s.packets_in_regime < s.regime.switch_after.packets

  next_timing_regime-IsRegime :
      (c : TimingConfig) (s : Rng.State (Sampler.rng t))
      → IsTimely c
      → Returns (λ out. IsRegime c out.0) (next_timing_regime t c s)
  unfolding next_timing_regime
  next_timing_regime-IsRegime c s v = Returns-bind (draw-Returns _ 0 5 s (omega arith)) λ a _.
      Returns-bind (draw-Returns _ _ _ a.1 v.bytes.1) λ b bytes.
        Returns-bind (draw-Returns _ _ _ b.1 v.packets.1)
          λ d packets. (_, refl, record { bytes = bytes; packets = packets })

  pub scheduler_with_config-IsScheduled :
      (seeded : EphemeralSeed → Rng.State (Sampler.rng t)) (seed_a : EphemeralSeed)
      (c : TimingConfig)
      → seed_a.role ≡ timing_and_pool
      → IsTimely c
      → Returns (λ s. IsScheduled s × (s.config ≡ c)) (scheduler_with_config t seeded seed_a c)
  unfolding scheduler_with_config
  scheduler_with_config-IsScheduled seeded seed_a c role v =
      rw (role, validate_timing-IsTimely c v)
        (Returns-bind (next_timing_regime-IsRegime c _ v) λ out r. (
          _,
          refl,
          (
            record {
              timely = v;
              regime = r;
              bytes = omega (arith, v.bytes.0, r.bytes.0);
              packets = omega (arith, v.packets.0, r.packets.0);
            },
            refl,
          ),
        ))

  -- What a step leaves of a scheduler but its generator.
  abbrev Kept : TimingScheduler t → TimingScheduler t → Type 0
  Kept s s' = IsScheduled s' × (s'.config ≡ s.config)

  next_delay-Returns :
      (s : TimingScheduler t)
      → IsScheduled s
      → Returns
          (λ out.
            (s.config.min_delay < out.0 + millis 1) × (out.0 ≤ s.config.max_delay) × Kept s out.1)
          (next_delay t s)
  unfolding next_delay
  next_delay-Returns s h =
      let min_ms = as_millis s.config.min_delay in
      let max_ms = as_millis s.config.max_delay in
      Returns-bind
        (sampled-Returns t s.regime.kind min_ms max_ms s.rng (omega (arith, h.timely.whole))
          (omega (arith, h.timely.delays)))
        λ x _.
          let ms = min (max (t.rounded x.0) min_ms) max_ms in
          let low : min_ms ≤ ms = omega (arith, h.timely.delays) in
          (
            _,
            refl,
            (
              omega (arith, low),
              omega arith,
              (
                record {
                  timely = h.timely;
                  regime = h.regime;
                  bytes = h.bytes;
                  packets = h.packets;
                },
                refl,
              ),
            ),
          )

  next_pool_thresholds-IsWithin :
      (s : TimingScheduler t)
      → IsScheduled s
      → Returns
          (λ out.
            (IsWithin s.config.clumping out.0
              × (s.config.clumping.min_timeout < out.0.timeout + 1000))
            × Kept s out.1)
          (next_pool_thresholds t s)
  unfolding next_pool_thresholds
  next_pool_thresholds-IsWithin s h =
      let v = h.timely.clumping in
      let c = s.config.clumping in
      let small : micros c.max_timeout ≡ c.max_timeout / 1000 = omega (arith, v.in_range) in
      let least : micros c.min_timeout ≡ c.min_timeout / 1000 =
        omega (arith, v.in_range, v.timeouts) in
      let order : micros c.min_timeout ≤ micros c.max_timeout =
        omega (arith, v.in_range, v.timeouts) in
      Returns-bind (draw-Returns _ c.min_packets_per_burst c.max_packets_per_burst s.rng v.packets)
        λ a (lo, hi).
          Returns-bind (draw-Returns _ (micros c.min_timeout) (micros c.max_timeout) a.1 order)
            λ b (early, late). (
              _,
              refl,
              (
                (
                  record { enough = lo; not_more = hi; soon = omega (arith, small, late) },
                  omega (arith, least, early),
                ),
                (
                  record {
                    timely = h.timely;
                    regime = h.regime;
                    bytes = h.bytes;
                    packets = h.packets;
                  },
                  refl,
                ),
              ),
            )

  pub next_decision-IsDecision :
      (s : TimingScheduler t)
      → IsScheduled s
      → Returns (λ out. IsDecision s.config out.0 × Kept s out.1) (next_decision t s)
  unfolding next_decision
  next_decision-IsDecision s h =
      Returns-bind (next_delay-Returns s h) λ a (early, late, (kept, same)).
        Returns-bind (next_pool_thresholds-IsWithin a.1 kept) λ b ((within, low), (sound, again)).
          let thresholds : IsWithin s.config.clumping b.0 = rw (← same) within in
          let not_soon : s.config.clumping.min_timeout < b.0.timeout + 1000 = rw (← same) low in
          (
            _,
            refl,
            (
              record {
                not_early = early;
                not_late = late;
                thresholds = thresholds;
                not_soon = not_soon;
              },
              (sound, again ∙ same),
            ),
          )

  -- What is asked of a scheduler.
  pub data Asks : Type 0 where
    observes : ℕ → ℕ → Asks
    decides : Asks

  -- The decisions of a history, in order.
  pub schedule : TimingScheduler t → List Asks → Result TimingStop (List TimingDecision)
  schedule s [] = ok []
  schedule s (observes bytes packets ∷ more) =
      observe_burst t s bytes packets >>= λ s'. schedule s' more
  schedule s (decides ∷ more) =
      next_decision t s >>= λ (d, s'). schedule s' more >>= λ ds. ok (d ∷ ds)
