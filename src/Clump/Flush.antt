-- ===== src/Clump/Flush.antt =====
-- A pool's invariant, and what one flush does.
use mix_tor.Base.{
  Result-cases, inl, true, inr, Bool-cases, ok, take_all, some, drop, none, ◌*◌, min, Option, ◌^◌,
  length, ◌/◌, List, ℕ, drop-length, [], ◌∷◌, refl, arith, ◌≤◌, ◌<◌, ◌≡◌,
}
use mix_tor.Base.Random.{Rng}
use mix_tor.Seeds.{SeedRole, EphemeralSeed, timing_and_pool, burst_composition}
use mix_tor.Packet.{Packet}
use mix_tor.Clump.{
  SeedRole, timing_and_pool, EphemeralSeed, is_timing_and_pool, new_pool, validate, with_config,
  CycleThresholds, FlushReason, Burst, ClumpingConfig, ClumpingPool, micros, next_thresholds,
  flush_ready, arm,
}

-- What `validate` accepts, and a longest timeout whose microseconds fit in 64 bits.
pub record IsValid (c : ClumpingConfig) : Type 0 where
  pub some_packets : 0 < c.min_packets_per_burst
  pub packets : c.min_packets_per_burst ≤ c.max_packets_per_burst
  pub some_time : 0 < c.min_timeout
  pub timeouts : c.min_timeout ≤ c.max_timeout
  pub in_range : c.max_timeout / 1000 < 2 ^ 64

-- Thresholds within the configuration's bounds.
pub record IsWithin (c : ClumpingConfig) (t : CycleThresholds) : Type 0 where
  pub enough : c.min_packets_per_burst ≤ t.max_packets
  pub not_more : t.max_packets ≤ c.max_packets_per_burst
  pub soon : t.timeout ≤ c.max_timeout

-- The deadline is set exactly while packets wait.
abbrev pub IsArmed : List Packet → Option ℕ → Type 0
IsArmed [] d = d ≡ none
IsArmed (p ∷ ps) d = (t : ℕ) × (d ≡ some t)

pub record IsWell (g : Rng) (p : ClumpingPool g) : Type 0 where
  pub config_valid : IsValid p.config
  pub within : IsWithin p.config p.thresholds
  pub room : length p.buffered < p.thresholds.max_packets
  pub armed : IsArmed p.buffered p.deadline

-- A burst that a pool with this configuration may send.
pub record IsBurst (c : ClumpingConfig) (b : Burst) : Type 0 where
  pub not_empty : 0 < length b.packets
  pub bounded : length b.packets ≤ b.threshold.max_packets
  pub within : IsWithin c b.threshold

module _ (g : Rng) where
  pub next_thresholds-IsWithin :
      (c : ClumpingConfig) (s : Rng.State g) → IsValid c → IsWithin c (next_thresholds g c s).0
  unfolding next_thresholds
  next_thresholds-IsWithin c s v =
      let (lo, hi) =
        Rng.range_bounds g c.min_packets_per_burst c.max_packets_per_burst s v.packets in
      let s₁ = (Rng.range g c.min_packets_per_burst c.max_packets_per_burst s).1 in
      let small : micros c.max_timeout ≡ c.max_timeout / 1000 = omega (arith, v.in_range) in
      let order : micros c.min_timeout ≤ micros c.max_timeout =
        omega (arith, v.in_range, v.timeouts) in
      let (_, late) = Rng.range_bounds g (micros c.min_timeout) (micros c.max_timeout) s₁ order in
      let top : (Rng.range g (micros c.min_timeout) (micros c.max_timeout) s₁).0 * 1000
          ≤ c.max_timeout =
        omega arith in
      record { enough = lo; not_more = hi; soon = top }

  -- A flush of a pool with no more packets than the threshold takes them all, in order.
  pub flush_ready_all :
      (p : ClumpingPool g) (reason : FlushReason) (now : ℕ)
      → IsValid p.config
      → length p.buffered ≤ p.thresholds.max_packets
      → let (burst, p') = flush_ready g p reason now in
        (burst.packets ≡ p.buffered) × (p'.buffered ≡ []) × IsWell g p' × (p'.config ≡ p.config)
  unfolding flush_ready arm
  flush_ready_all p reason now v h =
      let count : min (length p.buffered) p.thresholds.max_packets ≡ length p.buffered =
        omega arith in
      let rest : drop (length p.buffered) p.buffered ≡ [] = drop-length p.buffered in
      let next = next_thresholds-IsWithin p.config p.rng v in
      rw count (
        rw rest (
          take_all (length p.buffered) p.buffered (omega arith),
          refl,
          record {
            config_valid = v;
            within = next;
            room = omega (arith, next.enough, v.some_packets);
            armed = refl;
          },
          refl,
        ))

validate_ok :
    (c d : ClumpingConfig) → validate c ≡ ok d → c.max_timeout / 1000 < 2 ^ 64 → (d ≡ c) × IsValid c
unfolding validate
validate_ok c d e h = ground arith

is_timing_and_pool-true : (r : SeedRole) → is_timing_and_pool r ≡ true → r ≡ timing_and_pool
unfolding is_timing_and_pool
is_timing_and_pool-true timing_and_pool e = refl
is_timing_and_pool-true burst_composition e = cc

new_pool-IsWell :
    (g : Rng) (c : ClumpingConfig) (s : Rng.State g) → IsValid c → IsWell g (new_pool g c s)
unfolding new_pool
new_pool-IsWell g c s v =
    let next = next_thresholds-IsWithin g c s v in
    record {
      config_valid = v;
      within = next;
      room = omega (arith, next.enough, v.some_packets);
      armed = refl;
    }

-- A pool that `with_config` returns is empty and well formed, has the configuration asked for, and its
-- seed had the pool's role.
pub with_config-IsWell :
    (g : Rng) (derive : EphemeralSeed → Rng.State g) (seed : EphemeralSeed) (c : ClumpingConfig)
    (p : ClumpingPool g)
    → with_config g derive seed c ≡ ok p
    → c.max_timeout / 1000 < 2 ^ 64
    → IsWell g p × (p.buffered ≡ []) × (p.config ≡ c) × (seed.role ≡ timing_and_pool)
unfolding with_config new_pool
with_config-IsWell g derive seed c p e h = elim (Bool-cases (is_timing_and_pool seed.role)) [
  | inr f ↦ cc (rw f at e)
  | inl f ↦ elim (Result-cases (validate c)) [
    | inr (x, k) ↦ cc (rw (f, k) at e)
    | inl (d, k) ↦
        let (same, v) = validate_ok c d k h in
        let made : new_pool g c (derive seed) ≡ p = cc (rw (f, k) at e) in
        rw (← made)
          (new_pool-IsWell g c (derive seed) v, refl, refl, is_timing_and_pool-true seed.role f)
  ]
]
