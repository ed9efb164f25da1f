-- ===== src/Clump.antt =====
-- src/clumping.rs: the pool that holds packets back and releases them in bursts, with fresh random
-- thresholds for each cycle. Instants and durations are nanoseconds.
pub mod Flush
pub mod Fifo
mod Histories
mod Tests
use mix_tor.Base.{
  ◌>>=◌, zero, suc, ok, ltb, take, ◌++◌, drop, ◌∷◌, ◌+◌, not, suc, err, ◌^◌, leb, some, true, ◌==◌,
  ◌&&◌, none, ◌%◌, false, length, Result, ◌*◌, min, ◌/◌, [], Option, Bool, if◌then◌else◌, List, ℕ,
}
use mix_tor.Base.Random.{Rng}
use mix_tor.Seeds.{SeedRole, EphemeralSeed, timing_and_pool, burst_composition}
use mix_tor.Packet.{
  Packet, ClumpingError, invalid_config, wrong_seed_role, zero_min_packets, min_packets_above_max,
  zero_min_timeout, min_timeout_above_max,
}

pub record CycleThresholds : Type 0 where
  pub max_packets : ℕ
  pub timeout : ℕ

pub data FlushReason : Type 0 where
  size_threshold timeout_reached manual : FlushReason

pub record Burst : Type 0 where
  pub packets : List Packet
  pub threshold : CycleThresholds
  pub reason : FlushReason

pub record ClumpingConfig : Type 0 where
  pub min_packets_per_burst : ℕ
  pub max_packets_per_burst : ℕ
  pub min_timeout : ℕ
  pub max_timeout : ℕ

-- `ClumpingConfig::default`
abbrev pub default_config : ClumpingConfig
default_config = record {
  min_packets_per_burst = 1;
  max_packets_per_burst = 8;
  min_timeout = 80_000_000;
  max_timeout = 350_000_000;
}

-- `ClumpingConfig::validate`
unfoldable pub validate : ClumpingConfig → Result ClumpingError ClumpingConfig
validate c =
    if c.min_packets_per_burst == 0
    then err (invalid_config zero_min_packets)
    else if ltb c.max_packets_per_burst c.min_packets_per_burst
    then err (invalid_config min_packets_above_max)
    else if c.min_timeout == 0
    then err (invalid_config zero_min_timeout)
    else if ltb c.max_timeout c.min_timeout
    then err (invalid_config min_timeout_above_max)
    else ok c

-- `as_micros() as u64`
abbrev pub micros : ℕ → ℕ
micros d = d / 1000 % 2 ^ 64

pub record ClumpingPool (g : Rng) : Type 0 where
  pub config : ClumpingConfig
  pub rng : Rng.State g
  pub buffered : List Packet
  pub thresholds : CycleThresholds
  pub deadline : Option ℕ

is_timing_and_pool : SeedRole → Bool
is_timing_and_pool timing_and_pool = true
is_timing_and_pool burst_composition = false

abbrev pub no_packets : List Packet → Bool
no_packets [] = true
no_packets (p ∷ ps) = false

-- `self.deadline = if self.buffered.is_empty() { None } else { ... }`
arm : List Packet → CycleThresholds → ℕ → Option ℕ
arm ps t now = if no_packets ps then none else some (now + t.timeout)

is_due : Option ℕ → ℕ → Bool
is_due none now = false
is_due (some d) now = leb d now

module _ (g : Rng) where
  unfoldable pub next_thresholds : ClumpingConfig → Rng.State g → CycleThresholds × Rng.State g
  next_thresholds c s =
      let (max_packets, s₁) = Rng.range g c.min_packets_per_burst c.max_packets_per_burst s in
      let (us, s₂) = Rng.range g (micros c.min_timeout) (micros c.max_timeout) s₁ in
      (record { max_packets = max_packets; timeout = us * 1000 }, s₂)

  new_pool : ClumpingConfig → Rng.State g → ClumpingPool g
  new_pool c s =
      let (t, s') = next_thresholds c s in
      record { config = c; rng = s'; buffered = []; thresholds = t; deadline = none }

  -- `ClumpingPool::with_config`; `derive` is the generator that the seed's derived bytes start.
  unfoldable pub with_config :
      (EphemeralSeed → Rng.State g)
      → EphemeralSeed
      → ClumpingConfig
      → Result ClumpingError (ClumpingPool g)
  unfolding is_timing_and_pool new_pool
  with_config derive seed c =
      if is_timing_and_pool seed.role
      then (do c' ← validate c; ok (new_pool c' (derive seed)))
      else err (wrong_seed_role timing_and_pool seed.role)

  unfoldable pub flush_ready : ClumpingPool g → FlushReason → ℕ → Burst × ClumpingPool g
  unfolding arm
  flush_ready p reason now =
      let count = min (length p.buffered) p.thresholds.max_packets in
      let rest = drop count p.buffered in
      let (t, s') = next_thresholds p.config p.rng in
      (
        record { packets = take count p.buffered; threshold = p.thresholds; reason = reason },
        record p { rng = s'; buffered = rest; thresholds = t; deadline = arm rest t now },
      )

  -- `if !self.buffered.is_empty() { self.deadline = ... }` of the loop.
  rearm : ClumpingPool g → ℕ → ClumpingPool g
  rearm p now =
      if no_packets p.buffered then p else record p { deadline = some (now + p.thresholds.timeout) }

  cons_burst : Burst → Option (List Burst × ClumpingPool g) → Option (List Burst × ClumpingPool g)
  cons_burst burst none = none
  cons_burst burst (some (bursts, q)) = some (burst ∷ bursts, q)

  -- The loop of `push`: the bursts and the pool after it, `none` if the fuel ran out.
  unfoldable pub push_loop : ℕ → ClumpingPool g → ℕ → Option (List Burst × ClumpingPool g)
  unfolding rearm cons_burst
  push_loop zero p now = none
  push_loop (suc fuel) p now =
      let (burst, p') = flush_ready p size_threshold now in
      let rest = push_loop fuel (rearm p' now) now in
      if leb p.thresholds.max_packets (length p.buffered)
      then cons_burst burst rest
      else some ([], p)

  -- `push`: a round flushes a packet at least, so one round more than there are packets is enough.
  unfoldable pub push : ClumpingPool g → Packet → ℕ → Option (List Burst × ClumpingPool g)
  push p packet now =
      let deadline =
        if no_packets p.buffered then some (now + p.thresholds.timeout) else p.deadline in
      let buffered = p.buffered ++ (packet ∷ []) in
      push_loop (suc (length buffered)) (record p { buffered = buffered; deadline = deadline }) now

  unfoldable pub tick : ClumpingPool g → ℕ → Option Burst × ClumpingPool g
  unfolding is_due
  tick p now =
      let (burst, p') = flush_ready p timeout_reached now in
      if is_due p.deadline now && not (no_packets p.buffered) then (some burst, p') else (none, p)

  unfoldable pub flush : ClumpingPool g → ℕ → Option Burst × ClumpingPool g
  flush p now =
      let (burst, p') = flush_ready p manual now in
      if no_packets p.buffered then (none, p) else (some burst, p')
