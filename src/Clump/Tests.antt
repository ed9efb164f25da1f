-- ===== src/Clump/Tests.antt =====
-- Runs of the pool.
use mix_tor.Base.{◌≤◌, ◌<◌, replicate, arith, List, ◌≡◌, ℕ, [], ◌∷◌, refl, none, some, ok}
use mix_tor.Samples.{zeros}
use mix_tor.Packet.{Packet}
use mix_tor.Seeds.{EphemeralSeed, timing_and_pool}
use mix_tor.Clump.{
  validate, next_thresholds, Burst, ClumpingConfig, ClumpingPool, default_config, with_config, tick,
}
use mix_tor.Clump.Flush.{IsWell, with_config-IsWell}
use mix_tor.Clump.Fifo.{IsStep}
use mix_tor.Clump.Histories.{PoolOp, pushed, ticked, pushes, Run, Run-fifo, tick_deadline}

-- Bursts of two packets: the generator always draws the lower bound.
abbrev pairs : ClumpingConfig
pairs = record default_config { min_packets_per_burst = 2 }

abbrev packet : ℕ → Packet
packet n = record { bytes = n ∷ [] }

abbrev seed : EphemeralSeed
seed = record { role = timing_and_pool; bytes = replicate 32 1 }

abbrev empty_pool : ClumpingPool zeros
empty_pool = record {
  config = pairs;
  rng = 1;
  buffered = [];
  thresholds = record { max_packets = 2; timeout = 80_000_000 };
  deadline = none;
}

starts : with_config zeros (λ s. 1) seed pairs ≡ ok empty_pool
unfolding with_config validate next_thresholds
starts = refl

fresh_pool :
    IsWell zeros empty_pool
    × (empty_pool.buffered ≡ [])
    × (empty_pool.config ≡ pairs)
    × (seed.role ≡ timing_and_pool)
fresh_pool = with_config-IsWell zeros (λ s. 1) seed pairs empty_pool starts (omega arith)

abbrev ops : List PoolOp
ops = pushed (packet 1) 0 ∷ pushed (packet 2) 5 ∷ pushed (packet 3) 9 ∷ ticked 90_000_000 ∷ []

Run-fifo_example :
    (out : List Burst) × (q : ClumpingPool zeros) × Run zeros empty_pool ops out q
    × IsStep zeros empty_pool (pushes ops) out q
Run-fifo_example = Run-fifo zeros empty_pool ops fresh_pool.0

abbrev waiting_pool : ClumpingPool zeros
waiting_pool = record empty_pool { buffered = packet 3 ∷ []; deadline = some 80_000_009 }

waiting_pool-IsWell : IsWell zeros waiting_pool
waiting_pool-IsWell = record {
  config_valid = fresh_pool.0.config_valid;
  within = fresh_pool.0.within;
  room = omega arith;
  armed = (80_000_009, refl);
}

tick_deadline_run :
    (d : ℕ) × (waiting_pool.deadline ≡ some d)
    × ((now : ℕ) → now < d → tick zeros waiting_pool now ≡ (none, waiting_pool))
    × ((now : ℕ)
        → d ≤ now
        → (b : Burst) × ((tick zeros waiting_pool now).0 ≡ some b)
          × (b.packets ≡ waiting_pool.buffered)
          × ((tick zeros waiting_pool now).1.buffered ≡ [])
          × ((tick zeros waiting_pool now).1.deadline ≡ none))
tick_deadline_run = tick_deadline zeros waiting_pool waiting_pool-IsWell (omega arith)
