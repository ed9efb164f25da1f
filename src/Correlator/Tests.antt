-- ===== src/Correlator/Tests.antt =====
-- Runs of the correlator with a clock of steps of one millisecond.
use mix_tor.Base.{suc, List, none, arith, ◌≡◌, ◌∷◌, [], some, refl}
use mix_tor.Samples.{metronome, idle}
use mix_tor.Packet.{Packet, MixedFrame}
use mix_tor.Correlator.Drain.{drain_ready, IsDrained, drain_ready_ends}
use mix_tor.Correlator.{Clock, TimingCorrelator, inject_real, correlator_tick}
use mix_tor.Correlator.Schedule.{
  IsSameClock, sent_len, correlator_tick_independent, inject_real-IsSameClock,
}

abbrev packet : Packet
packet = record { bytes = 1 ∷ 2 ∷ 3 ∷ 4 ∷ [] }

abbrev busy : TimingCorrelator metronome
busy = record idle { real_queue = packet ∷ [] }

injected : inject_real metronome idle packet 5 ≡ some busy
unfolding inject_real
injected = refl

busy_and_idle : IsSameClock metronome busy idle
busy_and_idle =
    inject_real-IsSameClock metronome idle idle busy packet 5
      (record { clock = refl; cells_a = tt; cells_b = tt }) refl refl injected

correlator_tick_independent_example :
    (sent_len metronome (correlator_tick metronome busy 20).0
      ≡ sent_len metronome (correlator_tick metronome idle 20).0)
    × IsSameClock metronome
        (correlator_tick metronome busy 20).1
        (correlator_tick metronome idle 20).1
correlator_tick_independent_example =
    correlator_tick_independent metronome busy idle 20 busy_and_idle.clock busy_and_idle.cells_a
      busy_and_idle.cells_b

-- A clock with steps of one second: one slot has come.
abbrev slow : Clock
slow = record metronome { sample_step = λ mean s. (1_000_000_000, suc s) }

abbrev waiting : TimingCorrelator slow
waiting = record {
  config = idle.config;
  rng = 0;
  content_rng = 0;
  real_queue = packet ∷ packet ∷ [];
  next_departure = 10;
  mean_iat_ms = 1_000;
  last_real_arrival = none;
  real_emitted = 0;
  dummy_emitted = 0;
}

drain_ready_ends_run :
    (out : List MixedFrame × TimingCorrelator slow) × (drain_ready slow 30 waiting (λ j. 20)
      ≡ some out)
    × IsDrained slow waiting (λ j. 20) out
drain_ready_ends_run =
    drain_ready_ends slow 30 waiting (λ j. 20) 20 (λ mean s. omega arith) (omega arith)
      (refl, (refl, tt)) (λ j. omega arith) (omega arith)
