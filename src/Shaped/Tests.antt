-- ===== src/Shaped/Tests.antt =====
-- Runs of a session on a departure clock of steps of one millisecond.
use mix_tor.Base.{◌≡◌, refl, arith, List, [], ◌∷◌, ◌++◌, Returns, some, map}
use mix_tor.Samples.{still, metronome, idle, cover_config, fresh_composer}
use mix_tor.Correlator.Schedule.{sent_len}
use mix_tor.Composer.Bursts.Order.{AllCarry}
use mix_tor.Composer.Sound.{IsUsable}
use mix_tor.Shaped.Runs.{Event, poll, arrive, IsReady, session_run}
use mix_tor.Shaped.Independence.{session_run_independent}
use mix_tor.Shaped.Fifo.{all_sent, session_run_fifo}
use mix_tor.Shaped.{ShapedSession}

abbrev session : ShapedSession still metronome
session = record { composer = fresh_composer; correlator = idle }

usable : IsUsable cover_config
usable = record {
  enough = omega arith;
  keepalive = omega arith;
  bursts = (omega arith, omega arith);
  real_bytes = (omega arith, omega arith);
  real_packets = (omega arith, omega arith);
  cell = λ n e. let four : 4 ≡ n = cc e in omega arith;
}

ready : IsReady still metronome session
ready = record { usable = usable; cell = refl; fixed = refl; queue = tt }

-- Two packets between the polls, or none.
abbrev busy : List Event
busy =
    arrive (record { bytes = 1 ∷ 2 ∷ [] }) 3
    ∷ poll 12
    ∷ arrive (record { bytes = 3 ∷ 4 ∷ 5 ∷ 6 ∷ 7 ∷ [] }) 13
    ∷ poll 1_000_011
    ∷ []

abbrev quiet : List Event
quiet = poll 12 ∷ poll 1_000_011 ∷ []

session_run_independent_example :
    Returns
      (λ out.
        Returns
          (λ out'. map (sent_len metronome) out.0.frames ≡ map (sent_len metronome) out'.0.frames)
          (session_run still metronome session quiet))
      (session_run still metronome session busy)
session_run_independent_example =
    session_run_independent still metronome session session busy quiet ready ready refl refl

session_run_fifo_example :
    Returns
      (λ out.
        AllCarry
          (some 4)
          out.0.accepted
          (all_sent metronome out.0.frames ++ out.1.correlator.real_queue))
      (session_run still metronome session busy)
session_run_fifo_example = session_run_fifo still metronome session busy ready refl
