-- ===== src/Emitter/Tests.antt =====
-- Services of one flow, on a wire that takes all bytes at once.
use mix_tor.Base.{
  Perm, All, ◌+◌, leb, ltb, ◌*◌, ◌/◌, suc, ℕ, ◌≡◌, refl, arith, List, [], ◌∷◌, ◌++◌, replicate,
  take_all, length, ap, sym, Returns, none, some, true, false,
}
use mix_tor.Samples.{still, plain, metronome, idle, cover_config, fresh_composer}
use mix_tor.Frame.{cipher_new}
use mix_tor.Composer.Sound.{IsUsable}
use mix_tor.Shaped.{ShapedSession}
use mix_tor.Tail.{off, EpochClock}
use mix_tor.Seeds.{EphemeralSeed, burst_composition}
use mix_tor.Correlator.Start.{Floats}
use mix_tor.Shaped.Start.{ClockSource}
use mix_tor.Emitter.Run.{Emitter, Round, admit, service_flows, run_emitter}
use mix_tor.Emitter.Run.Once.{Serviced, service_flows_once}
use mix_tor.Emitter.Run.End.{IsKept, IsExpired, run_emitter-IsKept, run_emitter_ends}
use mix_tor.Emitter.Pull.{IsLive}
use mix_tor.Emitter.Gate.{IsCover, service_flow_gate, service_flow_backstop}
use mix_tor.Emitter.Loop.{Looped, emit_slots-Looped}
use mix_tor.Emitter.{
  pending_cap, emit_slots, FlowSlot, Pipe, disconnected, cell, wrote, service_flow, Received,
}

-- The cells that the reader has sent, then the end; the socket takes everything.
next_cell : List (List ℕ) → Received × List (List ℕ)
next_cell [] = (disconnected, [])
next_cell (bytes ∷ more) = (cell bytes, more)

abbrev free : Pipe
free = record {
  Receiver = List (List ℕ);
  try_recv = next_cell;
  Socket = List ℕ;
  try_write = λ socket bytes. (wrote (length bytes), socket ++ bytes);
  sent = λ socket. socket;
  sent-try_write =
      λ socket bytes. ap (λ xs. socket ++ xs) (sym (take_all (length bytes) bytes (omega arith)));
}

abbrev session : ShapedSession still metronome
session = record {
  composer = record fresh_composer { config = record cover_config { cell_bytes = some 514 } };
  correlator = record idle { config = record idle.config { cell_bytes = 514 } };
}

abbrev flow : FlowSlot still metronome free
flow = record {
  wire = [];
  session = session;
  cell_rx = replicate 514 1 ∷ [];
  wire_seq = 0;
  session_start = 0;
  pending = [];
  reader_done = false;
  policy = off;
  tail = none;
  finish_by = none;
  thresholds = record { short_max = 1_000; medium_max = 2_000; long_max = 3_000 };
  real_hold_until = 100;
  real_bytes = 0;
  cipher = cipher_new (replicate 32 5);
  clock_started = true;
}

usable : IsUsable session.composer.config
usable = record {
  enough = omega arith;
  keepalive = omega arith;
  bursts = (omega arith, omega arith);
  real_bytes = (omega arith, omega arith);
  real_packets = (omega arith, omega arith);
  cell = λ n e. let size : 514 ≡ n = cc e in omega arith;
}

live : IsLive still metronome free plain flow
live = record {
  ready = record { usable = usable; cell = refl; fixed = refl; queue = tt };
  cells = refl;
}

service_flow_gate_example :
    Returns
      (λ out. IsCover still metronome free plain flow out.1)
      (service_flow still metronome free plain flow 50)
service_flow_gate_example =
    service_flow_gate still metronome free plain flow 50 live refl (omega arith)

emit_slots-Looped_example :
    Returns
      (Looped still metronome free plain true flow 200)
      (emit_slots still metronome free plain pending_cap flow true 200)
emit_slots-Looped_example =
    emit_slots-Looped still metronome free plain pending_cap flow true 200 (omega arith) live

abbrev closing : FlowSlot still metronome free
closing = record flow { reader_done = true; tail = some (1_000, 0); finish_by = some 6_000 }

closing_live : IsLive still metronome free plain closing
closing_live = record { ready = live.ready; cells = refl }

service_flow_backstop_example :
    Returns (λ out. out.0 ≡ false) (service_flow still metronome free plain closing 6_000)
service_flow_backstop_example =
    service_flow_backstop still metronome free plain closing 6_000 6_000 closing_live refl refl
      (omega arith)

-- Doubles as fractions of whole numbers, a thousandth each.
abbrev thousandths : Floats ℕ
thousandths = record { le = leb; lt = ltb; decimal = λ n d. n * 1_000 / d; twice = λ f. 2 * f }

abbrev source : ClockSource still metronome
source = record {
  floats = thousandths;
  f64 = λ f. f;
  from_seed = λ seed. 0;
  seeded = λ seed label. 0;
  burn = λ s. suc s;
}

abbrev seed : EphemeralSeed
seed = record { role = burst_composition; bytes = 1 ∷ 2 ∷ [] }

abbrev decimal : ℕ → ℕ → ℕ
decimal n d = n * 1_000 / d

abbrev clock : EpochClock
clock = record { origin = 0; period = 5_000_000_000 }

-- Two flows, of which the first is at its end.
service_flows_once_example :
    Returns
      (λ kept.
        (order : List (FlowSlot still metronome free)) × Perm (closing ∷ flow ∷ []) order
        × Serviced still metronome free plain order (λ j. 6_000 + j) kept
        × All (IsLive still metronome free plain) kept)
      (service_flows still metronome free plain (closing ∷ flow ∷ []) (λ j. 6_000 + j))
service_flows_once_example =
    service_flows_once still metronome free plain (closing ∷ flow ∷ []) (λ j. 6_000 + j)
      (closing_live, (live, tt))

abbrev started : Emitter still metronome free
started = record { flows = []; reg_open = true }

-- A flow arrives, and all handles are dropped.
abbrev last_arrival : Round still metronome free
last_arrival = record { arrivals = closing ∷ []; closed = true; times = λ j. 6_000 + j }

abbrev no_arrival : Round still metronome free
no_arrival = record { arrivals = []; closed = true; times = λ j. 7_000 + j }

emitter_keeps :
    Returns
      (IsKept still metronome free plain)
      (run_emitter still metronome free plain started (last_arrival ∷ no_arrival ∷ []))
emitter_keeps =
    run_emitter-IsKept still metronome free plain started (last_arrival ∷ no_arrival ∷ []) tt
      ((closing_live, tt), (tt, tt))

all_dropped : (admit still metronome free plain started last_arrival).reg_open ≡ false
unfolding admit
all_dropped = refl

due_flows :
    All
      (IsExpired still metronome free plain 6_000)
      (admit still metronome free plain started last_arrival).flows
unfolding admit
due_flows = ((closing_live, refl, 6_000, refl, omega arith), tt)

run_emitter_ends_example :
    Returns
      (λ out. (out.0 ≡ true) × (out.1.flows ≡ []) × (out.1.reg_open ≡ false))
      (run_emitter still metronome free plain started (last_arrival ∷ no_arrival ∷ []))
run_emitter_ends_example =
    run_emitter_ends still metronome free plain started last_arrival no_arrival [] 6_000 all_dropped
      due_flows (λ j. omega arith)
