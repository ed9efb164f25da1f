-- ===== src/Shaped.antt =====
-- src/composition.rs: `ShapedSession`, the budget layer of `SeedBComposer` in front of the departure
-- clock of `TimingCorrelator`. A call reads the clock once, at `now`.
pub mod Fifo
mod Tests
mod Independence
pub mod Runs
pub mod Start
use mix_tor.Base.{
  ℕ, suc, List, [], ◌∷◌, Option, none, some, Result, ok, err, ◌>>=◌, Bool, leb, ltb, length,
  saturating_add,
}
use mix_tor.Packet.{Packet, MixedFrame, real, dummy}
use mix_tor.Clump.{Burst}
use mix_tor.Correlator.{Clock, TimingCorrelator, inject_real, correlator_tick, restart_clock}
use mix_tor.Composer.Config.{CompositionError, queue_full, Stop}
use mix_tor.Composer.Parts.{Meters}
use mix_tor.Composer.{
  SeedBComposer, pad_real_packet, dummy_count_for_burst, observe, reset_keepalive_deadline,
}
use mix_tor.Composer.Bursts.{ingest_packets, record_one, total_bytes}

pub record ShapedSession (m : Meters) (k : Clock) : Type 0 where
  pub composer : SeedBComposer m
  pub correlator : TimingCorrelator k

module _ (m : Meters) (k : Clock) where
  -- What `inject_real` answers, with the correlator after it.
  queued :
      SeedBComposer m
      → TimingCorrelator k
      → Option (TimingCorrelator k)
      → Result CompositionError (Unit {0}) × ShapedSession m k
  queued c tc none = (err queue_full, record { composer = c; correlator = tc })
  queued c tc (some tc') = (ok tt, record { composer = c; correlator = tc' })

  -- `ShapedSession::inject_real`; the session after a full queue is the caller's still.
  pub session_inject_real :
      ShapedSession m k
      → Packet
      → ℕ
      → Result Stop (Result CompositionError (Unit {0}) × ShapedSession m k)
  unfolding queued
  session_inject_real s packet now = do
    (padded, c) ← pad_real_packet m s.composer packet
    ok (queued c s.correlator (inject_real k s.correlator padded now))

  -- `?` on an answer: the error ends the call, with the session as it is then.
  or_stop {ℓ} :
      {A : Type ℓ} {B : Type 0}
      → Result CompositionError A
      → ShapedSession m k
      → (A → Result Stop (Result CompositionError B × ShapedSession m k))
      → Result Stop (Result CompositionError B × ShapedSession m k)
  or_stop (ok a) s rest = rest a
  or_stop (err e) s rest = ok (err e, s)

  -- The loop of `inject_burst`, with the number of packets that have gone in.
  inject_packets :
      ShapedSession m k
      → List Packet
      → ℕ
      → ℕ
      → Result Stop (Result CompositionError ℕ × ShapedSession m k)
  unfolding or_stop
  inject_packets s [] now injected = ok (ok injected, s)
  inject_packets s (packet ∷ packets) now injected = do
    (answer, s') ← session_inject_real s packet now
    or_stop answer s' λ _. inject_packets s' packets now (suc injected)

  pub session_inject_burst :
      ShapedSession m k → Burst → ℕ → Result Stop (Result CompositionError ℕ × ShapedSession m k)
  unfolding inject_packets or_stop
  session_inject_burst s burst now = do
    let real_bytes = total_bytes m burst.packets
    (dummy_slots, c) ←
        dummy_count_for_burst m (ingest_packets m s.composer burst.packets) real_bytes
    (answer, s') ← inject_packets (record s { composer = c }) burst.packets now 0
    or_stop answer s' λ injected. (do
      c' ← observe m s'.composer real_bytes (length burst.packets) now
      let composer = reset_keepalive_deadline m (record c' { last_burst_at = now }) now
      ok (ok injected, record s' { composer = composer }))

  -- What `tick` does with a frame that the correlator gives.
  pub noted : SeedBComposer m → MixedFrame → SeedBComposer m
  noted c (real packet) = record_one m c (real packet)
  noted c (dummy bytes) =
      let c' = record_one m c (dummy bytes) in
      record c' { dummy_bytes_emitted = saturating_add c'.dummy_bytes_emitted (length bytes) }

  pub ticked :
      SeedBComposer m
      → Option MixedFrame × TimingCorrelator k
      → Option MixedFrame × ShapedSession m k
  unfolding noted
  ticked c (none, tc) = (none, record { composer = c; correlator = tc })
  ticked c (some frame, tc) = (some frame, record { composer = noted c frame; correlator = tc })

  -- `ShapedSession::tick`
  pub session_tick : ShapedSession m k → ℕ → Option MixedFrame × ShapedSession m k
  unfolding ticked
  session_tick s now = ticked s.composer (correlator_tick k s.correlator now)

  pub session_restart_clock : ShapedSession m k → ℕ → ShapedSession m k
  session_restart_clock s now = record s { correlator = restart_clock k s.correlator now }

  -- `slot_ready`, `queue_depth` and `has_queue_space` of the session and of its correlator
  unfoldable pub slot_ready : ShapedSession m k → ℕ → Bool
  slot_ready s now = leb s.correlator.next_departure now

  pub queue_depth : ShapedSession m k → ℕ
  queue_depth s = length s.correlator.real_queue

  pub has_queue_space : ShapedSession m k → Bool
  has_queue_space s = ltb (length s.correlator.real_queue) s.correlator.config.max_queue_depth
