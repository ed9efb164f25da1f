-- ===== src/Emitter/Register.antt =====
-- How flows come to the emitter of src/transport.rs: the set-up of `shaped_forward`, of a stream's own
-- wire, and `register_shaped_flow`, of a wire with many streams. What the system's generator draws is an
-- argument: the mean gap, the state for the thresholds, and the bytes of the two seeds.
use mix_tor.Base.{ℕ, ◌≡◌, [], Option, none, Result, ok, ◌>>=◌, false}
use mix_tor.Base.Random.{Rng}
use mix_tor.Frame.{FrameCipher}
use mix_tor.Seeds.{EphemeralSeed}
use mix_tor.Session.{FuzzedClassThresholds, sample}
use mix_tor.Tail.{TailPolicy, off, fixed, by_class, epoch, next_boundary}
use mix_tor.Correlator.{Clock}
use mix_tor.Composer.Config.{Stop}
use mix_tor.Composer.Parts.{Meters}
use mix_tor.Shaped.{ShapedSession}
use mix_tor.Shaped.Start.{ClockSource, session_new, shaped_composition_config}
use mix_tor.Frame.{Aead}
use mix_tor.Emitter.Pull.{IsLive}
use mix_tor.Emitter.{FlowSlot, Pipe}

-- The entry gate of `shaped_forward`: the next boundary of the epoch, or now.
unfoldable pub entry_gate : TailPolicy → ℕ → ℕ
entry_gate (epoch clock) now = next_boundary clock now
entry_gate off now = now
entry_gate (fixed d) now = now
entry_gate by_class now = now

module _ (m : Meters) (k : Clock) (p : Pipe) (src : ClockSource m k) (decimal : ℕ → ℕ → Meters.F m)
    (dp : Meters.DpConfig m) (g : Rng) where
  -- The slot of a flow, with the gate that the caller chose.
  flow_slot :
      Pipe.Socket p
      → Pipe.Receiver p
      → FrameCipher
      → TailPolicy
      → FuzzedClassThresholds
      → ℕ
      → ℕ
      → ShapedSession m k
      → FlowSlot m k p
  flow_slot wire cell_rx cipher policy thresholds gate now session = record {
    wire = wire;
    session = session;
    cell_rx = cell_rx;
    wire_seq = 0;
    session_start = now;
    pending = [];
    reader_done = false;
    policy = policy;
    tail = none;
    finish_by = none;
    thresholds = thresholds;
    real_hold_until = gate;
    real_bytes = 0;
    cipher = cipher;
    clock_started = false;
  }

  -- The part that the two callers share, for seeds that were drawn.
  open_flow :
      Pipe.Socket p
      → Pipe.Receiver p
      → FrameCipher
      → TailPolicy
      → ℕ
      → Meters.F m
      → Rng.State g
      → EphemeralSeed
      → ℕ
      → Result Stop (FlowSlot m k p)
  unfolding flow_slot
  open_flow wire cell_rx cipher policy gate iat_ms draws seed now = do
    let (thresholds, _) = sample g draws
    session ← session_new m k src seed (shaped_composition_config decimal dp iat_ms) now
    ok (flow_slot wire cell_rx cipher policy thresholds gate now session)

  -- The slot that `shaped_forward` registers.
  pub forward_slot :
      Pipe.Socket p
      → Pipe.Receiver p
      → FrameCipher
      → TailPolicy
      → Meters.F m
      → Rng.State g
      → EphemeralSeed
      → ℕ
      → Result Stop (FlowSlot m k p)
  unfolding open_flow
  forward_slot wire cell_rx cipher policy iat_ms draws seed now =
      open_flow wire cell_rx cipher policy (entry_gate policy now) iat_ms draws seed now

  -- The slot that `register_shaped_flow` registers, whose gate is open from the start.
  pub register_shaped_flow :
      Pipe.Socket p
      → Pipe.Receiver p
      → FrameCipher
      → TailPolicy
      → Meters.F m
      → Rng.State g
      → EphemeralSeed
      → ℕ
      → Result Stop (FlowSlot m k p)
  unfolding open_flow
  register_shaped_flow wire cell_rx cipher policy iat_ms draws seed now =
      open_flow wire cell_rx cipher policy now iat_ms draws seed now

  module _ (a : Aead) (seed : EphemeralSeed) (iat_ms : Meters.F m) (now : ℕ)
      (spectral : Meters.Spectral m) (shaper : Option (Meters.Dp m)) where
    -- A flow as it starts.
    pub record IsFresh (wire : Pipe.Socket p) (cell_rx : Pipe.Receiver p) (cipher : FrameCipher)
        (gate : ℕ) (flow : FlowSlot m k p) : Type 0 where
      pub live : IsLive m k p a flow
      pub wire_kept : flow.wire ≡ wire
      pub rx_kept : flow.cell_rx ≡ cell_rx
      pub cipher_kept : flow.cipher ≡ cipher
      pub pending : flow.pending ≡ []
      pub queue : flow.session.correlator.real_queue ≡ []
      pub gate_set : flow.real_hold_until ≡ gate
