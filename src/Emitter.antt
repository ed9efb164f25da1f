-- ===== src/Emitter.antt =====
-- The shared emitter of src/transport.rs: `FlowSlot` and `service_flow`. The channel from the reader and
-- the socket are the parameters of `Pipe`; one service reads the clock once, at `now`. The lab log and
-- the names of its events are left out.
pub mod Loop
pub mod Channel
mod Register
pub mod Round
pub mod Pull
mod Delivery
mod Gate
mod Tests
pub mod Service
mod Run
use mix_tor.Base.{
  take, ◌≡◌, ◌++◌, ℕ, zero, suc, ◌+◌, ◌*◌, ◌≤◌, ◌≡◌, List, ◌++◌, Option, none, some, Result, ok,
  err, ◌>>=◌, Bool, true, false, not, ◌&&◌, ◌||◌, leb, ltb, ◌==◌, length, drop, saturating_add,
  if◌then◌else◌,
}
use mix_tor.Packet.{Packet, MixedFrame, ClumpingError, packet_new}
use mix_tor.Frame.{Aead, FrameCipher}
use mix_tor.Cell.{decode_real_cell}
use mix_tor.Strip.{encode_frame}
use mix_tor.Session.{FuzzedClassThresholds, seconds}
use mix_tor.Tail.{TailPolicy, tail_targets}
use mix_tor.Correlator.{Clock}
use mix_tor.Composer.Config.{CompositionError, Stop}
use mix_tor.Composer.Parts.{Meters}
use mix_tor.Shaped.{
  ShapedSession, session_inject_real, session_tick, session_restart_clock, slot_ready, queue_depth,
  has_queue_space,
}

-- What `try_recv` and `try_write` return.
pub data Received : Type 0 where
  cell : List ℕ → Received
  empty disconnected : Received

pub data Written : Type 0 where
  wrote : ℕ → Written
  would_block write_error : Written

abbrev pub accepted_len : Written → ℕ
accepted_len (wrote n) = n
accepted_len would_block = 0
accepted_len write_error = 0

-- The crate tokio's receiver and socket. `sent` is the bytes that a socket has taken so far, oldest
-- first; a write that takes `n` bytes takes the first `n` that it is given, and no other write takes
-- any.
pub record Pipe : Type 1 where
  pub Receiver : Type 0
  pub try_recv : Receiver → Received × Receiver
  pub Socket : Type 0
  pub try_write : Socket → List ℕ → Written × Socket
  pub sent : Socket → List ℕ
  pub sent-try_write :
      (socket : Socket) (bytes : List ℕ)
      → sent (try_write socket bytes).1
        ≡ sent socket ++ take (accepted_len (try_write socket bytes).0) bytes

abbrev pub pending_cap : ℕ
pending_cap = 64 * 1024

pub record FlowSlot (m : Meters) (k : Clock) (p : Pipe) : Type 0 where
  pub wire : Pipe.Socket p
  pub session : ShapedSession m k
  pub cell_rx : Pipe.Receiver p
  pub wire_seq : ℕ
  pub session_start : ℕ
  pub pending : List ℕ
  pub reader_done : Bool
  pub policy : TailPolicy
  pub tail : Option (ℕ × ℕ)
  pub finish_by : Option ℕ
  pub thresholds : FuzzedClassThresholds
  pub real_hold_until : ℕ
  pub real_bytes : ℕ
  pub cipher : FrameCipher
  pub clock_started : Bool

-- The instant of the forced close: five seconds past the tail's deadline, or else from now.
unfoldable pub backstop : Option (ℕ × ℕ) → ℕ → ℕ
backstop none now = now + seconds 5
backstop (some (deadline, vol)) now = deadline + seconds 5

module _ (m : Meters) (k : Clock) (p : Pipe) (a : Aead) where
  -- The reader has ended: the tail's targets and the forced close are set.
  close_reader : FlowSlot m k p → ℕ → FlowSlot m k p
  close_reader flow now =
      let tail =
        tail_targets flow.real_bytes flow.wire_seq flow.policy flow.thresholds flow.session_start
          now in
      record flow { reader_done = true; tail = tail; finish_by = some (backstop tail now) }

  -- Bytes count only for a cell that the session took.
  taken_in :
      FlowSlot m k p → ℕ → Result CompositionError (Unit {0}) × ShapedSession m k → FlowSlot m k p
  taken_in flow true_len (ok _, session) = record flow {
    session = session;
    real_bytes = saturating_add flow.real_bytes true_len;
  }
  taken_in flow true_len (err e, session) = record flow { session = session }

  take_packet : FlowSlot m k p → ℕ → Result ClumpingError Packet → ℕ → Result Stop (FlowSlot m k p)
  unfolding taken_in
  take_packet flow true_len (err e) now = ok flow
  take_packet flow true_len (ok packet) now = do
    out ← session_inject_real m k flow.session packet now
    ok (taken_in flow true_len out)

  received : FlowSlot m k p → Received → ℕ → Result Stop (FlowSlot m k p)
  unfolding take_packet close_reader
  received flow (cell bytes) now =
      take_packet flow (length (decode_real_cell bytes).1) (packet_new bytes) now
  received flow empty now = ok flow
  received flow disconnected now = ok (close_reader flow now)

  -- One pull for a slot, under the epoch gate.
  pub pull : FlowSlot m k p → Bool → ℕ → Result Stop (FlowSlot m k p)
  unfolding received
  pull flow gate now =
      let (got, rx) = Pipe.try_recv p flow.cell_rx in
      if not flow.reader_done && has_queue_space m k flow.session && gate
      then received (record flow { cell_rx = rx }) got now
      else ok flow

  push_frame : FlowSlot m k p → Option MixedFrame → FlowSlot m k p
  push_frame flow none = flow
  push_frame flow (some frame) =
      let ((bytes, plen), cipher) = encode_frame a frame flow.cipher in
      record flow { cipher = cipher; wire_seq = suc flow.wire_seq; pending = flow.pending ++ bytes }

  -- The body of the loop over the slots that have come.
  pub slot_round : FlowSlot m k p → Bool → ℕ → Result Stop (FlowSlot m k p)
  unfolding pull push_frame
  slot_round flow gate now = do
    flow' ← pull flow gate now
    let (frame, session) = session_tick m k flow'.session now
    ok (push_frame (record flow' { session = session }) frame)

  pub more_slots : FlowSlot m k p → ℕ → Bool
  more_slots flow now = slot_ready m k flow.session now && ltb (length flow.pending) pending_cap

  pub emit_slots : ℕ → FlowSlot m k p → Bool → ℕ → Result Stop (FlowSlot m k p)
  unfolding slot_round
  emit_slots zero flow gate now = ok flow
  emit_slots (suc fuel) flow gate now = elim (more_slots flow now) [
    | true ↦ slot_round flow gate now >>= λ flow'. emit_slots fuel flow' gate now
    | false ↦ ok flow
  ]

  start_clock : FlowSlot m k p → ℕ → FlowSlot m k p
  start_clock flow now = if flow.clock_started then flow else record flow {
    session = session_restart_clock m k flow.session now;
    clock_started = true;
  }

  -- What is left after a write, and whether the flow lives on.
  flushed : FlowSlot m k p → Written × Pipe.Socket p → Bool × FlowSlot m k p
  flushed flow (wrote zero, wire) = (false, record flow { wire = wire })
  flushed flow (wrote (suc n), wire) =
      (true, record flow { wire = wire; pending = drop (suc n) flow.pending })
  flushed flow (would_block, wire) = (true, record flow { wire = wire })
  flushed flow (write_error, wire) = (false, record flow { wire = wire })

  flush_pending : FlowSlot m k p → Bool × FlowSlot m k p
  unfolding flushed
  flush_pending flow =
      if length flow.pending == 0
      then (true, flow)
      else flushed flow (Pipe.try_write p flow.wire flow.pending)

  tail_met : FlowSlot m k p → Option (ℕ × ℕ) → ℕ → Bool
  tail_met flow none now = true
  tail_met flow (some (deadline, vol)) now = leb deadline now && leb vol flow.wire_seq

  past_deadline : Option ℕ → ℕ → Bool
  past_deadline none now = false
  past_deadline (some d) now = leb d now

  -- Whether a flow is at its end.
  pub ended : FlowSlot m k p → ℕ → Bool
  unfolding tail_met past_deadline
  ended flow now =
      let drained = queue_depth m k flow.session == 0 && length flow.pending == 0 in
      flow.reader_done
      && (drained && tail_met flow flow.tail now || past_deadline flow.finish_by now)

  -- `service_flow`: whether the flow is kept, and the flow. A round adds a byte at least, so that the
  -- cap is enough fuel.
  pub service_flow : FlowSlot m k p → ℕ → Result Stop (Bool × FlowSlot m k p)
  unfolding start_clock flush_pending
  service_flow flow now = do
    let flow₁ = start_clock flow now
    let gate = leb flow₁.real_hold_until now
    flow₂ ←
        if ltb (length flow₁.pending) pending_cap
        then emit_slots pending_cap flow₁ gate now
        else ok flow₁
    let (alive, flow₃) = flush_pending flow₂
    ok (alive && not (ended flow₃ now), flow₃)
