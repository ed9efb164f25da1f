-- ===== src/MuxClient/Wires.antt =====
-- The persistent wires of src/transport.rs: `MuxClientHandle`, `MuxWire::connect` and `is_alive`. An
-- `Arc<MuxWire>` is a number that points into the store of wires; a server address and a channel are
-- numbers. The lock on the map of wires is held through the whole of `get_or_connect_wire`, so the calls
-- stand one after the other.
mod Single
mod Circuits
mod Tests
use mix_tor.Base.{
  Bool, true, false, ℕ, zero, suc, ◌+◌, ◌<◌, List, [], ◌∷◌, Option, none, some, Result, ok, err,
  ◌==◌, if◌then◌else◌, ◌≡◌, not,
}
use mix_tor.StreamMap.{StreamMap, lookup, insert}
use mix_tor.Frame.{FrameCipher, HandshakeError}
use mix_tor.Reader.{Source}
use mix_tor.Handshake.{Primitives, client_handshake}
use mix_tor.MuxClient.{MuxWire, Added, refused, stuck, added, add_stream, SendResult, inbound_frame}

-- A wire that stands: `is_closed` is what `cell_tx.is_closed()` says, and `to` the address it was
-- connected to.
pub record Wire : Type 0 where
  pub to : ℕ
  pub cell_tx : ℕ
  pub is_closed : Bool
  pub mux : MuxWire

abbrev pub is_alive : Wire → Bool
is_alive w = not w.is_closed

-- `next_conn` is the logger's counter if there is a logger; the wires of the store below `count` were
-- connected.
pub record MuxClientHandle : Type 0 where
  pub next_conn : Option ℕ
  pub wires : StreamMap
  pub count : ℕ
  pub store : ℕ → Wire

pub data ConnectError : Type 0 where
  unreachable handshake_timed_out no_emitter stream_ids_exhausted endless : ConnectError
  handshake_failed : HandshakeError → ConnectError

-- What a connection attempt meets: the stream that TCP gives, whether the handshake is over in time, and
-- the channel that `register_shaped_flow` returns.
pub record Dial : Type 0 where
  pub reached : Option Source
  pub timely : Bool
  pub registered : Option ℕ

registered_wire : ℕ → Option ℕ → Result ConnectError Wire
registered_wire server none = err no_emitter
registered_wire server (some cell_tx) = ok (record {
  to = server;
  cell_tx = cell_tx;
  is_closed = false;
  mux = record { stream_map = []; next_id = 1 };
})

after_handshake :
    ℕ
    → Option ℕ
    → Bool
    → Result HandshakeError (FrameCipher × FrameCipher)
    → Result ConnectError Wire
after_handshake server registered false r = err handshake_timed_out
after_handshake server registered true (err e) = err (handshake_failed e)
after_handshake server registered true (ok ciphers) = registered_wire server registered

abbrev pub put : ℕ → Wire → (ℕ → Wire) → ℕ → Wire
put i w store j = if j == i then w else store j

-- The end of `get_or_connect_wire`: the new wire goes into the map.
keep_wire : MuxClientHandle → ℕ → Result ConnectError Wire → MuxClientHandle × Result ConnectError ℕ
keep_wire h server (err e) = (h, err e)
keep_wire h server (ok w) = (
  record h {
    wires = insert server h.count h.wires;
    count = suc h.count;
    store = put h.count w h.store;
  },
  ok h.count,
)

-- `next_conn_id` of the logger.
abbrev pub counted : MuxClientHandle → MuxClientHandle
counted h = record h { next_conn = elim h.next_conn [ none ↦ none | some n ↦ some (suc n) ] }

abbrev if_alive : (ℕ → Wire) → Option ℕ → Option ℕ
if_alive store none = none
if_alive store (some i) = if is_alive (store i) then some i else none

-- The wire of the map, if it is alive.
abbrev pub alive_wire : MuxClientHandle → ℕ → Option ℕ
alive_wire h server = if_alive h.store (lookup server h.wires)

-- A live wire is returned as it is; `made` is the outcome of connecting.
live_or :
    MuxClientHandle
    → MuxClientHandle × Result ConnectError ℕ
    → Option ℕ
    → MuxClientHandle × Result ConnectError ℕ
live_or h made none = made
live_or h made (some i) = (h, ok i)

-- A circuit gets its stream on the wire: the wire, the stream id and the channel for its cells.
with_stream : MuxClientHandle → ℕ → Added → MuxClientHandle × Result ConnectError (ℕ × ℕ × ℕ)
with_stream h i refused = (counted h, err stream_ids_exhausted)
with_stream h i stuck = (counted h, err endless)
with_stream h i (added id mux) = (
  record (counted h) { store = put i (record (h.store i) { mux = mux }) h.store },
  ok (i, id, (h.store i).cell_tx),
)

on_wire :
    MuxClientHandle → ℕ → Result ConnectError ℕ → MuxClientHandle × Result ConnectError (ℕ × ℕ × ℕ)
unfolding with_stream
on_wire h down_tx (err e) = (h, err e)
on_wire h down_tx (ok i) = with_stream h i (add_stream (h.store i).mux down_tx)

-- What the client brings into a handshake: its ephemeral key in both forms and the padding.
pub record Ephemeral : Type 0 where
  pub x_priv : List ℕ
  pub x_repr : List ℕ
  pub pad : List ℕ

module _ (p : Primitives) where
  over_stream : ℕ → List ℕ → Ephemeral → Dial → Option Source → Result ConnectError Wire
  unfolding after_handshake registered_wire
  over_stream server server_pub k dial none = err unreachable
  over_stream server server_pub k dial (some src) =
      after_handshake server dial.registered dial.timely
        (client_handshake p server_pub k.x_priv k.x_repr k.pad src).1

  -- `MuxWire::connect`
  unfoldable pub connect : ℕ → List ℕ → Ephemeral → Dial → Result ConnectError Wire
  unfolding over_stream
  connect server server_pub k dial = over_stream server server_pub k dial dial.reached

  unfoldable pub get_or_connect_wire :
      MuxClientHandle → ℕ → List ℕ → Ephemeral → Dial → MuxClientHandle × Result ConnectError ℕ
  unfolding keep_wire live_or
  get_or_connect_wire h server server_pub k dial =
      live_or h (keep_wire (counted h) server (connect server server_pub k dial))
        (alive_wire h server)

  unfoldable pub prewarm : MuxClientHandle → ℕ → List ℕ → Ephemeral → Dial → MuxClientHandle
  prewarm h server server_pub k dial = (get_or_connect_wire h server server_pub k dial).0

  -- `connect_circuit` up to the relay of the circuit, with the new downlink channel as an argument;
  -- `endless` would be a search for an id that does not end.
  unfoldable pub connect_circuit :
      MuxClientHandle
      → ℕ
      → List ℕ
      → Ephemeral
      → Dial
      → ℕ
      → MuxClientHandle × Result ConnectError (ℕ × ℕ × ℕ)
  unfolding on_wire
  connect_circuit h server server_pub k dial down_tx =
      let (h', wire) = get_or_connect_wire h server server_pub k dial in on_wire h' down_tx wire

-- The emitter drops a wire's slot: its channel is closed from then on.
abbrev pub wire_closes : MuxClientHandle → ℕ → MuxClientHandle
wire_closes h i = record h { store = put i (record (h.store i) { is_closed = true }) h.store }

-- A round of `receive_mux_inbound` on a wire.
unfoldable pub wire_inbound : MuxClientHandle → ℕ → ℕ → List ℕ → (ℕ → SendResult) → MuxClientHandle
wire_inbound h i kind cell tries =
    let w = h.store i in
    record h {
      store =
          put i
            (record w {
              mux = record (w.mux) {
                stream_map = (inbound_frame w.mux.stream_map kind cell tries).0;
              };
            })
            h.store;
    }

-- `MuxClientHandle::new`
abbrev pub new_handle : Option ℕ → (ℕ → Wire) → MuxClientHandle
new_handle next_conn store = record { next_conn = next_conn; wires = []; count = 0; store = store }
