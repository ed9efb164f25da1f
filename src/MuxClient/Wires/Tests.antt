-- ===== src/MuxClient/Wires/Tests.antt =====
-- A client that connects, loses its wire and connects again.
use mix_tor.MuxClient.Wires.{
  registered_wire, put, live_or, after_handshake, keep_wire, over_stream, new_handle, Ephemeral,
  MuxClientHandle, connect, Dial, get_or_connect_wire, Wire,
}
use mix_tor.Base.{ℕ, [], ◌∷◌, none, some, ok, err, true, false, ◌≡◌, refl, ap, arith, sym}
use mix_tor.Samples.{constants}
use mix_tor.Handshake.Sample.{x_repr, to_client, client_runs}
use mix_tor.MuxClient.{MuxWire}
use mix_tor.MuxClient.Allocation.{IsFreshStream}
use mix_tor.MuxClient.Wires.{
  MuxClientHandle, Wire, Dial, Ephemeral, put, new_handle, connect, over_stream, after_handshake,
  registered_wire, get_or_connect_wire, keep_wire, live_or, prewarm, connect_circuit, counted,
  wire_closes, on_wire, unreachable,
}
use mix_tor.StreamMap.{lookup, insert, remove}
use mix_tor.MuxClient.Wires.Single.{Reachable, created, prewarmed, one_wire_per_server}
use mix_tor.MuxClient.Wires.Circuits.{circuit_takes_live_wire}

abbrev no_wire : ℕ → Wire
no_wire i = record {
  to = 0;
  cell_tx = 0;
  is_closed = true;
  mux = record { stream_map = []; next_id = 1 };
}

abbrev ephemeral : Ephemeral
ephemeral = record { x_priv = []; x_repr = x_repr; pad = [] }

abbrev answered : Dial
answered = record { reached = some to_client; timely = true; registered = some 40 }

abbrev down : Dial
down = record { reached = none; timely = true; registered = none }

abbrev first_wire : Wire
first_wire = record {
  to = 9;
  cell_tx = 40;
  is_closed = false;
  mux = record { stream_map = []; next_id = 1 };
}

connected_wire : connect constants 9 [] ephemeral answered ≡ ok first_wire
unfolding connect over_stream after_handshake registered_wire
connected_wire = rw client_runs refl

abbrev start : MuxClientHandle
start = new_handle (some 1) no_wire

abbrev one_wire : MuxClientHandle
one_wire = record {
  next_conn = some 2;
  wires = (9, 0) ∷ [];
  count = 1;
  store = put 0 first_wire no_wire;
}

first_call : get_or_connect_wire constants start 9 [] ephemeral answered ≡ (one_wire, ok 0)
unfolding get_or_connect_wire keep_wire live_or lookup insert remove
first_call = rw connected_wire refl

one_wire-Reachable : Reachable constants one_wire
unfolding prewarm
one_wire-Reachable =
    rw (sym (ap (λ o. o.0) first_call))
      (prewarmed start 9 [] ephemeral answered (created (some 1) no_wire))

one_wire_per_server_example : ◌≡◌ {A = ℕ} 0 0
one_wire_per_server_example =
    one_wire_per_server constants one_wire 0 0 one_wire-Reachable (omega arith) (omega arith) refl
      refl refl

circuit_takes_live_wire_example :
    (id : ℕ) × (mux : MuxWire) × (connect_circuit constants one_wire 9 [] ephemeral down 77 ≡ (
      record (counted one_wire) {
        store = put 0 (record first_wire { mux = mux }) (put 0 first_wire no_wire);
      },
      ok (0, id, 40),
    ))
    × IsFreshStream first_wire.mux 77 id mux
circuit_takes_live_wire_example =
    circuit_takes_live_wire constants one_wire 0 77 [] ephemeral down one_wire-Reachable
      (omega arith) refl (omega arith)

-- The wire has closed and the server does not answer: nothing is cached in its place.
lost_wire :
    (connect_circuit constants (wire_closes one_wire 0) 9 [] ephemeral down 77).1 ≡ err unreachable
unfolding connect_circuit get_or_connect_wire connect over_stream keep_wire live_or lookup on_wire
lost_wire = refl
