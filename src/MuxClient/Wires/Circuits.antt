-- ===== src/MuxClient/Wires/Circuits.antt =====
-- Where a circuit goes: `connect_circuit` of src/transport.rs with a live wire at its address.
use mix_tor.Base.{false, ℕ, ◌-◌, ◌<◌, List, some, ok, ◌≡◌, refl, sym, ap, ◌∙◌, length, u16_max}
use mix_tor.Handshake.{Primitives}
use mix_tor.MuxClient.{MuxWire}
use mix_tor.MuxClient.Allocation.{IsFreshStream, add_stream_fresh}
use mix_tor.MuxClient.Wires.{
  MuxClientHandle, put, counted, if_alive, keep_wire, live_or, connect, Ephemeral, Dial,
  get_or_connect_wire, connect_circuit, prewarm, on_wire, with_stream,
}
use mix_tor.MuxClient.Wires.Single.{
  IsSingle, Reachable, prewarmed, Reachable-IsSingle, get_or_connect_wire-IsServed,
}

-- A live wire is taken as it is.
live_wire_reused :
    (p : Primitives) (h : MuxClientHandle) (i : ℕ) (server_pub : List ℕ) (k : Ephemeral)
    (dial : Dial)
    → IsSingle h
    → i < h.count
    → (h.store i).is_closed ≡ false
    → get_or_connect_wire p h (h.store i).to server_pub k dial ≡ (h, ok i)
unfolding get_or_connect_wire live_or
live_wire_reused p h i server_pub k dial s b alive =
    let made = keep_wire (counted h) (h.store i).to (connect p (h.store i).to server_pub k dial) in
    let live : if_alive h.store (some i) ≡ some i = rw alive refl in
    ap (live_or h made) (ap (if_alive h.store) (s.single i b alive) ∙ live)

-- In a reachable state, a circuit to an address with a live wire that has room goes over that wire:
-- nothing is dialled, and it gets a stream id that no other circuit on the wire has. The other wires and
-- the map of wires are as before.
pub circuit_takes_live_wire :
    (p : Primitives) (h : MuxClientHandle) (i down_tx : ℕ) (server_pub : List ℕ) (k : Ephemeral)
    (dial : Dial)
    → Reachable p h
    → i < h.count
    → (h.store i).is_closed ≡ false
    → length (h.store i).mux.stream_map < u16_max - 1
    → (id : ℕ) × (mux : MuxWire) × (connect_circuit p h (h.store i).to server_pub k dial down_tx ≡ (
      record (counted h) { store = put i (record (h.store i) { mux = mux }) h.store },
      ok (i, id, (h.store i).cell_tx),
    ))
      × IsFreshStream (h.store i).mux down_tx id mux
unfolding connect_circuit on_wire with_stream
circuit_takes_live_wire p h i down_tx server_pub k dial r b alive room =
    let s = Reachable-IsSingle p h r in
    let (id, mux, run, fresh) = add_stream_fresh (h.store i).mux down_tx (s.counters i b) room in
    let reused = live_wire_reused p h i server_pub k dial s b alive in
    (id, mux, ap (λ o. on_wire (o.0) down_tx (o.1)) reused ∙ ap (with_stream h i) run, fresh)

-- A circuit right after a call that gave the wire `i` goes over `i`, if the wire has room.
pub prewarmed_wire_used :
    (p : Primitives) (h : MuxClientHandle) (server i down_tx : ℕ) (server_pub : List ℕ)
    (k k' : Ephemeral) (dial dial' : Dial)
    → Reachable p h
    → (get_or_connect_wire p h server server_pub k dial).1 ≡ ok i
    → let g = prewarm p h server server_pub k dial in
      length (g.store i).mux.stream_map < u16_max - 1
      → (id : ℕ) × ((connect_circuit p g server server_pub k' dial' down_tx).1
          ≡ ok (i, id, (g.store i).cell_tx))
unfolding prewarm
prewarmed_wire_used p h server i down_tx server_pub k k' dial dial' r e room =
    let g = prewarm p h server server_pub k dial in
    let (below, alive, to, cached) =
      (get_or_connect_wire-IsServed p h server server_pub k dial (Reachable-IsSingle p h r)).wire i
        e in
    let (id, mux, run, fresh) =
      circuit_takes_live_wire p g i down_tx server_pub k' dial'
        (prewarmed h server server_pub k dial r) below alive room in
    (
      id,
      ap (λ a. (connect_circuit p g a server_pub k' dial' down_tx).1) (sym to) ∙ ap (λ o. o.1) run,
    )
