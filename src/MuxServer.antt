-- ===== src/MuxServer.antt =====
-- The server's side of the mux in src/transport.rs: the rounds of `mux_demux_to_bridges`, the relays it
-- spawns and the process-wide count of them.
pub mod Caps
pub mod Rounds
mod Admission
mod Tests
use mix_tor.Base.{
  length, ◌||◌, false, ◌==◌, leb, not, if◌then◌else◌, some, Bool, suc, none, Option, List, ◌-◌, ℕ,
  ◌∷◌, [],
}
use mix_tor.Base.Random.{Rng}
use mix_tor.StreamMap.{StreamMap, lookup, remove, insert}
use mix_tor.Cell.{decode_real_cell, encode_close_cell}
use mix_tor.Frame.{kind_real}
use mix_tor.Strip.{is_empty}
use mix_tor.Tail.{TailPolicy, off, fixed, by_class, epoch, next_boundary}
use mix_tor.MuxClient.{SendResult, sent, closed, full}

abbrev pub max_streams_per_wire : ℕ
max_streams_per_wire = 512

abbrev pub max_global_bridge_streams : ℕ
max_global_bridge_streams = 4096

-- One wire's loop with the shared counter. `relays` are the channels of the wire's running relays, each
-- of which holds a guard; `others` counts the guards that other wires hold; `fresh` names the next channel.
pub record Server : Type 0 where
  pub stream_map : StreamMap
  pub global_bridge_streams : ℕ
  pub relays : List ℕ
  pub others : ℕ
  pub fresh : ℕ

-- The first cell of a stream, between `fetch_add` on the shared counter, which returned `prev`, and the
-- test of `prev`.
pub record Claim : Type 0 where
  pub id : ℕ
  pub payload : List ℕ
  pub prev : ℕ

-- A round goes on, with the close cell sent to the client, the bytes that a channel took and the gate of
-- the relay spawned; or it ends the wire with an error; or it has raised the shared counter, and what
-- `settle` does is left of it, with steps of other tasks in between.
pub record Effects : Type 0 where
  pub close_cell : Option (List ℕ)
  pub routed : Option (ℕ × List ℕ)
  pub gate : Option ℕ

pub data Round : Type 0 where
  continues : Server → Effects → Round
  too_many_streams : Round
  reserves : Server → Claim → Round

abbrev pub nothing : Effects
nothing = record { close_cell = none; routed = none; gate = none }

-- `let gate_until = match tail { ... }`, at the instant `now`.
unfoldable pub gate_until : TailPolicy → ℕ → ℕ
gate_until off now = now
gate_until (fixed d) now = now
gate_until by_class now = now
gate_until (epoch clock) now = next_boundary clock now

-- The answer of `bridge_tx.try_send(data.to_vec())`.
after_send : Server → ℕ → ℕ → List ℕ → Option ℕ → SendResult → Round
after_send s id tx payload gate sent =
    continues s (record { close_cell = none; routed = some (tx, payload); gate = gate })
after_send s id tx payload gate closed =
    continues (record s { stream_map = remove id s.stream_map })
      (record { close_cell = none; routed = none; gate = gate })
after_send s id tx payload gate full =
    continues s (record { close_cell = none; routed = none; gate = gate })

-- `Entry::Vacant(v)` past the two caps: a relay is spawned with its guard, and its channel goes into the
-- map.
spawn : Server → ℕ → Server
spawn s id = record s {
  stream_map = insert id s.fresh s.stream_map;
  relays = s.fresh ∷ s.relays;
  fresh = suc s.fresh;
}

-- The bytes go to the entry of the cell's id; without an entry the counter is raised.
route : Server → ℕ → List ℕ → Option ℕ → (ℕ → SendResult) → Round
unfolding after_send
route s id payload (some tx) tries = after_send s id tx payload none (tries tx)
route s id payload none tries =
    if leb max_streams_per_wire (length s.stream_map)
    then too_many_streams
    else reserves (record s { global_bridge_streams = suc s.global_bridge_streams })
        (record { id = id; payload = payload; prev = s.global_bridge_streams })

-- The rest of the round that has raised the counter: it is lowered again, or a relay is spawned.
unfoldable pub settle : Server → Claim → TailPolicy → ℕ → (ℕ → SendResult) → Round
unfolding after_send spawn
settle s c tail now tries =
    if leb max_global_bridge_streams c.prev
    then continues (record s { global_bridge_streams = s.global_bridge_streams - 1 }) nothing
    else after_send (spawn s c.id) c.id s.fresh c.payload (some (gate_until tail now))
        (tries s.fresh)

-- One round of `mux_demux_to_bridges` on a decrypted frame, up to `fetch_add`; `pad` is the state of its generator.
module _ (g : Rng) where
  unfoldable pub on_frame : Server → ℕ → List ℕ → (ℕ → SendResult) → Rng.State g → Round
  unfolding route
  on_frame s kind cell tries pad =
      let (id, payload) = decode_real_cell cell in
      if not (kind == kind_real)
      then continues s nothing
      else if is_empty payload
      then continues (record s { stream_map = remove id s.stream_map })
          (record { close_cell = some (encode_close_cell g id pad).0; routed = none; gate = none })
      else route s id payload (lookup id s.stream_map) tries

abbrev pub has_relay : ℕ → List ℕ → Bool
has_relay c [] = false
has_relay c (d ∷ ds) = c == d || has_relay c ds

abbrev pub drop_relay : ℕ → List ℕ → List ℕ
drop_relay c [] = []
drop_relay c (d ∷ ds) = if c == d then ds else d ∷ drop_relay c ds

-- A relay ends, and its `BridgeStreamGuard` is dropped.
unfoldable pub relay_ends : Server → ℕ → Server
relay_ends s c = record s {
  relays = drop_relay c s.relays;
  global_bridge_streams = s.global_bridge_streams - 1;
}
