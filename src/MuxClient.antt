-- ===== src/MuxClient.antt =====
-- The client's side of the mux in src/transport.rs: `MuxWire::add_stream` and the rounds of
-- `receive_mux_inbound`, over the stream map that they share under a lock.
mod Allocation
mod Routing
mod Tests
pub mod Wires
use mix_tor.Base.{
  ℕ, zero, suc, ◌+◌, ◌-◌, ◌%◌, ◌^◌, List, [], ◌∷◌, Option, none, some, Bool, true, false, ◌&&◌, not,
  ◌==◌, leb, if◌then◌else◌, length, u16_max, wrapping_add16,
}
use mix_tor.StreamMap.{StreamMap, lookup, contains_key, remove, insert}
use mix_tor.Cell.{decode_real_cell, stream_id_single}
use mix_tor.Frame.{kind_real}
use mix_tor.Strip.{is_empty}

pub record MuxWire : Type 0 where
  pub stream_map : StreamMap
  pub next_id : ℕ

-- `loop { candidate = next_id.fetch_add(1); ... }`: the id taken and the counter after it, `none` if the
-- fuel ran out.
scan : ℕ → ℕ → StreamMap → Option (ℕ × ℕ)
scan zero next m = none
scan (suc fuel) candidate m =
    let next = wrapping_add16 candidate 1 in
    let rest = scan fuel next m in
    if not (candidate == stream_id_single) && not (contains_key candidate m)
    then some (candidate, next)
    else rest

-- One round for each value of the counter.
abbrev scan_fuel : ℕ
scan_fuel = 2 ^ 16

pub data Added : Type 0 where
  refused stuck : Added
  added : ℕ → MuxWire → Added

-- `MuxWire::add_stream`, with the new channel as an argument; `refused` is the source's `None`, and
-- `stuck` would be a scan that does not end.
unfoldable pub add_stream : MuxWire → ℕ → Added
unfolding scan
add_stream w down_tx =
    if leb (u16_max - 1) (length w.stream_map)
    then refused
    else (elim (scan scan_fuel w.next_id w.stream_map) [
      | none ↦ stuck
      | some (id, next) ↦
          added id (record { stream_map = insert id down_tx w.stream_map; next_id = next })
    ])

-- What `try_send` returns.
pub data SendResult : Type 0 where
  sent closed full : SendResult

-- What the round does with the answer of `try_send` on the channel `tx`.
after_send : StreamMap → ℕ → List ℕ → ℕ → SendResult → StreamMap × Option (ℕ × List ℕ)
after_send m id payload tx sent = (m, some (tx, payload))
after_send m id payload tx closed = (remove id m, none)
after_send m id payload tx full = (m, none)

on_data : StreamMap → ℕ → List ℕ → Option ℕ → (ℕ → SendResult) → StreamMap × Option (ℕ × List ℕ)
on_data m id payload none tries = (m, none)
on_data m id payload (some tx) tries = after_send m id payload tx (tries tx)

-- One round of `receive_mux_inbound` on a decrypted frame: the map after it, and the channel and the
-- bytes if they were delivered. `tries` says what `try_send` on a channel returns now.
unfoldable pub inbound_frame :
    StreamMap → ℕ → List ℕ → (ℕ → SendResult) → StreamMap × Option (ℕ × List ℕ)
unfolding on_data after_send
inbound_frame m kind cell tries =
    let (id, payload) = decode_real_cell cell in
    if not (kind == kind_real)
    then (m, none)
    else if is_empty payload
    then (remove id m, none)
    else on_data m id payload (lookup id m) tries
