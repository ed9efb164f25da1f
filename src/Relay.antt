-- ===== src/Relay.antt =====
-- `bridge_stream_relay` and `bridge_stream_writer` of src/transport.rs: the hold phase, in which the
-- first cells of a stream wait for the epoch gate, and the writes to the bridge.
mod Hold
mod Ends
mod Tests
use mix_tor.Base.{
  length, ◌++◌, ◌+◌, none, some, leb, if◌then◌else◌, ◌*◌, Option, List, Bool, ℕ, ◌∷◌, [],
}

abbrev pub epoch_hold_max_bytes : ℕ
epoch_hold_max_bytes = 256 * 1024

-- What the relay meets in the order of time: messages of its channel, the gate, and the end of the
-- channel. `gate_opens` goes on with what comes after the gate.
pub data Arrivals : Type 0 where
  channel_closes : Arrivals
  gate_opens : List (List ℕ) → Arrivals
  message : List ℕ → Arrivals → Arrivals

-- The messages that stand in the channel when the gate opens, and those after it. A channel that is
-- closed is read to its end.
abbrev pub unread : Arrivals → List (List ℕ)
unread channel_closes = []
unread (gate_opens after) = after
unread (message data' rest) = data' ∷ unread rest

-- `held.push(data)`, in front of what the later rounds hold.
push_held : List ℕ → Option (List (List ℕ) × List (List ℕ)) → Option (List (List ℕ) × List (List ℕ))
push_held data' none = none
push_held data' (some (held, live)) = some (data' ∷ held, live)

-- The loop `'hold`: `none` if the function returns there, or else the messages held and those left for
-- `bridge_stream_writer`. At the cap it stops receiving and waits for the gate.
hold_loop : ℕ → Arrivals → Option (List (List ℕ) × List (List ℕ))
unfolding push_held
hold_loop held_bytes channel_closes =
    if leb epoch_hold_max_bytes held_bytes then some ([], []) else none
hold_loop held_bytes (gate_opens after) = some ([], after)
hold_loop held_bytes (message data' rest) =
    let more = hold_loop (held_bytes + length data') rest in
    if leb epoch_hold_max_bytes held_bytes
    then some ([], data' ∷ unread rest)
    else push_held data' more

-- The relay's writes to the bridge, in order: `none` if it returns without a connection. `waits` says
-- that the gate is in the future at the start.
unfoldable pub hold : Bool → Arrivals → Option (List (List ℕ) × List (List ℕ))
unfolding hold_loop
hold waits arrivals = if waits then hold_loop 0 arrivals else some ([], unread arrivals)

unfoldable pub relay_writes : Bool → Arrivals → Option (List (List ℕ))
relay_writes waits arrivals = elim (hold waits arrivals) [
  | none ↦ none
  | some (held, live) ↦ some (held ++ live)
]
