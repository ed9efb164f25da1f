-- ===== src/Reader.antt =====
-- The reader loops of src/transport.rs, which cut a byte stream into tagged cells:
-- `bridge_stream_reader`, `mux_tor_reader` and the loop of `shaped_forward`.
-- What the socket returns is a `Source`; `room` is the number of cells that the channel takes before
-- its receiver is dropped. A loop returns the cells that went into the channel, in order.
pub mod Delivery
mod Tests
use mix_tor.Base.{
  ℕ, zero, suc, List, [], ◌∷◌, ◌++◌, chunks, length, if◌then◌else◌, ◌==◌, Bool, true, false, min,
  max,
}
use mix_tor.Base.Random.{Rng}
use mix_tor.Cell.{
  cell_payload, default_max_frame_len, encode_real_cell, encode_close_cell, stream_id_single,
}

-- The results of the `read` calls in order, up to the end of the stream or an error.
pub data Source : Type 0 where
  eof failed : Source
  got : List ℕ → Source → Source

-- How a reader loop ends.
pub data Ending : Type 0 where
  drained receiver_gone read_failed : Ending

-- What the asynchronous functions return.
pub data Outcome : Type 0 where
  done io_error : Outcome

module _ (g : Rng) where
  -- `for chunk in buf[..n].chunks(CELL_PAYLOAD)`: the cells sent, whether the receiver is still there,
  -- the generator and the room left.
  unfoldable pub send_chunks :
      ℕ → List (List ℕ) → Rng.State g → ℕ → List (List ℕ) × Bool × Rng.State g × ℕ
  send_chunks id [] s room = ([], true, s, room)
  send_chunks id (c ∷ cs) s zero = ([], false, (encode_real_cell g id c s).1, 0)
  send_chunks id (c ∷ cs) s (suc room) =
      let (cell, s') = encode_real_cell g id c s in
      let (sent, alive, s'', room') = send_chunks id cs s' room in (cell ∷ sent, alive, s'', room')

  unfoldable pub read_loop : ℕ → Source → Rng.State g → ℕ → List (List ℕ) × Ending × Rng.State g × ℕ
  read_loop id eof s room = ([], drained, s, room)
  read_loop id failed s room = ([], read_failed, s, room)
  read_loop id (got [] rest) s room = ([], drained, s, room)
  read_loop id (got (b ∷ bs) rest) s room =
      let (sent, alive, s', room') = send_chunks id (chunks cell_payload (b ∷ bs)) s room in
      elim alive [
        | true ↦
            let (more, ending, s'', room'') = read_loop id rest s' room' in
            (sent ++ more, ending, s'', room'')
        | false ↦ (sent, receiver_gone, s', room')
      ]

  -- `let _ = cell_tx.send(close).await`
  send_close : ℕ → Rng.State g → ℕ → List (List ℕ)
  send_close id s zero = []
  send_close id s (suc room) = (encode_close_cell g id s).0 ∷ []

  -- `bridge_stream_reader` and `mux_tor_reader`: the loop, then a close cell if the stream ended.
  unfoldable pub stream_reader : ℕ → Source → Rng.State g → ℕ → List (List ℕ) × Outcome
  unfolding send_close
  stream_reader id src s room =
      let (sent, ending, s', room') = read_loop id src s room in
      elim ending [
        | drained ↦ (sent ++ send_close id s' room', done)
        | receiver_gone ↦ (sent, done)
        | read_failed ↦ (sent, io_error)
      ]

  -- The loop of `shaped_forward`: one stream, no close cell.
  unfoldable pub shaped_reader : Source → Rng.State g → ℕ → List (List ℕ) × Outcome
  shaped_reader src s room =
      let (sent, ending, s', room') = read_loop stream_id_single src s room in
      elim ending [
        | drained ↦ (sent, done)
        | receiver_gone ↦ (sent, done)
        | read_failed ↦ (sent, io_error)
      ]
