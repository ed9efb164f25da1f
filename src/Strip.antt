-- ===== src/Strip.antt =====
-- The receiving path of src/transport.rs: `encode_frame` on the sender's side, `read_sealed_frame` and
-- `strip_and_forward` on the receiver's. A wire is the bytes that the peer sent, and how it ends.
pub mod Forward
mod Tests
use mix_tor.Base.{
  ℕ, zero, suc, ◌-◌, List, [], ◌∷◌, ◌++◌, Option, none, some, length, take, drop, leb, ltb,
  if◌then◌else◌, Bool, true, false, not, ◌&&◌, ◌==◌, Result, ok, err,
}
use mix_tor.Packet.{Packet, MixedFrame, real, dummy}
use mix_tor.Frame.{
  Aead, FrameCipher, HandshakeError, io, seal, open_frame, enc_frame_len, kind_real, kind_dummy,
}
use mix_tor.Cell.{cell_bytes, decode_real_cell}
use mix_tor.Reader.{Outcome, done, io_error}

-- `breaks`: the bytes are followed by an I/O error, and not by the end of the stream.
pub record Wire : Type 0 where
  pub bytes : List ℕ
  pub breaks : Bool

abbrev pub frame_len_on_wire : ℕ
frame_len_on_wire = enc_frame_len cell_bytes

abbrev pub kind_byte : MixedFrame → ℕ
kind_byte (real p) = kind_real
kind_byte (dummy bytes) = kind_dummy

abbrev pub cell_of : MixedFrame → List ℕ
cell_of (real p) = p.bytes
cell_of (dummy bytes) = bytes

abbrev pub is_empty : List ℕ → Bool
is_empty [] = true
is_empty (b ∷ bs) = false

-- `out.write_all(data).await?`, and what follows it.
write_then : List ℕ → ℕ → (ℕ → List (List ℕ) × Option Outcome) → List (List ℕ) × Option Outcome
write_then bytes zero next = ([], some io_error)
write_then bytes (suc takes) next = let (writes, ending) = next takes in (bytes ∷ writes, ending)

-- The body of the receiver's loop on what `read_sealed_frame` returned.
strip_round :
    Result HandshakeError (Option (ℕ × List ℕ)) × Wire × FrameCipher
    → (Wire → FrameCipher → ℕ → List (List ℕ) × Option Outcome)
    → ℕ
    → List (List ℕ) × Option Outcome
unfolding write_then
strip_round (err e, w, c) rest takes = ([], some io_error)
strip_round (ok none, w, c) rest takes = ([], some done)
strip_round (ok (some (kind, cell)), w, c) rest takes =
    let payload = (decode_real_cell cell).1 in
    if kind == kind_real && not (is_empty payload)
    then write_then payload takes (rest w c)
    else rest w c takes

module _ (a : Aead) where
  -- `encode_frame`: the sealed bytes and the plaintext's length.
  unfoldable pub encode_frame : MixedFrame → FrameCipher → (List ℕ × ℕ) × FrameCipher
  encode_frame frame c =
      let (sealed, c') = seal a c (kind_byte frame) (cell_of frame) in
      ((sealed, length (cell_of frame)), c')

  -- `read_exact` fails at the end of the stream, which is a clean end here, or by an error.
  unfoldable pub read_sealed_frame :
      Wire → FrameCipher → Result HandshakeError (Option (ℕ × List ℕ)) × Wire × FrameCipher
  read_sealed_frame w c =
      if leb frame_len_on_wire (length w.bytes)
      then (let (opened, c') = open_frame a c (take frame_len_on_wire w.bytes) in
          let w' = record w { bytes = drop frame_len_on_wire w.bytes } in
          (elim opened [ ok f ↦ ok (some f) | err e ↦ err e ], w', c'))
      else (if w.breaks then err io else ok none, record w { bytes = [] }, c)

  -- `while let Some((kind, cell)) = read_sealed_frame(...)`: the writes to `out`, in order, and how the
  -- loop ends (`none` if the fuel ran out). `takes` is the number of writes that `out` takes.
  strip_loop : ℕ → Wire → FrameCipher → ℕ → List (List ℕ) × Option Outcome
  strip_loop zero w c takes = ([], none)
  strip_loop (suc fuel) w c takes = strip_round (read_sealed_frame w c) (strip_loop fuel) takes

  -- A frame takes a byte at least, so the wire's length and one round for its end are enough fuel.
  unfoldable pub strip_and_forward : Wire → FrameCipher → ℕ → List (List ℕ) × Option Outcome
  unfolding strip_loop strip_round
  strip_and_forward w c takes = strip_loop (suc (length w.bytes)) w c takes
