-- ===== src/Strip/Tests.antt =====
-- Runs of the receiving path.
use mix_tor.Base.{
  refl, arith, ◌*◌, ◌≢◌, ◌≡◌, All, List, replicate, length, ◌++◌, [], ◌∷◌, none, some, true, false,
}
use mix_tor.Samples.{zeros, plain}
use mix_tor.Cell.{encode_real_cell}
use mix_tor.Cell.RoundTrip.{length-encode_real_cell}
use mix_tor.Packet.{MixedFrame, real, dummy}
use mix_tor.Frame.{FrameCipher, cipher_new}
use mix_tor.Reader.{io_error}
use mix_tor.Strip.{frame_len_on_wire, strip_and_forward}
use mix_tor.Strip.Forward.{
  IsCell, real_data, sealed, strip_and_forward-sealed, strip_and_forward-ne-none, length-sealed,
}

abbrev cipher : FrameCipher
cipher = cipher_new (replicate 32 5)

-- A dummy cell between two real ones.
abbrev frames : List MixedFrame
frames =
    real (record { bytes = (encode_real_cell zeros 3 (1 ∷ 2 ∷ []) 0).0 })
    ∷ dummy (replicate 514 0)
    ∷ real (record { bytes = (encode_real_cell zeros 3 (9 ∷ []) 0).0 })
    ∷ []

frames_are_cells : All IsCell frames
frames_are_cells = (
  length-encode_real_cell zeros 3 (1 ∷ 2 ∷ []) 0,
  (refl, (length-encode_real_cell zeros 3 (9 ∷ []) 0, tt)),
)

strip_and_forward-sealed_example :
    strip_and_forward plain
      (record { bytes = sealed plain frames cipher ++ (1 ∷ []); breaks = true })
      cipher
      3
    ≡ (real_data frames, some io_error)
strip_and_forward-sealed_example =
    strip_and_forward-sealed plain frames cipher (1 ∷ []) true 3 frames_are_cells (omega arith)
      (omega arith)

strip_and_forward_ne_none_run :
    (strip_and_forward plain (record { bytes = replicate 600 1; breaks = false }) cipher 0).1 ≢ none
strip_and_forward_ne_none_run =
    strip_and_forward-ne-none plain (record { bytes = replicate 600 1; breaks = false }) cipher 0

sealed_size : length (sealed plain frames cipher) ≡ frame_len_on_wire * 3
sealed_size = length-sealed plain frames cipher frames_are_cells
