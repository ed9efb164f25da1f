-- ===== src/Cell/Tests.antt =====
-- Runs of the cell codec.
use mix_tor.Base.{arith, take, List, ◌≡◌, ℕ, [], ◌∷◌, refl}
use mix_tor.Samples.{zeros}
use mix_tor.Cell.{encode_real_cell, decode_real_cell, cell_payload}
use mix_tor.Cell.RoundTrip.{decode-encode_real_cell}

abbrev hello : List ℕ
hello = 104 ∷ 101 ∷ 108 ∷ 108 ∷ 111 ∷ []

hello_decodes : decode_real_cell (encode_real_cell zeros 258 hello 0).0 ≡ (258, hello)
unfolding decode_real_cell encode_real_cell
hello_decodes = refl

decode_encode_real_cell_run :
    decode_real_cell (encode_real_cell zeros 258 hello 0).0 ≡ (258, take cell_payload hello)
decode_encode_real_cell_run = decode-encode_real_cell zeros 258 hello 0 (omega arith)
