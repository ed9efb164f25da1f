-- ===== src/MuxClient/Tests.antt =====
-- Runs of the client's mux.
use mix_tor.Base.{arith, ◌==◌, if◌then◌else◌, ◌≡◌, ℕ, [], ◌∷◌, refl, none, some}
use mix_tor.Samples.{zeros}
use mix_tor.StreamMap.{lookup, remove}
use mix_tor.Cell.{encode_real_cell, encode_close_cell, decode_real_cell}
use mix_tor.Frame.{kind_real}
use mix_tor.MuxClient.{MuxWire, add_stream, added, SendResult, sent, closed, full, inbound_frame}
use mix_tor.MuxClient.Allocation.{IsFreshStream, add_stream_fresh}
use mix_tor.MuxClient.Routing.{inbound_frame_others, inbound_frame_delivers, inbound_frame_close}

-- The counter stands at its last value, and the ids after it are taken up to 2.
abbrev wire : MuxWire
wire = record { stream_map = (65_535, 10) ∷ (1, 11) ∷ (2, 12) ∷ []; next_id = 65_535 }

add_stream_fresh_example :
    (id : ℕ) × (w' : MuxWire) × (add_stream wire 13 ≡ added id w') × IsFreshStream wire 13 id w'
add_stream_fresh_example = add_stream_fresh wire 13 (omega arith) (omega arith)

-- Channel 11 is closed, the others take what they get.
abbrev tries : ℕ → SendResult
tries tx = if tx == 11 then closed else sent

of_stream_512 : (decode_real_cell (2 ∷ 0 ∷ 0 ∷ 0 ∷ [])).0 ≡ 512
unfolding decode_real_cell
of_stream_512 = refl

inbound_frame_others_run :
    lookup 1 (inbound_frame wire.stream_map kind_real (2 ∷ 0 ∷ 0 ∷ 0 ∷ []) tries).0
    ≡ lookup 1 wire.stream_map
inbound_frame_others_run =
    inbound_frame_others wire.stream_map kind_real 1 (2 ∷ 0 ∷ 0 ∷ 0 ∷ []) tries
      (λ e. absurd (omega (arith, of_stream_512, e)))

inbound_frame_delivers_example :
    let out =
      inbound_frame wire.stream_map kind_real (encode_real_cell zeros 2 (7 ∷ 8 ∷ []) 0).0 tries in
    (lookup 2 wire.stream_map ≡ none → out ≡ (wire.stream_map, none))
    × ((tx : ℕ)
        → lookup 2 wire.stream_map ≡ some tx
        → tries tx ≡ sent
        → out ≡ (wire.stream_map, some (tx, 7 ∷ 8 ∷ [])))
    × ((tx : ℕ)
        → lookup 2 wire.stream_map ≡ some tx
        → tries tx ≡ closed
        → out ≡ (remove 2 wire.stream_map, none))
    × ((tx : ℕ)
        → lookup 2 wire.stream_map ≡ some tx
        → tries tx ≡ full
        → out ≡ (wire.stream_map, none))
inbound_frame_delivers_example =
    inbound_frame_delivers zeros 2 (omega arith) wire.stream_map (7 ∷ 8 ∷ []) 0 tries (omega arith)
      (omega arith)

closed_stream :
    let out = inbound_frame wire.stream_map kind_real (encode_close_cell zeros 2 0).0 tries in
    (lookup 2 out.0 ≡ none) × (out.1 ≡ none)
closed_stream = inbound_frame_close zeros 2 (omega arith) wire.stream_map 0 tries
