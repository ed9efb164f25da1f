-- ===== src/MuxClient/Routing.antt =====
-- Where a round of `receive_mux_inbound` in src/transport.rs sends a payload, and what it changes.
use mix_tor.Base.{
  refl, [], take_all, ap, inl, ◌∷◌, ◌≤◌, inr, some, length, ◌==◌, arith, ◌^◌, Option, Bool-cases,
  none, ◌∙◌, ◌≡◌, ◌<◌, List, ◌≢◌, ℕ,
}
use mix_tor.Base.Random.{Rng}
use mix_tor.StreamMap.{lookup-remove-other, lookup-remove-same, StreamMap, lookup, remove}
use mix_tor.Cell.{cell_payload, encode_real_cell, encode_close_cell, decode_real_cell}
use mix_tor.Cell.RoundTrip.{decode-encode_real_cell, decode-encode_close_cell}
use mix_tor.Frame.{kind_real}
use mix_tor.Strip.{is_empty}
use mix_tor.MuxClient.{ℕ, SendResult, sent, closed, full, after_send, on_data, inbound_frame}

after_send_others :
    (m : StreamMap) (id j tx : ℕ) (payload : List ℕ) (r : SendResult)
    → j ≢ id
    → lookup j (after_send m id payload tx r).0 ≡ lookup j m
unfolding after_send
after_send_others m id j tx payload sent d = refl
after_send_others m id j tx payload closed d = lookup-remove-other id j m d
after_send_others m id j tx payload full d = refl

on_data_others :
    (m : StreamMap) (id j : ℕ) (payload : List ℕ) (to : Option ℕ) (tries : ℕ → SendResult)
    → j ≢ id
    → lookup j (on_data m id payload to tries).0 ≡ lookup j m
unfolding on_data
on_data_others m id j payload none tries d = refl
on_data_others m id j payload (some tx) tries d = after_send_others m id j tx payload (tries tx) d

-- Whatever frame comes in and whatever its channel says, no other circuit than the one of the cell's id
-- loses its stream or gets another one.
pub inbound_frame_others :
    (m : StreamMap) (kind j : ℕ) (cell : List ℕ) (tries : ℕ → SendResult)
    → j ≢ (decode_real_cell cell).0
    → lookup j (inbound_frame m kind cell tries).0 ≡ lookup j m
unfolding inbound_frame
inbound_frame_others m kind j cell tries d =
    let (id, payload) = decode_real_cell cell in
    elim (Bool-cases (kind == kind_real)) [
      | inr e ↦ rw e refl
      | inl e ↦ elim (Bool-cases (is_empty payload)) [
        | inl f ↦ rw (e, f) (lookup-remove-other id j m d)
        | inr f ↦ rw (e, f) (on_data_others m id j payload (lookup id m) tries d)
      ]
    ]

module _ (g : Rng) (id : ℕ) (small : id < 2 ^ 16) where
  -- A real frame with a non-empty payload that fits its cell: with a stream under the cell's id, the
  -- payload goes to that stream's channel unless `try_send` fails; the stream is dropped exactly when the
  -- channel is closed, and a full channel loses this payload alone. With no stream, nothing happens.
  pub inbound_frame_delivers :
      (m : StreamMap) (payload : List ℕ) (s : Rng.State g) (tries : ℕ → SendResult)
      → 0 < length payload
      → length payload ≤ cell_payload
      → let out = inbound_frame m kind_real (encode_real_cell g id payload s).0 tries in
        (lookup id m ≡ none → out ≡ (m, none))
        × ((tx : ℕ) → lookup id m ≡ some tx → tries tx ≡ sent → out ≡ (m, some (tx, payload)))
        × ((tx : ℕ) → lookup id m ≡ some tx → tries tx ≡ closed → out ≡ (remove id m, none))
        × ((tx : ℕ) → lookup id m ≡ some tx → tries tx ≡ full → out ≡ (m, none))
  unfolding inbound_frame on_data after_send
  inbound_frame_delivers m [] s tries h k = absurd (omega arith)
  inbound_frame_delivers m (b ∷ bs) s tries h k =
      let decoded : decode_real_cell (encode_real_cell g id (b ∷ bs) s).0 ≡ (id, b ∷ bs) =
        decode-encode_real_cell g id (b ∷ bs) s small
        ∙ ap (λ t. (id, t)) (take_all cell_payload (b ∷ bs) k) in
      rw decoded (
        λ e. rw e refl,
        λ tx e f. rw (e, f) refl,
        λ tx e f. rw (e, f) refl,
        λ tx e f. rw (e, f) refl,
      )

  -- A close cell of the server ends the stream of its id, and nothing is delivered for that id until a
  -- new stream is opened under it.
  pub inbound_frame_close :
      (m : StreamMap) (s : Rng.State g) (tries : ℕ → SendResult)
      → let out = inbound_frame m kind_real (encode_close_cell g id s).0 tries in
        (lookup id out.0 ≡ none) × (out.1 ≡ none)
  unfolding inbound_frame
  inbound_frame_close m s tries =
      rw (decode-encode_close_cell g id s small) (lookup-remove-same id m, refl)
