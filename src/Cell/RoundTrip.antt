-- ===== src/Cell/RoundTrip.antt =====
-- What `decode_real_cell` reads back of the cells that the two encoders write.
use mix_tor.Base.{
  ◌/◌, ℕ, ◌+◌, ◌-◌, ◌%◌, ◌^◌, ◌<◌, ◌≡◌, refl, ap, ◌∙◌, min, List, [], ◌++◌, length, take,
  length-append, length-take, take-append, take-min-length, arith, be16, from_be16,
}
use mix_tor.Base.Random.{Rng}
use mix_tor.Cell.{
  cell_bytes, cell_header, cell_payload, encode_real_cell, encode_close_cell, decode_real_cell,
}

be16-from_be16 : (n : ℕ) → n < 2 ^ 16 → from_be16 (n / 256) (n % 256) ≡ n
be16-from_be16 n h = omega arith

-- A cell of four header bytes, `n` payload bytes and padding decodes to the id and the payload.
decode_header :
    (id n : ℕ) (body pad : List ℕ)
    → id < 2 ^ 16
    → n < 2 ^ 16
    → length body ≡ n
    → decode_real_cell (be16 id ++ (be16 n ++ (body ++ pad))) ≡ (id, body)
unfolding decode_real_cell
decode_header id n body pad hid hn hb =
    let e : from_be16 (n / 256) (n % 256) ≡ n = be16-from_be16 n hn in
    let f : from_be16 (id / 256) (id % 256) ≡ id = be16-from_be16 id hid in
    let long : length (body ++ pad) ≡ n + length pad = omega (arith, length-append body pad) in
    let cut : min (cell_header + n) (4 + length (body ++ pad)) - cell_header ≡ n = omega arith in
    ground (arith, e, f, long, cut, take-append n body pad hb)

module _ (g : Rng) where
  pub length-encode_real_cell :
      (id : ℕ) (payload : List ℕ) (s : Rng.State g)
      → length (encode_real_cell g id payload s).0 ≡ cell_bytes
  unfolding encode_real_cell
  length-encode_real_cell id payload s =
      let n = min (length payload) cell_payload in
      let pad = (Rng.fill g (cell_bytes - (cell_header + n)) s).0 in
      omega (
        arith,
        length-append (take n payload) pad,
        length-take n payload,
        Rng.length-fill g (cell_bytes - (cell_header + n)) s,
      )

  pub length-encode_close_cell :
      (id : ℕ) (s : Rng.State g) → length (encode_close_cell g id s).0 ≡ cell_bytes
  unfolding encode_close_cell
  length-encode_close_cell id s = omega (arith, Rng.length-fill g 510 s)

  -- A data cell decodes to its 16-bit stream id and the first 510 bytes of the payload, whatever the padding.
  pub decode-encode_real_cell :
      (id : ℕ) (payload : List ℕ) (s : Rng.State g)
      → id < 2 ^ 16
      → decode_real_cell (encode_real_cell g id payload s).0 ≡ (id, take cell_payload payload)
  unfolding encode_real_cell
  decode-encode_real_cell id payload s h =
      let n = min (length payload) cell_payload in
      let small : n % 2 ^ 16 ≡ n = omega arith in
      rw small (
        decode_header id n (take n payload) _ h (omega arith) (omega (arith, length-take n payload))
        ∙ ap (λ t. (id, t)) (take-min-length cell_payload payload))

  pub decode-encode_close_cell :
      (id : ℕ) (s : Rng.State g)
      → id < 2 ^ 16
      → decode_real_cell (encode_close_cell g id s).0 ≡ (id, [])
  unfolding encode_close_cell
  decode-encode_close_cell id s h = decode_header id 0 [] _ h (omega arith) refl
