-- ===== src/Reader/Delivery.antt =====
-- The cells that the reader loops of src/transport.rs send, set against the bytes read.
use mix_tor.Base.{
  append-nil, ◌-◌, inr, All-append, concat-chunks, length-append, length-chunks-le, inl, ◌≢◌,
  Bool-cases, arith, chunks-IsPiece, ◌+◌, chunks, ◌≤◌, ℕ, zero, suc, ◌<◌, ◌^◌, ◌≡◌, refl, ap, sym,
  ◌∙◌, List, [], ◌∷◌, ◌++◌, length, concat, All, true, append_assoc, IsPiece, take_all,
}
use mix_tor.Base.Random.{Rng}
use mix_tor.Cell.{encode_close_cell, cell_bytes, cell_payload, encode_real_cell, decode_real_cell}
use mix_tor.Cell.RoundTrip.{
  length-encode_close_cell, decode-encode_close_cell, length-encode_real_cell,
  decode-encode_real_cell,
}
use mix_tor.Reader.{
  send_close, done, stream_reader, receiver_gone, drained, read_loop, Source, eof, failed, got,
  send_chunks,
}

-- The bytes that a loop reads: those in front of the first empty read, end or error.
abbrev pub bytes_of : Source → List ℕ
bytes_of eof = []
bytes_of failed = []
bytes_of (got [] rest) = []
bytes_of (got (b ∷ bs) rest) = b ∷ (bs ++ bytes_of rest)

-- The stream ends by itself, with no error.
abbrev pub EndsWell : Source → Type 0
EndsWell eof = Unit {0}
EndsWell failed = ⊥
EndsWell (got [] rest) = Unit {0}
EndsWell (got (b ∷ bs) rest) = EndsWell rest

abbrev pub payloads : List (List ℕ) → List ℕ
payloads [] = []
payloads (c ∷ cs) = (decode_real_cell c).1 ++ payloads cs

-- A data cell of stream `id`: of the fixed size, tagged, and no close sentinel.
abbrev pub IsDataCell : ℕ → List ℕ → Type 0
IsDataCell id c =
    (length c ≡ cell_bytes) × ((decode_real_cell c).0 ≡ id) × (0 < length (decode_real_cell c).1)

payloads-append : (xs ys : List (List ℕ)) → payloads (xs ++ ys) ≡ payloads xs ++ payloads ys
payloads-append [] ys = refl
payloads-append (c ∷ xs) ys =
    rw (payloads-append xs ys)
      (sym (append_assoc (decode_real_cell c).1 (payloads xs) (payloads ys)))

module _ (g : Rng) (id : ℕ) (small : id < 2 ^ 16) where
  piece_decodes :
      (c : List ℕ) (s : Rng.State g)
      → IsPiece cell_payload c
      → decode_real_cell (encode_real_cell g id c s).0 ≡ (id, c)
  piece_decodes c s h =
      decode-encode_real_cell g id c s small ∙ ap (λ t. (id, t)) (take_all cell_payload c h.1)

  piece-IsDataCell :
      (c : List ℕ) (s : Rng.State g)
      → IsPiece cell_payload c
      → IsDataCell id (encode_real_cell g id c s).0
  piece-IsDataCell c s h = rw (piece_decodes c s h) (length-encode_real_cell g id c s, refl, h.0)

  send_chunks-IsDataCell :
      (cs : List (List ℕ)) (s : Rng.State g) (room : ℕ)
      → All (IsPiece cell_payload) cs
      → All (IsDataCell id) (send_chunks g id cs s room).0
  unfolding send_chunks
  send_chunks-IsDataCell [] s room h = tt
  send_chunks-IsDataCell (c ∷ cs) s zero h = tt
  send_chunks-IsDataCell (c ∷ cs) s (suc room) h =
      (piece-IsDataCell c s h.0, send_chunks-IsDataCell cs (encode_real_cell g id c s).1 room h.1)

  -- The cells sent hold a first part of the bytes, and all of them while the receiver is there.
  send_chunks-payloads :
      (cs : List (List ℕ)) (s : Rng.State g) (room : ℕ)
      → All (IsPiece cell_payload) cs
      → let (sent, alive, _, _) = send_chunks g id cs s room in
        (rest : List ℕ) × (concat cs ≡ payloads sent ++ rest) × (alive ≡ true → rest ≡ [])
  unfolding send_chunks
  send_chunks-payloads [] s room h = ([], refl, λ _. refl)
  send_chunks-payloads (c ∷ cs) s zero h = (concat (c ∷ cs), refl, λ e. cc)
  send_chunks-payloads (c ∷ cs) s (suc room) h =
      let (rest, e, whole) = send_chunks-payloads cs (encode_real_cell g id c s).1 room h.1 in
      (rest, rw (piece_decodes c s h.0, e) (sym (append_assoc c _ rest)), whole)

  pub read_loop-IsDataCell :
      (src : Source) (s : Rng.State g) (room : ℕ)
      → All (IsDataCell id) (read_loop g id src s room).0
  unfolding read_loop
  read_loop-IsDataCell eof s room = tt
  read_loop-IsDataCell failed s room = tt
  read_loop-IsDataCell (got [] rest) s room = tt
  read_loop-IsDataCell (got (b ∷ bs) rest) s room =
      let cs = chunks cell_payload (b ∷ bs) in
      let here =
        send_chunks-IsDataCell cs s room (chunks-IsPiece cell_payload (b ∷ bs) (omega arith)) in
      let (_, alive, s', room') = send_chunks g id cs s room in
      elim (Bool-cases alive) [
        | inl e ↦ rw (e, read_loop) (All-append _ _ _ here (read_loop-IsDataCell rest s' room'))
        | inr e ↦ rw (e, read_loop) here
      ]

  -- What goes into the channel is a first part of what was read, and all of it unless the receiver
  -- is dropped.
  pub read_loop-payloads :
      (src : Source) (s : Rng.State g) (room : ℕ)
      → let (sent, ending, _, _) = read_loop g id src s room in
        (rest : List ℕ) × (bytes_of src ≡ payloads sent ++ rest)
        × (ending ≢ receiver_gone → rest ≡ [])
  unfolding read_loop
  read_loop-payloads eof s room = ([], refl, λ _. refl)
  read_loop-payloads failed s room = ([], refl, λ _. refl)
  read_loop-payloads (got [] rest) s room = ([], refl, λ _. refl)
  read_loop-payloads (got (b ∷ bs) rest) s room =
      let cs = chunks cell_payload (b ∷ bs) in
      let whole : concat cs ≡ b ∷ bs = concat-chunks cell_payload (b ∷ bs) (omega arith) in
      let (sent, alive, s', room') = send_chunks g id cs s room in
      let (left, e, all_sent) =
        send_chunks-payloads cs s room (chunks-IsPiece cell_payload (b ∷ bs) (omega arith)) in
      let (unread, f, finished) = read_loop-payloads rest s' room' in
      let more = (read_loop g id rest s' room').0 in
      let split : (b ∷ bs) ++ bytes_of rest ≡ payloads sent ++ (left ++ bytes_of rest) =
        ap (λ t. t ++ bytes_of rest) (sym whole ∙ e) ∙ append_assoc (payloads sent) left _ in
      let join : payloads sent ++ (payloads more ++ unread) ≡ payloads (sent ++ more) ++ unread =
        sym (ap (λ t. t ++ unread) (payloads-append sent more) ∙ append_assoc _ _ unread) in
      elim (Bool-cases alive) [
        | inl a ↦ rw (a, read_loop) (unread, split ∙ rw (all_sent a, f) join, finished)
        | inr a ↦ rw (a, read_loop) (left ++ bytes_of rest, split, λ n. absurd (n refl))
      ]

  -- With room for every byte the receiver is not dropped, and a byte takes one place at most.
  send_chunks_alive :
      (cs : List (List ℕ)) (s : Rng.State g) (room : ℕ)
      → length cs ≤ room
      → ((send_chunks g id cs s room).1 ≡ true)
        × ((send_chunks g id cs s room).3 + length cs ≡ room)
  unfolding send_chunks
  send_chunks_alive [] s room h = (refl, omega arith)
  send_chunks_alive (c ∷ cs) s zero h = absurd (omega arith)
  send_chunks_alive (c ∷ cs) s (suc room) h =
      let (a, b) = send_chunks_alive cs (encode_real_cell g id c s).1 room (omega arith) in
      (a, omega arith)

  read_loop_drained :
      (src : Source) (s : Rng.State g) (room : ℕ)
      → EndsWell src
      → length (bytes_of src) ≤ room
      → ((read_loop g id src s room).1 ≡ drained)
        × (room ≤ (read_loop g id src s room).3 + length (bytes_of src))
  unfolding read_loop
  read_loop_drained eof s room w h = (refl, omega arith)
  read_loop_drained failed s room w h = absurd w
  read_loop_drained (got [] rest) s room w h = (refl, omega arith)
  read_loop_drained (got (b ∷ bs) rest) s room w h =
      let cs = chunks cell_payload (b ∷ bs) in
      let few = length-chunks-le cell_payload (b ∷ bs) (omega arith) in
      let total = length-append (b ∷ bs) (bytes_of rest) in
      let (a, left) = send_chunks_alive cs s room (omega arith) in
      let (d, r) =
        read_loop_drained rest (send_chunks g id cs s room).2 (send_chunks g id cs s room).3 w
          (omega arith) in
      rw (a, read_loop) (d, omega arith)

  -- What a reader does with a stream that ends by itself while the channel has room for all of it:
  -- it sends data cells of the stream whose payloads are the bytes read, and then one close cell.
  pub stream_reader_delivers :
      (src : Source) (s : Rng.State g) (room : ℕ)
      → EndsWell src
      → length (bytes_of src) < room
      → (cells : List (List ℕ)) × (close : List ℕ) × (stream_reader g id src s room
          ≡ (cells ++ (close ∷ []), done))
        × All (IsDataCell id) cells
        × (payloads cells ≡ bytes_of src)
        × (decode_real_cell close ≡ (id, []))
        × (length close ≡ cell_bytes)
  unfolding stream_reader
  stream_reader_delivers src s room w h =
      let (sent, ending, s', room') = read_loop g id src s room in
      let (d, left) = read_loop_drained src s room w (omega arith) in
      let (rest, e, whole) = read_loop-payloads src s room in
      let here : room' ≡ suc (room' - 1) = omega arith in
      let nothing : rest ≡ [] = whole (λ g. cc) in
      (
        sent,
        (encode_close_cell g id s').0,
        rw (d, stream_reader, here, send_close) refl,
        read_loop-IsDataCell src s room,
        sym (e ∙ rw (nothing, append-nil) refl),
        decode-encode_close_cell g id s' small,
        length-encode_close_cell g id s',
      )
