-- ===== src/MuxServer/Admission.antt =====
-- What a round of the server does with the first cell of a stream, with a later one, and with a close cell.
use mix_tor.Base.{
  ◌-◌, lt→leb_false, le→leb, take_all, suc, true, ap, ◌∙◌, ◌≢◌, ◌≡◌, length, List, ◌^◌, ℕ, ◌∷◌, [],
  refl, none, some, arith, ◌≤◌, ◌<◌,
}
use mix_tor.Base.Random.{Rng}
use mix_tor.StreamMap.{
  lookup, remove, lookup-insert-same, lookup-insert-other, lookup-remove-same, lookup-remove-other,
}
use mix_tor.Cell.{cell_payload, encode_real_cell, encode_close_cell, decode_real_cell}
use mix_tor.Cell.RoundTrip.{decode-encode_real_cell, decode-encode_close_cell}
use mix_tor.Frame.{kind_real}
use mix_tor.Tail.{TailPolicy}
use mix_tor.MuxClient.{SendResult, sent}
use mix_tor.MuxServer.{
  Claim, reserves, settle, Server, continues, too_many_streams, nothing, max_streams_per_wire,
  max_global_bridge_streams, on_frame, route, after_send, spawn, has_relay, gate_until,
}

module _ (g : Rng) (id : ℕ) (small : id < 2 ^ 16) (s : Server) (tail : TailPolicy) (now : ℕ)
    (tries : ℕ → SendResult) (pad : Rng.State g) where
  on_data :
      (payload : List ℕ) (from : Rng.State g)
      → 0 < length payload
      → length payload ≤ cell_payload
      → on_frame g s kind_real (encode_real_cell g id payload from).0 tries pad
        ≡ route s id payload (lookup id s.stream_map) tries
  unfolding on_frame
  on_data [] from h k = absurd (omega arith)
  on_data (b ∷ bs) from h k =
      let decoded : decode_real_cell (encode_real_cell g id (b ∷ bs) from).0 ≡ (id, b ∷ bs) =
        decode-encode_real_cell g id (b ∷ bs) from small
        ∙ ap (λ t. (id, t)) (take_all cell_payload (b ∷ bs) k) in
      rw decoded refl

  -- The first cell of a stream, with a non-empty payload. At 512 streams of the wire it ends the wire
  -- with an error; below that the shared counter is raised. If it stood at 4,096 then, the cell is ignored
  -- and the counter lowered; else, and if the new channel takes it, a relay is spawned behind the gate of
  -- the tail policy, the payload goes to it, the counter stays raised, the id is found in the map, and no
  -- other stream changes.
  pub on_frame_first_cell :
      (payload : List ℕ) (from : Rng.State g)
      → 0 < length payload
      → length payload ≤ cell_payload
      → lookup id s.stream_map ≡ none
      → let out = on_frame g s kind_real (encode_real_cell g id payload from).0 tries pad in
        let s₁ : Server = record s { global_bridge_streams = suc s.global_bridge_streams } in
        let c : Claim = record { id = id; payload = payload; prev = s.global_bridge_streams } in
        (max_streams_per_wire ≤ length s.stream_map → out ≡ too_many_streams)
        × (length s.stream_map < max_streams_per_wire → out ≡ reserves s₁ c)
        × (max_global_bridge_streams ≤ s.global_bridge_streams
            → settle s₁ c tail now tries ≡ continues s nothing)
        × (s.global_bridge_streams < max_global_bridge_streams
            → tries s.fresh ≡ sent
            → (s' : Server) × (settle s₁ c tail now tries
                ≡ continues s' (record {
                  close_cell = none;
                  routed = some (s.fresh, payload);
                  gate = some (gate_until tail now);
                }))
              × (lookup id s'.stream_map ≡ some s.fresh)
              × ((j : ℕ) → j ≢ id → lookup j s'.stream_map ≡ lookup j s.stream_map)
              × (has_relay s.fresh s'.relays ≡ true)
              × (s'.global_bridge_streams ≡ suc s.global_bridge_streams))
  unfolding route spawn after_send settle
  on_frame_first_cell payload from h k absent =
      let run = on_data payload from h k in
      let s₁ : Server = record s { global_bridge_streams = suc s.global_bridge_streams } in
      let n = s.global_bridge_streams in
      let lowered : suc n - 1 ≡ n = omega arith in
      rw (run, absent, route)
        (
          λ m. rw (le→leb max_streams_per_wire (length s.stream_map) m) refl,
          λ m. rw (lt→leb_false max_streams_per_wire (length s.stream_map) m) refl,
          λ m.
              rw (le→leb max_global_bridge_streams n m)
                (ap (λ b. continues (record s { global_bridge_streams = b }) nothing) lowered),
          λ m r. (
            spawn s₁ id,
            rw (lt→leb_false max_global_bridge_streams n m, r) refl,
            lookup-insert-same id s.fresh s.stream_map,
            λ j d. lookup-insert-other id j s.fresh s.stream_map d,
            ground arith,
            refl,
          ),
        )

  -- A close cell of the client: the server drops the stream alone, and answers with one close cell of the
  -- same id.
  pub on_frame_close :
      (from : Rng.State g)
      → (s' : Server) × (close : List ℕ) × (on_frame g s kind_real
            (encode_close_cell g id from).0
            tries
            pad
          ≡ continues s' (record { close_cell = some close; routed = none; gate = none }))
        × (decode_real_cell close ≡ (id, []))
        × (lookup id s'.stream_map ≡ none)
        × ((j : ℕ) → j ≢ id → lookup j s'.stream_map ≡ lookup j s.stream_map)
  unfolding on_frame
  on_frame_close from = (
    record s { stream_map = remove id s.stream_map },
    (encode_close_cell g id pad).0,
    rw (decode-encode_close_cell g id from small) refl,
    decode-encode_close_cell g id pad small,
    lookup-remove-same id s.stream_map,
    λ j d. lookup-remove-other id j s.stream_map d,
  )
