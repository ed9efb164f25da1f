-- ===== src/MuxServer/Tests.antt =====
-- Runs of the server's mux.
use mix_tor.Base.{suc, ◌<◌, length, ◌≢◌, ◌≤◌, arith, ◌≡◌, List, ℕ, [], ◌∷◌, refl, none, some, true}
use mix_tor.Samples.{zeros}
use mix_tor.StreamMap.{insert, lookup}
use mix_tor.Cell.{encode_real_cell, encode_close_cell, decode_real_cell}
use mix_tor.Frame.{kind_real}
use mix_tor.Tail.{off}
use mix_tor.MuxClient.{SendResult, sent}
use mix_tor.MuxServer.{
  Claim, reserves, settle, Server, continues, too_many_streams, nothing, on_frame, has_relay,
  relay_ends, gate_until, max_streams_per_wire, max_global_bridge_streams,
}
use mix_tor.MuxServer.Caps.{
  reserved, settled, other_reserved, Reachable, start, then_step, relay_ended, Reachable-IsWell,
}
use mix_tor.MuxServer.Rounds.{IsWell, World}
use mix_tor.MuxServer.Admission.{on_frame_first_cell, on_frame_close}

-- A wire that starts while 7 relays of other wires run.
abbrev fresh_wire : Server
fresh_wire = record {
  stream_map = [];
  global_bridge_streams = 7;
  relays = [];
  others = 7;
  fresh = 0;
}

abbrev takes_all : ℕ → SendResult
takes_all tx = sent

abbrev opened : Server
opened = record {
  stream_map = (5, 0) ∷ [];
  global_bridge_streams = 8;
  relays = 0 ∷ [];
  others = 7;
  fresh = 1;
}

abbrev first_claim : Claim
first_claim = record { id = 5; payload = 1 ∷ 2 ∷ []; prev = 7 }

-- The counter is raised.
abbrev raised_wire : Server
raised_wire = record fresh_wire { global_bridge_streams = 8 }

opens :
    on_frame zeros fresh_wire kind_real (encode_real_cell zeros 5 (1 ∷ 2 ∷ []) 0).0 takes_all 0
    ≡ reserves raised_wire first_claim
unfolding on_frame encode_real_cell decode_real_cell lookup
opens = refl

settles :
    settle
      (record raised_wire { global_bridge_streams = 9; others = 8 })
      first_claim
      off
      100
      takes_all
    ≡ continues
        (record opened { global_bridge_streams = 9; others = 8 })
        (record { close_cell = none; routed = some (0, 1 ∷ 2 ∷ []); gate = some 100 })
unfolding settle gate_until insert
settles = refl

abbrev last_world : World
last_world = record {
  server = relay_ends (record opened { global_bridge_streams = 9; others = 8 }) 0;
  claim = none;
  refused = 0;
}

-- A stream opens while a relay of another wire starts, and its relay ends.
history : Reachable zeros 7 last_world
history =
    then_step
      (then_step
        (then_step (then_step start (reserved kind_real _ takes_all 0 first_claim opens))
          (other_reserved (omega arith)))
        (settled first_claim off 100 takes_all _ settles))
      (relay_ended 0 refl)

Reachable-IsWell_example : IsWell last_world
Reachable-IsWell_example = Reachable-IsWell zeros 7 last_world (omega arith) history

no_stream_6 : lookup 6 opened.stream_map ≡ none
unfolding lookup
no_stream_6 = refl

abbrev second_claim : Claim
second_claim = record { id = 6; payload = 3 ∷ []; prev = 8 }

on_frame_first_cell_run :
    let out = on_frame zeros opened kind_real (encode_real_cell zeros 6 (3 ∷ []) 4).0 takes_all 0 in
    let s₁ : Server = record opened { global_bridge_streams = 9 } in
    (max_streams_per_wire ≤ length opened.stream_map → out ≡ too_many_streams)
    × (length opened.stream_map < max_streams_per_wire → out ≡ reserves s₁ second_claim)
    × (max_global_bridge_streams ≤ opened.global_bridge_streams
        → settle s₁ second_claim off 100 takes_all ≡ continues opened nothing)
    × (opened.global_bridge_streams < max_global_bridge_streams
        → takes_all opened.fresh ≡ sent
        → (s' : Server) × (settle s₁ second_claim off 100 takes_all
            ≡ continues s' (record {
              close_cell = none;
              routed = some (opened.fresh, 3 ∷ []);
              gate = some (gate_until off 100);
            }))
          × (lookup 6 s'.stream_map ≡ some opened.fresh)
          × ((j : ℕ) → j ≢ 6 → lookup j s'.stream_map ≡ lookup j opened.stream_map)
          × (has_relay opened.fresh s'.relays ≡ true)
          × (s'.global_bridge_streams ≡ suc opened.global_bridge_streams))
on_frame_first_cell_run =
    on_frame_first_cell zeros 6 (omega arith) opened off 100 takes_all 0 (3 ∷ []) 4 (omega arith)
      (omega arith) no_stream_6

on_frame_close_run :
    (s' : Server) × (close : List ℕ) × (on_frame zeros opened kind_real
        (encode_close_cell zeros 5 0).0
        takes_all
        0
      ≡ continues s' (record { close_cell = some close; routed = none; gate = none }))
    × (decode_real_cell close ≡ (5, []))
    × (lookup 5 s'.stream_map ≡ none)
    × ((j : ℕ) → j ≢ 5 → lookup j s'.stream_map ≡ lookup j opened.stream_map)
on_frame_close_run = on_frame_close zeros 5 (omega arith) opened off 100 takes_all 0 0
