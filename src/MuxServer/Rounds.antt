-- ===== src/MuxServer/Rounds.antt =====
-- What a round of a wire of the server's mux does to the shared counter and the caps, src/transport.rs.
use mix_tor.Base.{
  false, if◌then◌else◌, leb_false→lt, inr, inl, leb, ◌==◌, suc, Bool-cases, Option, ◌+◌, List,
  length, ℕ, ◌≡◌, none, some, arith, ◌≤◌, ◌<◌,
}
use mix_tor.Base.Random.{Rng}
use mix_tor.StreamMap.{
  lookup, remove, insert, IsDistinct, remove-IsDistinct, insert-IsDistinct, length-remove-le,
}
use mix_tor.Cell.{decode_real_cell}
use mix_tor.Tail.{TailPolicy}
use mix_tor.MuxClient.{SendResult, sent, closed, full}
use mix_tor.MuxServer.{
  Claim, reserves, settle, is_empty, kind_real, Server, Round, continues, too_many_streams,
  max_streams_per_wire, max_global_bridge_streams, on_frame, route, after_send, spawn, gate_until,
}

-- The wire's loop with the other tasks: `claim` is there while the loop stands between `fetch_add` and the
-- test, and `refused` counts the rounds of other wires that are about to lower the counter again.
pub record World : Type 0 where
  pub server : Server
  pub claim : Option Claim
  pub refused : ℕ

-- Whether the loop's raise of the counter will become a relay.
abbrev pub granted : Option Claim → ℕ
granted none = 0
granted (some c) = if leb max_global_bridge_streams c.prev then 0 else 1

abbrev pub raised : Option Claim → ℕ
raised none = 0
raised (some c) = 1

-- The shared counter counts the running relays of all wires and the raises that stand, the relays that
-- run or are about to stay under the cap, and so do the wire's streams.
pub record IsWell (w : World) : Type 0 where
  pub counted :
      w.server.global_bridge_streams
      ≡ length w.server.relays + w.server.others + raised w.claim + w.refused
  pub global_cap :
      length w.server.relays + w.server.others + granted w.claim ≤ max_global_bridge_streams
  pub wire_cap : length w.server.stream_map + raised w.claim ≤ max_streams_per_wire
  pub distinct : IsDistinct w.server.stream_map

abbrev pub idle : Server → ℕ → World
idle s refused = record { server = s; claim = none; refused = refused }

remove-IsWell :
    (s : Server) (id refused : ℕ)
    → IsWell (idle s refused)
    → IsWell (idle (record s { stream_map = remove id s.stream_map }) refused)
remove-IsWell s id refused w = record {
  counted = w.counted;
  global_cap = w.global_cap;
  wire_cap = omega (arith, length-remove-le id s.stream_map, w.wire_cap);
  distinct = remove-IsDistinct id s.stream_map w.distinct;
}

-- The state after a round, or between its two parts.
abbrev pub Ends : Round → ℕ → Type 0
Ends (continues s e) refused = IsWell (idle s refused)
Ends too_many_streams refused = Unit {0}
Ends (reserves s c) refused = IsWell (record { server = s; claim = some c; refused = refused })

after_send-IsWell :
    (s : Server) (id tx refused : ℕ) (payload : List ℕ) (gate : Option ℕ) (r : SendResult)
    → IsWell (idle s refused)
    → Ends (after_send s id tx payload gate r) refused
unfolding after_send
after_send-IsWell s id tx refused payload gate sent w = w
after_send-IsWell s id tx refused payload gate closed w = remove-IsWell s id refused w
after_send-IsWell s id tx refused payload gate full w = w

-- The counter is raised: the claim is granted only where the counter was below the cap.
claim-IsWell :
    (s : Server) (id refused : ℕ) (payload : List ℕ)
    → IsWell (idle s refused)
    → length s.stream_map < max_streams_per_wire
    → IsWell (record {
      server = record s { global_bridge_streams = suc s.global_bridge_streams };
      claim = some (record { id = id; payload = payload; prev = s.global_bridge_streams });
      refused = refused;
    })
claim-IsWell s id refused payload w h = record {
  counted = omega (arith, w.counted);
  global_cap = elim (Bool-cases (leb max_global_bridge_streams s.global_bridge_streams)) [
    | inl e ↦ rw e (omega (arith, w.global_cap))
    | inr e ↦
        let below = leb_false→lt max_global_bridge_streams s.global_bridge_streams e in
        rw e (omega (arith, w.counted, below))
  ];
  wire_cap = omega arith;
  distinct = w.distinct;
}

route-IsWell :
    (s : Server) (id refused : ℕ) (payload : List ℕ) (to : Option ℕ) (tries : ℕ → SendResult)
    → IsWell (idle s refused)
    → Ends (route s id payload to tries) refused
unfolding route
route-IsWell s id refused payload (some tx) tries w =
    after_send-IsWell s id tx refused payload none (tries tx) w
route-IsWell s id refused payload none tries w =
    elim (Bool-cases (leb max_streams_per_wire (length s.stream_map))) [
      | inl e ↦ rw e tt
      | inr e ↦ rw e (
          claim-IsWell s id refused payload w
            (leb_false→lt max_streams_per_wire (length s.stream_map) e))
    ]

-- A granted claim becomes a relay.
spawn-IsWell :
    (s : Server) (c : Claim) (refused : ℕ)
    → IsWell (record { server = s; claim = some c; refused = refused })
    → leb max_global_bridge_streams c.prev ≡ false
    → IsWell (idle (spawn s c.id) refused)
unfolding spawn insert
spawn-IsWell s c refused w e =
    let cap : length s.relays + s.others + 1 ≤ max_global_bridge_streams = rw e at w.global_cap in
    record {
      counted = omega (arith, w.counted);
      global_cap = omega (arith, cap);
      wire_cap = omega (arith, w.wire_cap, length-remove-le c.id s.stream_map);
      distinct = insert-IsDistinct c.id s.fresh s.stream_map w.distinct;
    }

pub settle-IsWell :
    (s : Server) (c : Claim) (refused : ℕ) (tail : TailPolicy) (now : ℕ) (tries : ℕ → SendResult)
    → IsWell (record { server = s; claim = some c; refused = refused })
    → Ends (settle s c tail now tries) refused
unfolding settle
settle-IsWell s c refused tail now tries w =
    elim (Bool-cases (leb max_global_bridge_streams c.prev)) [
      | inl e ↦ rw e (record {
        counted = omega (arith, w.counted);
        global_cap = omega (arith, w.global_cap);
        wire_cap = omega (arith, w.wire_cap);
        distinct = w.distinct;
      })
      | inr e ↦ rw e (
          after_send-IsWell (spawn s c.id) c.id s.fresh refused c.payload
            (some (gate_until tail now)) (tries s.fresh) (spawn-IsWell s c refused w e))
    ]

module _ (g : Rng) where
  pub on_frame-IsWell :
      (s : Server) (refused kind : ℕ) (cell : List ℕ) (tries : ℕ → SendResult) (pad : Rng.State g)
      → IsWell (idle s refused)
      → Ends (on_frame g s kind cell tries pad) refused
  unfolding on_frame
  on_frame-IsWell s refused kind cell tries pad w =
      let (id, payload) = decode_real_cell cell in
      elim (Bool-cases (kind == kind_real)) [
        | inr e ↦ rw e w
        | inl e ↦ elim (Bool-cases (is_empty payload)) [
          | inl f ↦ rw (e, f) (remove-IsWell s id refused w)
          | inr f ↦ rw (e, f) (route-IsWell s id refused payload (lookup id s.stream_map) tries w)
        ]
      ]
