-- ===== src/MuxServer/Caps.antt =====
-- The two caps on streams, and the count of relays, over every sequence of rounds and relay ends, with
-- the steps of other tasks between `fetch_add` on the shared counter and its test.
use mix_tor.Base.{
  inr, inl, leb, ◌-◌, suc, Bool-cases, Option, true, List, length, ℕ, ◌≡◌, ◌∷◌, [], none, some,
  arith, ◌≤◌, ◌<◌,
}
use mix_tor.Base.Random.{Rng}
use mix_tor.Tail.{TailPolicy}
use mix_tor.MuxClient.{SendResult}
use mix_tor.MuxServer.Rounds.{World, IsWell, granted, raised, idle, settle-IsWell, on_frame-IsWell}
use mix_tor.MuxServer.{
  Claim, reserves, settle, Server, Effects, continues, max_global_bridge_streams, on_frame,
  has_relay, drop_relay, relay_ends,
}

-- A claim is granted at most once.
other_grants : (c : Option Claim) → granted c ≤ raised c
other_grants none = omega arith
other_grants (some c) = elim (Bool-cases (leb max_global_bridge_streams c.prev)) [
  | inl e ↦ rw e (omega arith)
  | inr e ↦ rw e (omega arith)
]

length-drop_relay :
    (c : ℕ) (cs : List ℕ) → has_relay c cs ≡ true → suc (length (drop_relay c cs)) ≡ length cs
length-drop_relay c [] h = cc
length-drop_relay c (d ∷ ds) h = ground (arith, length-drop_relay c ds)

relay_ends-IsWell :
    (w : World) (c : ℕ)
    → IsWell w
    → has_relay c w.server.relays ≡ true
    → IsWell (record w { server = relay_ends w.server c })
unfolding relay_ends
relay_ends-IsWell w c h e =
    let fewer = length-drop_relay c w.server.relays e in
    record {
      counted = omega (arith, fewer, h.counted);
      global_cap = omega (arith, fewer, h.global_cap);
      wire_cap = h.wire_cap;
      distinct = h.distinct;
    }

module _ (g : Rng) where
  -- What can happen to a wire: the two parts of a round, the end of one of its relays, and the same of
  -- other wires, each of which is one step on the shared counter.
  pub data Step : World → World → Type 0 where
    frame :
        {s s' : Server} {refused : ℕ} (kind : ℕ) (cell : List ℕ) (tries : ℕ → SendResult)
        (pad : Rng.State g) (out : Effects)
        → on_frame g s kind cell tries pad ≡ continues s' out
        → Step (idle s refused) (idle s' refused)
    reserved :
        {s s' : Server} {refused : ℕ} (kind : ℕ) (cell : List ℕ) (tries : ℕ → SendResult)
        (pad : Rng.State g) (c : Claim)
        → on_frame g s kind cell tries pad ≡ reserves s' c
        → Step (idle s refused) (record { server = s'; claim = some c; refused = refused })
    settled :
        {s s' : Server} {refused : ℕ} (c : Claim) (tail : TailPolicy) (now : ℕ)
        (tries : ℕ → SendResult) (out : Effects)
        → settle s c tail now tries ≡ continues s' out
        → Step (record { server = s; claim = some c; refused = refused }) (idle s' refused)
    relay_ended :
        {w : World} (c : ℕ)
        → has_relay c w.server.relays ≡ true
        → Step w (record w { server = relay_ends w.server c })
    other_reserved :
        {w : World}
        → w.server.global_bridge_streams < max_global_bridge_streams
        → Step w (record w {
          server = record w.server {
            global_bridge_streams = suc w.server.global_bridge_streams;
            others = suc w.server.others;
          };
        })
    other_refused :
        {w : World}
        → max_global_bridge_streams ≤ w.server.global_bridge_streams
        → Step w (record w {
          server = record w.server { global_bridge_streams = suc w.server.global_bridge_streams };
          refused = suc w.refused;
        })
    other_lowered :
        {w : World}
        → 0 < w.refused
        → Step w (record w {
          server = record w.server { global_bridge_streams = w.server.global_bridge_streams - 1 };
          refused = w.refused - 1;
        })
    other_ended :
        {w : World}
        → 0 < w.server.others
        → Step w (record w {
          server = record w.server {
            global_bridge_streams = w.server.global_bridge_streams - 1;
            others = w.server.others - 1;
          };
        })

  pub data Reachable (others : ℕ) : World → Type 0 where
    start : Reachable others (record {
      server = record {
        stream_map = [];
        global_bridge_streams = others;
        relays = [];
        others = others;
        fresh = 0;
      };
      claim = none;
      refused = 0;
    })
    then_step : {w w' : World} → Reachable others w → Step w w' → Reachable others w'

  Step-IsWell : {w w' : World} → Step w w' → IsWell w → IsWell w'
  Step-IsWell (frame {s = s} {refused = r} k c ts p out e) w =
      rw e at (on_frame-IsWell g s r k c ts p w)
  Step-IsWell (reserved {s = s} {refused = r} k c ts p d e) w =
      rw e at (on_frame-IsWell g s r k c ts p w)
  Step-IsWell (settled {s = s} {refused = r} c t n ts out e) w =
      rw e at (settle-IsWell s c r t n ts w)
  Step-IsWell (relay_ended {w = v} c h) w = relay_ends-IsWell v c w h
  Step-IsWell (other_reserved {w = v} h) w = record {
    counted = omega (arith, w.counted);
    global_cap = omega (arith, w.counted, other_grants v.claim);
    wire_cap = w.wire_cap;
    distinct = w.distinct;
  }
  Step-IsWell (other_refused {w = v} h) w = record {
    counted = omega (arith, w.counted);
    global_cap = w.global_cap;
    wire_cap = w.wire_cap;
    distinct = w.distinct;
  }
  Step-IsWell (other_lowered {w = v} h) w = record {
    counted = omega (arith, w.counted);
    global_cap = w.global_cap;
    wire_cap = w.wire_cap;
    distinct = w.distinct;
  }
  Step-IsWell (other_ended {w = v} h) w = record {
    counted = omega (arith, w.counted);
    global_cap = omega (arith, w.global_cap);
    wire_cap = w.wire_cap;
    distinct = w.distinct;
  }

  -- In every state that a wire reaches, whatever frames its client sends, however relays end and in
  -- whatever order the tasks' steps on the shared counter come: the counter is the number of running
  -- relays of all wires and of the raises that were not settled yet, the relays that run or that a raise
  -- of this wire will start are at most 4,096, the wire has at most 512 streams, and no id stands twice
  -- in its map. `others` relays of other wires run at its start, a relay of another wire counts from its
  -- raise on, and no raise is open.
  pub Reachable-IsWell :
      (others : ℕ) (w : World) → others ≤ max_global_bridge_streams → Reachable others w → IsWell w
  Reachable-IsWell others w h start = record {
    counted = omega arith;
    global_cap = omega arith;
    wire_cap = omega arith;
    distinct = tt;
  }
  Reachable-IsWell others w h (then_step r t) = Step-IsWell t (Reachable-IsWell others _ h r)
