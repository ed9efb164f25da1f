-- ===== src/Gates/Permits.antt =====
-- The permits of the server over every sequence of connections, src/transport.rs and
-- src/bin/mixtor-server.rs.
use mix_tor.Base.{
  sym, ap, ◌∙◌, if_true, if_false, ℕ, ◌+◌, ◌≤◌, ◌<◌, [], ◌∷◌, none, some, ok, err, ◌≡◌, refl, arith,
  ◌==◌, Bool-cases, inl, inr,
}
use mix_tor.Gates.{
  Task, handshaking, blackholed, serving, Tasks, find, becomes, ends, Server, started, accept,
  Outcome, established, handshake_done, returns, max_concurrent_handshakes, max_total_connections,
}

-- The permits that a task holds.
abbrev pub gate : Task → ℕ
gate handshaking = 1
gate blackholed = 1
gate serving = 0

abbrev pub seat : Task → ℕ
seat handshaking = 0
seat blackholed = 0
seat serving = 1

abbrev pub total : (Task → ℕ) → Tasks → ℕ
total w [] = 0
total w ((j, t) ∷ ts) = w t + total w ts

total-becomes :
    (w : Task → ℕ) (id : ℕ) (t u : Task) (ts : Tasks)
    → find id ts ≡ some u
    → total w (becomes id t ts) + w u ≡ total w ts + w t
unfolding find becomes
total-becomes w id t u [] e = cc e
total-becomes w id t u ((j, v) ∷ ts) e = elim (Bool-cases (j == id)) [
  | inl h ↦
      let same : some v ≡ some u = sym (if_true _ _ _ h) ∙ e in
      let weight : w v ≡ w u = let v≡u : v ≡ u = cc same in ap w v≡u in rw h (omega (arith, weight))
  | inr h ↦
      let later : find id ts ≡ some u = sym (if_false _ _ _ h) ∙ e in
      rw h (omega (arith, total-becomes w id t u ts later))
]

total-ends :
    (w : Task → ℕ) (id : ℕ) (u : Task) (ts : Tasks)
    → find id ts ≡ some u
    → total w (ends id ts) + w u ≡ total w ts
unfolding find ends
total-ends w id u [] e = cc e
total-ends w id u ((j, v) ∷ ts) e = elim (Bool-cases (j == id)) [
  | inl h ↦
      let same : some v ≡ some u = sym (if_true _ _ _ h) ∙ e in
      let weight : w v ≡ w u = let v≡u : v ≡ u = cc same in ap w v≡u in rw h (omega (arith, weight))
  | inr h ↦
      let later : find id ts ≡ some u = sym (if_false _ _ _ h) ∙ e in
      rw h (omega (arith, total-ends w id u ts later))
]

-- Every permit is free or held by a task.
pub record IsWell (s : Server) : Type 0 where
  pub gates : s.handshakes + total gate s.tasks ≡ max_concurrent_handshakes
  pub seats : s.connections + total seat s.tasks ≡ max_total_connections

-- What happens to the server: a connection comes in, a handshake comes back or times out, and a
-- blackholed or served connection ends.
pub data Step : Server → Server → Type 0 where
  comes : {s : Server} → Step s (accept s)
  shakes :
      {s : Server} (id : ℕ) (out : Outcome)
      → find id s.tasks ≡ some handshaking
      → Step s (handshake_done s id out)
  blackhole_ends :
      {s : Server} (id : ℕ) → find id s.tasks ≡ some blackholed → Step s (returns s id blackholed)
  service_ends :
      {s : Server} (id : ℕ) → find id s.tasks ≡ some serving → Step s (returns s id serving)

pub data Reachable : Server → Type 0 where
  at_start : Reachable started
  then_step : {s s' : Server} → Reachable s → Step s s' → Reachable s'

accept-IsWell : (s : Server) → IsWell s → IsWell (accept s)
unfolding accept
accept-IsWell s w = elim (Bool-cases (s.handshakes == 0)) [
  | inl h ↦ rw h w
  | inr h ↦
      let some_left : 0 < s.handshakes = ground (arith, h) in
      rw h (record { gates = omega (arith, w.gates); seats = omega (arith, w.seats) })
]

blackholed-IsWell :
    (s : Server) (id : ℕ)
    → IsWell s
    → find id s.tasks ≡ some handshaking
    → IsWell (record s { tasks = becomes id blackholed s.tasks })
blackholed-IsWell s id w e = record {
  gates = omega (arith, w.gates, total-becomes gate id blackholed handshaking s.tasks e);
  seats = omega (arith, w.seats, total-becomes seat id blackholed handshaking s.tasks e);
}

handshake_done-IsWell :
    (s : Server) (id : ℕ) (out : Outcome)
    → IsWell s
    → find id s.tasks ≡ some handshaking
    → IsWell (handshake_done s id out)
unfolding handshake_done established
handshake_done-IsWell s id none w e = blackholed-IsWell s id w e
handshake_done-IsWell s id (some (err x)) w e = blackholed-IsWell s id w e
handshake_done-IsWell s id (some (ok ciphers)) w e = elim (Bool-cases (s.connections == 0)) [
  | inl h ↦ rw h (record {
    gates = omega (arith, w.gates, total-ends gate id handshaking s.tasks e);
    seats = omega (arith, w.seats, total-ends seat id handshaking s.tasks e);
  })
  | inr h ↦
      let some_left : 0 < s.connections = ground (arith, h) in
      rw h (record {
        gates = omega (arith, w.gates, total-becomes gate id serving handshaking s.tasks e);
        seats = omega (arith, w.seats, total-becomes seat id serving handshaking s.tasks e);
      })
]

Step-IsWell : {s s' : Server} → Step s s' → IsWell s → IsWell s'
unfolding returns
Step-IsWell (comes {s}) w = accept-IsWell s w
Step-IsWell (shakes {s} id out e) w = handshake_done-IsWell s id out w e
Step-IsWell (blackhole_ends {s} id e) w = record {
  gates = omega (arith, w.gates, total-ends gate id blackholed s.tasks e);
  seats = omega (arith, w.seats, total-ends seat id blackholed s.tasks e);
}
Step-IsWell (service_ends {s} id e) w = record {
  gates = omega (arith, w.gates, total-ends gate id serving s.tasks e);
  seats = omega (arith, w.seats, total-ends seat id serving s.tasks e);
}

-- In every state that the server reaches, whatever connections come, however their handshakes come back
-- and in whatever order connections end, no permit is lost or doubled: the free permits of each
-- semaphore and the tasks that hold one make up its size. At most 512 connections are in their
-- handshake or blackholed, and at most 4,096 are served.
pub Reachable-IsPermitted :
    (s : Server)
    → Reachable s
    → IsWell s
      × (total gate s.tasks ≤ max_concurrent_handshakes)
      × (total seat s.tasks ≤ max_total_connections)
Reachable-IsPermitted s r = let w = well r in (w, omega (arith, w.gates), omega (arith, w.seats))
  where
    well : {s : Server} → Reachable s → IsWell s
    well at_start = record { gates = refl; seats = refl }
    well (then_step r t) = Step-IsWell t (well r)
