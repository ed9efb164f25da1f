-- ===== src/Gates.antt =====
-- How connections come to the server: `serve_accept_loop` of src/bin/mixtor-server.rs,
-- `handle_server_connection_with_lab`, `blackhole` and `global_connection_sem` of src/transport.rs. A
-- semaphore is its number of free permits. A connection is named by a number; its handshake comes back
-- with what `server_handshake` made of it, or with nothing at the timeout.
mod Permits
mod Probe
mod Tests
use mix_tor.Base.{
  concat, take, Bool, ℕ, zero, suc, ◌+◌, ◌-◌, ◌*◌, List, [], ◌∷◌, Option, none, some, Result, ok,
  err, ◌==◌, leb, if◌then◌else◌,
}
use mix_tor.Frame.{FrameCipher, HandshakeError}
use mix_tor.Reader.{Source}
use mix_tor.Handshake.{Primitives, server_handshake}
use mix_tor.Session.{seconds}

abbrev pub max_concurrent_handshakes : ℕ
max_concurrent_handshakes = 512

abbrev pub max_total_connections : ℕ
max_total_connections = 4096

abbrev pub blackhole_min_secs : ℕ
blackhole_min_secs = 2

abbrev pub blackhole_max_secs : ℕ
blackhole_max_secs = 30

abbrev pub handshake_timeout : ℕ
handshake_timeout = seconds 15

-- What a spawned task does now.
pub data Task : Type 0 where
  handshaking blackholed serving : Task

abbrev pub Tasks : Type 0
Tasks = List (ℕ × Task)

unfoldable pub find : ℕ → Tasks → Option Task
find id [] = none
find id ((j, t) ∷ ts) = if j == id then some t else find id ts

unfoldable pub becomes : ℕ → Task → Tasks → Tasks
becomes id t [] = []
becomes id t ((j, u) ∷ ts) = if j == id then (j, t) ∷ ts else (j, u) ∷ becomes id t ts

unfoldable pub ends : ℕ → Tasks → Tasks
ends id [] = []
ends id ((j, u) ∷ ts) = if j == id then ts else (j, u) ∷ ends id ts

-- `handshakes` and `connections` are the permits left of the two semaphores.
pub record Server : Type 0 where
  pub handshakes : ℕ
  pub connections : ℕ
  pub tasks : Tasks
  pub fresh : ℕ

abbrev pub started : Server
started = record {
  handshakes = max_concurrent_handshakes;
  connections = max_total_connections;
  tasks = [];
  fresh = 0;
}

-- One round of the accept loop: without a permit the new connection is closed at once.
unfoldable pub accept : Server → Server
accept s = if s.handshakes == 0 then s else record s {
  handshakes = s.handshakes - 1;
  tasks = (s.fresh, handshaking) ∷ s.tasks;
  fresh = suc s.fresh;
}

-- What `timeout(HANDSHAKE_TIMEOUT, server_handshake(..))` gives.
abbrev pub Outcome : Type 0
Outcome = Option (Result HandshakeError (FrameCipher × FrameCipher))

-- The handshake's permit is dropped, and a connection's one is taken or the connection is closed.
established : Server → ℕ → Server
established s id =
    if s.connections == 0
    then record s { handshakes = suc s.handshakes; tasks = ends id s.tasks }
    else record s {
      handshakes = suc s.handshakes;
      connections = s.connections - 1;
      tasks = becomes id serving s.tasks;
    }

-- `handle_server_connection_with_lab` when the handshake comes back.
unfoldable pub handshake_done : Server → ℕ → Outcome → Server
unfolding established
handshake_done s id (some (ok ciphers)) = established s id
handshake_done s id (some (err e)) = record s { tasks = becomes id blackholed s.tasks }
handshake_done s id none = record s { tasks = becomes id blackholed s.tasks }

-- The function returns: what the task holds is dropped.
unfoldable pub returns : Server → ℕ → Task → Server
returns s id serving = record s { connections = suc s.connections; tasks = ends id s.tasks }
returns s id handshaking = record s { handshakes = suc s.handshakes; tasks = ends id s.tasks }
returns s id blackholed = record s { handshakes = suc s.handshakes; tasks = ends id s.tasks }

-- What a peer does while it is read from, at growing instants.
pub data Peer : Type 0 where
  quiet : Peer
  hangs_up : ℕ → Peer
  sends : ℕ → Peer → Peer

-- The loop of `blackhole`: the instant at which it ends.
discard : ℕ → Peer → ℕ
discard deadline quiet = deadline
discard deadline (hangs_up t) = if leb deadline t then deadline else t
discard deadline (sends t rest) =
    let later = discard deadline rest in if leb deadline t then deadline else later

-- `blackhole`, entered at `now`, with the drawn number of seconds.
unfoldable pub blackhole : ℕ → ℕ → Peer → ℕ
unfolding discard
blackhole now secs peer = discard (now + seconds secs) peer

-- How one connection's handler ends: closed at an instant after a failed handshake, shed, or served.
pub data Ending : Type 0 where
  closes_at : ℕ → Ending
  shed : Ending
  serves : FrameCipher × FrameCipher → Ending

ending_of : Outcome → ℕ → ℕ → ℕ → Peer → Ending
ending_of (some (ok ciphers)) free now secs peer = if free == 0 then shed else serves ciphers
ending_of (some (err e)) free now secs peer = closes_at (blackhole now secs peer)
ending_of none free now secs peer = closes_at (blackhole now secs peer)

-- `handle_server_connection_with_lab` for one connection, up to its relays: the bytes written and the
-- end. `timely` says that the handshake came back in time, at `now`; or else `now` is the timeout, and
-- the first `cut` bytes of what it writes have been written. `src` is what the peer sends meanwhile,
-- `free` are the connections that the process still takes, `secs` is the draw of `blackhole`.
unfoldable pub handle_server_connection :
    (p : Primitives)
    → List ℕ
    → List ℕ
    → List ℕ
    → List ℕ
    → List ℕ
    → Source
    → Bool
    → ℕ
    → ℕ
    → ℕ
    → ℕ
    → Peer
    → List ℕ × Ending
unfolding ending_of
handle_server_connection p b_pub b_secret y_priv y_repr pad src timely cut free now secs peer =
    let (result, written) = server_handshake p b_pub b_secret y_priv y_repr pad src in
    if timely
    then (concat written, ending_of (some result) free now secs peer)
    else (take cut (concat written), ending_of none free now secs peer)
