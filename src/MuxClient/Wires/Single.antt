-- ===== src/MuxClient/Wires/Single.antt =====
-- How many wires stand at a time, over the calls of `MuxClientHandle` in src/transport.rs.
use mix_tor.Base.{
  [], err, Bool, List, true, false, ℕ, suc, ◌<◌, ◌^◌, Option, none, some, Result, ok, ◌==◌,
  if◌then◌else◌, ◌≡◌, ◌≢◌, refl, sym, ap, ◌∙◌, arith, ◌⊎◌, ltb, Bool-cases, Option-cases, inl, inr,
}
use mix_tor.StreamMap.{lookup, insert, lookup-insert-same, lookup-insert-other}
use mix_tor.MuxClient.Allocation.{add_stream_next_id}
use mix_tor.MuxClient.Wires.{
  live_or, refused, stuck, SendResult, added, wire_closes, FrameCipher, MuxWire, wire_inbound,
  client_handshake, connect_circuit, add_stream, HandshakeError, Added, Source, over_stream,
  prewarm, on_wire, new_handle, with_stream, Dial, Ephemeral, registered_wire, after_handshake,
  Primitives, get_or_connect_wire, connect, MuxClientHandle, Wire, put, keep_wire, counted,
  alive_wire, if_alive, ConnectError,
}

below_or_last : (j n : ℕ) → j < suc n → (j < n) ⊎ (j ≡ n)
below_or_last j n b = elim (Bool-cases (ltb j n)) [
  | inl e ↦ inl (ground arith)
  | inr e ↦ inr (ground arith)
]

-- Every live wire is the one that the map has for its address.
pub record IsSingle (h : MuxClientHandle) : Type 0 where
  pub single :
      (i : ℕ) → i < h.count → (h.store i).is_closed ≡ false → lookup (h.store i).to h.wires ≡ some i
  pub known : (s i : ℕ) → lookup s h.wires ≡ some i → (i < h.count) × ((h.store i).to ≡ s)
  pub counters : (i : ℕ) → i < h.count → (h.store i).mux.next_id < 2 ^ 16

put_to :
    (i : ℕ) (w : Wire) (store : ℕ → Wire) (j : ℕ)
    → w.to ≡ (store i).to
    → (put i w store j).to ≡ (store j).to
put_to i w store j same = elim (Bool-cases (j == i)) [
  | inl e ↦ let here : j ≡ i = ground arith in rw (e, here) same
  | inr e ↦ rw e refl
]

put_is_closed :
    (i : ℕ) (w : Wire) (store : ℕ → Wire) (j : ℕ)
    → (w.is_closed ≡ false → (store i).is_closed ≡ false)
    → (put i w store j).is_closed ≡ false
    → (store j).is_closed ≡ false
put_is_closed i w store j alive h = elim (Bool-cases (j == i)) [
  | inl e ↦
      let here : j ≡ i = ground arith in
      rw here (alive (rw (sym (ap (λ b. (if b then w else store j).is_closed) e)) h))
  | inr e ↦ rw (sym (ap (λ b. (if b then w else store j).is_closed) e)) h
]

put_next_id :
    (i : ℕ) (w : Wire) (store : ℕ → Wire) (j : ℕ)
    → w.mux.next_id < 2 ^ 16
    → (store j).mux.next_id < 2 ^ 16
    → (put i w store j).mux.next_id < 2 ^ 16
put_next_id i w store j new old = elim (Bool-cases (j == i)) [ inl e ↦ rw e new | inr e ↦ rw e old ]

-- A wire of the store is changed, but neither moved nor opened again.
replaced-IsSingle :
    (h : MuxClientHandle) (n : Option ℕ) (i : ℕ) (w : Wire)
    → IsSingle h
    → w.to ≡ (h.store i).to
    → (w.is_closed ≡ false → (h.store i).is_closed ≡ false)
    → w.mux.next_id < 2 ^ 16
    → IsSingle (record h { next_conn = n; store = put i w h.store })
replaced-IsSingle h n i w s same alive counter = record {
  single =
      λ j b e. rw (put_to i w h.store j same) (s.single j b (put_is_closed i w h.store j alive e));
  known = λ a j e. ((s.known a j e).0, put_to i w h.store j same ∙ (s.known a j e).1);
  counters = λ j b. put_next_id i w h.store j counter (s.counters j b);
}

-- Nothing alive is cached for the address of a new wire.
no_live_wire :
    (h : MuxClientHandle) (server j : ℕ)
    → IsSingle h
    → alive_wire h server ≡ none
    → j < h.count
    → (h.store j).is_closed ≡ false
    → (h.store j).to ≢ server
no_live_wire h server j s e b alive to =
    let cached : lookup server h.wires ≡ some j = rw (sym to) (s.single j b alive) in
    let found : if_alive h.store (some j) ≡ none = sym (ap (if_alive h.store) cached) ∙ e in
    let live : if_alive h.store (some j) ≡ some j = rw alive refl in cc

earlier_wire : (i j : ℕ) (w : Wire) (store : ℕ → Wire) → j < i → put i w store j ≡ store j
earlier_wire i j w store b = let e : (j == i) ≡ false = ground arith in rw e refl

newest_wire : (i : ℕ) (w : Wire) (store : ℕ → Wire) → put i w store i ≡ w
newest_wire i w store = let e : (i == i) ≡ true = ground arith in rw e refl

keep_wire-known :
    (h : MuxClientHandle) (server : ℕ) (w : Wire) (a j : ℕ)
    → IsSingle h
    → w.to ≡ server
    → lookup a (insert server h.count h.wires) ≡ some j
    → (j < suc h.count) × ((put h.count w h.store j).to ≡ a)
keep_wire-known h server w a j s to found = elim (Bool-cases (a == server)) [
  | inl e ↦
      let here : a ≡ server = ground arith in
      let new : some h.count ≡ some j =
        sym (lookup-insert-same server h.count h.wires)
        ∙ (sym (ap (λ x. lookup x (insert server h.count h.wires)) here) ∙ found) in
      let last : j ≡ h.count = cc in
      (omega arith, rw (last, newest_wire h.count w h.store, here) to)
  | inr e ↦
      let old =
        s.known a j
          (sym (lookup-insert-other server a h.count h.wires (λ k. ground arith)) ∙ found) in
      (omega (arith, old.0), rw (earlier_wire h.count j w h.store (old.0)) (old.1))
]

keep_wire-IsSingle :
    (h : MuxClientHandle) (server : ℕ) (w : Wire)
    → IsSingle h
    → alive_wire h server ≡ none
    → w.to ≡ server
    → w.mux.next_id < 2 ^ 16
    → IsSingle (keep_wire h server (ok w)).0
unfolding keep_wire
keep_wire-IsSingle h server w s e to counter = record {
  single = λ j b alive. elim (below_or_last j h.count b) [
    | inl earlier ↦
        let same = earlier_wire h.count j w h.store earlier in
        let open_still : (h.store j).is_closed ≡ false = rw (sym same) alive in
        rw same (
          lookup-insert-other server (h.store j).to h.count h.wires
            (no_live_wire h server j s e earlier open_still)
          ∙ s.single j earlier open_still)
    | inr newest ↦
        rw (newest, newest_wire h.count w h.store, to) (lookup-insert-same server h.count h.wires)
  ];
  known = λ a j found. keep_wire-known h server w a j s to found;
  counters = λ j b. elim (below_or_last j h.count b) [
    | inl earlier ↦ rw (earlier_wire h.count j w h.store earlier) (s.counters j earlier)
    | inr newest ↦ rw (newest, newest_wire h.count w h.store) counter
  ];
}

-- What a call of `get_or_connect_wire` for `server` leaves: with `i` the map has the live wire `i`.
pub record IsServed (server : ℕ) (out : MuxClientHandle × Result ConnectError ℕ) : Type 0 where
  pub state : IsSingle out.0
  pub wire :
      (i : ℕ)
      → out.1 ≡ ok i
      → (i < out.0.count)
        × ((out.0.store i).is_closed ≡ false)
        × ((out.0.store i).to ≡ server)
        × (lookup server out.0.wires ≡ some i)

counted-IsSingle : (h : MuxClientHandle) → IsSingle h → IsSingle (counted h)
counted-IsSingle h s = record { single = s.single; known = s.known; counters = s.counters }

alive_wire_known :
    (h : MuxClientHandle) (server i : ℕ)
    → alive_wire h server ≡ some i
    → (lookup server h.wires ≡ some i) × ((h.store i).is_closed ≡ false)
alive_wire_known h server i e = elim (Option-cases (lookup server h.wires)) [
  | inl none_there ↦
      let e' : if_alive h.store none ≡ some i = sym (ap (if_alive h.store) none_there) ∙ e in cc
  | inr (j, there) ↦
      let e' : if_alive h.store (some j) ≡ some i = sym (ap (if_alive h.store) there) ∙ e in
      elim (Bool-cases ((h.store j).is_closed)) [
        | inl closed ↦ let n : if_alive h.store (some j) ≡ none = rw closed refl in cc
        | inr alive ↦
            let n : if_alive h.store (some j) ≡ some j = rw alive refl in
            let same : j ≡ i = cc in (there ∙ ap (λ x. some x) same, rw (sym same) alive)
      ]
]

-- A wire that connects is alive, at its address and without streams.
IsNewWire : ℕ → Result ConnectError Wire → Type 0
IsNewWire server (err e) = Unit {0}
IsNewWire server (ok w) = (w.to ≡ server) × (w.is_closed ≡ false) × (w.mux.next_id ≡ 1)

registered_wire-IsNewWire :
    (server : ℕ) (r : Option ℕ) → IsNewWire server (registered_wire server r)
unfolding registered_wire IsNewWire
registered_wire-IsNewWire server none = tt
registered_wire-IsNewWire server (some tx) = (refl, refl, refl)

after_handshake-IsNewWire :
    (server : ℕ) (registered : Option ℕ) (timely : Bool)
    (r : Result HandshakeError (FrameCipher × FrameCipher))
    → IsNewWire server (after_handshake server registered timely r)
unfolding after_handshake IsNewWire
after_handshake-IsNewWire server registered false r = tt
after_handshake-IsNewWire server registered true (err e) = tt
after_handshake-IsNewWire server registered true (ok ciphers) =
    registered_wire-IsNewWire server registered

over_stream-IsNewWire :
    (p : Primitives) (server : ℕ) (server_pub : List ℕ) (k : Ephemeral) (dial : Dial)
    (reached : Option Source)
    → IsNewWire server (over_stream p server server_pub k dial reached)
unfolding over_stream IsNewWire
over_stream-IsNewWire p server server_pub k dial none = tt
over_stream-IsNewWire p server server_pub k dial (some src) =
    after_handshake-IsNewWire server dial.registered dial.timely
      (client_handshake p server_pub k.x_priv k.x_repr k.pad src).1

keep_wire-IsServed :
    (h : MuxClientHandle) (server : ℕ) (r : Result ConnectError Wire)
    → IsSingle h
    → alive_wire h server ≡ none
    → IsNewWire server r
    → IsServed server (keep_wire h server r)
unfolding keep_wire IsNewWire
keep_wire-IsServed h server (err e) s absent new = record { state = s; wire = λ i k. cc }
keep_wire-IsServed h server (ok w) s absent new = record {
  state = keep_wire-IsSingle h server w s absent (new.0) (omega (arith, new.2));
  wire = λ i k.
      let same : h.count ≡ i = cc in
      rw (sym same, newest_wire h.count w h.store)
        (omega arith, new.1, new.0, lookup-insert-same server h.count h.wires);
}

live_or-IsServed :
    (h : MuxClientHandle) (server : ℕ) (made : MuxClientHandle × Result ConnectError ℕ)
    (found : Option ℕ)
    → IsSingle h
    → alive_wire h server ≡ found
    → (found ≡ none → IsServed server made)
    → IsServed server (live_or h made found)
unfolding live_or
live_or-IsServed h server made none s e new = new refl
live_or-IsServed h server made (some i) s e new =
    let (cached, alive) = alive_wire_known h server i e in
    let (below, to) = s.known server i cached in
    record {
      state = s;
      wire = λ j k. let same : i ≡ j = cc in rw (sym same) (below, alive, to, cached);
    }

pub get_or_connect_wire-IsServed :
    (p : Primitives) (h : MuxClientHandle) (server : ℕ) (server_pub : List ℕ) (k : Ephemeral)
    (dial : Dial)
    → IsSingle h
    → IsServed server (get_or_connect_wire p h server server_pub k dial)
unfolding get_or_connect_wire connect
get_or_connect_wire-IsServed p h server server_pub k dial s =
    live_or-IsServed h server (keep_wire (counted h) server (connect p server server_pub k dial))
      (alive_wire h server) s refl
      (λ e.
        keep_wire-IsServed (counted h) server (connect p server server_pub k dial)
          (counted-IsSingle h s) e (over_stream-IsNewWire p server server_pub k dial dial.reached))

with_stream-IsSingle :
    (h : MuxClientHandle) (i : ℕ) (r : Added)
    → IsSingle h
    → ((id : ℕ) (mux : MuxWire) → r ≡ added id mux → mux.next_id < 2 ^ 16)
    → IsSingle (with_stream h i r).0
unfolding with_stream
with_stream-IsSingle h i refused s b = counted-IsSingle h s
with_stream-IsSingle h i stuck s b = counted-IsSingle h s
with_stream-IsSingle h i (added id mux) s b =
    replaced-IsSingle h (counted h).next_conn i (record (h.store i) { mux = mux }) s refl (λ e. e)
      (b id mux refl)

on_wire-IsSingle :
    (h : MuxClientHandle) (down_tx server : ℕ) (r : Result ConnectError ℕ)
    → IsServed server (h, r)
    → IsSingle (on_wire h down_tx r).0
unfolding on_wire
on_wire-IsSingle h down_tx server (err e) s = s.state
on_wire-IsSingle h down_tx server (ok i) s =
    with_stream-IsSingle h i (add_stream (h.store i).mux down_tx) s.state (λ id mux e.
      add_stream_next_id (h.store i).mux down_tx id mux (s.state.counters i (s.wire i refl).0) e)

no_entry : (s i : ℕ) → lookup s [] ≡ some i → ⊥
unfolding lookup
no_entry s i e = cc

-- What happens to the handle of a client: calls, closed wires and frames that come in.
pub data Reachable (p : Primitives) : MuxClientHandle → Type 0 where
  created : (n : Option ℕ) (store : ℕ → Wire) → Reachable p (new_handle n store)
  prewarmed :
      (h : MuxClientHandle) (server : ℕ) (server_pub : List ℕ) (k : Ephemeral) (dial : Dial)
      → Reachable p h
      → Reachable p (prewarm p h server server_pub k dial)
  connected :
      (h : MuxClientHandle) (server : ℕ) (server_pub : List ℕ) (k : Ephemeral) (dial : Dial)
      (down_tx : ℕ)
      → Reachable p h
      → Reachable p (connect_circuit p h server server_pub k dial down_tx).0
  closed :
      (h : MuxClientHandle) (i : ℕ) → i < h.count → Reachable p h → Reachable p (wire_closes h i)
  received :
      (h : MuxClientHandle) (i kind : ℕ) (cell : List ℕ) (tries : ℕ → SendResult)
      → i < h.count
      → Reachable p h
      → Reachable p (wire_inbound h i kind cell tries)

pub Reachable-IsSingle : (p : Primitives) (h : MuxClientHandle) → Reachable p h → IsSingle h
unfolding prewarm connect_circuit wire_inbound
Reachable-IsSingle p h (created n store) = record {
  single = λ i b e. absurd (omega arith);
  known = λ s i e. absurd (no_entry s i e);
  counters = λ i b. absurd (omega arith);
}
Reachable-IsSingle p h (prewarmed g server server_pub k dial r) =
    (get_or_connect_wire-IsServed p g server server_pub k dial (Reachable-IsSingle p g r)).state
Reachable-IsSingle p h (connected g server server_pub k dial down_tx r) =
    let out = get_or_connect_wire p g server server_pub k dial in
    on_wire-IsSingle (out.0) down_tx server (out.1)
      (get_or_connect_wire-IsServed p g server server_pub k dial (Reachable-IsSingle p g r))
Reachable-IsSingle p h (closed g i b r) =
    let s = Reachable-IsSingle p g r in
    replaced-IsSingle g g.next_conn i (record (g.store i) { is_closed = true }) s refl (λ e. cc)
      (s.counters i b)
Reachable-IsSingle p h (received g i kind cell tries b r) =
    let s = Reachable-IsSingle p g r in
    replaced-IsSingle g g.next_conn i _ s refl (λ e. e) (s.counters i b)

-- In every state that prewarming, circuits, closing wires and frames lead to, two live wires to one
-- address are the same wire.
pub one_wire_per_server :
    (p : Primitives) (h : MuxClientHandle) (i j : ℕ)
    → Reachable p h
    → i < h.count
    → j < h.count
    → (h.store i).is_closed ≡ false
    → (h.store j).is_closed ≡ false
    → (h.store i).to ≡ (h.store j).to
    → i ≡ j
one_wire_per_server p h i j r bi bj ai aj same =
    let s = Reachable-IsSingle p h r in
    let one : some i ≡ some j =
      sym (s.single i bi ai) ∙ ap (λ a. lookup a h.wires) same ∙ s.single j bj aj in
    cc
