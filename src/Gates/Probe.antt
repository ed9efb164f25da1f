-- ===== src/Gates/Probe.antt =====
-- What a connection whose handshake fails sees of the server, src/transport.rs.
use mix_tor.Base.{
  zero, suc, suc, ap, take, ℕ, ◌+◌, ◌≤◌, List, [], Bool, ◌≡◌, refl, arith, Bool-cases, inl, inr,
}
use mix_tor.Session.{seconds}
use mix_tor.Reader.{Source}
use mix_tor.Handshake.{Primitives, identity_mac_key, pubkey_len}
use mix_tor.Reader.Delivery.{bytes_of}
use mix_tor.Handshake.Silence.{IsProof, server_handshake_rejects}
use mix_tor.Gates.{
  Peer, quiet, hangs_up, sends, discard, blackhole, closes_at, ending_of, handle_server_connection,
  blackhole_min_secs, blackhole_max_secs,
}

-- The peer stays: it only sends.
abbrev pub Stays : Peer → Type 0
Stays quiet = Unit {0}
Stays (hangs_up t) = ⊥
Stays (sends t rest) = Stays rest

discard_le : (deadline : ℕ) (peer : Peer) → discard deadline peer ≤ deadline
unfolding discard
discard_le deadline quiet = omega arith
discard_le deadline (hangs_up t) = ground arith
discard_le deadline (sends t rest) = ground (arith, discard_le deadline rest)

discard_holds_out : (deadline : ℕ) (peer : Peer) → Stays peer → discard deadline peer ≡ deadline
unfolding discard
discard_holds_out deadline quiet h = refl
discard_holds_out deadline (hangs_up t) h = absurd h
discard_holds_out deadline (sends t rest) h = ground (arith, discard_holds_out deadline rest h)

take_nothing : (n : ℕ) → take {A = ℕ} n [] ≡ []
take_nothing zero = refl
take_nothing (suc n) = refl

-- A prober whose bytes begin with no message that proves knowledge of the server's key: whether its
-- handshake fails or times out, and however much of an answer could be written by then, the server writes
-- nothing and then reads until it closes the connection. That is at most 30 seconds after the handshake's
-- end, and, while the peer stays, exactly at the drawn delay after it, of at least 2 seconds, whatever
-- the peer sends then.
pub probe_learns_nothing :
    (p : Primitives) (b_pub b_secret y_priv y_repr pad : List ℕ) (src : Source) (timely : Bool)
    (cut free now secs : ℕ) (peer : Peer)
    → ((prefix : List ℕ)
        → IsProof p (identity_mac_key p b_pub) pubkey_len prefix (bytes_of src)
        → ⊥)
    → blackhole_min_secs ≤ secs
    → secs ≤ blackhole_max_secs
    → (handle_server_connection p b_pub b_secret y_priv y_repr pad src timely cut free now secs peer
        ≡ ([], closes_at (blackhole now secs peer)))
      × (blackhole now secs peer ≤ now + seconds 30)
      × (Stays peer
          → (blackhole now secs peer ≡ now + seconds secs)
            × (now + seconds 2 ≤ blackhole now secs peer))
unfolding handle_server_connection blackhole ending_of
probe_learns_nothing p b_pub b_secret y_priv y_repr pad src timely cut free now secs peer no_proof
      lo hi =
    (
      let (x, rejected) =
            server_handshake_rejects p b_pub b_secret y_priv y_repr pad src no_proof in
          elim (Bool-cases timely) [
            | inl e ↦ rw (e, rejected) refl
            | inr e ↦
                rw (e, rejected)
                  (ap (λ bytes. (bytes, closes_at (blackhole now secs peer))) (take_nothing cut))
          ],
      omega (arith, discard_le (now + seconds secs) peer),
      λ stays.
          let same = discard_holds_out (now + seconds secs) peer stays in
          (same, omega (arith, same)),
    )
