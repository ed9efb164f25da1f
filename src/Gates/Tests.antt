-- ===== src/Gates/Tests.antt =====
-- Runs of the server's gates.
use mix_tor.Base.{
  false, ◌++◌, length-append, ◌∙◌, ap, ℕ, ◌+◌, ◌≤◌, List, [], ◌∷◌, true, none, some, ok, ◌≡◌, refl,
  arith, replicate, length,
}
use mix_tor.Frame.{cipher_new}
use mix_tor.Session.{seconds}
use mix_tor.Reader.{Source, eof, got}
use mix_tor.Samples.{constants}
use mix_tor.Reader.Delivery.{bytes_of}
use mix_tor.Handshake.{verify_mac_epochs, mac_with_epoch, keyed16, identity_mac_key, pubkey_len}
use mix_tor.Handshake.Silence.{IsProof}
use mix_tor.Gates.{
  established, becomes, Server, Peer, quiet, sends, started, accept, handshake_done, find,
  closes_at, blackhole, handle_server_connection, max_concurrent_handshakes, max_total_connections,
}
use mix_tor.Gates.Permits.{
  IsWell, gate, seat, total, Reachable, at_start, then_step, comes, shakes, Reachable-IsPermitted,
}
use mix_tor.Gates.Probe.{Stays, probe_learns_nothing}

-- Two connections come in, and the first is rejected; the second is served.
abbrev served : Server
served =
    handshake_done (handshake_done (accept (accept started)) 0 none) 1
      (some (ok (cipher_new (replicate 32 1), cipher_new (replicate 32 2))))

served-Reachable : Reachable served
unfolding accept find handshake_done becomes established
served-Reachable =
    then_step (then_step (then_step (then_step at_start comes) comes) (shakes 0 none refl))
      (shakes 1 (some (ok (cipher_new (replicate 32 1), cipher_new (replicate 32 2)))) refl)

Reachable-IsPermitted_example :
    IsWell served
    × (total gate served.tasks ≤ max_concurrent_handshakes)
    × (total seat served.tasks ≤ max_total_connections)
Reachable-IsPermitted_example = Reachable-IsPermitted served served-Reachable

-- A prober that sends two bytes, and three more after ten seconds.
abbrev prober : Peer
prober = sends (seconds 11) quiet

abbrev two_bytes : Source
two_bytes = got (7 ∷ 8 ∷ []) eof

short :
    (body mac : List ℕ)
    → length mac ≤ 2
    → verify_mac_epochs constants (identity_mac_key constants []) body mac ≡ true
    → ⊥
unfolding verify_mac_epochs mac_with_epoch keyed16
short body [] h e = cc e
short body (a ∷ []) h e = ground arith
short body (a ∷ b ∷ []) h e = ground arith
short body (a ∷ b ∷ c ∷ more) h e = absurd (omega arith)

-- No proof stands in two bytes.
no_proof :
    (prefix : List ℕ)
    → IsProof constants (identity_mac_key constants []) pubkey_len prefix (bytes_of two_bytes)
    → ⊥
no_proof prefix q =
    let n = ap length q.split ∙ length-append q.body (q.mac ++ q.rest) in
    short q.body q.mac (omega (arith, n, length-append q.mac q.rest)) q.verifies

probe_learns_nothing_example :
    (handle_server_connection constants [] [] [] [] [] two_bytes false 9 5 (seconds 1) 20 prober
      ≡ ([], closes_at (blackhole (seconds 1) 20 prober)))
    × (blackhole (seconds 1) 20 prober ≤ seconds 1 + seconds 30)
    × (Stays prober
        → (blackhole (seconds 1) 20 prober ≡ seconds 1 + seconds 20)
          × (seconds 1 + seconds 2 ≤ blackhole (seconds 1) 20 prober))
probe_learns_nothing_example =
    probe_learns_nothing constants [] [] [] [] [] two_bytes false 9 5 (seconds 1) 20 prober no_proof
      (omega arith) (omega arith)
