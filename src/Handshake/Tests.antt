-- ===== src/Handshake/Tests.antt =====
-- A run of the handshake over primitives that return constants.
use mix_tor.Base.{ap, List, ◌≡◌, ℕ, [], ok, refl}
use mix_tor.Samples.{constants}
use mix_tor.Reader.Delivery.{bytes_of}
use mix_tor.Handshake.{pubkey_len, identity_mac_key, derive_session, client_handshake}
use mix_tor.Handshake.Silence.{IsProof, server_handshake_silent}
use mix_tor.Handshake.Agreement.{handshake_agrees}
use mix_tor.Handshake.Sample.{
  x_repr, y_repr, session, to_server, to_client, server_reads, client_reads, session_key,
  server_runs,
}

server_handshake_silent_example :
    (prefix : List ℕ) × IsProof constants
      (identity_mac_key constants [])
      pubkey_len
      prefix
      (bytes_of to_server)
server_handshake_silent_example =
    server_handshake_silent constants [] [] [] y_repr [] to_server
      (λ e. cc (ap (λ t. t.1) server_runs, e))

handshake_agrees_example :
    (client_handshake constants [] [] x_repr [] to_client).1 ≡ ok (session_key, session_key)
handshake_agrees_example =
    handshake_agrees constants [] [] [] x_repr [] y_repr session [] [] to_server to_client
      session_key session_key (unfold derive_session in refl) server_reads
      (ap (λ t. t.0) server_runs) (unfold derive_session in client_reads)
