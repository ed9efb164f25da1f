-- ===== src/Handshake/Sample.antt =====
-- A handshake over primitives that return constants: the messages and what both sides read.
use mix_tor.Base.{ap, ◌++◌, List, ◌≡◌, ◌+◌, replicate, ℕ, ◌∷◌, [], ok, refl}
use mix_tor.Samples.{constants}
use mix_tor.Reader.{Source, eof, got}
use mix_tor.Frame.{FrameCipher, cipher_new}
use mix_tor.Handshake.{
  pubkey_len, auth_len, identity_mac_key, keyed16, mac_with_epoch, verify_mac_epochs, find_subslice,
  position, check_buffer, build_marked_message, read_marked_message, derive_session,
  server_handshake, client_handshake,
}
use mix_tor.Handshake.Agreement.{IsSession, handshake_agrees}

abbrev pub x_repr : List ℕ
x_repr = replicate 32 3

abbrev pub y_repr : List ℕ
y_repr = replicate 32 4

abbrev pub session : IsSession constants [] [] [] x_repr [] y_repr
session = record {
  x_point = x_repr;
  y_point = y_repr;
  x_decodes = refl;
  y_decodes = refl;
  ephemeral = refl;
  static = refl;
  length_x = refl;
  length_y = refl;
}

-- The client's message with two bytes of padding, in two reads, and the server's with none.
abbrev pub to_server : Source
to_server = got (x_repr ++ (9 ∷ [])) (got (9 ∷ replicate 32 1) eof)

abbrev pub to_client : Source
to_client = got (y_repr ++ (replicate 32 1 ++ replicate 32 1)) eof

pub server_reads :
    read_marked_message constants (identity_mac_key constants []) pubkey_len [] to_server
    ≡ ok x_repr
unfolding read_marked_message check_buffer find_subslice position verify_mac_epochs mac_with_epoch
    keyed16
server_reads = refl

pub client_reads :
    read_marked_message constants
      (identity_mac_key constants [])
      (pubkey_len + auth_len)
      []
      to_client
    ≡ ok (y_repr ++ replicate 32 1)
unfolding read_marked_message check_buffer find_subslice position verify_mac_epochs mac_with_epoch
    keyed16
client_reads = refl

abbrev pub session_key : FrameCipher
session_key = cipher_new (replicate 32 2)

pub server_runs :
    server_handshake constants [] [] [] y_repr [] to_server
    ≡ (ok (session_key, session_key), (y_repr ++ replicate 64 1) ∷ [])
unfolding server_handshake read_marked_message check_buffer find_subslice position verify_mac_epochs
    mac_with_epoch keyed16 derive_session build_marked_message identity_mac_key
server_runs = refl

pub client_runs :
    (client_handshake constants [] [] x_repr [] to_client).1 ≡ ok (session_key, session_key)
client_runs =
    handshake_agrees constants [] [] [] x_repr [] y_repr session [] [] to_server to_client
      session_key session_key (unfold derive_session in refl) server_reads
      (ap (λ t. t.0) server_runs) (unfold derive_session in client_reads)
