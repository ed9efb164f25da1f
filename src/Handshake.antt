-- ===== src/Handshake.antt =====
-- The handshake of src/crypto.rs: messages with MARK and MAC, the key schedule, and the two roles. The
-- hash, the curve and the clock are parameters; the random draws are arguments.
pub mod Silence
mod Agreement
pub mod Sample
mod Tests
use mix_tor.Base.{
  ◌&&◌, ltb, false, ◌==◌, ◌||◌, ◌+◌, true, length, leb, drop, ◌++◌, Result, if◌then◌else◌, take,
  Bool, List, Option, ℕ, ◌∷◌, [], zero, suc, none, some, ok, err,
}
use mix_tor.Reader.{Source, eof, failed, got}
use mix_tor.Frame.{
  HandshakeError, closed, probe_rejected, non_contributory, bad_server_auth, FrameCipher,
  cipher_new,
}

-- `keyed_hash` and `derive_key` of the crate blake3, `decode_representative` and the clamped
-- multiplication of curve25519_dalek, `epoch_hour_bytes` at the offsets 0, -1 and 1, and `derive_key`'s
-- context strings.
pub record Primitives : Type 1 where
  pub Point : Type 0
  pub keyed_hash : List ℕ → List ℕ → List ℕ
  pub derive_key : List ℕ → List ℕ → List ℕ
  pub decode_representative : List ℕ → Option Point
  pub point_of_public : List ℕ → Point
  pub dh : Point → List ℕ → List ℕ
  pub hours : List ℕ × List ℕ × List ℕ
  pub identity_context : List ℕ
  pub key_extract_context : List ℕ
  pub c2s_context : List ℕ
  pub s2c_context : List ℕ
  pub auth_label : List ℕ
  pub protoid : List ℕ

abbrev pub pubkey_len : ℕ
pubkey_len = 32

abbrev pub auth_len : ℕ
auth_len = 32

abbrev pub mark_len : ℕ
mark_len = 16

abbrev pub mac_len : ℕ
mac_len = 16

abbrev pub max_handshake_len : ℕ
max_handshake_len = 8192

-- Equality of byte strings, constant-time in the source.
abbrev pub same_bytes : List ℕ → List ℕ → Bool
same_bytes [] [] = true
same_bytes [] (b ∷ bs) = false
same_bytes (b ∷ bs) [] = false
same_bytes (b ∷ bs) (c ∷ cs) = b == c && same_bytes bs cs

abbrev pub starts_with : List ℕ → List ℕ → Bool
starts_with [] hs = true
starts_with (n ∷ ns) [] = false
starts_with (n ∷ ns) (h ∷ hs) = n == h && starts_with ns hs

one_later : Option ℕ → Option ℕ
one_later none = none
one_later (some i) = some (suc i)

-- `windows(needle.len()).position(|w| w == needle)`
unfoldable pub position : List ℕ → List ℕ → Option ℕ
unfolding one_later
position [] needle = none
position (h ∷ hs) needle =
    let later = one_later (position hs needle) in
    if starts_with needle (h ∷ hs) then some 0 else later

unfoldable pub find_subslice : List ℕ → List ℕ → Option ℕ
find_subslice haystack needle =
    if length needle == 0 || ltb (length haystack) (length needle)
    then none
    else position haystack needle

abbrev pub all_zero : List ℕ → Bool
all_zero [] = true
all_zero (b ∷ bs) = b == 0 && all_zero bs

module _ (p : Primitives) where
  unfoldable pub identity_mac_key : List ℕ → List ℕ
  identity_mac_key server_pub = Primitives.derive_key p (Primitives.identity_context p) server_pub

  unfoldable pub keyed16 : List ℕ → List ℕ → List ℕ
  keyed16 key data' = take 16 (Primitives.keyed_hash p key data')

  -- `mac_with_epoch`, with the text of the hour.
  unfoldable pub mac_with_epoch : List ℕ → List ℕ → List ℕ → List ℕ
  mac_with_epoch key data' hour = keyed16 key (data' ++ hour)

  unfoldable pub verify_mac_epochs : List ℕ → List ℕ → List ℕ → Bool
  verify_mac_epochs key data' received =
      let (this_hour, last_hour, next_hour) = Primitives.hours p in
      same_bytes (mac_with_epoch key data' this_hour) received
      || (same_bytes (mac_with_epoch key data' last_hour) received
          || same_bytes (mac_with_epoch key data' next_hour) received)

  -- `build_marked_message`, with the padding drawn.
  unfoldable pub build_marked_message : List ℕ → List ℕ → List ℕ → List ℕ
  build_marked_message mac_key prefix pad =
      let mark = keyed16 mac_key (take pubkey_len prefix) in
      let msg = prefix ++ (pad ++ mark) in msg ++ mac_with_epoch mac_key msg (Primitives.hours p).0

  -- The checks of a round of `read_marked_message`: `none` if it goes on to read.
  verdict : List ℕ → ℕ → List ℕ → ℕ → Option (Result HandshakeError (List ℕ))
  verdict mac_key prefix_len buf rel =
      let mark_end = prefix_len + rel + mark_len in
      if leb (mark_end + mac_len) (length buf)
      then some (
          if verify_mac_epochs mac_key (take mark_end buf) (take mac_len (drop mark_end buf))
          then ok (take prefix_len buf)
          else err probe_rejected)
      else none

  found : List ℕ → ℕ → List ℕ → Option ℕ → Option (Result HandshakeError (List ℕ))
  found mac_key prefix_len buf none = none
  found mac_key prefix_len buf (some rel) = verdict mac_key prefix_len buf rel

  unfoldable pub check_buffer : List ℕ → ℕ → List ℕ → Option (Result HandshakeError (List ℕ))
  unfolding found verdict
  check_buffer mac_key prefix_len buf =
      if leb prefix_len (length buf)
      then found mac_key prefix_len buf
          (find_subslice (drop prefix_len buf) (keyed16 mac_key (take pubkey_len buf)))
      else none

  settle :
      Option (Result HandshakeError (List ℕ))
      → Result HandshakeError (List ℕ)
      → Result HandshakeError (List ℕ)
  settle none more = more
  settle (some r) more = r

  -- The loop of `read_marked_message`, from what is buffered and what the reads return.
  unfoldable pub read_marked_message : List ℕ → ℕ → List ℕ → Source → Result HandshakeError (List ℕ)
  unfolding settle
  read_marked_message mac_key prefix_len buf eof =
      settle (check_buffer mac_key prefix_len buf)
        (if leb max_handshake_len (length buf) then err probe_rejected else err closed)
  read_marked_message mac_key prefix_len buf failed =
      settle (check_buffer mac_key prefix_len buf)
        (if leb max_handshake_len (length buf) then err probe_rejected else err HandshakeError.io)
  read_marked_message mac_key prefix_len buf (got [] rest) =
      settle (check_buffer mac_key prefix_len buf)
        (if leb max_handshake_len (length buf) then err probe_rejected else err closed)
  read_marked_message mac_key prefix_len buf (got (b ∷ bs) rest) =
      let more = read_marked_message mac_key prefix_len (buf ++ (b ∷ bs)) rest in
      settle (check_buffer mac_key prefix_len buf)
        (if leb max_handshake_len (length buf) then err probe_rejected else more)

  -- `(k_c2s, k_s2c, auth)` from the two outputs, the server's key and the two representatives.
  unfoldable pub derive_session :
      List ℕ → List ℕ → List ℕ → List ℕ → List ℕ → List ℕ × List ℕ × List ℕ
  derive_session dh1 dh2 b_pub x_repr y_repr =
      let secret_input = dh1 ++ (dh2 ++ (b_pub ++ (x_repr ++ (y_repr ++ Primitives.protoid p)))) in
      let key_seed = Primitives.derive_key p (Primitives.key_extract_context p) secret_input in
      let auth_in = Primitives.auth_label p ++ (b_pub ++ (x_repr ++ y_repr)) in
      (
        Primitives.derive_key p (Primitives.c2s_context p) key_seed,
        Primitives.derive_key p (Primitives.s2c_context p) key_seed,
        Primitives.keyed_hash p key_seed auth_in,
      )

  -- The server's side behind the client's representative: the ciphers for sending and receiving, and the
  -- message written.
  answer :
      List ℕ
      → List ℕ
      → List ℕ
      → List ℕ
      → List ℕ
      → List ℕ
      → Option (Primitives.Point p)
      → Result HandshakeError (FrameCipher × FrameCipher) × List (List ℕ)
  answer b_pub b_secret y_priv y_repr pad x_repr none = (err non_contributory, [])
  answer b_pub b_secret y_priv y_repr pad x_repr (some x_point) =
      let dh1 = Primitives.dh p x_point y_priv in
      let dh2 = Primitives.dh p x_point b_secret in
      let (k_c2s, k_s2c, auth) = derive_session dh1 dh2 b_pub x_repr y_repr in
      if all_zero dh1 || all_zero dh2 then (err non_contributory, []) else (
        ok (cipher_new k_s2c, cipher_new k_c2s),
        build_marked_message (identity_mac_key b_pub) (y_repr ++ auth) pad ∷ [],
      )

  on_proof :
      List ℕ
      → List ℕ
      → List ℕ
      → List ℕ
      → List ℕ
      → Result HandshakeError (List ℕ)
      → Result HandshakeError (FrameCipher × FrameCipher) × List (List ℕ)
  on_proof b_pub b_secret y_priv y_repr pad (err e) = (err e, [])
  on_proof b_pub b_secret y_priv y_repr pad (ok prefix) =
      let x_repr = take pubkey_len prefix in
      answer b_pub b_secret y_priv y_repr pad x_repr (Primitives.decode_representative p x_repr)

  -- `server_handshake`: the result, and what was written to the stream.
  unfoldable pub server_handshake :
      List ℕ
      → List ℕ
      → List ℕ
      → List ℕ
      → List ℕ
      → Source
      → Result HandshakeError (FrameCipher × FrameCipher) × List (List ℕ)
  unfolding on_proof answer
  server_handshake b_pub b_secret y_priv y_repr pad src =
      on_proof b_pub b_secret y_priv y_repr pad
        (read_marked_message (identity_mac_key b_pub) pubkey_len [] src)

  verify_server :
      List ℕ
      → List ℕ
      → List ℕ
      → List ℕ
      → List ℕ
      → Option (Primitives.Point p)
      → Result HandshakeError (FrameCipher × FrameCipher)
  verify_server server_pub x_priv x_repr y_repr recv_auth none = err non_contributory
  verify_server server_pub x_priv x_repr y_repr recv_auth (some y_point) =
      let dh1 = Primitives.dh p y_point x_priv in
      let dh2 = Primitives.dh p (Primitives.point_of_public p server_pub) x_priv in
      let (k_c2s, k_s2c, auth) = derive_session dh1 dh2 server_pub x_repr y_repr in
      if all_zero dh1 || all_zero dh2
      then err non_contributory
      else if same_bytes auth recv_auth
      then ok (cipher_new k_c2s, cipher_new k_s2c)
      else err bad_server_auth

  on_reply :
      List ℕ
      → List ℕ
      → List ℕ
      → Result HandshakeError (List ℕ)
      → Result HandshakeError (FrameCipher × FrameCipher)
  on_reply server_pub x_priv x_repr (err e) = err e
  on_reply server_pub x_priv x_repr (ok prefix) =
      let y_repr = take pubkey_len prefix in
      let recv_auth = take auth_len (drop pubkey_len prefix) in
      verify_server server_pub x_priv x_repr y_repr recv_auth
        (Primitives.decode_representative p y_repr)

  -- `client_handshake`: the message written first, and the result.
  unfoldable pub client_handshake :
      List ℕ
      → List ℕ
      → List ℕ
      → List ℕ
      → Source
      → List ℕ × Result HandshakeError (FrameCipher × FrameCipher)
  unfolding on_reply verify_server
  client_handshake server_pub x_priv x_repr pad src =
      let mac_key = identity_mac_key server_pub in
      (
        build_marked_message mac_key x_repr pad,
        on_reply server_pub x_priv x_repr
            (read_marked_message mac_key (pubkey_len + auth_len) [] src),
      )
