-- ===== src/Handshake/Agreement.antt =====
-- The keys of the two sides of a handshake of src/crypto.rs.
use mix_tor.Base.{
  Result, ◌∙◌, ap, ap₂, inl, inr, ◌||◌, Bool-cases, inl, ◌||◌, Bool-cases, drop-append, take-append,
  take_all, take, ◌++◌, ◌+◌, length, List, ℕ, ◌∷◌, [], some, ok, err, refl, arith, ◌≡◌, true,
}
use mix_tor.Reader.{Source}
use mix_tor.Frame.{HandshakeError, FrameCipher}
use mix_tor.Handshake.{
  Primitives, pubkey_len, auth_len, same_bytes, all_zero, identity_mac_key, read_marked_message,
  derive_session, answer, on_proof, server_handshake, verify_server, on_reply, client_handshake,
}

same_bytes_refl : (bs : List ℕ) → same_bytes bs bs ≡ true
same_bytes_refl [] = refl
same_bytes_refl (b ∷ bs) = ground (arith, same_bytes_refl bs)

-- The keys of one session: the representatives decode to points, and the products of the two sides agree,
-- as they do for clamped scalars on the curve.
pub record IsSession (p : Primitives) (b_pub b_secret x_priv x_repr y_priv y_repr : List ℕ)
    : Type 0 where
  pub x_point : Primitives.Point p
  pub y_point : Primitives.Point p
  pub x_decodes : Primitives.decode_representative p x_repr ≡ some x_point
  pub y_decodes : Primitives.decode_representative p y_repr ≡ some y_point
  pub ephemeral : Primitives.dh p x_point y_priv ≡ Primitives.dh p y_point x_priv
  pub static :
      Primitives.dh p x_point b_secret ≡ Primitives.dh p (Primitives.point_of_public p b_pub) x_priv
  pub length_x : length x_repr ≡ pubkey_len
  pub length_y : length y_repr ≡ pubkey_len

-- A reply is taken apart into the representative and the tag.
on_reply_parts :
    (p : Primitives) (server_pub x_priv x_repr y_repr auth : List ℕ)
    → length y_repr ≡ pubkey_len
    → length auth ≡ auth_len
    → on_reply p server_pub x_priv x_repr (ok (y_repr ++ auth))
      ≡ verify_server p server_pub x_priv x_repr y_repr auth
          (Primitives.decode_representative p y_repr)
unfolding on_reply
on_reply_parts p server_pub x_priv x_repr y_repr auth h n =
    let first = take-append pubkey_len y_repr auth h in
    let behind = drop-append pubkey_len y_repr auth h in
    let tag = take_all auth_len auth (omega arith) in
    ap₂ (λ y a. verify_server p server_pub x_priv x_repr y a (Primitives.decode_representative p y))
      first (ap (λ t. take auth_len t) behind ∙ tag)

swap :
    Result HandshakeError (FrameCipher × FrameCipher)
    → Result HandshakeError (FrameCipher × FrameCipher)
swap (ok (a, b)) = ok (b, a)
swap (err e) = err e

swapped :
    (a b c d : FrameCipher)
    → Path (Result HandshakeError (FrameCipher × FrameCipher)) (ok (a, b)) (ok (c, d))
    → Path (Result HandshakeError (FrameCipher × FrameCipher)) (ok (b, a)) (ok (d, c))
unfolding swap
swapped a b c d e = ap swap e

module _ (p : Primitives) (b_pub b_secret x_priv x_repr y_priv y_repr : List ℕ)
    (k : IsSession p b_pub b_secret x_priv x_repr y_priv y_repr) where
  -- The server's tag, which stands behind its representative in the reply.
  abbrev pub server_auth : List ℕ
  server_auth =
      (derive_session p (Primitives.dh p k.x_point y_priv) (Primitives.dh p k.x_point b_secret)
        b_pub x_repr y_repr).2

  -- When the server has read the client's representative and succeeds, and the client reads the server's
  -- representative and tag, the client succeeds too, and each side sends with the other's receiving key.
  pub handshake_agrees :
      (s_pad c_pad : List ℕ) (to_server to_client : Source) (s_send s_recv : FrameCipher)
      → length server_auth ≡ auth_len
      → read_marked_message p (identity_mac_key p b_pub) pubkey_len [] to_server ≡ ok x_repr
      → (server_handshake p b_pub b_secret y_priv y_repr s_pad to_server).0 ≡ ok (s_send, s_recv)
      → read_marked_message p (identity_mac_key p b_pub) (pubkey_len + auth_len) [] to_client
        ≡ ok (y_repr ++ server_auth)
      → (client_handshake p b_pub x_priv x_repr c_pad to_client).1 ≡ ok (s_recv, s_send)
  unfolding server_handshake on_proof answer client_handshake on_reply verify_server
  handshake_agrees s_pad c_pad to_server to_client s_send s_recv n read_s done_s read_c =
      let whole : take pubkey_len x_repr ≡ x_repr =
        take_all pubkey_len x_repr (omega (arith, k.length_x)) in
      let tests = Bool-cases (
        all_zero (Primitives.dh p k.x_point y_priv)
        || all_zero (Primitives.dh p k.x_point b_secret)) in
      let reply = on_reply_parts p b_pub x_priv x_repr y_repr server_auth k.length_y n in
      let client = ap (on_reply p b_pub x_priv x_repr) read_c ∙ reply in
      elim tests [
        | inl z ↦ cc (rw (read_s, on_proof, whole, k.x_decodes, answer, z) at done_s)
        | inr z ↦
            let server_ok = rw (read_s, on_proof, whole, k.x_decodes, answer, z) at done_s in
            client
            ∙ rw
                (
                  k.y_decodes,
                  verify_server,
                  ← k.ephemeral,
                  ← k.static,
                  z,
                  same_bytes_refl server_auth,
                )
                (swapped _ _ _ _ (rw whole at server_ok))
      ]
