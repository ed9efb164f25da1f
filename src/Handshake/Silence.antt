-- ===== src/Handshake/Silence.antt =====
-- What has come in before `server_handshake` of src/crypto.rs writes.
use mix_tor.Base.{
  Result-cases, true, false, Option-cases, take-append-drop, length, ap, leb, sym, inl, true, inr,
  Bool-cases, ◌∙◌, take, append_assoc, ◌⊎◌, if◌then◌else◌, Result, ◌++◌, ◌≢◌, drop, Bool, ◌+◌,
  Option, List, ℕ, ◌∷◌, [], none, some, ok, err, refl, arith, ◌≡◌, take-take,
}
use mix_tor.Reader.{Source, eof, failed, got}
use mix_tor.Reader.Delivery.{bytes_of}
use mix_tor.Frame.{HandshakeError}
use mix_tor.Handshake.{
  Primitives, pubkey_len, mark_len, mac_len, find_subslice, keyed16, verify_mac_epochs,
  check_buffer, found, verdict, settle, read_marked_message, server_handshake, on_proof,
  identity_mac_key,
}

module _ (p : Primitives) (mac_key : List ℕ) (prefix_len : ℕ) where
  -- The bytes begin with a message that has this prefix and a MAC that verifies for one of the three
  -- hours, at its end.
  pub record IsProof (prefix bytes : List ℕ) : Type 0 where
    pub body : List ℕ
    pub mac : List ℕ
    pub rest : List ℕ
    pub split : bytes ≡ body ++ (mac ++ rest)
    pub begins : take prefix_len body ≡ prefix
    pub verifies : verify_mac_epochs p mac_key body mac ≡ true

  verdict_ok :
      (buf prefix : List ℕ) (rel : ℕ)
      → verdict p mac_key prefix_len buf rel ≡ some (ok prefix)
      → IsProof prefix buf
  unfolding verdict
  verdict_ok buf prefix rel e =
      let mark_end = prefix_len + rel + mark_len in
      let mac = take mac_len (drop mark_end buf) in
      elim (Bool-cases (leb (mark_end + mac_len) (length buf))) [
        | inr f ↦ cc (rw f at e)
        | inl f ↦ elim (Bool-cases (verify_mac_epochs p mac_key (take mark_end buf) mac)) [
          | inr v ↦ cc (rw (f, v) at e)
          | inl v ↦
              let same : take prefix_len buf ≡ prefix = cc (rw (f, v) at e) in
              record {
                body = take mark_end buf;
                mac = mac;
                rest = drop mac_len (drop mark_end buf);
                split =
                    rw (take-append-drop mac_len (drop mark_end buf))
                      (sym (take-append-drop mark_end buf));
                begins = take-take prefix_len mark_end buf (omega arith) ∙ same;
                verifies = v;
              }
        ]
      ]

  check_buffer_ok :
      (buf prefix : List ℕ)
      → check_buffer p mac_key prefix_len buf ≡ some (ok prefix)
      → IsProof prefix buf
  unfolding check_buffer found
  check_buffer_ok buf prefix e =
      let at' = find_subslice (drop prefix_len buf) (keyed16 p mac_key (take pubkey_len buf)) in
      elim (Bool-cases (leb prefix_len (length buf))) [
        | inr f ↦ cc (rw f at e)
        | inl f ↦ elim (Option-cases at') [
          | inl n ↦ cc (rw (f, n) at e)
          | inr (rel, s) ↦ verdict_ok buf prefix rel (rw (f, s) at e)
        ]
      ]

  -- More bytes behind a proof leave it one.
  more_behind : (prefix buf more : List ℕ) → IsProof prefix buf → IsProof prefix (buf ++ more)
  more_behind prefix buf more q = record {
    body = q.body;
    mac = q.mac;
    rest = q.rest ++ more;
    split = rw q.split (
        append_assoc q.body (q.mac ++ q.rest) more
        ∙ ap (λ t. q.body ++ t) (append_assoc q.mac q.rest more));
    begins = q.begins;
    verifies = q.verifies;
  }

  settled :
      (o : Option (Result HandshakeError (List ℕ))) (more : Result HandshakeError (List ℕ))
      (prefix : List ℕ)
      → settle p o more ≡ ok prefix
      → (o ≡ some (ok prefix)) ⊎ (more ≡ ok prefix)
  unfolding settle
  settled none more prefix e = inr e
  settled (some r) more prefix e = inl (ap some e)

  -- The checks of one round, in front of what else comes in.
  round_ok :
      (buf prefix after : List ℕ) (more : Result HandshakeError (List ℕ))
      → settle p (check_buffer p mac_key prefix_len buf) more ≡ ok prefix
      → IsProof prefix (buf ++ after) ⊎ (more ≡ ok prefix)
  round_ok buf prefix after more e =
      elim (settled (check_buffer p mac_key prefix_len buf) more prefix e) [
        | inl c ↦ inl (more_behind prefix buf after (check_buffer_ok buf prefix c))
        | inr m ↦ inr m
      ]

  never_ok :
      (c : Bool) (x y : HandshakeError) (prefix : List ℕ) → (if c then err x else err y) ≢ ok prefix
  never_ok true x y prefix e = cc
  never_ok false x y prefix e = cc

  not_full :
      (c : Bool) (x : HandshakeError) (more : Result HandshakeError (List ℕ)) (prefix : List ℕ)
      → (if c then err x else more) ≡ ok prefix
      → more ≡ ok prefix
  not_full true x more prefix e = cc
  not_full false x more prefix e = e

  last_round :
      (buf prefix after : List ℕ) (c : Bool) (x y : HandshakeError)
      → settle p (check_buffer p mac_key prefix_len buf) (if c then err x else err y) ≡ ok prefix
      → IsProof prefix (buf ++ after)
  last_round buf prefix after c x y e = elim (round_ok buf prefix after _ e) [
    | inl q ↦ q
    | inr m ↦ absurd (never_ok c x y prefix m)
  ]

  -- What `read_marked_message` accepts begins, in the bytes that came in, with a message of this prefix
  -- whose MAC verifies.
  pub read_marked_message_ok :
      (buf prefix : List ℕ) (src : Source)
      → read_marked_message p mac_key prefix_len buf src ≡ ok prefix
      → IsProof prefix (buf ++ bytes_of src)
  unfolding read_marked_message
  read_marked_message_ok buf prefix eof e = last_round buf prefix [] _ _ _ e
  read_marked_message_ok buf prefix failed e = last_round buf prefix [] _ _ _ e
  read_marked_message_ok buf prefix (got [] rest) e = last_round buf prefix [] _ _ _ e
  read_marked_message_ok buf prefix (got (b ∷ bs) rest) e =
      let all = append_assoc buf (b ∷ bs) (bytes_of rest) in
      elim (round_ok buf prefix (bytes_of (got (b ∷ bs) rest)) _ e) [
        | inl q ↦ q
        | inr m ↦
            let later =
              read_marked_message_ok (buf ++ (b ∷ bs)) prefix rest (not_full _ _ _ prefix m) in
            rw (sym all) later
      ]

module _ (p : Primitives) where
  unproved_is_silent :
      (b_pub b_secret y_priv y_repr pad : List ℕ) (r : Result HandshakeError (List ℕ))
      → (on_proof p b_pub b_secret y_priv y_repr pad r).1 ≢ []
      → (prefix : List ℕ) × (r ≡ ok prefix)
  unfolding on_proof
  unproved_is_silent b_pub b_secret y_priv y_repr pad (err x) h = absurd (h refl)
  unproved_is_silent b_pub b_secret y_priv y_repr pad (ok prefix) h = (prefix, refl)

  -- A server that writes anything has been sent, before that, a message whose MAC verifies under the key
  -- derived from the server's own public key, for the current hour or one next to it. To a prober whose
  -- bytes begin with no such message, it writes nothing.
  pub server_handshake_silent :
      (b_pub b_secret y_priv y_repr pad : List ℕ) (src : Source)
      → (server_handshake p b_pub b_secret y_priv y_repr pad src).1 ≢ []
      → (prefix : List ℕ) × IsProof p (identity_mac_key p b_pub) pubkey_len prefix (bytes_of src)
  unfolding server_handshake
  server_handshake_silent b_pub b_secret y_priv y_repr pad src h =
      let key = identity_mac_key p b_pub in
      let (prefix, e) =
        unproved_is_silent b_pub b_secret y_priv y_repr pad
          (read_marked_message p key pubkey_len [] src) h in
      (prefix, read_marked_message_ok p key pubkey_len [] prefix src e)

  -- Without a message of that kind the handshake fails, and the server has written nothing.
  pub server_handshake_rejects :
      (b_pub b_secret y_priv y_repr pad : List ℕ) (src : Source)
      → ((prefix : List ℕ)
          → IsProof p (identity_mac_key p b_pub) pubkey_len prefix (bytes_of src)
          → ⊥)
      → (e : HandshakeError) × (server_handshake p b_pub b_secret y_priv y_repr pad src
          ≡ (err e, []))
  unfolding server_handshake on_proof
  server_handshake_rejects b_pub b_secret y_priv y_repr pad src no_proof =
      let key = identity_mac_key p b_pub in
      elim (Result-cases (read_marked_message p key pubkey_len [] src)) [
        | inl (prefix, e) ↦
            absurd (no_proof prefix (read_marked_message_ok p key pubkey_len [] prefix src e))
        | inr (x, e) ↦ (x, rw e refl)
      ]
