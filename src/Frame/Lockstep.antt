-- ===== src/Frame/Lockstep.antt =====
-- `seal` and `open` of src/crypto.rs with the sender's and the receiver's cipher in one state.
use mix_tor.Base.{ℕ, ◌≡◌, refl, List, ◌∷◌, length, ok, arith}
use mix_tor.Frame.{Aead, FrameCipher, next_nonce, seal, open_frame, enc_frame_len}

module _ (a : Aead) (c : FrameCipher) (kind : ℕ) (cell : List ℕ) where
  -- The receiver's cipher, in the state of the sender's, opens the frame to the kind and the cell,
  -- and both go on in one state.
  pub open_frame-seal :
      let (frame, c') = seal a c kind cell in open_frame a c frame ≡ (ok (kind, cell), c')
  unfolding open_frame seal next_nonce
  open_frame-seal = rw (Aead.decrypt-encrypt a c.key _ (kind ∷ cell), open_frame) refl

  -- A frame's length depends on the cell's length alone, not on the kind.
  pub length-seal : length (seal a c kind cell).0 ≡ enc_frame_len (length cell)
  unfolding seal
  length-seal = omega (arith, Aead.length-encrypt a c.key (next_nonce c).0 (kind ∷ cell))
