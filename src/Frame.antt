-- ===== src/Frame.antt =====
-- The frame cipher of src/crypto.rs: `enc_frame_len`, `FrameCipher` with its counter nonce, `seal`
-- and `open`. The AEAD of the crate chacha20poly1305 is a parameter.
pub mod Nonce
pub mod Lockstep
mod Tests
use mix_tor.Base.{
  ℕ, zero, suc, ◌+◌, ◌≡◌, List, [], ◌∷◌, ◌++◌, Option, none, some, length, replicate, le_bytes,
  wrapping_add64, Result, ok, err,
}

-- What the crate documents: `decrypt` under the same key and nonce inverts `encrypt`, and a
-- ciphertext is its plaintext's length and a tag of 16 bytes.
pub record Aead : Type 0 where
  pub encrypt : List ℕ → List ℕ → List ℕ → List ℕ
  pub decrypt : List ℕ → List ℕ → List ℕ → Option (List ℕ)
  pub decrypt-encrypt : (key nonce pt : List ℕ) → decrypt key nonce (encrypt key nonce pt) ≡ some pt
  pub length-encrypt : (key nonce pt : List ℕ) → length (encrypt key nonce pt) ≡ length pt + 16

abbrev pub kind_len : ℕ
kind_len = 1

abbrev pub tag_len : ℕ
tag_len = 16

abbrev pub kind_real : ℕ
kind_real = 1

abbrev pub kind_dummy : ℕ
kind_dummy = 2

abbrev pub enc_frame_len : ℕ → ℕ
enc_frame_len cell_len = kind_len + cell_len + tag_len

pub data HandshakeError : Type 0 where
  io closed non_contributory bad_server_auth probe_rejected : HandshakeError

pub record FrameCipher : Type 0 where
  pub key : List ℕ
  pub counter : ℕ

-- `FrameCipher::new`
abbrev pub cipher_new : List ℕ → FrameCipher
cipher_new key = record { key = key; counter = 0 }

-- Four zero bytes and the counter's eight, lowest first; the counter wraps.
unfoldable pub next_nonce : FrameCipher → List ℕ × FrameCipher
next_nonce c =
    (replicate 4 0 ++ le_bytes 8 c.counter, record c { counter = wrapping_add64 c.counter 1 })

-- The plaintext of a frame taken apart into its kind byte and cell.
split_plaintext : List ℕ → Result HandshakeError (ℕ × List ℕ)
split_plaintext [] = err bad_server_auth
split_plaintext (kind ∷ cell) = ok (kind, cell)

module _ (a : Aead) where
  unfoldable pub seal : FrameCipher → ℕ → List ℕ → List ℕ × FrameCipher
  seal c kind cell =
      let (nonce, c') = next_nonce c in (Aead.encrypt a c.key nonce (kind ∷ cell), c')

  unfoldable pub open_frame :
      FrameCipher → List ℕ → Result HandshakeError (ℕ × List ℕ) × FrameCipher
  unfolding split_plaintext
  open_frame c frame =
      let (nonce, c') = next_nonce c in
      elim (Aead.decrypt a c.key nonce frame) [
        | none ↦ (err bad_server_auth, c')
        | some pt ↦ (split_plaintext pt, c')
      ]
