-- ===== src/Frame/Nonce.antt =====
-- The nonces of `FrameCipher` in src/crypto.rs over the frames sealed under one key.
use mix_tor.Base.{
  sym, ◌∙◌, length, drop, ℕ, zero, suc, ◌+◌, ◌*◌, ◌/◌, ◌^◌, ◌<◌, ◌≡◌, ◌≢◌, ap, List, [], ◌∷◌,
  le_bytes, arith,
}
use mix_tor.Frame.{Aead, FrameCipher, next_nonce, seal, cipher_new}

-- The number that little-endian bytes stand for.
of_le_bytes : List ℕ → ℕ
of_le_bytes [] = 0
of_le_bytes (b ∷ bs) = b + 256 * of_le_bytes bs

of_le_bytes-le_bytes : (n x : ℕ) → x < 256 ^ n → of_le_bytes (le_bytes n x) ≡ x
unfolding of_le_bytes le_bytes
of_le_bytes-le_bytes zero x h = omega arith
of_le_bytes-le_bytes (suc n) x h = omega (arith, of_le_bytes-le_bytes n (x / 256) (omega arith))

abbrev nonce_of : FrameCipher → List ℕ
nonce_of c = (next_nonce c).0

nonce_of-injective :
    (c d : FrameCipher)
    → c.counter < 2 ^ 64
    → d.counter < 2 ^ 64
    → nonce_of c ≡ nonce_of d
    → c.counter ≡ d.counter
unfolding next_nonce
nonce_of-injective c d hc hd e =
    sym (of_le_bytes-le_bytes 8 c.counter hc)
    ∙ ap (λ t. of_le_bytes (drop 4 t)) e
    ∙ of_le_bytes-le_bytes 8 d.counter hd

-- The cipher after sealing the frames of a list.
abbrev pub seal_all : Aead → FrameCipher → List (ℕ × List ℕ) → FrameCipher
seal_all a c [] = c
seal_all a c ((kind, cell) ∷ fs) = seal_all a (seal a c kind cell).1 fs

counter-seal_all :
    (a : Aead) (c : FrameCipher) (fs : List (ℕ × List ℕ))
    → c.counter + length fs < 2 ^ 64
    → (seal_all a c fs).counter ≡ c.counter + length fs
counter-seal_all a c [] h = omega arith
counter-seal_all a c ((kind, cell) ∷ fs) h =
    let next : (seal a c kind cell).1.counter ≡ c.counter + 1 =
      unfold seal next_nonce in (omega arith) in
    omega (arith, counter-seal_all a (seal a c kind cell).1 fs (omega arith))

-- Two different numbers of frames sealed under a fresh key, both below 2^64, leave ciphers whose
-- next nonces differ.
pub nonce_never_repeats :
    (a : Aead) (key : List ℕ) (fs gs : List (ℕ × List ℕ))
    → length fs < 2 ^ 64
    → length gs < 2 ^ 64
    → length fs ≢ length gs
    → (next_nonce (seal_all a (cipher_new key) fs)).0
      ≢ (next_nonce (seal_all a (cipher_new key) gs)).0
nonce_never_repeats a key fs gs hf hg ne e =
    let cf = counter-seal_all a (cipher_new key) fs (omega arith) in
    let cg = counter-seal_all a (cipher_new key) gs (omega arith) in
    ne (
      omega (
        arith,
        nonce_of-injective (seal_all a (cipher_new key) fs) (seal_all a (cipher_new key) gs)
            (omega arith) (omega arith) e,
      ))
