-- ===== src/Socks/Cert.antt =====
-- The key in a `cert=` parameter.
use mix_tor.Base.{
  ◌%◌, ◌/◌, ◌*◌, ◌++◌, length, IsByte, true, All, ◌≡◌, ◌<◌, List, ℕ, ◌∷◌, [], suc, refl, arith,
  some,
}
use mix_tor.Hex.{key_to_hex, hex_digit}
use mix_tor.Hex.RoundTrip.{key_from_hex-key_to_hex}
use mix_tor.Socks.{extract_cert, after_cert, hex_run, is_hexdigit, cert_key}

hex_digit-is_hexdigit : (d : ℕ) → d < 16 → is_hexdigit (hex_digit d) ≡ true
hex_digit-is_hexdigit d h = ground arith

hex_run-key_to_hex :
    (bs rest : List ℕ)
    → All IsByte bs
    → hex_run (2 * length bs) (key_to_hex bs ++ rest) ≡ key_to_hex bs
unfolding hex_run key_to_hex
hex_run-key_to_hex [] rest h = refl
hex_run-key_to_hex (b ∷ bs) rest h =
    let two : 2 * length (b ∷ bs) ≡ suc (suc (2 * length bs)) = omega arith in
    rw
      (
        two,
        hex_run,
        hex_digit-is_hexdigit (b / 16) (omega (arith, h.0)),
        hex_digit-is_hexdigit (b % 16) (omega arith),
        hex_run-key_to_hex bs rest h.1,
      )
      refl

-- Arguments that begin with `cert=` and the hexadecimal text of a 32-byte key give this key, whatever
-- separator or other arguments follow.
pub extract_cert-key_to_hex :
    (key rest : List ℕ)
    → All IsByte key
    → length key ≡ 32
    → extract_cert (cert_key ++ (key_to_hex key ++ rest)) ≡ some key
unfolding extract_cert after_cert
extract_cert-key_to_hex key rest h n =
    let run : hex_run 64 (key_to_hex key ++ rest) ≡ key_to_hex key =
      rw n at (hex_run-key_to_hex key rest h) in
    rw (run, extract_cert) (key_from_hex-key_to_hex key h n)
