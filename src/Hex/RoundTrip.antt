-- ===== src/Hex/RoundTrip.antt =====
-- `key_from_hex` on the text that `key_to_hex` writes, src/crypto.rs.
use mix_tor.Base.{
  ap, true, ◌*◌, IsByte, ◌==◌, All, ◌%◌, length, ◌/◌, ◌≤◌, false, List, ℕ, ◌∷◌, [], refl, arith,
  ◌≡◌, ◌<◌, some,
}
use mix_tor.Hex.{
  in_front_of_end, trim, hex_digit, key_to_hex, to_digit, two_digits, byte_of, is_space, trim_start,
  trim_end, push_byte, pairs, key_from_hex,
}

-- No space, no comma and no sign.
abbrev pub IsPlain : ℕ → Type 0
IsPlain c = (48 ≤ c) × (c < 127)

to_digit-hex_digit : (d : ℕ) → d < 16 → to_digit (hex_digit d) ≡ some d
to_digit-hex_digit d h = ground arith

pub hex_digit-IsPlain : (d : ℕ) → d < 16 → IsPlain (hex_digit d)
hex_digit-IsPlain d h = ground arith

byte_of-hex_digit : (b : ℕ) → b < 256 → byte_of (hex_digit (b / 16)) (hex_digit (b % 16)) ≡ some b
unfolding two_digits
byte_of-hex_digit b h =
    let hi = to_digit-hex_digit (b / 16) (omega arith) in
    let lo = to_digit-hex_digit (b % 16) (omega arith) in
    let no_sign : (hex_digit (b / 16) == 43) ≡ false = ground arith in
    rw (no_sign, hi, lo) (ap some (omega arith))

pub key_to_hex-IsPlain : (bs : List ℕ) → All IsByte bs → All IsPlain (key_to_hex bs)
unfolding key_to_hex
key_to_hex-IsPlain [] h = tt
key_to_hex-IsPlain (b ∷ bs) h = (
  hex_digit-IsPlain (b / 16) (omega (arith, h.0)),
  (hex_digit-IsPlain (b % 16) (omega arith), key_to_hex-IsPlain bs h.1),
)

is_space-IsPlain : (c : ℕ) → IsPlain c → is_space c ≡ false
unfolding is_space
is_space-IsPlain c h = ground arith

trim_start-IsPlain : (cs : List ℕ) → All IsPlain cs → trim_start cs ≡ cs
unfolding trim_start
trim_start-IsPlain [] h = refl
trim_start-IsPlain (c ∷ cs) h = rw (is_space-IsPlain c h.0) refl

trim_end-IsPlain : (cs : List ℕ) → All IsPlain cs → trim_end cs ≡ cs
unfolding trim_end in_front_of_end
trim_end-IsPlain [] h = refl
trim_end-IsPlain (c ∷ []) h = rw (is_space-IsPlain c h.0) refl
trim_end-IsPlain (c ∷ d ∷ cs) h = rw (trim_end-IsPlain (d ∷ cs) h.1) refl

pub trim-IsPlain : (cs : List ℕ) → All IsPlain cs → trim cs ≡ cs
unfolding trim
trim-IsPlain cs h = rw (trim_start-IsPlain cs h) (trim_end-IsPlain cs h)

in_front_of_end_kept :
    (c : ℕ) (t : List ℕ) → IsPlain c → (ds : List ℕ) × (in_front_of_end c t ≡ c ∷ ds)
unfolding in_front_of_end
in_front_of_end_kept c [] h = ([], rw (is_space-IsPlain c h) refl)
in_front_of_end_kept c (d ∷ ds) h = (d ∷ ds, refl)

-- A text that begins with a visible character keeps it.
pub trim_kept : (c : ℕ) (cs : List ℕ) → IsPlain c → (ds : List ℕ) × (trim (c ∷ cs) ≡ c ∷ ds)
unfolding trim trim_start trim_end
trim_kept c cs h =
    let (ds, e) = in_front_of_end_kept c (trim_end cs) h in (ds, rw (is_space-IsPlain c h) e)

pairs-key_to_hex : (bs : List ℕ) → All IsByte bs → pairs (key_to_hex bs) ≡ some bs
unfolding pairs push_byte key_to_hex
pairs-key_to_hex [] h = refl
pairs-key_to_hex (b ∷ bs) h = rw (byte_of-hex_digit b h.0) (rw (pairs-key_to_hex bs h.1) refl)

pub length-key_to_hex : (bs : List ℕ) → length (key_to_hex bs) ≡ 2 * length bs
unfolding key_to_hex
length-key_to_hex [] = refl
length-key_to_hex (b ∷ bs) = omega (arith, length-key_to_hex bs)

-- A key of 32 bytes is read back from its hexadecimal text.
pub key_from_hex-key_to_hex :
    (bs : List ℕ) → All IsByte bs → length bs ≡ 32 → key_from_hex (key_to_hex bs) ≡ some bs
unfolding key_from_hex
key_from_hex-key_to_hex bs h n =
    let long : (length (key_to_hex bs) == 64) ≡ true = ground (arith, length-key_to_hex bs) in
    rw (trim-IsPlain (key_to_hex bs) (key_to_hex-IsPlain bs h)) (rw long (pairs-key_to_hex bs h))
