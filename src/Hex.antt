-- ===== src/Hex.antt =====
-- `key_to_hex` and `key_from_hex` of src/crypto.rs. A text is the list of its ASCII codes.
pub mod RoundTrip
mod Tests
use mix_tor.Base.{
  ◌-◌, ◌+◌, none, ◌&&◌, ◌||◌, ◌*◌, ◌%◌, ◌/◌, length, ltb, some, ◌==◌, leb, if◌then◌else◌, Bool,
  Option, List, ℕ, ◌∷◌, [], zero, suc,
}

-- A lower-case hexadecimal digit.
abbrev pub hex_digit : ℕ → ℕ
hex_digit d = if ltb d 10 then 48 + d else 87 + d

-- `format!("{b:02x}")` for each byte.
unfoldable pub key_to_hex : List ℕ → List ℕ
key_to_hex [] = []
key_to_hex (b ∷ bs) = hex_digit (b / 16) ∷ hex_digit (b % 16) ∷ key_to_hex bs

-- `char::to_digit(16)`
abbrev pub to_digit : ℕ → Option ℕ
to_digit c =
    if leb 48 c && leb c 57
    then some (c - 48)
    else if leb 97 c && leb c 102
    then some (c - 87)
    else if leb 65 c && leb c 70
    then some (c - 55)
    else none

two_digits : Option ℕ → Option ℕ → Option ℕ
two_digits none lo = none
two_digits (some hi) none = none
two_digits (some hi) (some lo) = some (hi * 16 + lo)

-- `u8::from_str_radix` of the crate's standard library on two characters: a leading `+` is allowed.
abbrev byte_of : ℕ → ℕ → Option ℕ
byte_of c d = if c == 43 then to_digit d else two_digits (to_digit c) (to_digit d)

is_space : ℕ → Bool
is_space c = c == 32 || (leb 9 c && leb c 13)

trim_start : List ℕ → List ℕ
trim_start [] = []
trim_start (c ∷ cs) = let rest = trim_start cs in if is_space c then rest else c ∷ cs

in_front_of_end : ℕ → List ℕ → List ℕ
in_front_of_end c [] = if is_space c then [] else c ∷ []
in_front_of_end c (d ∷ ds) = c ∷ d ∷ ds

-- `trim_end`: a text of spaces is cut off at the end.
trim_end : List ℕ → List ℕ
unfolding in_front_of_end
trim_end [] = []
trim_end (c ∷ cs) = in_front_of_end c (trim_end cs)

unfoldable pub trim : List ℕ → List ℕ
unfolding trim_start trim_end in_front_of_end is_space
trim cs = trim_end (trim_start cs)

push_byte : Option ℕ → Option (List ℕ) → Option (List ℕ)
push_byte none bs = none
push_byte (some b) none = none
push_byte (some b) (some bs) = some (b ∷ bs)

-- The loop over the pairs of characters.
pairs : List ℕ → Option (List ℕ)
pairs [] = some []
pairs (c ∷ []) = none
pairs (c ∷ d ∷ cs) = push_byte (byte_of c d) (pairs cs)

unfoldable pub key_from_hex : List ℕ → Option (List ℕ)
unfolding pairs trim push_byte two_digits
key_from_hex s = let t = trim s in if length t == 64 then pairs t else none
