-- ===== src/Hex/Tests.antt =====
-- Runs of the hexadecimal codec.
use mix_tor.Base.{concat, ◌≡◌, replicate, ◌∷◌, [], some, refl}
use mix_tor.Samples.{zeros}
use mix_tor.Base.Random.{Rng}
use mix_tor.Hex.{trim_end, trim_start, is_space, push_byte, key_to_hex, key_from_hex}
use mix_tor.Hex.RoundTrip.{key_from_hex-key_to_hex}

ff : key_to_hex (255 ∷ 10 ∷ []) ≡ 102 ∷ 102 ∷ 48 ∷ 97 ∷ []
unfolding key_to_hex
ff = refl

printed_key : key_from_hex (key_to_hex (replicate 32 0)) ≡ some (replicate 32 0)
printed_key = key_from_hex-key_to_hex (replicate 32 0) (Rng.fill-IsByte zeros 32 0) refl

-- A plus sign in front of a digit is read as part of a byte.
plus_sign : key_from_hex (concat (replicate 32 (43 ∷ 102 ∷ []))) ≡ some (replicate 32 15)
unfolding key_from_hex trim_end trim_start is_space push_byte
plus_sign = refl
