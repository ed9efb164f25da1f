-- ===== src/Base/Bytes.antt =====
-- Bytes and machine integers as numbers: `to_be_bytes`, `to_le_bytes`, `from_be_bytes`.
use Prim.Native.Nat.{ℕ, zero, suc, ◌+◌, ◌-◌, ◌*◌, ◌/◌, ◌%◌, ◌^◌, ◌<◌, min}
use mathlib.Core.Path.{◌≡◌, refl, ap}
use mathlib.Core.List.{List, [], ◌∷◌}
use mix_tor.Base.Lists.{length}

abbrev pub IsByte : ℕ → Type 0
IsByte b = b < 256

abbrev pub u16_max : ℕ
u16_max = 2 ^ 16 - 1

abbrev pub u64_max : ℕ
u64_max = 2 ^ 64 - 1

-- u16::to_be_bytes and u16::from_be_bytes
abbrev pub be16 : ℕ → List ℕ
be16 n = (n / 256) ∷ (n % 256) ∷ []

abbrev pub from_be16 : ℕ → ℕ → ℕ
from_be16 hi lo = hi * 256 + lo

-- The `n` low bytes of a number, lowest first: u64::to_le_bytes is `le_bytes 8`.
unfoldable pub le_bytes : ℕ → ℕ → List ℕ
le_bytes zero x = []
le_bytes (suc n) x = (x % 256) ∷ le_bytes n (x / 256)

pub length-le_bytes : (n x : ℕ) → length (le_bytes n x) ≡ n
unfolding le_bytes
length-le_bytes zero x = refl
length-le_bytes (suc n) x = ap suc (length-le_bytes n (x / 256))

-- u64::saturating_add, and saturating_add on a 64-bit usize.
unfoldable pub saturating_add : ℕ → ℕ → ℕ
saturating_add a b = min (a + b) u64_max

-- u64::wrapping_add, and fetch_add on an AtomicU16.
abbrev pub wrapping_add64 : ℕ → ℕ → ℕ
wrapping_add64 a b = (a + b) % 2 ^ 64

abbrev pub wrapping_add16 : ℕ → ℕ → ℕ
wrapping_add16 a b = (a + b) % 2 ^ 16
