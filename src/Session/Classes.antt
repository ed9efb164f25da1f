-- ===== src/Session/Classes.antt =====
-- The classes by volume, and the thresholds that `sample` draws.
use mix_tor.Base.{ℕ, ◌+◌, ◌*◌, ◌^◌, ◌≤◌, ◌<◌, arith}
use mix_tor.Base.Random.{Rng}
use mix_tor.Session.{
  SessionClass, short, medium, long, very_long, target_volume_bytes, for_volume,
  FuzzedClassThresholds, fuzz, sample, classify, jitter_lo, jitter_hi,
}

-- The order of the declaration, which `derive(Ord)` takes.
abbrev pub rank : SessionClass → ℕ
rank short = 0
rank medium = 1
rank long = 2
rank very_long = 3

-- `for_volume` takes the smallest class whose volume fits: every class that holds the bytes is at least
-- as large, and the bytes fit in the class chosen unless they fit in none.
pub for_volume_least :
    (n : ℕ) (c : SessionClass)
    → n ≤ target_volume_bytes c
    → (rank (for_volume n) ≤ rank c) × (n ≤ target_volume_bytes (for_volume n))
unfolding for_volume
for_volume_least n short h = ground arith
for_volume_least n medium h = ground arith
for_volume_least n long h = ground arith
for_volume_least n very_long h = ground arith

pub record IsOrdered (t : FuzzedClassThresholds) : Type 0 where
  pub short_medium : t.short_max < t.medium_max
  pub medium_long : t.medium_max < t.long_max

fuzz_bounds :
    (g : Rng) (base : ℕ) (s : Rng.State g)
    → (base * jitter_lo ≤ ((fuzz g base s).0 + 1) * 2 ^ 53)
      × ((fuzz g base s).0 * 2 ^ 53 ≤ base * jitter_hi)
unfolding fuzz
fuzz_bounds g base s =
    let (lo, hi) = Rng.range_bounds g jitter_lo jitter_hi s (omega arith) in grind arith

-- Whatever the generator draws, the three thresholds lie within 30 % of their classes' volumes, so
-- they are in strict order (the `debug_assert!` of the source never fires).
pub sample-IsOrdered :
    (g : Rng) (s : Rng.State g)
    → let t = (sample g s).0 in
      IsOrdered t
      × ((45_875 ≤ t.short_max) × (t.short_max ≤ 85_196))
      × ((734_003 ≤ t.medium_max) × (t.medium_max ≤ 1_363_148))
      × ((11_744_051 ≤ t.long_max) × (t.long_max ≤ 21_810_380))
unfolding sample
sample-IsOrdered g s =
    let s₁ = (fuzz g (target_volume_bytes short) s).1 in
    let s₂ = (fuzz g (target_volume_bytes medium) s₁).1 in
    omega (
      arith,
      fuzz_bounds g (target_volume_bytes short) s,
      fuzz_bounds g (target_volume_bytes medium) s₁,
      fuzz_bounds g (target_volume_bytes long) s₂,
    )

-- More bytes never get a smaller class.
pub classify_mono :
    (t : FuzzedClassThresholds) (m n : ℕ)
    → IsOrdered t
    → m ≤ n
    → rank (classify t m) ≤ rank (classify t n)
unfolding classify
classify_mono t m n o h = ground arith
