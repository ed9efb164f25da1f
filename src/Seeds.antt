-- ===== src/Seeds.antt =====
-- src/seeds.rs: the two seed roles and the session's seed pair.
mod Rotation
mod Tests
use mix_tor.Base.{
  ℕ, suc, ◌-◌, ◌<◌, List, [], ◌∷◌, Option, none, some, Result, ok, err, ◌>>=◌, Bool, true, false,
  ◌&&◌, leb, ◌==◌, if◌then◌else◌, length,
}

pub data SeedRole : Type 0 where
  timing_and_pool burst_composition : SeedRole

pub record EphemeralSeed : Type 0 where
  pub role : SeedRole
  pub bytes : List ℕ

pub data SeedError : Type 0 where
  random : SeedError
  all_zero_seed : SeedRole → SeedError
  duplicate_seeds invalid_rotation_interval : SeedError

-- `bytes.iter().all(|byte| *byte == 0)`
abbrev pub all_zero : List ℕ → Bool
all_zero [] = true
all_zero (b ∷ bs) = b == 0 && all_zero bs

abbrev pub bytes_eq : List ℕ → List ℕ → Bool
bytes_eq [] [] = true
bytes_eq [] (b ∷ bs) = false
bytes_eq (a ∷ as') [] = false
bytes_eq (a ∷ as') (b ∷ bs) = a == b && bytes_eq as' bs

-- `EphemeralSeed::generate`; what getrandom returns for this call is the second argument.
unfoldable pub generate_seed : SeedRole → Option (List ℕ) → Result SeedError EphemeralSeed
generate_seed role none = err random
generate_seed role (some bytes) =
    if all_zero bytes then err (all_zero_seed role) else ok (record { role = role; bytes = bytes })

pub record SessionSeeds : Type 0 where
  pub timing : EphemeralSeed
  pub burst : EphemeralSeed
  pub generated_at : ℕ
  pub rotation_interval : ℕ

distinct : EphemeralSeed → EphemeralSeed → ℕ → ℕ → Result SeedError SessionSeeds
distinct a b interval now =
    if bytes_eq a.bytes b.bytes
    then err duplicate_seeds
    else ok (record { timing = a; burst = b; generated_at = now; rotation_interval = interval })

-- `SessionSeeds::generate_with_rotation_interval`, with the two draws and the time as arguments.
unfoldable pub generate : ℕ → Option (List ℕ) → Option (List ℕ) → ℕ → Result SeedError SessionSeeds
unfolding distinct
generate interval draw_a draw_b now = if interval == 0 then err invalid_rotation_interval else (do
  a ← generate_seed timing_and_pool draw_a
  b ← generate_seed burst_composition draw_b
  distinct a b interval now)

unfoldable pub should_rotate : SessionSeeds → ℕ → Bool
should_rotate s now = leb s.rotation_interval (now - s.generated_at)

-- `SessionSeeds::rotate`: the new state, and the error if the draws fail.
unfoldable pub rotate :
    SessionSeeds → Option (List ℕ) → Option (List ℕ) → ℕ → SessionSeeds × Option SeedError
rotate s draw_a draw_b now = elim (generate s.rotation_interval draw_a draw_b now) [
  | ok next ↦ (next, none)
  | err e ↦ (s, some e)
]
