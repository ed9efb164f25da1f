-- ===== src/Tail/Tests.antt =====
-- Runs of the epoch clock and the tail targets.
use mix_tor.Base.{
  err, [], ◌*◌, ◌∷◌, ◌++◌, ok, replicate, ◌%◌, ◌-◌, ◌≤◌, ◌+◌, max, arith, ◌≡◌, ◌<◌, ℕ, refl, some,
}
use mix_tor.Session.{FuzzedClassThresholds, seconds, classify, target_duration}
use mix_tor.Tail.{
  by_class, off, EpochClock, default_epoch_duration, next_boundary, fixed, epoch, tail_targets,
  tail_volume_quantum_cells,
}
use mix_tor.Tail.Env.{
  from_env, from_env_or, epoch_prefix, epoch_of, slice_inside_character, same_ignoring_case,
  named_or_number,
}
use mix_tor.Tail.Env.Parse.{from_env-show}
use mix_tor.Decimal.{show, parse_uint}
use mix_tor.Tail.Epoch.{IsRunning, next_boundary_next, next_boundary_shared}
use mix_tor.Tail.Targets.{tail_targets_epoch, tail_targets_fixed}

abbrev clock : EpochClock
clock = record { origin = 100; period = default_epoch_duration }

runs_at_12s : IsRunning clock (seconds 12)
runs_at_12s = record { ticks = omega arith; started = omega arith; in_range = omega arith }

later_boundary :
    (seconds 12 < next_boundary clock (seconds 12))
    × (next_boundary clock (seconds 12) ≤ seconds 12 + clock.period)
    × ((next_boundary clock (seconds 12) - clock.origin) % clock.period ≡ 0)
later_boundary = next_boundary_next clock (seconds 12) runs_at_12s

boundary_at_12s : next_boundary clock (seconds 12) ≡ seconds 15 + 100
unfolding next_boundary
boundary_at_12s = refl

next_boundary_shared_example : next_boundary clock (seconds 14) ≡ next_boundary clock (seconds 12)
next_boundary_shared_example =
    next_boundary_shared clock (seconds 12) runs_at_12s (seconds 14) (omega arith)
      (omega (arith, boundary_at_12s))

abbrev thresholds : FuzzedClassThresholds
thresholds = record { short_max = 50_000; medium_max = 1_000_000; long_max = 20_000_000 }

runs_at_30s : IsRunning clock (max (seconds 12) (0 + target_duration (classify thresholds 900)))
unfolding classify
runs_at_30s = record { ticks = omega arith; started = omega arith; in_range = omega arith }

tail_targets_epoch_run :
    let floor = target_duration (classify thresholds 900) in
    (deadline : ℕ) × (tail_targets 900 4 (epoch clock) thresholds 0 (seconds 12)
      ≡ some (deadline, 0))
    × (0 + floor ≤ deadline)
    × (seconds 12 < deadline)
    × (deadline ≤ max (seconds 12) (0 + floor) + clock.period)
    × ((deadline - clock.origin) % clock.period ≡ 0)
tail_targets_epoch_run = tail_targets_epoch 900 4 0 (seconds 12) thresholds clock runs_at_30s

fixed_tail :
    (vol : ℕ) × (tail_targets 900 257 (fixed (seconds 3)) thresholds 0 (seconds 1)
      ≡ some (0 + seconds 3, vol))
    × (vol % tail_volume_quantum_cells ≡ 0)
    × (257 ≤ vol)
    × (vol < 257 + tail_volume_quantum_cells)
fixed_tail = tail_targets_fixed 900 257 (seconds 3) 0 (seconds 1) thresholds (omega arith)

from_env-show_example :
    (from_env (some (show 2500)) 7 ≡ ok (some (fixed (2500 * 1_000_000))))
    × (from_env (some (epoch_prefix ++ show 2500)) 7 ≡ ok (some (epoch_of 2500 7)))
from_env-show_example = from_env-show 2500 7 (omega arith) (omega arith)

-- The two bytes of a letter with an accent stand across the sixth place.
accented_value : from_env (some (replicate 5 97 ++ (195 ∷ 169 ∷ []))) 7 ≡ err slice_inside_character
unfolding from_env same_ignoring_case
accented_value = refl

zero_turns_off : from_env (some (show 0)) 7 ≡ ok (some off)
unfolding from_env same_ignoring_case named_or_number show parse_uint
zero_turns_off = refl

upper_case_name : from_env_or off (some (67 ∷ 76 ∷ 65 ∷ 83 ∷ 83 ∷ [])) 7 ≡ ok by_class
unfolding from_env same_ignoring_case named_or_number from_env_or
upper_case_name = refl
