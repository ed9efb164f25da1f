-- ===== src/Tail/Targets.antt =====
-- `tail_targets` of src/transport.rs under the policies with an epoch and with a fixed floor.
use mix_tor.Base.{
  ◌*◌, if◌then◌else◌, ℕ, ◌+◌, ◌-◌, ◌%◌, ◌/◌, ◌≤◌, ◌<◌, ◌≡◌, refl, max, some, arith, saturating_add,
  u64_max, ltb,
}
use mix_tor.Session.{FuzzedClassThresholds, classify, target_duration}
use mix_tor.Tail.{
  EpochClock, next_boundary, fixed, epoch, tail_targets, class_targets_fuzzy,
  tail_volume_quantum_cells,
}
use mix_tor.Tail.Epoch.{IsRunning, next_boundary_next}

-- Under `Epoch` the tail lasts to an instant on the clock's grid that is strictly after the end of the
-- stream, at or after the lifetime of the session's class, and at most one period past the later of the
-- two; there is no volume target.
pub tail_targets_epoch :
    (real_bytes wire_seq start now : ℕ) (t : FuzzedClassThresholds) (clock : EpochClock)
    → IsRunning clock (max now (start + target_duration (classify t real_bytes)))
    → let floor = target_duration (classify t real_bytes) in
      (deadline : ℕ) × (tail_targets real_bytes wire_seq (epoch clock) t start now
        ≡ some (deadline, 0))
      × (start + floor ≤ deadline)
      × (now < deadline)
      × (deadline ≤ max now (start + floor) + clock.period)
      × ((deadline - clock.origin) % clock.period ≡ 0)
unfolding tail_targets class_targets_fuzzy
tail_targets_epoch real_bytes wire_seq start now t clock r =
    let floor = target_duration (classify t real_bytes) in
    let anchor = max now (start + floor) in
    let (after, near, grid) = next_boundary_next clock anchor r in
    let latest : (if ltb now (start + floor) then start + floor else now) ≡ anchor = ground arith in
    (next_boundary clock anchor, rw latest refl, omega arith, omega arith, near, grid)

-- Under `Fixed` the volume target is the next multiple of 256 cells, unless it would not fit in 64 bits.
pub tail_targets_fixed :
    (real_bytes wire_seq d start now : ℕ) (t : FuzzedClassThresholds)
    → wire_seq + 255 ≤ u64_max
    → (vol : ℕ) × (tail_targets real_bytes wire_seq (fixed d) t start now ≡ some (start + d, vol))
      × (vol % tail_volume_quantum_cells ≡ 0)
      × (wire_seq ≤ vol)
      × (vol < wire_seq + tail_volume_quantum_cells)
unfolding tail_targets saturating_add
tail_targets_fixed real_bytes wire_seq d start now t h =
    (saturating_add wire_seq 255 / 256 * 256, refl, omega arith, omega arith, omega arith)
