-- ===== src/Tail.antt =====
-- The epoch clock and the tail policies of src/transport.rs: `EpochClock::next_boundary`,
-- `class_targets_fuzzy`, `tail_targets`. Instants and durations are nanoseconds.
pub mod Epoch
mod Targets
pub mod Env
mod Tests
use mix_tor.Base.{
  ℕ, ◌+◌, ◌-◌, ◌*◌, ◌/◌, ◌%◌, ◌^◌, Option, none, some, ltb, if◌then◌else◌, ◌==◌, saturating_add,
}
use mix_tor.Session.{
  SessionClass, FuzzedClassThresholds, classify, target_volume_bytes, target_duration, seconds,
}
use mix_tor.Cell.{cell_bytes}

pub record EpochClock : Type 0 where
  pub origin : ℕ
  pub period : ℕ

abbrev pub default_epoch_duration : ℕ
default_epoch_duration = seconds 5

-- `duration_since` is 0 for an instant before the origin; `next_ns as u64` wraps.
unfoldable pub next_boundary : EpochClock → ℕ → ℕ
next_boundary c now =
    let elapsed_ns = now - c.origin in
    let next_ns = (elapsed_ns / c.period + 1) * c.period in
    if c.period == 0 then now else c.origin + next_ns % 2 ^ 64

pub data TailPolicy : Type 0 where
  off : TailPolicy
  fixed : ℕ → TailPolicy
  by_class : TailPolicy
  epoch : EpochClock → TailPolicy

abbrev pub tail_volume_quantum_cells : ℕ
tail_volume_quantum_cells = 256

unfoldable pub class_targets_fuzzy : ℕ → FuzzedClassThresholds → ℕ × ℕ
class_targets_fuzzy real_bytes_sent thresholds =
    let class = classify thresholds real_bytes_sent in
    (target_duration class, target_volume_bytes class / cell_bytes)

-- The deadline and the number of cells on the wire that the tail has to reach; `now` is what
-- `Instant::now()` returns.
unfoldable pub tail_targets : ℕ → ℕ → TailPolicy → FuzzedClassThresholds → ℕ → ℕ → Option (ℕ × ℕ)
tail_targets real_bytes_sent wire_seq off thresholds session_start now = none
tail_targets real_bytes_sent wire_seq (fixed d) thresholds session_start now =
    let q = tail_volume_quantum_cells in
    some (session_start + d, saturating_add wire_seq (q - 1) / q * q)
tail_targets real_bytes_sent wire_seq by_class thresholds session_start now =
    let (floor, vol) = class_targets_fuzzy real_bytes_sent thresholds in
    some (session_start + floor, vol)
tail_targets real_bytes_sent wire_seq (epoch clock) thresholds session_start now =
    let (floor, _) = class_targets_fuzzy real_bytes_sent thresholds in
    let min_deadline = session_start + floor in
    let anchor = if ltb now min_deadline then min_deadline else now in
    some (next_boundary clock anchor, 0)
