-- ===== src/Session.antt =====
-- src/session_bounder.rs: session classes, the thresholds drawn for a session, and the bounder.
-- Durations and instants are nanoseconds.
pub mod Classes
mod Padding
mod Tests
use mix_tor.Base.{
  ℕ, ◌+◌, ◌-◌, ◌*◌, ◌/◌, ◌^◌, Bool, leb, ltb, ◌==◌, ◌&&◌, if◌then◌else◌, saturating_add,
}
use mix_tor.Base.Random.{Rng}

pub data SessionClass : Type 0 where
  short medium long very_long : SessionClass

abbrev pub target_volume_bytes : SessionClass → ℕ
target_volume_bytes short = 64 * 1024
target_volume_bytes medium = 1 * 1024 * 1024
target_volume_bytes long = 16 * 1024 * 1024
target_volume_bytes very_long = 256 * 1024 * 1024

abbrev pub seconds : ℕ → ℕ
seconds n = n * 1_000_000_000

abbrev pub target_duration : SessionClass → ℕ
target_duration short = seconds 30
target_duration medium = seconds (5 * 60)
target_duration long = seconds (30 * 60)
target_duration very_long = seconds (2 * 60 * 60)

unfoldable pub for_volume : ℕ → SessionClass
for_volume real_bytes =
    if leb real_bytes (target_volume_bytes short)
    then short
    else if leb real_bytes (target_volume_bytes medium)
    then medium
    else if leb real_bytes (target_volume_bytes long)
    then long
    else very_long

unfoldable pub padding_remaining : SessionClass → ℕ → ℕ
padding_remaining c real_bytes_sent = target_volume_bytes c - real_bytes_sent

pub record FuzzedClassThresholds : Type 0 where
  pub short_max : ℕ
  pub medium_max : ℕ
  pub long_max : ℕ

-- The doubles `1.0 - BOUNDARY_JITTER` and `1.0 + BOUNDARY_JITTER`, times 2^53. Every double between
-- them is a multiple of 2^-53.
abbrev jitter_lo : ℕ
jitter_lo = 6_305_039_478_318_694

abbrev jitter_hi : ℕ
jitter_hi = 11_709_359_031_163_290

module _ (g : Rng) where
  -- `((base as f64) * factor) as usize`. The product is exact for a base that is a power of two, as
  -- the three bases are, and the cast drops the fraction.
  unfoldable pub fuzz : ℕ → Rng.State g → ℕ × Rng.State g
  fuzz base s = let (factor, s') = Rng.range g jitter_lo jitter_hi s in (base * factor / 2 ^ 53, s')

  unfoldable pub sample : Rng.State g → FuzzedClassThresholds × Rng.State g
  sample s =
      let (a, s₁) = fuzz (target_volume_bytes short) s in
      let (b, s₂) = fuzz (target_volume_bytes medium) s₁ in
      let (c, s₃) = fuzz (target_volume_bytes long) s₂ in
      (record { short_max = a; medium_max = b; long_max = c }, s₃)

unfoldable pub classify : FuzzedClassThresholds → ℕ → SessionClass
classify t real_bytes =
    if leb real_bytes t.short_max
    then short
    else if leb real_bytes t.medium_max
    then medium
    else if leb real_bytes t.long_max
    then long
    else very_long

pub record SessionBounder : Type 0 where
  pub class : SessionClass
  pub real_bytes_sent : ℕ
  pub session_start : ℕ

-- `SessionBounder::new`, at the time `now`
unfoldable pub bounder_new : SessionClass → ℕ → SessionBounder
bounder_new c now = record { class = c; real_bytes_sent = 0; session_start = now }

unfoldable pub record_real_bytes : SessionBounder → ℕ → SessionBounder
record_real_bytes b bytes = record b { real_bytes_sent = saturating_add b.real_bytes_sent bytes }

unfoldable pub volume_padding_remaining : SessionBounder → ℕ
volume_padding_remaining b = padding_remaining b.class b.real_bytes_sent

-- `checked_sub(elapsed).unwrap_or(ZERO)`
unfoldable pub time_remaining : SessionBounder → ℕ → ℕ
time_remaining b now = target_duration b.class - (now - b.session_start)

unfoldable pub is_complete : SessionBounder → ℕ → Bool
is_complete b now = leb (target_volume_bytes b.class) b.real_bytes_sent && time_remaining b now == 0

unfoldable pub final_padding_bytes : SessionBounder → ℕ → ℕ
final_padding_bytes b dummy_bytes_emitted =
    let total_padding = target_volume_bytes b.class - b.real_bytes_sent in
    total_padding - dummy_bytes_emitted
