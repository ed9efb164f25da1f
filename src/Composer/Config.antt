-- ===== src/Composer/Config.antt =====
-- src/composition.rs: `CompositionConfig` with its default and `validate`, the kinds of regime and
-- their ranges, and the errors. A panic is a way to stop beside the errors.
use mix_tor.Base.{
  ◌>>◌, true, false, ok, err, ℕ, ◌*◌, Option, none, some, Result, ok, err, Bool, false, ◌||◌, ltb,
  ◌==◌,
}
use mix_tor.Session.{SessionClass}
use mix_tor.Correlator.Start.{CorrelatorFault}
use mix_tor.Seeds.{SeedRole}

pub data RatioDistributionKind : Type 0 where
  sparse balanced heavy_cover spiky_cover : RatioDistributionKind

unfoldable pub dummy_count_range : RatioDistributionKind → ℕ × ℕ
dummy_count_range sparse = (0, 1)
dummy_count_range balanced = (3, 8)
dummy_count_range heavy_cover = (10, 18)
dummy_count_range spiky_cover = (12, 20)

pub record RatioSwitchThreshold : Type 0 where
  pub bursts : ℕ
  pub real_bytes : ℕ
  pub real_packets : ℕ

pub record RatioRegime : Type 0 where
  pub kind : RatioDistributionKind
  pub switch_after : RatioSwitchThreshold
  pub dummy_lo : ℕ
  pub dummy_hi : ℕ
  pub spiky : Bool

abbrev pub tor_cell_bytes : ℕ
tor_cell_bytes = 514

-- `F` stands for `f64` and `D` for `DpShaperConfig`.
pub record CompositionConfig (F D : Type 0) : Type 0 where
  pub max_dummy_packets_per_burst : ℕ
  pub min_switch_bursts : ℕ
  pub max_switch_bursts : ℕ
  pub min_switch_real_bytes : ℕ
  pub max_switch_real_bytes : ℕ
  pub min_switch_real_packets : ℕ
  pub max_switch_real_packets : ℕ
  pub max_idle_gap_ms : ℕ
  pub keepalive_min_bytes : ℕ
  pub keepalive_max_bytes : ℕ
  pub dp_shaper : Option D
  pub session_class : Option SessionClass
  pub padding_buckets : ℕ
  pub cell_bytes : Option ℕ
  pub clock_ema_alpha : Option F
  pub clock_min_iat_ms : Option F
  pub clock_max_iat_ms : Option F
  pub clock_initial_iat_ms : Option F
  pub clock_adapt_rate : Option Bool
  pub clock_min_dummy_fraction : Option F

-- The texts of `InvalidConfig`, as constructors.
pub data CompositionFault : Type 0 where
  zero_max_dummies zero_thresholds bursts_above bytes_above packets_above : CompositionFault
  zero_idle_gap keepalive_range zero_buckets zero_cell spectral_invalid dp_invalid :
      CompositionFault
  no_cell_size queue_full_at_start : CompositionFault
  correlator_invalid : CorrelatorFault → CompositionFault

pub data CompositionError : Type 0 where
  invalid_composition : CompositionFault → CompositionError
  wrong_composition_role : SeedRole → SeedRole → CompositionError
  queue_full : CompositionError

-- How a call of the source ends when it does not return a value: an error, or a panic.
pub data Stop : Type 0 where
  failed : CompositionError → Stop
  panicked : Stop

-- `if b { return Err(InvalidConfig(..)) }`
unfoldable pub refuse_if : Bool → CompositionFault → Result Stop (Unit {0})
refuse_if true fault = err (failed (invalid_composition fault))
refuse_if false fault = ok tt

unfoldable pub zero_cell_size : Option ℕ → Bool
zero_cell_size none = false
zero_cell_size (some cb) = cb == 0

module _ {F D : Type 0} where
  -- `CompositionConfig::default`, for the default of `DpShaperConfig`
  unfoldable pub config_default : D → CompositionConfig F D
  config_default dp = record {
    max_dummy_packets_per_burst = 32;
    min_switch_bursts = 180;
    max_switch_bursts = 800;
    min_switch_real_bytes = 4 * 1024 * 1024;
    max_switch_real_bytes = 32 * 1024 * 1024;
    min_switch_real_packets = 4096;
    max_switch_real_packets = 32768;
    max_idle_gap_ms = 480;
    keepalive_min_bytes = 100;
    keepalive_max_bytes = 1400;
    dp_shaper = some dp;
    session_class = none;
    padding_buckets = 4;
    cell_bytes = some tor_cell_bytes;
    clock_ema_alpha = none;
    clock_min_iat_ms = none;
    clock_max_iat_ms = none;
    clock_initial_iat_ms = none;
    clock_adapt_rate = none;
    clock_min_dummy_fraction = none;
  }

  unfoldable pub validate_composition : CompositionConfig F D → Result Stop (CompositionConfig F D)
  unfolding zero_cell_size
  validate_composition c = do
    refuse_if (c.max_dummy_packets_per_burst == 0) zero_max_dummies
    refuse_if
        (c.min_switch_bursts == 0 || c.min_switch_real_bytes == 0 || c.min_switch_real_packets == 0)
        zero_thresholds
    refuse_if (ltb c.max_switch_bursts c.min_switch_bursts) bursts_above
    refuse_if (ltb c.max_switch_real_bytes c.min_switch_real_bytes) bytes_above
    refuse_if (ltb c.max_switch_real_packets c.min_switch_real_packets) packets_above
    refuse_if (c.max_idle_gap_ms == 0) zero_idle_gap
    refuse_if (c.keepalive_min_bytes == 0 || ltb c.keepalive_max_bytes c.keepalive_min_bytes)
        keepalive_range
    refuse_if (c.padding_buckets == 0) zero_buckets
    refuse_if (zero_cell_size c.cell_bytes) zero_cell
    ok c
