-- ===== src/Correlator/Start.antt =====
-- src/timing_correlator.rs: `TimingCorrelatorConfig` with its floating-point fields, its default and
-- `validate`, and `TimingCorrelator::new`. The comparisons of doubles and their literals are parameters.
use mix_tor.Base.{
  ◌≡◌, refl, Returns, ℕ, List, [], none, Result, ok, err, ◌>>=◌, ◌>>◌, Bool, true, false, ◌||◌,
  ◌&&◌, not, ◌==◌,
}
use mix_tor.Correlator.{Clock, TimingCorrelator, advance_clock}

-- `decimal n d` is the literal of the fraction `n / d`, `twice` the product with 2.0.
pub record Floats (F : Type 0) : Type 0 where
  pub le : F → F → Bool
  pub lt : F → F → Bool
  pub decimal : ℕ → ℕ → F
  pub twice : F → F

pub record CorrelatorSettings (F : Type 0) : Type 0 where
  pub cell_bytes : ℕ
  pub initial_iat_ms : F
  pub ema_alpha : F
  pub min_iat_ms : F
  pub max_iat_ms : F
  pub max_queue_depth : ℕ
  pub adapt_rate : Bool
  pub min_dummy_fraction : F

-- The texts of `InvalidConfig`, as constructors, and `QueueFull`.
pub data CorrelatorFault : Type 0 where
  zero_cell_bytes initial_not_positive alpha_out_of_range min_not_positive : CorrelatorFault
  min_not_below_max zero_queue_depth fraction_out_of_range : CorrelatorFault

pub data TimingCorrelatorError : Type 0 where
  invalid_correlator : CorrelatorFault → TimingCorrelatorError
  correlator_queue_full : TimingCorrelatorError

unfoldable pub settings_default : {F : Type 0} → Floats F → CorrelatorSettings F
settings_default fl = record {
  cell_bytes = 514;
  initial_iat_ms = Floats.decimal fl 200 1;
  ema_alpha = Floats.decimal fl 20 100;
  min_iat_ms = Floats.decimal fl 5 1;
  max_iat_ms = Floats.decimal fl 2_000 1;
  max_queue_depth = 256;
  adapt_rate = true;
  min_dummy_fraction = Floats.decimal fl 0 1;
}

-- `if b { return Err(InvalidConfig(..)) }`
unfoldable pub fault_if : Bool → CorrelatorFault → Result TimingCorrelatorError (Unit {0})
fault_if true fault = err (invalid_correlator fault)
fault_if false fault = ok tt

unfoldable pub validate_correlator :
    {F : Type 0}
    → Floats F
    → CorrelatorSettings F
    → Result TimingCorrelatorError (CorrelatorSettings F)
validate_correlator fl c = do
  let nought = Floats.decimal fl 0 1
  let unit = Floats.decimal fl 1 1
  fault_if (c.cell_bytes == 0) zero_cell_bytes
  fault_if (Floats.le fl c.initial_iat_ms nought) initial_not_positive
  fault_if (Floats.le fl c.ema_alpha nought || Floats.lt fl unit c.ema_alpha) alpha_out_of_range
  fault_if (Floats.le fl c.min_iat_ms nought) min_not_positive
  fault_if (Floats.le fl c.max_iat_ms c.min_iat_ms) min_not_below_max
  fault_if (c.max_queue_depth == 0) zero_queue_depth
  fault_if
      (not (Floats.le fl nought c.min_dummy_fraction && Floats.lt fl c.min_dummy_fraction unit))
      fraction_out_of_range
  ok c

-- `TimingCorrelator::new`, at the time `now`; `from_seed` is `ChaCha20Rng::from_seed`.
unfoldable pub correlator_new :
    (k : Clock)
    → Floats (Clock.Mean k)
    → (List ℕ → Clock.State k)
    → CorrelatorSettings (Clock.Mean k)
    → Clock.State k
    → ℕ
    → Result TimingCorrelatorError (TimingCorrelator k)
correlator_new k fl from_seed settings rng now = do
  config ← validate_correlator fl settings
  let (content_seed, rng') = Clock.fill k 32 rng
  let tc : TimingCorrelator k = record {
    config = record {
      cell_bytes = config.cell_bytes;
      max_queue_depth = config.max_queue_depth;
      adapt_rate = config.adapt_rate;
      reserves_dummies = Floats.lt fl (Floats.decimal fl 0 1) config.min_dummy_fraction;
    };
    rng = rng';
    content_rng = from_seed content_seed;
    real_queue = [];
    next_departure = now;
    mean_iat_ms = config.initial_iat_ms;
    last_real_arrival = none;
    real_emitted = 0;
    dummy_emitted = 0;
  }
  ok (advance_clock k tc now)

-- A correlator as it starts: the settings' cell size and rate, and nothing waiting.
pub correlator_new-parts :
    (k : Clock) (fl : Floats (Clock.Mean k)) (from_seed : List ℕ → Clock.State k)
    (settings : CorrelatorSettings (Clock.Mean k)) (rng : Clock.State k) (now : ℕ)
    → validate_correlator fl settings ≡ ok settings
    → Returns
        (λ tc.
          (tc.config.cell_bytes ≡ settings.cell_bytes)
          × (tc.config.adapt_rate ≡ settings.adapt_rate)
          × (tc.real_queue ≡ []))
        (correlator_new k fl from_seed settings rng now)
unfolding correlator_new advance_clock
correlator_new-parts k fl from_seed settings rng now valid = rw valid (_, refl, (refl, refl, refl))
