-- ===== src/Shaped/Start.antt =====
-- src/composition.rs: `ShapedSession::new`; src/transport.rs: `shaped_composition_config`.
pub mod Ready
use mix_tor.Base.{ℕ, ◌*◌, List, [], ◌∷◌, Option, none, some, Result, ok, err, ◌>>=◌, true, false}
use mix_tor.Seeds.{EphemeralSeed}
use mix_tor.Cell.{cell_bytes}
use mix_tor.Correlator.{Clock}
use mix_tor.Correlator.Start.{
  Floats, CorrelatorSettings, TimingCorrelatorError, invalid_correlator, correlator_queue_full,
  correlator_new,
}
use mix_tor.Composer.Config.{
  CompositionConfig, Stop, failed, invalid_composition, no_cell_size, queue_full_at_start,
  correlator_invalid, config_default,
}
use mix_tor.Composer.Parts.{Meters}
use mix_tor.Composer.Start.{composer_with_config}
use mix_tor.Shaped.{ShapedSession}

-- How the correlator's generator and doubles come from the session's: `seeded` is `from_seed` of
-- `derive_rng_seed`, `burn` the draw of one word, `f64` the same double for both layers.
pub record ClockSource (m : Meters) (k : Clock) : Type 0 where
  pub floats : Floats (Clock.Mean k)
  pub f64 : Meters.F m → Clock.Mean k
  pub from_seed : List ℕ → Clock.State k
  pub seeded : EphemeralSeed → List ℕ → Clock.State k
  pub burn : Clock.State k → Clock.State k

-- `b"mixtor.correlator.v1"`
abbrev correlator_label : List ℕ
correlator_label =
    109 ∷ 105 ∷ 120 ∷ 116 ∷ 111 ∷ 114 ∷ 46 ∷ 99 ∷ 111 ∷ 114 ∷ 114 ∷ 101 ∷ 108 ∷ 97 ∷ 116 ∷ 111 ∷ 114
    ∷ 46 ∷ 118 ∷ 49 ∷ []

unfoldable pub or_else {ℓ} : {A : Type ℓ} → Option A → A → A
or_else none d = d
or_else (some a) d = a

require_cell : Option ℕ → Result Stop ℕ
require_cell none = err (failed (invalid_composition no_cell_size))
require_cell (some cell) = ok cell

-- `map_err` on what `TimingCorrelator::new` returned.
or_composition {ℓ} : {A : Type ℓ} → Result TimingCorrelatorError A → Result Stop A
or_composition (ok a) = ok a
or_composition (err (invalid_correlator fault)) =
    err (failed (invalid_composition (correlator_invalid fault)))
or_composition (err correlator_queue_full) = err (failed (invalid_composition queue_full_at_start))

module _ (m : Meters) (k : Clock) (src : ClockSource m k) where
  -- An override, as the correlator's double.
  unfoldable pub given : Option (Meters.F m) → Option (Clock.Mean k)
  given none = none
  given (some f) = some (ClockSource.f64 src f)

  -- The correlator's configuration, with the overrides of the composition's.
  unfoldable pub settings_of :
      CompositionConfig (Meters.F m) (Meters.DpConfig m) → ℕ → CorrelatorSettings (Clock.Mean k)
  unfolding or_else given
  settings_of c cell =
      let fl = ClockSource.floats src in
      let gap = ClockSource.f64 src (Meters.of_ms m c.max_idle_gap_ms) in
      record {
        cell_bytes = cell;
        initial_iat_ms = or_else (given c.clock_initial_iat_ms) gap;
        ema_alpha = or_else (given c.clock_ema_alpha) (Floats.decimal fl 20 100);
        min_iat_ms = or_else (given c.clock_min_iat_ms) (Floats.decimal fl 5 1);
        max_iat_ms = or_else (given c.clock_max_iat_ms) (Floats.twice fl gap);
        max_queue_depth = c.max_dummy_packets_per_burst * 4;
        adapt_rate = or_else c.clock_adapt_rate true;
        min_dummy_fraction = or_else (given c.clock_min_dummy_fraction) (Floats.decimal fl 0 1);
      }

  -- `ShapedSession::new`, at the time `now`
  pub session_new :
      EphemeralSeed
      → CompositionConfig (Meters.F m) (Meters.DpConfig m)
      → ℕ
      → Result Stop (ShapedSession m k)
  unfolding require_cell or_composition
  session_new seed_b config now = do
    cell ← require_cell config.cell_bytes
    let tc_rng = ClockSource.burn src (ClockSource.seeded src seed_b correlator_label)
    correlator ← or_composition (
        correlator_new k (ClockSource.floats src) (ClockSource.from_seed src)
          (settings_of config cell) tc_rng now)
    composer ← composer_with_config m seed_b config now
    ok (record { composer = composer; correlator = correlator })

-- `shaped_composition_config`, for the literals and the shaper's default; `decimal n d` is the literal
-- of the fraction `n / d`.
unfoldable pub shaped_composition_config :
    {F D : Type 0} → (ℕ → ℕ → F) → D → F → CompositionConfig F D
unfolding config_default
shaped_composition_config decimal dp initial_iat_ms = record (config_default dp) {
  cell_bytes = some cell_bytes;
  clock_adapt_rate = some false;
  clock_ema_alpha = some (decimal 5 100);
  clock_min_iat_ms = some (decimal 1 1);
  clock_initial_iat_ms = some initial_iat_ms;
  clock_max_iat_ms = some (decimal 60 1);
  clock_min_dummy_fraction = some (decimal 12 100);
}
