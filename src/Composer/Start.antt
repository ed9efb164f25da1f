-- ===== src/Composer/Start.antt =====
-- src/composition.rs: `SeedBComposer::with_config`. The labels of the derived generators are the bytes
-- of the source's strings.
pub mod Fresh
mod Tests
use mix_tor.Base.{ℕ, List, [], ◌∷◌, Option, none, some, Result, ok, err, ◌>>=◌}
use mix_tor.Seeds.{SeedRole, EphemeralSeed, timing_and_pool, burst_composition}
use mix_tor.Buckets.{padder_new}
use mix_tor.Session.{SessionBounder, SessionClass, bounder_new}
use mix_tor.Composer.Config.{
  CompositionConfig, Stop, failed, CompositionFault, invalid_composition, wrong_composition_role,
  spectral_invalid, dp_invalid, validate_composition,
}
use mix_tor.Composer.Parts.{Meters}
use mix_tor.Composer.Regimes.{next_regime}
use mix_tor.Composer.{SeedBComposer, reset_keepalive_deadline}

-- `b"mixtor.composition.v1"`
abbrev composition_label : List ℕ
composition_label =
    109 ∷ 105 ∷ 120 ∷ 116 ∷ 111 ∷ 114 ∷ 46 ∷ 99 ∷ 111 ∷ 109 ∷ 112 ∷ 111 ∷ 115 ∷ 105 ∷ 116 ∷ 105
    ∷ 111 ∷ 110 ∷ 46 ∷ 118 ∷ 49 ∷ []

-- `b"mixtor.spectral.v1"`
abbrev pub spectral_label : List ℕ
spectral_label =
    109 ∷ 105 ∷ 120 ∷ 116 ∷ 111 ∷ 114 ∷ 46 ∷ 115 ∷ 112 ∷ 101 ∷ 99 ∷ 116 ∷ 114 ∷ 97 ∷ 108 ∷ 46 ∷ 118
    ∷ 49 ∷ []

-- `b"mixtor.dp.v1"`
abbrev dp_label : List ℕ
dp_label = 109 ∷ 105 ∷ 120 ∷ 116 ∷ 111 ∷ 114 ∷ 46 ∷ 100 ∷ 112 ∷ 46 ∷ 118 ∷ 49 ∷ []

unfoldable pub or_invalid {ℓ} : {A : Type ℓ} → CompositionFault → Option A → Result Stop A
or_invalid fault none = err (failed (invalid_composition fault))
or_invalid fault (some a) = ok a

check_role : SeedRole → Result Stop (Unit {0})
check_role burst_composition = ok tt
check_role timing_and_pool = err (failed (wrong_composition_role burst_composition timing_and_pool))

bounder_of : Option SessionClass → ℕ → Option SessionBounder
bounder_of none now = none
bounder_of (some class) now = some (bounder_new class now)

module _ (m : Meters) where
  unfoldable pub shaper_of :
      EphemeralSeed → Option (Meters.DpConfig m) → Result Stop (Option (Meters.Dp m))
  unfolding or_invalid
  shaper_of seed none = ok none
  shaper_of seed (some cfg) = do
    dp ← or_invalid dp_invalid (Meters.dp_new m cfg (Meters.seeded m seed dp_label))
    ok (some dp)

  -- `SeedBComposer::with_config`, at the time `now`
  pub composer_with_config :
      EphemeralSeed
      → CompositionConfig (Meters.F m) (Meters.DpConfig m)
      → ℕ
      → Result Stop (SeedBComposer m)
  unfolding check_role shaper_of or_invalid bounder_of
  composer_with_config seed_b given now = do
    _ ← check_role seed_b.role
    config ← validate_composition given
    (regime, rng) ← next_regime (Meters.rng m) config (Meters.seeded m seed_b composition_label)
    spectral ←
        or_invalid spectral_invalid
          (Meters.spectral_new m config.max_idle_gap_ms (Meters.seeded m seed_b spectral_label))
    dp ← shaper_of seed_b config.dp_shaper
    let composer : SeedBComposer m = record {
      config = config;
      rng = rng;
      regime = regime;
      bursts_in_regime = 0;
      real_bytes_in_regime = 0;
      real_packets_in_regime = 0;
      last_burst_at = now;
      spectral_iat = spectral;
      next_keepalive_due = now;
      length_pool = [];
      length_pool_pos = 0;
      observed_real_iat_ms = Meters.of_ms m config.max_idle_gap_ms;
      last_real_burst_at = none;
      optimal_padder = padder_new config.padding_buckets 32;
      dp_shaper = dp;
      session_bounder = bounder_of config.session_class now;
      dummy_bytes_emitted = 0;
      accountant = Meters.accountant_new m;
      self_tester = Meters.tester_new m;
      frame_clock_ms = 0;
    }
    ok (reset_keepalive_deadline m composer now)
