-- ===== src/Composer/Start/Tests.antt =====
-- A composer's start.
use mix_tor.Base.{◌≡◌, refl, arith, [], ◌∷◌, some, ok, Returns}
use mix_tor.Seeds.{EphemeralSeed, burst_composition}
use mix_tor.Samples.{still, cover_config}
use mix_tor.Composer.Config.{validate_composition, refuse_if, zero_cell_size}
use mix_tor.Composer.Switch.{IsSound}
use mix_tor.Composer.Start.{composer_with_config, shaper_of, or_invalid}
use mix_tor.Composer.Start.Fresh.{composer_with_config-IsSound}

abbrev seed : EphemeralSeed
seed = record { role = burst_composition; bytes = 1 ∷ 2 ∷ [] }

accepts : validate_composition cover_config ≡ ok cover_config
unfolding validate_composition refuse_if zero_cell_size
accepts = refl

shaper : shaper_of still seed cover_config.dp_shaper ≡ ok (some 7)
unfolding shaper_of or_invalid
shaper = refl

composer_with_config-IsSound_example :
    Returns
      (λ c. IsSound still c × (c.config ≡ cover_config))
      (composer_with_config still seed cover_config 0)
composer_with_config-IsSound_example =
    composer_with_config-IsSound still seed cover_config 0 0 (some 7) refl accepts (omega arith)
      refl shaper
