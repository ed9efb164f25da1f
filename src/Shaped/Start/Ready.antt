-- ===== src/Shaped/Start/Ready.antt =====
-- The session of a flow of src/transport.rs as it starts.
use mix_tor.Base.{
  ◌≤◌, ℕ, ◌≡◌, refl, sym, ◌∙◌, ap, [], Option, some, Result, ok, Returns, Returns-bind, arith,
}
use mix_tor.Seeds.{EphemeralSeed, burst_composition}
use mix_tor.Correlator.{Clock}
use mix_tor.Correlator.Start.{TimingCorrelatorError, validate_correlator, correlator_new-parts}
use mix_tor.Composer.Config.{
  CompositionConfig, config_default, validate_composition, refuse_if, zero_cell_size,
}
use mix_tor.Composer.Parts.{Meters}
use mix_tor.Composer.Start.{spectral_label, shaper_of}
use mix_tor.Composer.Start.Fresh.{composer_with_config-IsSound}
use mix_tor.Shaped.Runs.{IsReady}
use mix_tor.Shaped.Start.{
  ClockSource, settings_of, session_new, shaped_composition_config, require_cell, or_composition,
  or_else,
}

or_composition-Returns :
    {A : Type 0} {P : A → Type 0} (r : Result TimingCorrelatorError A)
    → Returns P r
    → Returns P (or_composition r)
unfolding or_composition
or_composition-Returns r (a, e, h) = rw e (a, refl, h)

module _ {F D : Type 0} (decimal : ℕ → ℕ → F) (dp : D) (iat : F) where
  abbrev config : CompositionConfig F D
  config = shaped_composition_config decimal dp iat

  valid : validate_composition config ≡ ok config
  unfolding shaped_composition_config config_default validate_composition refuse_if zero_cell_size
  valid = refl

-- The session of a flow starts as the emitter wants it: `ShapedSession::new` on
-- `shaped_composition_config`, for a seed of the composition's role, where the correlator accepts its
-- floating-point settings and the spectral generator and the shaper their parts, returns a session at a
-- fixed rate whose two layers have the cell of 514 bytes, with no packet waiting. No draw panics.
pub session_new-IsReady :
    (m : Meters) (k : Clock) (src : ClockSource m k) (seed : EphemeralSeed)
    (decimal : ℕ → ℕ → Meters.F m) (dp : Meters.DpConfig m) (iat : Meters.F m) (now : ℕ)
    (spectral : Meters.Spectral m) (shaper : Option (Meters.Dp m))
    → seed.role ≡ burst_composition
    → validate_correlator
        (ClockSource.floats src)
        (settings_of m k src (shaped_composition_config decimal dp iat) 514)
      ≡ ok (settings_of m k src (shaped_composition_config decimal dp iat) 514)
    → Meters.spectral_new m 480 (Meters.seeded m seed spectral_label) ≡ some spectral
    → shaper_of m seed (some dp) ≡ ok shaper
    → Returns
        (λ s.
          IsReady m k s × (s.correlator.config.cell_bytes ≡ 514) × (s.correlator.real_queue ≡ []))
        (session_new m k src seed (shaped_composition_config decimal dp iat) now)
unfolding session_new require_cell settings_of or_else shaped_composition_config config_default
session_new-IsReady m k src seed decimal dp iat now spectral shaper role accepted made shaped =
    let c = shaped_composition_config decimal dp iat in
    let enough : 12 ≤ 32 = omega arith in
    Returns-bind
      (or_composition-Returns _ (
        correlator_new-parts k (ClockSource.floats src) (ClockSource.from_seed src)
          (settings_of m k src c 514) _ now accepted))
      λ tc (size, rate, queue).
        Returns-bind
          (composer_with_config-IsSound m seed c now spectral shaper role (valid decimal dp iat)
            enough made shaped)
          λ composer (sound, same).
            let ready : IsReady m k (record { composer = composer; correlator = tc }) = record {
              usable = sound.usable;
              cell = ap (λ c. c.cell_bytes) same ∙ ap some (sym size);
              fixed = rate;
              queue = rw queue tt;
            } in
            (_, refl, (ready, size, queue))
