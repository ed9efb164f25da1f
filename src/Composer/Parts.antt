-- ===== src/Composer/Parts.antt =====
-- What the composer of src/composition.rs calls for its floating-point parts and its draws: the
-- generator, the spectral delays, the differentially private shaper, the accountant and the
-- self-tester, as parameters.
use mix_tor.Base.{ℕ, List, Option, Bool, Result, ok, err, if◌then◌else◌, ltb}
use mix_tor.Base.Random.{Rng}
use mix_tor.Packet.{MixedFrame}
use mix_tor.Seeds.{EphemeralSeed}
use mix_tor.Session.{SessionBounder}
use mix_tor.Composer.Config.{Stop, panicked}

-- `F` stands for `f64`. `seeded` is the generator of `derive_rng_seed` on a label, `coin` is
-- `gen_bool(0.74)`, `delay` the clamped and rounded delay in milliseconds that the spectral generator
-- draws for a target and a ceiling, `smooth` the new mean after a gap in nanoseconds, `needed` the
-- linear schedule of `dummy_bytes_needed_now` at a time.
pub record Meters : Type 1 where
  pub rng : Rng
  pub seeded : EphemeralSeed → List ℕ → Rng.State rng
  pub coin : Rng.State rng → Bool × Rng.State rng
  pub F : Type 0
  pub of_ms : ℕ → F
  pub smooth : ℕ → F → F
  pub Spectral : Type 0
  pub spectral_new : ℕ → Rng.State rng → Option Spectral
  pub delay : F → ℕ → Spectral → ℕ × Spectral
  pub DpConfig : Type 0
  pub Dp : Type 0
  pub dp_new : DpConfig → Rng.State rng → Option Dp
  pub Epsilon : Type 0
  pub decide_window : ℕ → Dp → (Epsilon × ℕ) × Dp
  pub Accountant : Type 0
  pub accountant_new : Accountant
  pub record_query : Epsilon → Accountant → Accountant
  pub Tester : Type 0
  pub tester_new : Tester
  pub record_frame : MixedFrame → ℕ → Tester → Tester
  pub needed : SessionBounder → ℕ → ℕ → ℕ

-- `gen_range(lo..=hi)`, which panics on an empty range.
unfoldable pub gen_range : (g : Rng) → ℕ → ℕ → Rng.State g → Result Stop (ℕ × Rng.State g)
gen_range g lo hi s = if ltb hi lo then err panicked else ok (Rng.range g lo hi s)
