-- ===== src/Composer/Start/Fresh.antt =====
-- A composer as `SeedBComposer::with_config` of src/composition.rs makes it.
use mix_tor.Base.{
  Option, some, none, Returns, Returns-bind, ◌>>=◌, ℕ, ◌≤◌, ◌<◌, ◌≡◌, refl, Option, none, some,
  Result, ok, arith, Bool, true, false,
}
use mix_tor.Composer.Config.{
  Stop, refuse_if, CompositionFault, CompositionConfig, validate_composition, zero_cell_size,
}
use mix_tor.Seeds.{SeedRole, EphemeralSeed, burst_composition}
use mix_tor.Composer.Parts.{Meters}
use mix_tor.Composer.{reset_keepalive_deadline}
use mix_tor.Composer.Switch.{IsSound, next_regime-IsRegime}
use mix_tor.Composer.Start.{composer_with_config, shaper_of, check_role, or_invalid, spectral_label}
use mix_tor.Composer.Sound.{IsUsable}

-- A check that lets its argument through did not find its fault.
passed :
    {A : Type 0} (b : Bool) (fault : CompositionFault) (r : Result Stop A) (a : A)
    → (refuse_if b fault >>= λ _. r) ≡ ok a
    → (b ≡ false) × (r ≡ ok a)
unfolding refuse_if
passed true fault r a h = cc h
passed false fault r a h = (refl, h)

cell_pos : (cell : Option ℕ) → zero_cell_size cell ≡ false → (n : ℕ) → cell ≡ some n → 0 < n
unfolding zero_cell_size
cell_pos none h n e = cc e
cell_pos (some cell) h n e = let same : cell ≡ n = cc e in ground arith

-- What `validate` lets through.
validate-IsUsable :
    {F D : Type 0} (c k : CompositionConfig F D)
    → 12 ≤ c.max_dummy_packets_per_burst
    → validate_composition c ≡ ok k
    → IsUsable c × (k ≡ c)
unfolding validate_composition
validate-IsUsable c k h e =
    let (_, e₁) = passed _ _ _ k e in
    let (thresholds, e₂) = passed _ _ _ k e₁ in
    let (bursts, e₃) = passed _ _ _ k e₂ in
    let (real_bytes, e₄) = passed _ _ _ k e₃ in
    let (real_packets, e₅) = passed _ _ _ k e₄ in
    let (_, e₆) = passed _ _ _ k e₅ in
    let (keepalive, e₇) = passed _ _ _ k e₆ in
    let (_, e₈) = passed _ _ _ k e₇ in
    let (cell, e₉) = passed _ _ _ k e₈ in
    (
      record {
        enough = h;
        keepalive = ground arith;
        bursts = (ground arith, ground arith);
        real_bytes = (ground arith, ground arith);
        real_packets = (ground arith, ground arith);
        cell = cell_pos c.cell_bytes cell;
      },
      cc e₉,
    )

check_role-ok : (role : SeedRole) → role ≡ burst_composition → check_role role ≡ ok tt
unfolding check_role
check_role-ok role e = rw e

-- `with_config` returns a sound composer: for a seed of the composition's role, a configuration that
-- `validate` accepts and that allows at least twelve dummies in a burst, where the spectral generator
-- and the shaper accept their parts of it. No draw of its regime has an empty range.
pub composer_with_config-IsSound :
    (m : Meters) (seed : EphemeralSeed) (k : CompositionConfig (Meters.F m) (Meters.DpConfig m))
    (now : ℕ) (spectral : Meters.Spectral m) (dp : Option (Meters.Dp m))
    → seed.role ≡ burst_composition
    → validate_composition k ≡ ok k
    → 12 ≤ k.max_dummy_packets_per_burst
    → Meters.spectral_new m k.max_idle_gap_ms (Meters.seeded m seed spectral_label) ≡ some spectral
    → shaper_of m seed k.dp_shaper ≡ ok dp
    → Returns (λ c. IsSound m c × (c.config ≡ k)) (composer_with_config m seed k now)
unfolding composer_with_config or_invalid reset_keepalive_deadline
composer_with_config-IsSound m seed k now spectral dp role valid enough made shaped =
    let (usable, _) = validate-IsUsable k k enough valid in
    rw (check_role-ok seed.role role, valid)
      (Returns-bind (next_regime-IsRegime (Meters.rng m) k _ usable) λ a fresh.
        rw (made, shaped)
          (
            _,
            refl,
            (
              record {
                usable = usable;
                range = fresh.range;
                bursts = fresh.bursts;
                real_bytes = fresh.real_bytes;
                real_packets = fresh.real_packets;
              },
              refl,
            ),
          ))
