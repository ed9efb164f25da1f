-- ===== src/Composer/Regimes.antt =====
-- src/composition.rs: `SeedBComposer::next_regime`.
use mix_tor.Base.{ℕ, Bool, true, false, Result, ok, ◌>>=◌, if◌then◌else◌, leb, min}
use mix_tor.Base.Random.{Rng}
use mix_tor.Composer.Config.{
  CompositionConfig, RatioRegime, RatioDistributionKind, Stop, sparse, balanced, heavy_cover,
  spiky_cover, dummy_count_range,
}
use mix_tor.Composer.Parts.{gen_range}

-- The kind for a draw below 20.
unfoldable pub kind_of : ℕ → RatioDistributionKind
kind_of n =
    if leb n 2
    then sparse
    else if leb n 8
    then balanced
    else if leb n 15
    then heavy_cover
    else spiky_cover

abbrev pub is_spiky : RatioDistributionKind → Bool
is_spiky spiky_cover = true
is_spiky _ = false

module _ {F D : Type 0} (g : Rng) where
  -- The fields of the new regime are computed in the source's order, the three draws last.
  unfoldable pub next_regime :
      CompositionConfig F D → Rng.State g → Result Stop (RatioRegime × Rng.State g)
  next_regime config s = do
    (n, s₁) ← gen_range g 0 19 s
    let kind = kind_of n
    let (lo, hi) = dummy_count_range kind
    (bursts, s₂) ← gen_range g config.min_switch_bursts config.max_switch_bursts s₁
    (real_bytes, s₃) ← gen_range g config.min_switch_real_bytes config.max_switch_real_bytes s₂
    (real_packets, s₄) ←
        gen_range g config.min_switch_real_packets config.max_switch_real_packets s₃
    ok (
      record {
        kind = kind;
        switch_after = record {
          bursts = bursts;
          real_bytes = real_bytes;
          real_packets = real_packets;
        };
        dummy_lo = lo;
        dummy_hi = min hi config.max_dummy_packets_per_burst;
        spiky = is_spiky kind;
      },
      s₄,
    )
