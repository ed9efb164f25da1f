-- ===== src/Composer/Switch.antt =====
-- The changes of regime of `SeedBComposer`, and what they keep.
use mix_tor.Base.{
  ℕ, ◌≤◌, ◌<◌, ◌≡◌, refl, ◌∙◌, Returns, Returns-bind, Returns-map, arith, Bool-cases, inl, inr, min,
  false,
}
use mix_tor.Base.Random.{Rng}
use mix_tor.Composer.Config.{
  CompositionConfig, RatioRegime, RatioDistributionKind, sparse, balanced, heavy_cover, spiky_cover,
  dummy_count_range,
}
use mix_tor.Composer.Parts.{Meters}
use mix_tor.Composer.Regimes.{next_regime, kind_of}
use mix_tor.Composer.{
  reset_keepalive_deadline, SeedBComposer, counted, must_switch, switch_regime, observe,
}
use mix_tor.Composer.Sound.{IsUsable, Has, gen_range-Returns}

-- A regime whose draws have a range, and whose thresholds are not met at once.
pub record IsRegime (r : RatioRegime) : Type 0 where
  pub range : r.dummy_lo ≤ r.dummy_hi
  pub bursts : 0 < r.switch_after.bursts
  pub real_bytes : 0 < r.switch_after.real_bytes
  pub real_packets : 0 < r.switch_after.real_packets

kind_range :
    (kind : RatioDistributionKind) (limit : ℕ)
    → 12 ≤ limit
    → (dummy_count_range kind).0 ≤ min (dummy_count_range kind).1 limit
unfolding dummy_count_range
kind_range sparse limit h = omega arith
kind_range balanced limit h = omega arith
kind_range heavy_cover limit h = omega arith
kind_range spiky_cover limit h = omega arith

pub next_regime-IsRegime :
    {F D : Type 0} (g : Rng) (k : CompositionConfig F D) (s : Rng.State g)
    → IsUsable k
    → Returns (λ out. IsRegime out.0) (next_regime g k s)
unfolding next_regime
next_regime-IsRegime g k s usable = Returns-bind (gen_range-Returns g 0 19 s (omega arith)) λ a _.
    Returns-bind (gen_range-Returns g _ _ a.1 usable.bursts.1) λ b (bursts, _).
      Returns-bind (gen_range-Returns g _ _ b.1 usable.real_bytes.1) λ d (real_bytes, _).
        Returns-bind (gen_range-Returns g _ _ d.1 usable.real_packets.1) λ e (real_packets, _). (
          _,
          refl,
          record {
            range = kind_range (kind_of a.0) k.max_dummy_packets_per_burst usable.enough;
            bursts = omega (arith, usable.bursts.0);
            real_bytes = omega (arith, usable.real_bytes.0);
            real_packets = omega (arith, usable.real_packets.0);
          },
        )

module _ (m : Meters) where
  -- A composer whose regime can be drawn from and has not reached its end.
  pub record IsSound (c : SeedBComposer m) : Type 0 where
    pub usable : IsUsable c.config
    pub range : c.regime.dummy_lo ≤ c.regime.dummy_hi
    pub bursts : c.bursts_in_regime < c.regime.switch_after.bursts
    pub real_bytes : c.real_bytes_in_regime < c.regime.switch_after.real_bytes
    pub real_packets : c.real_packets_in_regime < c.regime.switch_after.real_packets

  switch_regime-IsSound :
      (c : SeedBComposer m)
      → IsUsable c.config
      → Returns (λ c'. IsSound c' × (c'.config ≡ c.config)) (switch_regime m c)
  unfolding switch_regime
  switch_regime-IsSound c usable =
      Returns-bind (next_regime-IsRegime _ c.config c.rng usable) λ a fresh.
        let sound : IsSound (record c {
          rng = a.1;
          regime = a.0;
          bursts_in_regime = 0;
          real_bytes_in_regime = 0;
          real_packets_in_regime = 0;
        }) =
          record {
            usable = usable;
            range = fresh.range;
            bursts = fresh.bursts;
            real_bytes = fresh.real_bytes;
            real_packets = fresh.real_packets;
          } in
        (_, refl, (sound, refl))

  counted-Has :
      (c : SeedBComposer m) (real_bytes real_packets now : ℕ)
      → Has m c.config c.regime (counted m c real_bytes real_packets now)
  unfolding counted
  counted-Has c real_bytes real_packets now = (refl, refl)

  stays-IsSound :
      (c : SeedBComposer m)
      → IsUsable c.config
      → c.regime.dummy_lo ≤ c.regime.dummy_hi
      → must_switch m c ≡ false
      → IsSound c
  unfolding must_switch
  stays-IsSound c usable range e = record {
    usable = usable;
    range = range;
    bursts = ground arith;
    real_bytes = ground arith;
    real_packets = ground arith;
  }

  pub observe-IsSound :
      (c : SeedBComposer m) (real_bytes real_packets now : ℕ)
      → IsUsable c.config
      → c.regime.dummy_lo ≤ c.regime.dummy_hi
      → Returns
          (λ c'. IsSound c' × (c'.config ≡ c.config))
          (observe m c real_bytes real_packets now)
  unfolding observe
  observe-IsSound c real_bytes real_packets now usable range =
      let c' = counted m c real_bytes real_packets now in
      let (config, regime) = counted-Has c real_bytes real_packets now in
      let usable' : IsUsable c'.config = rw config usable in
      let range' : c'.regime.dummy_lo ≤ c'.regime.dummy_hi = rw regime range in
      elim (Bool-cases (must_switch m c')) [
        | inl e ↦ rw e (
            Returns-map (switch_regime-IsSound c' usable')
              λ out (sound, same). (sound, same ∙ config))
        | inr e ↦ rw e (c', refl, (stays-IsSound c' usable' range' e, config))
      ]

  pub deadline-IsSound :
      (c : SeedBComposer m) (now : ℕ)
      → IsSound c
      → IsSound (reset_keepalive_deadline m (record c { last_burst_at = now }) now)
  unfolding reset_keepalive_deadline
  deadline-IsSound c now s = record {
    usable = s.usable;
    range = s.range;
    bursts = s.bursts;
    real_bytes = s.real_bytes;
    real_packets = s.real_packets;
  }
