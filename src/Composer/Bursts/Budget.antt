-- ===== src/Composer/Bursts/Budget.antt =====
-- Whole bursts of `SeedBComposer`, with the budget of dummies and the changes of regime.
use mix_tor.Base.{
  Option, none, some, Bool, true, List, [], ◌∷◌, length, ltb, some, length, Option, ap, ltb, ℕ, ◌≤◌,
  ◌≡◌, refl, Returns, Returns-bind, arith, Bool-cases, inl, inr, false,
}
use mix_tor.Composer.Config.{CompositionConfig, RatioRegime}
use mix_tor.Composer.Parts.{Meters}
use mix_tor.Composer.{
  count_range, ingest_length, length_pool_cap, dummy_count_absolute, dummy_count_for_burst,
  with_shaper, length_pool_cap, ingest_length, with_shaper, dummy_count_absolute,
  dummy_count_for_burst, SeedBComposer,
}
use mix_tor.Composer.Sound.{Has, gen_range-Returns}
use mix_tor.Composer.Bursts.Order.{IsMixed, interleave-Mixes}
use mix_tor.Composer.Bursts.{
  ingest_packet, record_one, MixedBurst, emitted, compose, Burst, MixedBurst, ingest_packets,
  record_frames, emitted, compose,
}
use mix_tor.Clump.{Burst}
use mix_tor.Packet.{Packet, MixedFrame}
use mix_tor.Composer.Switch.{IsSound, observe-IsSound, deadline-IsSound}

count_range_le :
    (spiky low : Bool) (r : RatioRegime)
    → r.dummy_lo ≤ r.dummy_hi
    → (count_range spiky low r).0 ≤ (count_range spiky low r).1
unfolding count_range
count_range_le true true r h = omega arith
count_range_le true false r h = h
count_range_le false low r h = h

module _ (m : Meters) where
  -- A number of dummies within the configured maximum.
  abbrev IsBudget :
      CompositionConfig (Meters.F m) (Meters.DpConfig m)
      → RatioRegime
      → ℕ × SeedBComposer m
      → Type 0
  IsBudget k r out = (out.0 ≤ k.max_dummy_packets_per_burst) × Has m k r out.1

  module _ {k : CompositionConfig (Meters.F m) (Meters.DpConfig m)} {r : RatioRegime} where
    ingest_length-Has :
        (c : SeedBComposer m) (len : ℕ) → Has m k r c → Has m k r (ingest_length m c len)
    unfolding ingest_length
    ingest_length-Has c len h = elim (Bool-cases (ltb (length c.length_pool) length_pool_cap)) [
      | inl e ↦ rw e h
      | inr e ↦ rw e h
    ]

    ingest_packet-Has :
        (c : SeedBComposer m) (packet : Packet) → Has m k r c → Has m k r (ingest_packet m c packet)
    unfolding ingest_packet
    ingest_packet-Has c packet h =
        let len = length packet.bytes in
        ingest_length-Has _ len (ingest_length-Has _ len (ingest_length-Has c len h))

    pub ingest_packets-Has :
        (packets : List Packet) (c : SeedBComposer m)
        → Has m k r c
        → Has m k r (ingest_packets m c packets)
    unfolding ingest_packets
    ingest_packets-Has [] c h = h
    ingest_packets-Has (packet ∷ packets) c h =
        ingest_packets-Has packets (ingest_packet m c packet) (ingest_packet-Has c packet h)

    record_frames-Has :
        (frames : List MixedFrame) (c : SeedBComposer m)
        → Has m k r c
        → Has m k r (record_frames m c frames)
    unfolding record_frames record_one
    record_frames-Has [] c h = h
    record_frames-Has (frame ∷ frames) c h = record_frames-Has frames (record_one m c frame) h

    dummy_count_absolute-IsBudget :
        (c : SeedBComposer m)
        → 1 ≤ k.max_dummy_packets_per_burst
        → r.dummy_lo ≤ r.dummy_hi
        → Has m k r c
        → Returns (IsBudget k r) (dummy_count_absolute m c)
    unfolding dummy_count_absolute
    dummy_count_absolute-IsBudget c pos range h =
        let limit : c.config.max_dummy_packets_per_burst ≡ k.max_dummy_packets_per_burst =
          ap (λ k. k.max_dummy_packets_per_burst) h.0 in
        let lo_hi : c.regime.dummy_lo ≤ c.regime.dummy_hi = rw h.1 range in
        let wide = count_range_le c.regime.spiky (Meters.coin m c.rng).0 c.regime lo_hi in
        Returns-bind (gen_range-Returns _ _ _ _ wide) λ a _. (_, refl, (omega arith, h))

    with_shaper-IsBudget :
        (c : SeedBComposer m) (real_bytes count : ℕ) (dp : Option (Meters.Dp m))
        → count ≤ k.max_dummy_packets_per_burst
        → Has m k r c
        → IsBudget k r (with_shaper m c real_bytes count dp)
    unfolding with_shaper
    with_shaper-IsBudget c real_bytes count none n h = (n, h)
    with_shaper-IsBudget c real_bytes count (some dp) n h =
        let limit : c.config.max_dummy_packets_per_burst ≡ k.max_dummy_packets_per_burst =
          ap (λ k. k.max_dummy_packets_per_burst) h.0 in
        (omega arith, h)

    dummy_count_for_burst-IsBudget :
        (c : SeedBComposer m) (real_bytes : ℕ)
        → 1 ≤ k.max_dummy_packets_per_burst
        → r.dummy_lo ≤ r.dummy_hi
        → Has m k r c
        → Returns (IsBudget k r) (dummy_count_for_burst m c real_bytes)
    unfolding dummy_count_for_burst
    dummy_count_for_burst-IsBudget c real_bytes pos range h =
        Returns-bind (dummy_count_absolute-IsBudget c pos range h)
          λ a (n, kept). (_, refl, with_shaper-IsBudget a.1 real_bytes a.0 a.1.dp_shaper n kept)

  -- A burst as composed: its packets in order among its dummies, whose number it states.
  pub record IsComposed (c : SeedBComposer m) (packets : List Packet) (mixed : MixedBurst)
      : Type 0 where
    pub frames : IsMixed c.config.cell_bytes packets mixed.dummy_packets mixed.frames
    pub reals : mixed.real_packets ≡ length packets
    pub budget : mixed.dummy_packets ≤ c.config.max_dummy_packets_per_burst

  emitted-Has :
      {k : CompositionConfig (Meters.F m) (Meters.DpConfig m)} {r : RatioRegime}
      (c : SeedBComposer m) (frames : List MixedFrame)
      → Has m k r c
      → Has m k r (emitted m c frames)
  unfolding emitted
  emitted-Has c frames h = record_frames-Has frames _ h

  -- `compose` of a sound composer returns, without a panic: its frames carry the burst's packets in
  -- their order, padded or cut to the cell, and every other frame is one of the dummies that it
  -- counts, no more than the configured maximum; with a cell size all its frames have that size. The
  -- composer after it is sound, so that its regime's counters stay below their thresholds.
  pub compose-IsComposed :
      (c : SeedBComposer m) (burst : Burst) (now : ℕ)
      → IsSound m c
      → Returns (λ out. IsComposed c burst.packets out.0 × IsSound m out.1) (compose m c burst now)
  unfolding compose
  compose-IsComposed c burst now s =
      let start = ingest_packets-Has {k = c.config} {r = c.regime} burst.packets c (refl, refl) in
      let enough : 1 ≤ c.config.max_dummy_packets_per_burst = omega (arith, s.usable.enough) in
      Returns-bind (dummy_count_for_burst-IsBudget _ _ enough s.range start) λ a (n, h₁).
        Returns-bind (interleave-Mixes m s.usable a.1 burst.packets a.0 h₁) λ b (mixed, h₂).
          let h₃ = emitted-Has b.1 b.0 h₂ in
          let range : (emitted m b.1 b.0).regime.dummy_lo ≤ (emitted m b.1 b.0).regime.dummy_hi =
            rw h₃.1 s.range in
          Returns-bind (observe-IsSound m _ _ _ now (rw h₃.0 s.usable) range) λ d (sound, _).
            let composed : IsComposed c burst.packets (record {
              frames = b.0;
              ratio_regime = b.1.regime;
              real_packets = length burst.packets;
              dummy_packets = a.0;
            }) =
              record { frames = mixed; reals = refl; budget = n } in
            (_, refl, (composed, deadline-IsSound m d now sound))
