-- ===== src/Composer/Sound.antt =====
-- When the composer's draws have a range to draw from, and what its operations leave as it was.
use mix_tor.Base.{
  Returns-map, sym, ◌∙◌, ℕ, ◌-◌, ◌≤◌, ◌<◌, ◌≡◌, refl, ap, List, [], ◌∷◌, ◌++◌, Option, none, some,
  ok, Returns, Returns-bind, false, length, take, min, arith, ltb, ◌==◌, Bool-cases, inl, inr,
  length-append, length-take, take-append, take_all,
}
use mix_tor.Base.Random.{Rng}
use mix_tor.Packet.{Packet, packet_new}
use mix_tor.Composer.Config.{CompositionConfig, RatioRegime, Stop}
use mix_tor.Composer.Parts.{Meters, gen_range}
use mix_tor.Composer.{
  SeedBComposer, payload_len, pooled_len, dummy_payload, pad_to, expect_packet, pad_real_packet,
}

-- A configuration that passes `validate`, and that allows as many dummies as the widest regime starts
-- from.
pub record IsUsable {F D : Type 0} (k : CompositionConfig F D) : Type 0 where
  pub enough : 12 ≤ k.max_dummy_packets_per_burst
  pub keepalive : k.keepalive_min_bytes ≤ k.keepalive_max_bytes
  pub bursts : (0 < k.min_switch_bursts) × (k.min_switch_bursts ≤ k.max_switch_bursts)
  pub real_bytes :
      (0 < k.min_switch_real_bytes) × (k.min_switch_real_bytes ≤ k.max_switch_real_bytes)
  pub real_packets :
      (0 < k.min_switch_real_packets) × (k.min_switch_real_packets ≤ k.max_switch_real_packets)
  pub cell : (n : ℕ) → k.cell_bytes ≡ some n → 0 < n

pub gen_range-Returns :
    (g : Rng) (lo hi : ℕ) (s : Rng.State g)
    → lo ≤ hi
    → Returns {E = Stop} (λ r. (lo ≤ r.0) × (r.0 ≤ hi)) (gen_range g lo hi s)
unfolding gen_range
gen_range-Returns g lo hi s h =
    let e : ltb hi lo ≡ false = ground arith in
    rw e (Rng.range g lo hi s, refl, Rng.range_bounds g lo hi s h)

-- The size that a configuration gives to a frame, if it gives one.
abbrev pub IsCell : Option ℕ → ℕ → Type 0
IsCell none n = Unit
IsCell (some cell) n = n ≡ cell

-- A packet as it is sent: padded to the cell, or cut to it.
abbrev pub Carries : Option ℕ → Packet → Packet → Type 0
Carries none p q = q ≡ p
Carries (some cell) p q =
    (length q.bytes ≡ cell) × (take (min (length p.bytes) cell) q.bytes ≡ take cell p.bytes)

module _ (m : Meters) where
  -- The configuration and the regime of a composer.
  abbrev pub Has :
      CompositionConfig (Meters.F m) (Meters.DpConfig m) → RatioRegime → SeedBComposer m → Type 0
  Has k r c = (c.config ≡ k) × (c.regime ≡ r)

  expect_packet-ok :
      (bytes : List ℕ) (c : SeedBComposer m)
      → 0 < length bytes
      → expect_packet m (packet_new bytes) c ≡ ok (record { bytes = bytes }, c)
  unfolding expect_packet packet_new
  expect_packet-ok [] c h = absurd (omega arith)
  expect_packet-ok (b ∷ bs) c h = refl

  module _ {k : CompositionConfig (Meters.F m) (Meters.DpConfig m)} {r : RatioRegime}
      (usable : IsUsable k) where
    pooled_len-Has :
        (c : SeedBComposer m) → Has k r c → Returns (λ out. Has k r out.1) (pooled_len m c)
    unfolding pooled_len
    pooled_len-Has c h = elim (Bool-cases (length c.length_pool == 0)) [
      | inl e ↦
          let wide : c.config.keepalive_min_bytes ≤ c.config.keepalive_max_bytes =
            rw h.0 usable.keepalive in
          rw e (Returns-bind (gen_range-Returns _ _ _ _ wide) λ a b. (_, refl, h))
      | inr e ↦ rw e (Returns-bind (gen_range-Returns _ _ _ _ (omega arith)) λ a b. (_, refl, h))
    ]

    payload_len-Has :
        (c : SeedBComposer m) (cell : Option ℕ)
        → Has k r c
        → Returns (λ out. Has k r out.1 × IsCell cell out.0) (payload_len m c cell)
    unfolding payload_len
    payload_len-Has c none h = let (out, e, kept) = pooled_len-Has c h in (out, e, (kept, tt))
    payload_len-Has c (some cell) h = (_, refl, (h, refl))

    pub dummy_payload-Has :
        (c : SeedBComposer m)
        → Has k r c
        → Returns (λ out. Has k r out.1 × IsCell k.cell_bytes (length out.0)) (dummy_payload m c)
    unfolding dummy_payload
    dummy_payload-Has c h =
        let same : c.config.cell_bytes ≡ k.cell_bytes = ap (λ k. k.cell_bytes) h.0 in
        Returns-bind (payload_len-Has c c.config.cell_bytes h) λ out (kept, size).
          let filled = Rng.length-fill (Meters.rng m) out.0 out.1.rng in
          (_, refl, (kept, rw filled (rw (← same) size)))

    pad_to-Has :
        (c : SeedBComposer m) (packet : Packet) (cell : Option ℕ)
        → ((n : ℕ) → cell ≡ some n → 0 < n)
        → Has k r c
        → Returns (λ out. Has k r out.1 × Carries cell packet out.0) (pad_to m c packet cell)
    unfolding pad_to
    pad_to-Has c packet none some_cell h = (_, refl, (h, refl))
    pad_to-Has c packet (some cell) some_cell h =
        let pos = some_cell cell refl in
        let raw = packet.bytes in
        let filled = Rng.length-fill (Meters.rng m) (cell - length raw) c.rng in
        let padding = (Rng.fill (Meters.rng m) (cell - length raw) c.rng).0 in
        elim (Bool-cases (length raw == cell)) [
          | inl e ↦
              let n : length raw ≡ cell = ground arith in
              let cut : min (length raw) cell ≡ cell = omega arith in
              rw (e, expect_packet-ok raw c (omega arith)) (_, refl, (h, (n, rw cut)))
          | inr e ↦ elim (Bool-cases (ltb (length raw) cell)) [
            | inl f ↦
                let n : length (raw ++ padding) ≡ cell =
                  ground (arith, length-append raw padding) in
                let cut : min (length raw) cell ≡ length raw = ground arith in
                let whole = take-append (length raw) raw padding refl in
                let all = take_all cell raw (ground arith) in
                rw (e, f, expect_packet-ok (raw ++ padding) _ (omega arith))
                  (_, refl, (h, (n, rw (cut, whole, all))))
            | inr f ↦
                let n : length (take cell raw) ≡ cell = ground (arith, length-take cell raw) in
                let cut : min (length raw) cell ≡ cell = ground arith in
                let all = take_all cell (take cell raw) (omega arith) in
                rw (e, f, expect_packet-ok (take cell raw) c (omega arith))
                  (_, refl, (h, (n, rw (cut, all))))
          ]
        ]

    pub pad_real_packet-Has :
        (c : SeedBComposer m) (packet : Packet)
        → Has k r c
        → Returns
            (λ out. Has k r out.1 × Carries k.cell_bytes packet out.0)
            (pad_real_packet m c packet)
    unfolding pad_real_packet
    pad_real_packet-Has c packet h =
        let same : c.config.cell_bytes ≡ k.cell_bytes = ap (λ k. k.cell_bytes) h.0 in
        Returns-map
          (pad_to-Has c packet c.config.cell_bytes (λ n e. usable.cell n (sym same ∙ e)) h)
          λ out (kept, carried). (kept, rw (← same) carried)
