-- ===== src/Timing/Ranges.antt =====
-- The draws of `next_delay` in src/timing.rs: no range is empty and no constructor refuses.
use mix_tor.Base.{
  ℕ, ◌≤◌, ◌<◌, Option, none, some, true, ◌≡◌, refl, arith, Returns, Returns-bind, Bool-cases, inl,
  inr,
}
use mix_tor.Base.Random.{Rng}
use mix_tor.Timing.{
  Sampler, TimingDistributionKind, poisson, pareto, bimodal, burst_and_silence, uniform,
  exponential, draw_float, toss, expects, two_ranges, sampled,
}

module _ (t : Sampler) where
  abbrev IsPos : t.F → Type 0
  IsPos x = t.below (t.of_nat 0) x ≡ true

  draw_float-Returns :
      (lo hi : t.F) (s : Rng.State t.rng)
      → t.at_most lo hi ≡ true
      → Returns
          (λ out. (t.at_most lo out.0 ≡ true) × (t.at_most out.0 hi ≡ true))
          (draw_float t lo hi s)
  unfolding draw_float
  draw_float-Returns lo hi s h = rw h (t.range lo hi s, refl, t.range_bounds lo hi s h)

  toss-Returns :
      (p : t.F) (s : Rng.State t.rng)
      → t.at_most p (t.of_nat 1) ≡ true
      → Returns (λ out. Unit {0}) (toss t p s)
  unfolding toss
  toss-Returns p s h = rw h (t.flip p s, refl, tt)

  expects-Returns :
      (out : Option t.F × Rng.State t.rng) (y : t.F)
      → out.0 ≡ some y
      → Returns (λ x. Unit {0}) (expects t out)
  unfolding expects
  expects-Returns (none, s) y e = cc e
  expects-Returns (some x, s) y e = ((x, s), refl, tt)

  two_ranges-Returns :
      (p low high : t.F) (min_ms max_ms : ℕ) (s : Rng.State t.rng)
      → min_ms ≤ max_ms
      → t.at_most p (t.of_nat 1) ≡ true
      → t.at_most high (t.of_nat 1) ≡ true
      → Returns (λ x. Unit {0}) (two_ranges t p low high (t.of_nat min_ms) (t.of_nat max_ms) s)
  unfolding two_ranges
  two_ranges-Returns p low high min_ms max_ms s order odds part =
      let a = t.of_nat min_ms in
      let b = t.of_nat max_ms in
      Returns-bind (toss-Returns p s odds) λ out _. elim (Bool-cases out.0) [
        | inl e ↦
            let (x, run, _) =
              draw_float-Returns a (t.larger (t.mul b low) a) out.1
                (t.larger_right (t.mul b low) a) in
            rw e (x, run, tt)
        | inr e ↦
            let fits =
              t.larger_least (t.mul b high) a b (t.mul_share max_ms high part)
                (t.of_nat_mono min_ms max_ms order) in
            let (x, run, _) = draw_float-Returns (t.larger (t.mul b high) a) b out.1 fits in
            rw e (x, run, tt)
      ]

  -- For every kind a delay is drawn, where the least is a millisecond at least.
  pub sampled-Returns :
      (kind : TimingDistributionKind) (min_ms max_ms : ℕ) (s : Rng.State t.rng)
      → 0 < min_ms
      → min_ms ≤ max_ms
      → Returns (λ x. Unit {0}) (sampled t kind (t.of_nat min_ms) (t.of_nat max_ms) s)
  unfolding sampled
  sampled-Returns poisson min_ms max_ms s pos order =
      Returns-bind
        (draw_float-Returns (t.of_nat min_ms) (t.of_nat max_ms) s
          (t.of_nat_mono min_ms max_ms order))
        λ out _.
          let one = t.of_nat 1 in
          let lambda = t.larger out.0 one in
          let positive : IsPos lambda =
            t.below_at_most (t.of_nat 0) one lambda (t.of_nat_pos 1 (omega arith))
              (t.larger_right out.0 one) in
          let (y, e) = t.poisson_accepts lambda out.1 positive in
          expects-Returns (t.sample_poisson lambda out.1) y e
  sampled-Returns pareto min_ms max_ms s pos order =
      let a = t.of_nat min_ms in
      let third = t.div (t.of_nat max_ms) (t.of_nat 3) in
      Returns-bind (draw_float-Returns a (t.larger third a) s (t.larger_right third a))
        λ scale (low, _).
          Returns-bind (draw_float-Returns (t.literal 12 1) (t.literal 28 1) scale.1 t.shapes)
            λ shape (least, _).
              let positive : IsPos scale.0 =
                t.below_at_most (t.of_nat 0) a scale.0 (t.of_nat_pos min_ms pos) low in
              let shaped : IsPos shape.0 =
                t.below_at_most (t.of_nat 0) (t.literal 12 1) shape.0 t.literals_pos least in
              let (y, e) = t.pareto_accepts scale.0 shape.0 shape.1 positive shaped in
              expects-Returns (t.sample_pareto scale.0 shape.0 shape.1) y e
  sampled-Returns bimodal min_ms max_ms s pos order =
      two_ranges-Returns _ _ _ min_ms max_ms s order t.odds_bimodal t.part_bimodal
  sampled-Returns burst_and_silence min_ms max_ms s pos order =
      two_ranges-Returns _ _ _ min_ms max_ms s order t.odds_burst t.part_burst
  sampled-Returns uniform min_ms max_ms s pos order =
      let (x, run, _) =
        draw_float-Returns (t.of_nat min_ms) (t.of_nat max_ms) s
          (t.of_nat_mono min_ms max_ms order) in
      (x, run, tt)
  sampled-Returns exponential min_ms max_ms s pos order =
      Returns-bind
        (draw_float-Returns (t.of_nat min_ms) (t.of_nat max_ms) s
          (t.of_nat_mono min_ms max_ms order))
        λ out (_, late).
          let one = t.of_nat 1 in
          let mean = t.larger out.0 one in
          let positive : IsPos mean =
            t.below_at_most (t.of_nat 0) one mean (t.of_nat_pos 1 (omega arith))
              (t.larger_right out.0 one) in
          let bounded : t.at_most mean (t.of_nat max_ms) ≡ true =
            t.larger_least out.0 one (t.of_nat max_ms) late
              (t.of_nat_mono 1 max_ms (omega arith)) in
          let (y, e) =
            t.exp_accepts (t.div one mean) out.1 (t.div_pos mean max_ms positive bounded) in
          expects-Returns (t.sample_exp (t.div one mean) out.1) y e
