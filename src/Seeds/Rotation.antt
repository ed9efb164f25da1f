-- ===== src/Seeds/Rotation.antt =====
-- What `generate` accepts, and what `rotate` keeps.
use mix_tor.Base.{
  refl, arith, inr, inl, Result-cases, some, none, ◌<◌, ◌≢◌, ok, List, false, Option, ◌≡◌, ℕ,
}
use mix_tor.Seeds.{
  SessionSeeds, timing_and_pool, burst_composition, all_zero, bytes_eq, generate_seed, generate,
  distinct, rotate,
}

-- A session's seeds: each in its role, neither zero, the two different, and an interval that is not 0.
pub record IsSound (s : SessionSeeds) : Type 0 where
  pub timing_role : s.timing.role ≡ timing_and_pool
  pub burst_role : s.burst.role ≡ burst_composition
  pub timing_nonzero : all_zero s.timing.bytes ≡ false
  pub burst_nonzero : all_zero s.burst.bytes ≡ false
  pub different : bytes_eq s.timing.bytes s.burst.bytes ≡ false
  pub rotates : 0 < s.rotation_interval

-- What `generate` returns without an error is sound, has the interval asked for, and is as old as `now`.
pub generate-IsSound :
    (interval now : ℕ) (draw_a draw_b : Option (List ℕ)) (s : SessionSeeds)
    → generate interval draw_a draw_b now ≡ ok s
    → IsSound s × (s.rotation_interval ≡ interval) × (s.generated_at ≡ now)
unfolding generate distinct generate_seed
generate-IsSound interval now none draw_b s e = ground arith
generate-IsSound interval now (some a) none s e = ground arith
generate-IsSound interval now (some a) (some b) s e = ground arith

-- A rotation that fails keeps the old seeds, and one that succeeds has taken new sound ones with the
-- same interval: sound seeds stay sound.
pub rotate-IsSound :
    (s : SessionSeeds) (draw_a draw_b : Option (List ℕ)) (now : ℕ)
    → IsSound s
    → let (s', fault) = rotate s draw_a draw_b now in
      IsSound s'
      × (s'.rotation_interval ≡ s.rotation_interval)
      × ((fault ≢ none) → s' ≡ s)
      × ((fault ≡ none) → s'.generated_at ≡ now)
unfolding rotate
rotate-IsSound s draw_a draw_b now h =
    elim (Result-cases (generate s.rotation_interval draw_a draw_b now)) [
      | inl (next, e) ↦
          let (sound, interval, age) =
            generate-IsSound s.rotation_interval now draw_a draw_b next e in
          rw (e, rotate) (sound, interval, λ ne. absurd (ne refl), λ _. age)
      | inr (fault, e) ↦ rw (e, rotate) (h, refl, λ _. refl, λ q. cc)
    ]
