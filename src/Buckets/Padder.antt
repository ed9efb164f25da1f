-- ===== src/Buckets/Padder.antt =====
-- The padder after observing lengths.
use mix_tor.Base.{
  All-map, le→leb, true, ◌-◌, append_assoc, leb, All, ◌∙◌, length, append-nil, ◌+◌, max, sym, ◌++◌,
  List, ℕ, ◌∷◌, [], refl, arith, ◌≤◌, ◌≡◌,
}
use mix_tor.Buckets.{OptimalPadder, padder_new, observe_length, rebuild, pad_length, build_buckets}
use mix_tor.Buckets.Cover.{IsCovered, build_buckets_cover}

-- Observations one after the other, oldest first.
abbrev pub observe_all : OptimalPadder → List ℕ → OptimalPadder
observe_all p [] = p
observe_all p (len ∷ lens) = observe_all (observe_length p len) lens

-- What a padder keeps of its observations.
record IsAfter (p : OptimalPadder) (lens : List ℕ) (q : OptimalPadder) : Type 0 where
  same_k : q.k ≡ p.k
  same_interval : q.rebuild_interval ≡ p.rebuild_interval
  same_version : q.pool_version_at_last_build ≡ p.pool_version_at_last_build
  pool : q.length_pool ≡ p.length_pool ++ lens
  count : q.observations ≡ p.observations + length lens

observe_all-IsAfter : (p : OptimalPadder) (lens : List ℕ) → IsAfter p lens (observe_all p lens)
unfolding observe_length
observe_all-IsAfter p [] = record {
  same_k = refl;
  same_interval = refl;
  same_version = refl;
  pool = sym (append-nil p.length_pool);
  count = omega arith;
}
observe_all-IsAfter p (len ∷ lens) =
    let later = observe_all-IsAfter (observe_length p len) lens in
    record {
      same_k = later.same_k;
      same_interval = later.same_interval;
      same_version = later.same_version;
      pool = later.pool ∙ append_assoc p.length_pool (len ∷ []) lens;
      count = omega (arith, later.count);
    }

-- A new padder that has observed lengths, as many as its rebuild interval or more, pads none of them to
-- less than itself.
pub pad_length_cover :
    (k rebuild_interval : ℕ) (lens : List ℕ)
    → max rebuild_interval 1 ≤ length lens
    → All (λ len. len ≤ (pad_length (observe_all (padder_new k rebuild_interval) lens) len).0) lens
unfolding pad_length rebuild padder_new
pad_length_cover k rebuild_interval lens h =
    let p = padder_new k rebuild_interval in
    let q = observe_all p lens in
    let after = observe_all-IsAfter p lens in
    let due : leb q.rebuild_interval (q.observations - q.pool_version_at_last_build) ≡ true =
      rw (after.same_interval, after.count, after.same_version) (le→leb _ _ (omega arith)) in
    All-map (IsCovered (build_buckets lens (max k 1))) _
      (λ len c. rw due (rw (after.pool, after.same_k) c)) lens
      (build_buckets_cover lens (max k 1) (omega arith))
