-- ===== src/Buckets/Tests.antt =====
-- Runs of the bucket table.
use mix_tor.Base.{◌≤◌, arith, ◌≡◌, List, All, ℕ, ◌∷◌, [], refl}
use mix_tor.Buckets.{
  build_buckets, sort, insert_sorted, buckets_from, bucket_at, padder_new, pad_length,
}
use mix_tor.Buckets.Cover.{IsCovered, build_buckets_cover}
use mix_tor.Buckets.Padder.{observe_all, pad_length_cover}

abbrev lengths : List ℕ
lengths = 90 ∷ 10 ∷ 40 ∷ 10 ∷ 60 ∷ []

-- The length 10 stands in two observations and in two buckets of this table.
halves :
    build_buckets (10 ∷ 10 ∷ []) 2
    ≡ record { lo = 10; hi = 10; target = 10 } ∷ record { lo = 10; hi = 10; target = 10 } ∷ []
unfolding build_buckets sort insert_sorted buckets_from bucket_at
halves = refl

bucket_targets : All (IsCovered (build_buckets lengths 2)) lengths
bucket_targets = build_buckets_cover lengths 2 (omega arith)

pad_length_cover_example :
    All (λ len. len ≤ (pad_length (observe_all (padder_new 3 4) lengths) len).0) lengths
pad_length_cover_example = pad_length_cover 3 4 lengths (omega arith)
