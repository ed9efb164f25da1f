-- ===== src/Buckets.antt =====
-- src/optimal_padding.rs: size buckets over observed lengths, and the lookup of a padded length.
mod Cover
mod Padder
mod Tests
use mix_tor.Base.{
  max, ◌++◌, get_or, ◌+◌, ◌-◌, ◌==◌, ◌*◌, leb, ◌/◌, length, if◌then◌else◌, min, List, ℕ, ◌∷◌, [],
  zero, suc,
}

pub record SizeBucket : Type 0 where
  pub lo : ℕ
  pub hi : ℕ
  pub target : ℕ

-- `sort_unstable` on numbers, where equal elements are the same.
insert_sorted : ℕ → List ℕ → List ℕ
insert_sorted x [] = x ∷ []
insert_sorted x (y ∷ ys) = let rest = insert_sorted x ys in if leb x y then x ∷ y ∷ ys else y ∷ rest

sort : List ℕ → List ℕ
sort [] = []
sort (x ∷ xs) = insert_sorted x (sort xs)

-- The body of the loop over the buckets, at the index `i`.
bucket_at : List ℕ → ℕ → ℕ → SizeBucket
bucket_at sorted k_actual i =
    let n = length sorted in
    let chunk = n / k_actual in
    let start = i * chunk in
    let end = if i == k_actual - 1 then n else (i + 1) * chunk in
    let hi = get_or sorted (end - 1) 0 in
    record { lo = get_or sorted start 0; hi = hi; target = hi }

-- `count` buckets from the index `i` on.
buckets_from : List ℕ → ℕ → ℕ → ℕ → List SizeBucket
buckets_from sorted k_actual zero i = []
buckets_from sorted k_actual (suc count) i =
    bucket_at sorted k_actual i ∷ buckets_from sorted k_actual count (suc i)

-- For `0 < k`, which the source asserts.
pub build_buckets : List ℕ → ℕ → List SizeBucket
unfolding sort buckets_from bucket_at
build_buckets [] k = record { lo = 0; hi = 65535; target = 65535 } ∷ []
build_buckets (x ∷ xs) k =
    let sorted = sort (x ∷ xs) in
    let k_actual = min k (length sorted) in buckets_from sorted k_actual k_actual 0

last_target : List SizeBucket → ℕ → ℕ
last_target [] d = d
last_target (b ∷ bs) d = last_target bs b.target

-- The target of the first bucket whose `hi` is not below `true_len`, or else `d`.
find_target : ℕ → List SizeBucket → ℕ → ℕ
find_target true_len [] d = d
find_target true_len (b ∷ bs) d =
    let later = find_target true_len bs d in if leb true_len b.hi then b.target else later

pub optimal_pad_length : ℕ → List SizeBucket → ℕ
optimal_pad_length true_len buckets = find_target true_len buckets (last_target buckets true_len)

pub record OptimalPadder : Type 0 where
  pub k : ℕ
  pub length_pool : List ℕ
  pub buckets : List SizeBucket
  pub pool_version_at_last_build : ℕ
  pub rebuild_interval : ℕ
  pub observations : ℕ

-- `OptimalPadder::new`
pub padder_new : ℕ → ℕ → OptimalPadder
padder_new k rebuild_interval = record {
  k = max k 1;
  length_pool = [];
  buckets = record { lo = 0; hi = 65535; target = 65535 } ∷ [];
  pool_version_at_last_build = 0;
  rebuild_interval = max rebuild_interval 1;
  observations = 0;
}

pub observe_length : OptimalPadder → ℕ → OptimalPadder
observe_length p len = record p {
  length_pool = p.length_pool ++ (len ∷ []);
  observations = p.observations + 1;
}

pub rebuild : OptimalPadder → OptimalPadder
rebuild p = record p {
  buckets = build_buckets p.length_pool p.k;
  pool_version_at_last_build = p.observations;
}

pub pad_length : OptimalPadder → ℕ → ℕ × OptimalPadder
pad_length p true_len =
    let p' =
      if leb p.rebuild_interval (p.observations - p.pool_version_at_last_build)
      then rebuild p
      else p in
    (optimal_pad_length true_len p'.buckets, p')
