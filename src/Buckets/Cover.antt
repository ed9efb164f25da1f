-- ===== src/Buckets/Cover.antt =====
-- The table of `build_buckets` in src/optimal_padding.rs and the lengths it was built from.
use mix_tor.Base.{
  All-map, ◌∙◌, ap, min, leb→le, leb, le→leb, true, ◌==◌, ◌+◌, ◌-◌, get_or, length, All, List, ℕ,
  ◌∷◌, [], zero, suc, refl, arith, ◌≤◌, ◌<◌, ◌≡◌, Bool-cases, inl, inr,
}
use mix_tor.Buckets.{
  SizeBucket, insert_sorted, sort, bucket_at, buckets_from, build_buckets, find_target,
  optimal_pad_length,
}

abbrev IsSorted : List ℕ → Type 0
IsSorted [] = Unit {0}
IsSorted (x ∷ []) = Unit {0}
IsSorted (x ∷ y ∷ ys) = (x ≤ y) × IsSorted (y ∷ ys)

insert_sorted-IsSorted : (x : ℕ) (ys : List ℕ) → IsSorted ys → IsSorted (insert_sorted x ys)
unfolding insert_sorted
insert_sorted-IsSorted x [] h = tt
insert_sorted-IsSorted x (y ∷ []) h = ground arith
insert_sorted-IsSorted x (y ∷ z ∷ zs) h = ground (arith, insert_sorted-IsSorted x (z ∷ zs) h.1)

sort-IsSorted : (xs : List ℕ) → IsSorted (sort xs)
unfolding sort
sort-IsSorted [] = tt
sort-IsSorted (x ∷ xs) = insert_sorted-IsSorted x (sort xs) (sort-IsSorted xs)

length-insert_sorted : (x : ℕ) (ys : List ℕ) → length (insert_sorted x ys) ≡ suc (length ys)
unfolding insert_sorted
length-insert_sorted x [] = refl
length-insert_sorted x (y ∷ ys) = ground (arith, length-insert_sorted x ys)

abbrev IsBelow : ℕ → ℕ → Type 0
IsBelow m x = x ≤ m

-- The last element of a sorted list is its greatest.
last_greatest :
    (xs : List ℕ) (m : ℕ) → get_or xs (length xs - 1) 0 ≡ m → IsSorted xs → All (IsBelow m) xs
last_greatest [] m e h = tt
last_greatest (x ∷ []) m e h = (omega arith, tt)
last_greatest (x ∷ y ∷ ys) m e h =
    let outer : suc (length (y ∷ ys) - 1) ≡ length (x ∷ y ∷ ys) - 1 = omega arith in
    let later = last_greatest (y ∷ ys) m (ap (λ i. get_or (x ∷ y ∷ ys) i 0) outer ∙ e) h.1 in
    (omega (arith, later.0, h.0), later)

All-insert_sorted :
    (m x : ℕ) (ys : List ℕ) → All (IsBelow m) (insert_sorted x ys) → (x ≤ m) × All (IsBelow m) ys
unfolding insert_sorted
All-insert_sorted m x [] h = (h.0, tt)
All-insert_sorted m x (y ∷ ys) h = ground (arith, All-insert_sorted m x ys)

All-sort : (m : ℕ) (xs : List ℕ) → All (IsBelow m) (sort xs) → All (IsBelow m) xs
unfolding sort
All-sort m [] h = tt
All-sort m (x ∷ xs) h =
    let (here, later) = All-insert_sorted m x (sort xs) h in (here, All-sort m xs later)

-- The last of the buckets reaches up to the last of the sorted lengths.
buckets_cover :
    (sorted : List ℕ) (k_actual count i len d : ℕ)
    → i + suc count ≡ k_actual
    → len ≤ get_or sorted (length sorted - 1) 0
    → len ≤ find_target len (buckets_from sorted k_actual (suc count) i) d
unfolding find_target buckets_from bucket_at
buckets_cover sorted k_actual zero i len d e h =
    let last : (i == k_actual - 1) ≡ true = ground arith in
    let fits = le→leb len (get_or sorted (length sorted - 1) 0) h in rw last (rw fits h)
buckets_cover sorted k_actual (suc count) i len d e h =
    let hi = (bucket_at sorted k_actual i).hi in
    let later = buckets_cover sorted k_actual count (suc i) len d (omega arith) h in
    elim (Bool-cases (leb len hi)) [
      | inl f ↦ rw (f, find_target) (leb→le len hi f)
      | inr f ↦ rw (f, find_target) later
    ]

all_buckets_cover :
    (sorted : List ℕ) (k_actual len d : ℕ)
    → 0 < k_actual
    → len ≤ get_or sorted (length sorted - 1) 0
    → len ≤ find_target len (buckets_from sorted k_actual k_actual 0) d
all_buckets_cover sorted zero len d h b = absurd (omega arith)
all_buckets_cover sorted (suc c) len d h b = buckets_cover sorted (suc c) c 0 len d (omega arith) b

length-sort : (xs : List ℕ) → length (sort xs) ≡ length xs
unfolding sort
length-sort [] = refl
length-sort (x ∷ xs) = omega (arith, length-insert_sorted x (sort xs), length-sort xs)

-- A length is not padded to less than itself.
abbrev pub IsCovered : List SizeBucket → ℕ → Type 0
IsCovered buckets len = len ≤ optimal_pad_length len buckets

-- No length that a bucket table was built from is padded to less than itself, for any number of buckets
-- but 0.
pub build_buckets_cover :
    (lengths : List ℕ) (k : ℕ) → 0 < k → All (IsCovered (build_buckets lengths k)) lengths
unfolding build_buckets optimal_pad_length
build_buckets_cover [] k h = tt
build_buckets_cover (x ∷ xs) k h =
    let sorted = sort (x ∷ xs) in
    let m = get_or sorted (length sorted - 1) 0 in
    let below = All-sort m (x ∷ xs) (last_greatest sorted m refl (sort-IsSorted (x ∷ xs))) in
    let some_buckets : 0 < min k (length sorted) = omega (arith, length-sort (x ∷ xs)) in
    All-map (IsBelow m) _
      (λ len b. all_buckets_cover sorted (min k (length sorted)) len _ some_buckets b) (x ∷ xs)
      below
