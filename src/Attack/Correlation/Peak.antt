-- ===== src/Attack/Correlation/Peak.antt =====
-- The lag that `peak_cross_correlation` of src/correlation_attack.rs finds.
use mix_tor.Base.{
  none, some, refl, Option, Option-cases, ltb→lt, Returns, Returns-bind, Returns-map, ltb→lt,
  Returns-bind, Option-cases, Returns-map, ◌<◌, leb, Returns, Option, ℕ, zero, suc, ◌+◌, ◌-◌, ◌/◌,
  ◌≤◌, min, max, List, [], ◌∷◌, ◌++◌, ltb, inl, inr, arith, Bool-cases, All, length,
}
use mix_tor.Attack.Floats.{Floats}
use mix_tor.Attack.Correlation.{
  some, leb, Option, ℤ, pos, negsuc, unsigned_abs, shifted, index, overlapping, better_of,
  negative_lags, nonnegative_lags, lags, better, best_of, shifted_pearson, peak_cross_correlation,
}

abbrev IsWithin : ℕ → ℤ → Type 0
IsWithin m lag = unsigned_abs lag ≤ m

negative_lags-IsWithin : (m k : ℕ) → k ≤ m → All (IsWithin m) (negative_lags k)
unfolding negative_lags
negative_lags-IsWithin m zero h = tt
negative_lags-IsWithin m (suc k) h = (h, negative_lags-IsWithin m k (omega arith))

nonnegative_lags-IsWithin :
    (m from k : ℕ) → from + k ≤ m → All (IsWithin m) (nonnegative_lags from k)
unfolding nonnegative_lags
nonnegative_lags-IsWithin m from zero h = (omega arith, tt)
nonnegative_lags-IsWithin m from (suc k) h =
    (omega arith, nonnegative_lags-IsWithin m (suc from) k (omega arith))

All-append-IsWithin :
    (m : ℕ) (xs ys : List ℤ)
    → All (IsWithin m) xs
    → All (IsWithin m) ys
    → All (IsWithin m) (xs ++ ys)
All-append-IsWithin m [] ys h k = k
All-append-IsWithin m (x ∷ xs) ys h k = (h.0, All-append-IsWithin m xs ys h.1 k)

lags-IsWithin : (m : ℕ) → All (IsWithin m) (lags m)
unfolding lags
lags-IsWithin m =
    All-append-IsWithin m (negative_lags m) (nonnegative_lags 0 m)
      (negative_lags-IsWithin m m (omega arith)) (nonnegative_lags-IsWithin m 0 m (omega arith))

abbrev IsIndex : ℕ → Option ℕ → Type 0
IsIndex n none = Unit
IsIndex n (some j) = j < n

module _ (f : Floats) where
  index_inside : (xs : List f.F) (i : ℕ) → i < length xs → Returns (λ x. Unit {0}) (index f xs i)
  unfolding index
  index_inside [] i h = absurd (omega arith)
  index_inside (x ∷ xs) zero h = (x, refl, tt)
  index_inside (x ∷ xs) (suc i) h = index_inside xs i (omega arith)

  shifted-IsIndex : (n i : ℕ) (lag : ℤ) → IsIndex n (shifted n i lag)
  shifted-IsIndex n i (pos k) = elim (Bool-cases (leb k i)) [
    | inl e ↦ elim (Bool-cases (ltb (i - k) n)) [
      | inl g ↦ rw (e, g) (ltb→lt (i - k) n g)
      | inr g ↦ rw (e, g) tt
    ]
    | inr e ↦ rw e tt
  ]
  shifted-IsIndex n i (negsuc k) = elim (Bool-cases (ltb (i + suc k) n)) [
    | inl g ↦ rw g (ltb→lt (i + suc k) n g)
    | inr g ↦ rw g tt
  ]

  -- No index of the loop is out of range.
  overlapping_inside :
      (rounds n i : ℕ) (a b : List f.F) (lag : ℤ)
      → i + rounds ≤ n
      → n ≤ length a
      → n ≤ length b
      → Returns (λ pairs. Unit {0}) (overlapping f rounds n i a b lag)
  unfolding overlapping
  overlapping_inside zero n i a b lag h ha hb = (_, refl, tt)
  overlapping_inside (suc rounds) n i a b lag h ha hb =
      let rest = overlapping_inside rounds n (suc i) a b lag (omega arith) ha hb in
      elim (Option-cases (shifted n i lag)) [
        | inl e ↦ rw (e, overlapping) rest
        | inr (j, e) ↦
            let below : j < n = rw e at (shifted-IsIndex n i lag) in
            rw (e, overlapping)
              (Returns-bind (index_inside a i (omega arith)) λ x _.
                Returns-bind (index_inside b j (omega arith))
                  λ y _. Returns-bind rest λ pairs _. (_, refl, tt))
      ]

  shifted_pearson_inside :
      (a b : List f.F) (lag : ℤ) → Returns (λ c. Unit {0}) (shifted_pearson f a b lag)
  unfolding shifted_pearson
  shifted_pearson_inside a b lag =
      let n = min (length a) (length b) in
      Returns-bind (overlapping_inside n n 0 a b lag (omega arith) (omega arith) (omega arith))
        λ pairs _. (_, refl, tt)

  better_of-IsWithin :
      (m : ℕ) (best : ℤ × f.F) (lag : ℤ) (c : f.F)
      → IsWithin m best.0
      → IsWithin m lag
      → IsWithin m (better_of f best lag c).0
  unfolding better_of
  better_of-IsWithin m best lag c h k = elim (Bool-cases (f.below best.1 c)) [
    | inl e ↦ rw e k
    | inr e ↦ rw e h
  ]

  better-IsWithin :
      (a b : List f.F) (min_overlap m : ℕ) (best : ℤ × f.F) (lag : ℤ)
      → IsWithin m best.0
      → IsWithin m lag
      → Returns (λ next. IsWithin m next.0) (better f a b min_overlap best lag)
  unfolding better
  better-IsWithin a b min_overlap m best lag h k =
      elim (Bool-cases (ltb (min (length a) (length b) - unsigned_abs lag) min_overlap)) [
        | inl e ↦ rw e (best, refl, h)
        | inr e ↦ rw e (
            Returns-bind (shifted_pearson_inside a b lag)
              λ c _. (_, refl, better_of-IsWithin m best lag (f.abs c) h k))
      ]

  best_of-IsWithin :
      (a b : List f.F) (min_overlap m : ℕ) (best : ℤ × f.F) (rest : List ℤ)
      → IsWithin m best.0
      → All (IsWithin m) rest
      → Returns (λ peak. IsWithin m peak.0) (best_of f a b min_overlap best rest)
  unfolding best_of
  best_of-IsWithin a b min_overlap m best [] h k = (best, refl, h)
  best_of-IsWithin a b min_overlap m best (lag ∷ rest) h k =
      Returns-bind (better-IsWithin a b min_overlap m best lag h k.0)
        λ next within. best_of-IsWithin a b min_overlap m next rest within k.1

  -- No index is out of range. The lag of the peak is `max_lag` at most in either direction, and at it
  -- half of the shorter series and three bins at least overlap, if the shorter series has three bins;
  -- else the lag is 0.
  pub peak_lag_bounds :
      (a b : List f.F) (max_lag : ℕ)
      → Returns
          (λ peak.
            let lag = unsigned_abs peak.0 in
            let n = min (length a) (length b) in (lag ≤ max_lag) × (lag + max (n / 2) 3 ≤ max n 3))
          (peak_cross_correlation f a b max_lag)
  unfolding peak_cross_correlation
  peak_lag_bounds a b max_lag =
      let n = min (length a) (length b) in
      let m = min max_lag (n - max (n / 2) 3) in
      Returns-map
        (best_of-IsWithin a b (max (n / 2) 3) m (pos 0, f.literal 0 0) (lags m) (omega arith)
          (lags-IsWithin m))
        λ peak within. (omega (arith, within), omega (arith, within))
