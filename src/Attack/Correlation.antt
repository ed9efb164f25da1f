-- ===== src/Attack/Correlation.antt =====
-- The correlations of src/correlation_attack.rs: `mean`, `variance`, `pearson`, `shifted_pearson`,
-- `peak_cross_correlation` and `volume_attack`. An index that is out of range is the panic of
-- Series.
pub mod Peak
use mix_tor.Base.{
  ℕ, zero, suc, ◌+◌, ◌-◌, ◌*◌, ◌/◌, ◌<◌, min, max, List, [], ◌∷◌, ◌++◌, Option, none, some, Result,
  ok, err, ◌>>=◌, Bool, true, false, ◌&&◌, ◌||◌, ◌==◌, ltb, leb, if◌then◌else◌, map, length, take,
  get_or,
}
use mix_tor.Attack.{LogRecord}
use mix_tor.Attack.Floats.{Floats}
use mix_tor.Attack.Series.{out_of_range, EventNames, AttackConfig, Panic, aligned_series}

-- A signed number; `negsuc n` is -(n + 1).
pub data ℤ : Type 0 where
  pos : ℕ → ℤ
  negsuc : ℕ → ℤ

abbrev pub unsigned_abs : ℤ → ℕ
unsigned_abs (pos n) = n
unsigned_abs (negsuc n) = suc n

-- `i - lag` where it is an index below `n`.
abbrev shifted : ℕ → ℕ → ℤ → Option ℕ
shifted n i (pos k) = if leb k i && ltb (i - k) n then some (i - k) else none
shifted n i (negsuc k) = if ltb (i + suc k) n then some (i + suc k) else none

-- `-(max_lag)..=max_lag`
negative_lags : ℕ → List ℤ
negative_lags zero = []
negative_lags (suc k) = negsuc k ∷ negative_lags k

nonnegative_lags : ℕ → ℕ → List ℤ
nonnegative_lags from zero = pos from ∷ []
nonnegative_lags from (suc k) = pos from ∷ nonnegative_lags (suc from) k

unfoldable pub lags : ℕ → List ℤ
unfolding negative_lags nonnegative_lags
lags max_lag = negative_lags max_lag ++ nonnegative_lags 0 max_lag

module _ (f : Floats) where
  abbrev zero_float : f.F
  zero_float = f.literal 0 0

  -- `iter().sum()`
  sum_from : f.F → List f.F → f.F
  sum_from acc [] = acc
  sum_from acc (x ∷ xs) = sum_from (f.add acc x) xs

  unfoldable pub mean : List f.F → f.F
  unfolding sum_from
  mean [] = zero_float
  mean (x ∷ xs) = f.div (sum_from zero_float (x ∷ xs)) (f.of_nat (length (x ∷ xs)))

  unfoldable pub variance : List f.F → f.F
  unfolding sum_from
  variance [] = zero_float
  variance (x ∷ xs) =
      let m = mean (x ∷ xs) in
      f.div (sum_from zero_float (map (λ y. f.mul (f.sub y m) (f.sub y m)) (x ∷ xs)))
        (f.of_nat (length (x ∷ xs)))

  -- The loop of `pearson`: the three sums.
  moments : f.F → f.F → f.F → f.F → f.F → List f.F → List f.F → f.F × f.F × f.F
  moments ma mb num da2 db2 [] ys = (num, da2, db2)
  moments ma mb num da2 db2 (x ∷ xs) [] = (num, da2, db2)
  moments ma mb num da2 db2 (x ∷ xs) (y ∷ ys) =
      let da = f.sub x ma in
      let db = f.sub y mb in
      moments ma mb (f.add num (f.mul da db)) (f.add da2 (f.mul da da)) (f.add db2 (f.mul db db)) xs
        ys

  unfoldable pub pearson : List f.F → List f.F → f.F
  unfolding moments
  pearson a b =
      let n = min (length a) (length b) in
      let xs = take n a in
      let ys = take n b in
      let (num, da2, db2) = moments (mean xs) (mean ys) zero_float zero_float zero_float xs ys in
      let den = f.mul (f.sqrt da2) (f.sqrt db2) in
      if ltb n 2 then zero_float else if f.same den zero_float then zero_float else f.div num den

  -- `a[i]`
  index : List f.F → ℕ → Result Panic f.F
  index [] i = err out_of_range
  index (x ∷ xs) zero = ok x
  index (x ∷ xs) (suc i) = index xs i

  -- The pairs of the loop of `shifted_pearson`, from the index `i` on.
  overlapping : ℕ → ℕ → ℕ → List f.F → List f.F → ℤ → Result Panic (List f.F × List f.F)
  unfolding index
  overlapping zero n i a b lag = ok ([], [])
  overlapping (suc rounds) n i a b lag =
      let rest = overlapping rounds n (suc i) a b lag in
      elim (shifted n i lag) [
        | none ↦ rest
        | some j ↦ (do x ← index a i; y ← index b j; (xs, ys) ← rest; ok (x ∷ xs, y ∷ ys))
      ]

  unfoldable pub shifted_pearson : List f.F → List f.F → ℤ → Result Panic f.F
  unfolding overlapping
  shifted_pearson a b lag =
      let n = min (length a) (length b) in
      overlapping n n 0 a b lag >>= λ pairs. ok (pearson pairs.0 pairs.1)

  -- The better of the best lag and value so far and a lag's value.
  better_of : ℤ × f.F → ℤ → f.F → ℤ × f.F
  better_of best lag c = if f.below best.1 c then (lag, c) else best

  -- A round of `peak_cross_correlation`.
  better : List f.F → List f.F → ℕ → ℤ × f.F → ℤ → Result Panic (ℤ × f.F)
  unfolding better_of
  better a b min_overlap best lag =
      let n = min (length a) (length b) in
      let next = shifted_pearson a b lag >>= λ c. ok (better_of best lag (f.abs c)) in
      if ltb (n - unsigned_abs lag) min_overlap then ok best else next

  best_of : List f.F → List f.F → ℕ → ℤ × f.F → List ℤ → Result Panic (ℤ × f.F)
  unfolding better
  best_of a b min_overlap best [] = ok best
  best_of a b min_overlap best (lag ∷ rest) =
      better a b min_overlap best lag >>= λ next. best_of a b min_overlap next rest

  unfoldable pub peak_cross_correlation : List f.F → List f.F → ℕ → Result Panic (ℤ × f.F)
  unfolding best_of
  peak_cross_correlation a b max_lag =
      let n = min (length a) (length b) in
      let min_overlap = max (n / 2) 3 in
      best_of a b min_overlap (pos 0, zero_float) (lags (min max_lag (n - min_overlap)))

  pub record VolumeAttack : Type 0 where
    pub flow : ℕ
    pub bins : ℕ
    pub correlation : f.F
    pub peak_cross_corr : f.F
    pub peak_lag_bins : ℤ
    pub leaks : Bool

  candidate_of : AttackConfig f → ℕ → List f.F → List f.F → ℤ × f.F → VolumeAttack
  candidate_of config id wire real peak =
      let r = pearson wire real in
      record {
        flow = id;
        bins = length wire;
        correlation = r;
        peak_cross_corr = peak.1;
        peak_lag_bins = peak.0;
        leaks =
            f.below config.volume_corr_threshold (f.abs peak.1)
            || f.below config.volume_corr_threshold (f.abs r);
      }

  candidate : AttackConfig f → ℕ → List f.F → List f.F → Result Panic VolumeAttack
  unfolding candidate_of
  candidate config id wire real = do
    peak ← peak_cross_correlation wire real config.max_lag_bins
    ok (candidate_of config id wire real peak)

  -- `worst.map_or(true, ..)`
  worse : Option VolumeAttack → VolumeAttack → Option VolumeAttack
  worse none cand = some cand
  worse (some w) cand = if f.below w.peak_cross_corr cand.peak_cross_corr then some cand else some w

  -- A connection's round of `volume_attack`.
  volume_round :
      AttackConfig f
      → ℕ
      → Option VolumeAttack
      → Option (List f.F × List f.F)
      → Result Panic (Option VolumeAttack)
  unfolding worse candidate
  volume_round config id worst none = ok worst
  volume_round config id worst (some (wire, real)) =
      let judged = candidate config id wire real >>= λ cand. ok (worse worst cand) in
      if ltb (length wire) (max config.min_bins 3) then ok worst else judged

  volume_from :
      List LogRecord
      → EventNames
      → AttackConfig f
      → Option VolumeAttack
      → List ℕ
      → Result Panic (Option VolumeAttack)
  unfolding volume_round
  volume_from records events config worst [] = ok worst
  volume_from records events config worst (id ∷ ids) =
      aligned_series f records events config.bin_ms (some id) >>= λ series.
      volume_round config id worst series >>= λ worst'. volume_from records events config worst' ids

  unfoldable pub volume_attack :
      List LogRecord → EventNames → AttackConfig f → List ℕ → Result Panic (Option VolumeAttack)
  unfolding volume_from
  volume_attack records events config ids = volume_from records events config none ids
