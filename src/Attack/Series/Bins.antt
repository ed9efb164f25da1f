-- ===== src/Attack/Series/Bins.antt =====
-- The bins of `aligned_series`, src/correlation_attack.rs: no index is out of range, and no byte is lost.
use mix_tor.Base.{
  ℕ, zero, suc, ◌+◌, ◌-◌, ◌/◌, ◌%◌, ◌^◌, ◌≤◌, ◌<◌, max, List, [], ◌∷◌, Option, none, some, Result,
  ok, Bool, ◌==◌, length, replicate, length-replicate, All, ◌≡◌, ◌⊎◌, inl, inr, refl, sym, ◌∙◌,
  arith, Bool-cases, Option-cases,
}
use native.Mathlib.Nat.{le-div_iff_mul-le, div-mul-le_self, div-le_self}
use mix_tor.Attack.{LogRecord}
use mix_tor.Attack.Floats.{Floats}
use mix_tor.Attack.Series.{
  EventNames, is_wire, filter, is_relevant, of_conn, relevant, earliest, latest, Panic, bin_of,
  add_at, add_record, fill_bins, some_series, binned, aligned_series,
}

div_mono : (x y k : ℕ) → 0 < k → x ≤ y → x / k ≤ y / k
div_mono x y k h l = (le-div_iff_mul-le h).1 (omega (arith, div-mul-le_self x k))

-- An instant that is no later than the last one has its bin in the range.
pub bin_in_range :
    (bin_ns t0 t t_end : ℕ)
    → 0 < bin_ns
    → t ≤ t_end
    → t_end < 2 ^ 64 - 1
    → bin_of bin_ns t0 t < (bin_of bin_ns t0 t_end + 1) % 2 ^ 64
bin_in_range bin_ns t0 t t_end h l b =
    let q = div_mono (t - t0) (t_end - t0) bin_ns h (omega arith) in
    let top = div-le_self (t_end - t0) bin_ns in omega arith

latest_of_empty : (rs : List LogRecord) → latest rs ≡ none → rs ≡ []
unfolding latest
latest_of_empty [] e = refl
latest_of_empty (r ∷ rs) e = elim (Option-cases (latest rs)) [
  | inl absent ↦ let k : latest (r ∷ rs) ≡ some r.unix_nanos = rw absent refl in cc
  | inr (t, found) ↦ let k : latest (r ∷ rs) ≡ some (max r.unix_nanos t) = rw found refl in cc
]

up_to_weaker :
    (a b : ℕ) (rs : List LogRecord)
    → a ≤ b
    → All (λ r. r.unix_nanos ≤ a) rs
    → All (λ r. r.unix_nanos ≤ b) rs
up_to_weaker a b [] l h = tt
up_to_weaker a b (r ∷ rs) l h = (omega (arith, h.0), up_to_weaker a b rs l h.1)

latest_bounds :
    (rs : List LogRecord) (t_end : ℕ) → latest rs ≡ some t_end → All (λ r. r.unix_nanos ≤ t_end) rs
unfolding latest
latest_bounds [] t_end e = tt
latest_bounds (r ∷ rs) t_end e = elim (Option-cases (latest rs)) [
  | inl absent ↦
      let k : latest (r ∷ rs) ≡ some r.unix_nanos = rw absent refl in
      let same : r.unix_nanos ≡ t_end = cc in rw (latest_of_empty rs absent) (omega arith, tt)
  | inr (t, found) ↦
      let k : latest (r ∷ rs) ≡ some (max r.unix_nanos t) = rw found refl in
      let same : max r.unix_nanos t ≡ t_end = cc in
      (omega arith, up_to_weaker t t_end rs (omega arith) (latest_bounds rs t found))
]

-- The last instant is one of the records'.
pub latest_in :
    (n t_end : ℕ) (rs : List LogRecord)
    → latest rs ≡ some t_end
    → All (λ r. r.unix_nanos < n) rs
    → t_end < n
unfolding latest
latest_in n t_end [] e h = cc
latest_in n t_end (r ∷ rs) e h = elim (Option-cases (latest rs)) [
  | inl absent ↦
      let k : latest (r ∷ rs) ≡ some r.unix_nanos = rw absent refl in
      let same : r.unix_nanos ≡ t_end = cc in omega (arith, h.0)
  | inr (t, found) ↦
      let k : latest (r ∷ rs) ≡ some (max r.unix_nanos t) = rw found refl in
      let same : max r.unix_nanos t ≡ t_end = cc in omega (arith, h.0, latest_in n t rs found h.1)
]

-- What is filtered keeps what all records have.
pub All-filter :
    (P : LogRecord → Type 0) (keeps : LogRecord → Bool) (rs : List LogRecord)
    → All P rs
    → All P (filter keeps rs)
unfolding filter
All-filter P keeps [] h = tt
All-filter P keeps (r ∷ rs) h = elim (Bool-cases (keeps r)) [
  | inl e ↦ rw e (h.0, All-filter P keeps rs h.1)
  | inr e ↦ rw e (All-filter P keeps rs h.1)
]

bins_in_range :
    (bin_ns t0 t_end : ℕ) (rs : List LogRecord)
    → 0 < bin_ns
    → t_end < 2 ^ 64 - 1
    → All (λ r. r.unix_nanos ≤ t_end) rs
    → All (λ r. bin_of bin_ns t0 r.unix_nanos < (bin_of bin_ns t0 t_end + 1) % 2 ^ 64) rs
bins_in_range bin_ns t0 t_end [] h b l = tt
bins_in_range bin_ns t0 t_end (r ∷ rs) h b l =
    (bin_in_range bin_ns t0 r.unix_nanos t_end h l.0 b, bins_in_range bin_ns t0 t_end rs h b l.1)

module _ (f : Floats) where
  pub add_at_inside :
      (i : ℕ) (x : f.F) (ys : List f.F)
      → i < length ys
      → (zs : List f.F) × (add_at f i x ys ≡ ok zs) × (length zs ≡ length ys)
  unfolding add_at
  add_at_inside i x [] h = absurd (omega arith)
  add_at_inside zero x (y ∷ ys) h = (f.add y x ∷ ys, refl, refl)
  add_at_inside (suc i) x (y ∷ ys) h =
      let (zs, e, n) = add_at_inside i x ys (omega arith) in (y ∷ zs, rw e refl, omega (arith, n))

  add_record_inside :
      (events : EventNames) (i : ℕ) (r : LogRecord) (wire real : List f.F)
      → i < length wire
      → length real ≡ length wire
      → (wire' : List f.F) × (real' : List f.F) × (add_record f events i r wire real
          ≡ ok (wire', real'))
        × (length wire' ≡ length wire)
        × (length real' ≡ length wire)
  unfolding add_record
  add_record_inside events i r wire real h same = elim (Bool-cases (is_wire events r)) [
    | inl e ↦
        let (zs, run, n) = add_at_inside i (f.of_nat r.bytes) wire h in
        (zs, real, rw (e, run) refl, n, same)
    | inr e ↦
        let (zs, run, n) = add_at_inside i (f.of_nat r.bytes) real (omega arith) in
        (wire, zs, rw (e, run) refl, refl, omega arith)
  ]

  -- The loop keeps to the range and the lengths.
  fill_bins_inside :
      (events : EventNames) (bin_ns t0 : ℕ) (rs : List LogRecord) (wire real : List f.F)
      → All (λ r. bin_of bin_ns t0 r.unix_nanos < length wire) rs
      → length real ≡ length wire
      → (wire' : List f.F) × (real' : List f.F) × (fill_bins f events bin_ns t0 rs wire real
          ≡ ok (wire', real'))
        × (length wire' ≡ length wire)
        × (length real' ≡ length wire)
  unfolding fill_bins
  fill_bins_inside events bin_ns t0 [] wire real h same = (wire, real, refl, refl, same)
  fill_bins_inside events bin_ns t0 (r ∷ rs) wire real h same =
      let (w, v, run, nw, nv) =
        add_record_inside events (bin_of bin_ns t0 r.unix_nanos) r wire real h.0 same in
      let (w', v', run', nw', nv') =
        fill_bins_inside events bin_ns t0 rs w v (rw nw h.1) (omega arith) in
      (w', v', rw (run, run') refl, omega arith, omega arith)

  -- What `aligned_series` returns: nothing, or two series of one length.
  abbrev pub IsAligned : Result Panic (Option (List f.F × List f.F)) → Type 0
  IsAligned r =
      (r ≡ ok none)
      ⊎ ((wire : List f.F) × (real : List f.F) × (r ≡ ok (some (wire, real)))
          × (length real ≡ length wire))

  binned-IsAligned :
      (events : EventNames) (bin_ns : ℕ) (rs : List LogRecord) (t0 t_end : Option ℕ)
      → 0 < bin_ns
      → All (λ r. r.unix_nanos < 2 ^ 64 - 1) rs
      → latest rs ≡ t_end
      → IsAligned (binned f events bin_ns rs t0 t_end)
  unfolding binned some_series
  binned-IsAligned events bin_ns rs none t_end h b e = inl refl
  binned-IsAligned events bin_ns rs (some t0) none h b e = inl refl
  binned-IsAligned events bin_ns rs (some t0) (some t_end) h b e =
      let n = (bin_of bin_ns t0 t_end + 1) % 2 ^ 64 in
      let zero_bins = replicate n (f.literal 0 0) in
      let long = length-replicate n (f.literal 0 0) in
      let inside =
        bins_in_range bin_ns t0 t_end rs h (latest_in (2 ^ 64 - 1) t_end rs e b)
          (latest_bounds rs t_end e) in
      let (wire, real, run, nw, nr) =
        fill_bins_inside events bin_ns t0 rs zero_bins zero_bins (rw long inside) refl in
      inr (wire, real, rw run refl, nr ∙ sym nw)

  -- On records whose instants stay below 2^64 - 1, `aligned_series` never indexes out of range: it returns,
  -- and where it returns series they have one length.
  pub aligned_series-IsAligned :
      (records : List LogRecord) (events : EventNames) (bin_ms : f.F) (conn : Option ℕ)
      → All (λ r. r.unix_nanos < 2 ^ 64 - 1) records
      → IsAligned (aligned_series f records events bin_ms conn)
  unfolding aligned_series
  aligned_series-IsAligned records events bin_ms conn h =
      let bin_ns = f.to_nat (f.mul bin_ms (f.literal 1_000_000 0)) in
      let rs = relevant records events conn in
      elim (Bool-cases (bin_ns == 0)) [
        | inl e ↦ rw e (inl refl)
        | inr e ↦ rw e (
            binned-IsAligned events bin_ns rs (earliest rs) (latest rs) (ground arith)
              (All-filter _ (of_conn conn) (filter (is_relevant events) records)
                (All-filter _ (is_relevant events) records h))
              refl)
      ]
