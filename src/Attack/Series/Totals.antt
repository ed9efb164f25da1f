-- ===== src/Attack/Series/Totals.antt =====
-- What the bins of `aligned_series`, src/correlation_attack.rs, sum up to.
use mix_tor.Base.{
  ◌≤◌, ap₂, none, ◌==◌, ◌^◌, some, Option, ◌%◌, ℕ, zero, suc, ◌+◌, List, [], ◌∷◌, ok, err, not,
  if◌then◌else◌, replicate, sum, ◌≡◌, inl, inr, refl, sym, ap, ◌∙◌, arith, Bool-cases, Result-cases,
  map,
}
use mix_tor.Attack.{none, some, Option, LogRecord}
use mix_tor.Attack.Floats.{Floats}
use mix_tor.Attack.Series.{
  latest, earliest, relevant, some_series, bin_of, aligned_series, fill_bins, binned, EventNames,
  is_wire, filter, add_at, add_record,
}

-- The integers up to 2^53 are floats, and their sums are exact up to there.
abbrev pub exact_max : ℕ
exact_max = 9_007_199_254_740_992

pub record IsExact (f : Floats) : Type 0 where
  pub zero : f.literal 0 0 ≡ f.of_nat 0
  pub of_nat-add :
      (a b : ℕ) → a + b ≤ exact_max → f.add (f.of_nat a) (f.of_nat b) ≡ f.of_nat (a + b)

-- Bins that hold integers with a sum.
pub record IsSum (f : Floats) (series : List f.F) (n : ℕ) : Type 0 where
  pub bins : List ℕ
  pub held : series ≡ map f.of_nat bins
  pub total : sum bins ≡ n

-- The bytes of the records that are on the wire, and of the others.
abbrev pub wire_bytes : EventNames → List LogRecord → ℕ
wire_bytes events rs = sum (map (λ r. r.bytes) (filter (is_wire events) rs))

abbrev pub real_bytes : EventNames → List LogRecord → ℕ
real_bytes events rs = sum (map (λ r. r.bytes) (filter (λ r. not (is_wire events r)) rs))

module _ (f : Floats) (exact : IsExact f) where
  replicate-IsSum : (n : ℕ) → IsSum f (replicate n (f.literal 0 0)) 0
  replicate-IsSum zero = record { bins = []; held = refl; total = refl }
  replicate-IsSum (suc n) =
      let rest = replicate-IsSum n in
      record {
        bins = 0 ∷ rest.bins;
        held = ap₂ (λ z zs. z ∷ zs) exact.zero rest.held;
        total = omega (arith, rest.total);
      }

  add_at_bins :
      (i x : ℕ) (bins : List ℕ) (zs : List f.F)
      → sum bins + x ≤ exact_max
      → add_at f i (f.of_nat x) (map f.of_nat bins) ≡ ok zs
      → IsSum f zs (sum bins + x)
  unfolding add_at
  add_at_bins i x [] zs h e = cc
  add_at_bins zero x (y ∷ ys) zs h e = record {
    bins = (y + x) ∷ ys;
    held =
        let same : f.add (f.of_nat y) (f.of_nat x) ∷ map f.of_nat ys ≡ zs = cc in
        sym same ∙ ap (λ z. z ∷ map f.of_nat ys) (exact.of_nat-add y x (omega arith));
    total = omega arith;
  }
  add_at_bins (suc i) x (y ∷ ys) zs h e =
      elim (Result-cases (add_at f i (f.of_nat x) (map f.of_nat ys))) [
        | inl (ws, run) ↦
            let k : add_at f (suc i) (f.of_nat x) (map f.of_nat (y ∷ ys)) ≡ ok (f.of_nat y ∷ ws) =
              rw run refl in
            let same : f.of_nat y ∷ ws ≡ zs = cc in
            let rest = add_at_bins i x ys ws (omega arith) run in
            record {
              bins = y ∷ rest.bins;
              held = sym same ∙ ap (λ t. f.of_nat y ∷ t) rest.held;
              total = omega (arith, rest.total);
            }
        | inr (p, run) ↦
            let k : add_at f (suc i) (f.of_nat x) (map f.of_nat (y ∷ ys)) ≡ err p = rw run refl in
            cc
      ]

  -- Adding an integer to a bin adds it to the sum.
  add_at-IsSum :
      (i x n : ℕ) (ys zs : List f.F)
      → IsSum f ys n
      → n + x ≤ exact_max
      → add_at f i (f.of_nat x) ys ≡ ok zs
      → IsSum f zs (n + x)
  add_at-IsSum i x n ys zs s h e =
      let added =
        add_at_bins i x s.bins zs (omega (arith, s.total))
          (ap (add_at f i (f.of_nat x)) (sym s.held) ∙ e) in
      record { bins = added.bins; held = added.held; total = omega (arith, added.total, s.total) }

  same-IsSum : (n n' : ℕ) (ys zs : List f.F) → ys ≡ zs → n ≡ n' → IsSum f ys n → IsSum f zs n'
  same-IsSum n n' ys zs e g s = record { bins = s.bins; held = sym e ∙ s.held; total = s.total ∙ g }

  -- What a record adds to the wire's sum, and to the other.
  abbrev wire_part : EventNames → LogRecord → ℕ
  wire_part events r = if is_wire events r then r.bytes else 0

  abbrev real_part : EventNames → LogRecord → ℕ
  real_part events r = if is_wire events r then 0 else r.bytes

  add_record-IsSum :
      (events : EventNames) (i : ℕ) (r : LogRecord) (n n' : ℕ) (wire real wire' real' : List f.F)
      → IsSum f wire n
      → IsSum f real n'
      → n + wire_part events r ≤ exact_max
      → n' + real_part events r ≤ exact_max
      → add_record f events i r wire real ≡ ok (wire', real')
      → IsSum f wire' (n + wire_part events r) × IsSum f real' (n' + real_part events r)
  unfolding add_record
  add_record-IsSum events i r n n' wire real wire' real' s s' h h' e =
      elim (Bool-cases (is_wire events r)) [
        | inl w ↦ elim (Result-cases (add_at f i (f.of_nat r.bytes) wire)) [
          | inl (ws, run) ↦
              let k : add_record f events i r wire real ≡ ok (ws, real) = rw (w, run) refl in
              let on_wire : ws ≡ wire' = cc in
              let off_wire : real ≡ real' = cc in
              let fits : n + r.bytes ≤ exact_max = rw w at h in
              rw w (
                same-IsSum (n + r.bytes) (n + r.bytes) ws wire' on_wire refl
                    (add_at-IsSum i r.bytes n wire ws s fits run),
                same-IsSum n' (n' + 0) real real' off_wire (omega arith) s',
              )
          | inr (p, run) ↦
              let k : add_record f events i r wire real ≡ err p = rw (w, run) refl in cc
        ]
        | inr w ↦ elim (Result-cases (add_at f i (f.of_nat r.bytes) real)) [
          | inl (ws, run) ↦
              let k : add_record f events i r wire real ≡ ok (wire, ws) = rw (w, run) refl in
              let on_wire : wire ≡ wire' = cc in
              let off_wire : ws ≡ real' = cc in
              let fits : n' + r.bytes ≤ exact_max = rw w at h' in
              rw w (
                same-IsSum n (n + 0) wire wire' on_wire (omega arith) s,
                same-IsSum (n' + r.bytes) (n' + r.bytes) ws real' off_wire refl
                    (add_at-IsSum i r.bytes n' real ws s' fits run),
              )
          | inr (p, run) ↦
              let k : add_record f events i r wire real ≡ err p = rw (w, run) refl in cc
        ]
      ]

  wire_bytes-cons :
      (events : EventNames) (r : LogRecord) (rs : List LogRecord)
      → wire_bytes events (r ∷ rs) ≡ wire_part events r + wire_bytes events rs
  unfolding filter
  wire_bytes-cons events r rs = elim (Bool-cases (is_wire events r)) [
    | inl e ↦ rw e refl
    | inr e ↦ rw e (omega arith)
  ]

  real_bytes-cons :
      (events : EventNames) (r : LogRecord) (rs : List LogRecord)
      → real_bytes events (r ∷ rs) ≡ real_part events r + real_bytes events rs
  unfolding filter
  real_bytes-cons events r rs = elim (Bool-cases (is_wire events r)) [
    | inl e ↦ rw e (omega arith)
    | inr e ↦ rw e refl
  ]

  fill_bins-IsSum :
      (events : EventNames) (bin_ns t0 : ℕ) (rs : List LogRecord) (n n' : ℕ)
      (wire real wire' real' : List f.F)
      → IsSum f wire n
      → IsSum f real n'
      → n + wire_bytes events rs ≤ exact_max
      → n' + real_bytes events rs ≤ exact_max
      → fill_bins f events bin_ns t0 rs wire real ≡ ok (wire', real')
      → IsSum f wire' (n + wire_bytes events rs) × IsSum f real' (n' + real_bytes events rs)
  unfolding fill_bins
  fill_bins-IsSum events bin_ns t0 [] n n' wire real wire' real' s s' h h' e =
      let on_wire : wire ≡ wire' = cc in
      let off_wire : real ≡ real' = cc in
      let none_wire : wire_bytes events [] ≡ 0 = unfold filter in refl in
      let none_real : real_bytes events [] ≡ 0 = unfold filter in refl in
      (
        same-IsSum n (n + wire_bytes events []) wire wire' on_wire (omega (arith, none_wire)) s,
        same-IsSum n' (n' + real_bytes events []) real real' off_wire (omega (arith, none_real)) s',
      )
  fill_bins-IsSum events bin_ns t0 (r ∷ rs) n n' wire real wire' real' s s' h h' e =
      let c = wire_bytes-cons events r rs in
      let c' = real_bytes-cons events r rs in
      elim (Result-cases (add_record f events (bin_of bin_ns t0 r.unix_nanos) r wire real)) [
        | inl ((w, v), run) ↦
            let k : fill_bins f events bin_ns t0 (r ∷ rs) wire real
                ≡ fill_bins f events bin_ns t0 rs w v =
              rw run refl in
            let (t, t') =
              add_record-IsSum events (bin_of bin_ns t0 r.unix_nanos) r n n' wire real w v s s'
                (omega (arith, c)) (omega (arith, c')) run in
            let (u, u') =
              fill_bins-IsSum events bin_ns t0 rs (n + wire_part events r) (n' + real_part events r)
                w v wire' real' t t' (omega (arith, c)) (omega (arith, c')) (sym k ∙ e) in
            (
              same-IsSum _ (n + wire_bytes events (r ∷ rs)) wire' wire' refl (omega (arith, c)) u,
              same-IsSum _ (n' + real_bytes events (r ∷ rs)) real' real' refl (omega (arith, c'))
                  u',
            )
        | inr (p, run) ↦
            let k : fill_bins f events bin_ns t0 (r ∷ rs) wire real ≡ err p = rw run refl in cc
      ]

  binned-IsSum :
      (events : EventNames) (bin_ns : ℕ) (rs : List LogRecord) (t0 t_end : Option ℕ)
      (wire real : List f.F)
      → wire_bytes events rs ≤ exact_max
      → real_bytes events rs ≤ exact_max
      → binned f events bin_ns rs t0 t_end ≡ ok (some (wire, real))
      → IsSum f wire (wire_bytes events rs) × IsSum f real (real_bytes events rs)
  unfolding binned some_series
  binned-IsSum events bin_ns rs none t_end wire real h h' e = cc
  binned-IsSum events bin_ns rs (some t0) none wire real h h' e = cc
  binned-IsSum events bin_ns rs (some t0) (some t_end) wire real h h' e =
      let n = (bin_of bin_ns t0 t_end + 1) % 2 ^ 64 in
      let zeros = replicate n (f.literal 0 0) in
      let start = replicate-IsSum n in
      elim (Result-cases (fill_bins f events bin_ns t0 rs zeros zeros)) [
        | inl ((w, v), run) ↦
            let k : binned f events bin_ns rs (some t0) (some t_end) ≡ ok (some (w, v)) =
              rw run refl in
            let on_wire : w ≡ wire = cc in
            let off_wire : v ≡ real = cc in
            let (s, s') =
              fill_bins-IsSum events bin_ns t0 rs 0 0 zeros zeros w v start start (omega arith)
                (omega arith) run in
            (
              same-IsSum _ (wire_bytes events rs) w wire on_wire (omega arith) s,
              same-IsSum _ (real_bytes events rs) v real off_wire (omega arith) s',
            )
        | inr (p, run) ↦
            let k : binned f events bin_ns rs (some t0) (some t_end) ≡ err p = rw run refl in cc
      ]

  -- Where the bytes of the relevant records of either kind sum up to at most 2^53, the series that
  -- `aligned_series` returns hold integers that count every byte once: those of the wire series sum to
  -- the bytes of the wire's records among the relevant ones, the others to the bytes of the rest.
  pub total-aligned_series :
      (records : List LogRecord) (events : EventNames) (bin_ms : f.F) (conn : Option ℕ)
      (wire real : List f.F)
      → wire_bytes events (relevant records events conn) ≤ exact_max
      → real_bytes events (relevant records events conn) ≤ exact_max
      → aligned_series f records events bin_ms conn ≡ ok (some (wire, real))
      → IsSum f wire (wire_bytes events (relevant records events conn))
        × IsSum f real (real_bytes events (relevant records events conn))
  unfolding aligned_series
  total-aligned_series records events bin_ms conn wire real h h' e =
      let bin_ns = f.to_nat (f.mul bin_ms (f.literal 1_000_000 0)) in
      let rs = relevant records events conn in
      elim (Bool-cases (bin_ns == 0)) [
        | inl c ↦ let k : aligned_series f records events bin_ms conn ≡ ok none = rw c refl in cc
        | inr c ↦
            let k : aligned_series f records events bin_ms conn
                ≡ binned f events bin_ns rs (earliest rs) (latest rs) =
              rw c refl in
            binned-IsSum events bin_ns rs (earliest rs) (latest rs) wire real h h' (sym k ∙ e)
      ]
