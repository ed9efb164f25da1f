-- ===== src/Attack/Linking/Matches.antt =====
-- What `linking_attack` of src/correlation_attack.rs returns.
use mix_tor.Base.{
  Returns-bind, Returns, ◌%◌, ◌+◌, true, some, ◌-◌, ◌⊎◌, ◌^◌, min, none, leb, Option, Bool, Result,
  ℕ, ◌<◌, List, [], ◌∷◌, ok, ◌==◌, map, length, length-replicate, All, ◌≡◌, inl, inr, refl, ap, ◌∙◌,
  arith, Bool-cases,
}
use mix_tor.Attack.Floats.{Floats}
use mix_tor.Attack.Series.Bins.{bin_in_range, latest_in, All-filter, add_at_inside}
use mix_tor.Attack.Series.Flows.{contains}
use mix_tor.Attack.Correlation.Peak.{peak_lag_bounds}
use mix_tor.Attack.Linking.{
  next_best, earliest, is_relevant, filter, true, some, latest, bin_of, is_real, none, min, leb,
  LinkingAttack, AttackConfig, is_wire, Option, LogRecord, Panic, EventNames, report, linked,
  link_flows, fill_flows, add_record_to, guess_from, Bool, Result, linking_attack, Flows,
  empty_flows, add_to,
}

module _ (f : Floats) where
  abbrev pub ids_of : Flows f → List ℕ
  ids_of flows = map (λ e. e.0) flows

  -- All series have `n` bins, and the ids are given.
  pub record IsFlows (ids : List ℕ) (n : ℕ) (flows : Flows f) : Type 0 where
    pub ids_same : ids_of flows ≡ ids
    pub long : All (λ e. length e.1 ≡ n) flows

  empty_flows-IsFlows : (n : ℕ) (ids : List ℕ) → IsFlows ids n (empty_flows f n ids)
  unfolding empty_flows
  empty_flows-IsFlows n [] = record { ids_same = refl; long = tt }
  empty_flows-IsFlows n (id ∷ ids) =
      let rest = empty_flows-IsFlows n ids in
      record {
        ids_same = ap (λ t. id ∷ t) rest.ids_same;
        long = (length-replicate n (f.literal 0 0), rest.long);
      }

  add_to-inside :
      (id i n : ℕ) (x : f.F) (flows : Flows f)
      → i < n
      → All (λ e. length e.1 ≡ n) flows
      → (out : Flows f) × (add_to f id i x flows ≡ ok out)
        × (ids_of out ≡ ids_of flows)
        × All (λ e. length e.1 ≡ n) out
  unfolding add_to
  add_to-inside id i n x [] b h = ([], refl, refl, tt)
  add_to-inside id i n x ((k, v) ∷ flows) b h = elim (Bool-cases (k == id)) [
    | inl e ↦
        let (w, run, m) = add_at_inside f i x v (omega (arith, h.0)) in
        ((k, w) ∷ flows, rw (e, add_to, run) refl, refl, (m ∙ h.0, h.1))
    | inr e ↦
        let (out, run, same, m) = add_to-inside id i n x flows b h.1 in
        ((k, v) ∷ out, rw (e, add_to) (rw run refl), ap (λ t. k ∷ t) same, (h.0, m))
  ]

  -- Both maps after the loop.
  abbrev IsFilled : List ℕ → ℕ → Result Panic (Flows f × Flows f) → Type 0
  IsFilled ids n r =
      (wires : Flows f) × (reals : Flows f) × (r ≡ ok (wires, reals))
      × IsFlows ids n wires
      × IsFlows ids n reals

  add_record_to-IsFilled :
      (events : EventNames) (i n : ℕ) (ids : List ℕ) (r : LogRecord) (wires reals : Flows f)
      → i < n
      → IsFlows ids n wires
      → IsFlows ids n reals
      → IsFilled ids n (add_record_to f events i r wires reals)
  unfolding add_record_to
  add_record_to-IsFilled events i n ids r wires reals b w v = elim (Bool-cases (is_wire events r)) [
    | inl e ↦
        let (out, run, same, long) =
          add_to-inside r.conn_id i n (f.of_nat r.bytes) wires b w.long in
        (out, reals, rw (e, run) refl, record { ids_same = same ∙ w.ids_same; long = long }, v)
    | inr e ↦ elim (Bool-cases (is_real events r)) [
      | inl k ↦
          let (out, run, same, long) =
            add_to-inside r.conn_id i n (f.of_nat r.bytes) reals b v.long in
          (wires, out, rw (e, k, run) refl, w, record { ids_same = same ∙ v.ids_same; long = long })
      | inr k ↦ (wires, reals, rw (e, k) refl, w, v)
    ]
  ]

  fill_flows-IsFilled :
      (events : EventNames) (bin_ns t0 n : ℕ) (ids : List ℕ) (rs : List LogRecord)
      (wires reals : Flows f)
      → 0 < n
      → IsFlows ids n wires
      → IsFlows ids n reals
      → IsFilled ids n (fill_flows f events bin_ns t0 n rs wires reals)
  unfolding fill_flows
  fill_flows-IsFilled events bin_ns t0 n ids [] wires reals b w v = (wires, reals, refl, w, v)
  fill_flows-IsFilled events bin_ns t0 n ids (r ∷ rs) wires reals b w v =
      elim (Bool-cases (leb t0 r.unix_nanos)) [
        | inl e ↦
            let (w', v', run, fw, fv) =
              add_record_to-IsFilled events (min (bin_of bin_ns t0 r.unix_nanos) (n - 1)) n ids r
                wires reals (omega arith) w v in
            let (w'', v'', run', fw', fv') =
              fill_flows-IsFilled events bin_ns t0 n ids rs w' v' b fw fv in
            (w'', v'', rw (e, run, run') refl, fw', fv')
        | inr e ↦
            let (w'', v'', run', fw', fv') =
              fill_flows-IsFilled events bin_ns t0 n ids rs wires reals b w v in
            (w'', v'', rw (e, run') refl, fw', fv')
      ]

  next_best-contains :
      (ids : List ℕ) (best : ℕ × f.F) (id : ℕ) (score : f.F)
      → contains best.0 ids ≡ true
      → contains id ids ≡ true
      → contains (next_best f best id score).0 ids ≡ true
  unfolding next_best
  next_best-contains ids best id score h k = elim (Bool-cases (f.below best.1 score)) [
    | inl e ↦ rw e k
    | inr e ↦ rw e h
  ]

  guess_from-contains :
      (wire : List f.F) (max_lag : ℕ) (ids : List ℕ) (best : ℕ × f.F) (reals : Flows f)
      → contains best.0 ids ≡ true
      → All (λ e. contains e.0 ids ≡ true) reals
      → Returns (λ guess. contains guess.0 ids ≡ true) (guess_from f wire max_lag best reals)
  unfolding guess_from
  guess_from-contains wire max_lag ids best [] h hs = (best, refl, h)
  guess_from-contains wire max_lag ids best ((id, real) ∷ rest) h hs =
      Returns-bind (peak_lag_bounds f wire real max_lag) λ peak _.
        guess_from-contains wire max_lag ids (next_best f best id peak.1) rest
          (next_best-contains ids best id peak.1 h hs.0) hs.1

  -- One match for each wire flow, whose guess is a flow, marked as it is.
  abbrev pub IsMatched : List ℕ → List (ℕ × ℕ × Bool) → Type 0
  IsMatched ids matches = All (λ m. (contains m.1 ids ≡ true) × (m.2 ≡ (m.1 == m.0))) matches

  link_flows-IsMatched :
      (max_lag first : ℕ) (ids : List ℕ) (wires reals : Flows f)
      → contains first ids ≡ true
      → All (λ e. contains e.0 ids ≡ true) reals
      → Returns
          (λ matches. (map (λ m. m.0) matches ≡ ids_of wires) × IsMatched ids matches)
          (link_flows f max_lag first wires reals)
  unfolding link_flows
  link_flows-IsMatched max_lag first ids [] reals h hs = ([], refl, (refl, tt))
  link_flows-IsMatched max_lag first ids ((id, wire) ∷ wires) reals h hs =
      Returns-bind (guess_from-contains wire max_lag ids (first, f.neg_infinity) reals h hs)
        λ guess held.
          Returns-bind (link_flows-IsMatched max_lag first ids wires reals h hs)
            λ rest (same, matched). (_, refl, (ap (λ t. id ∷ t) same, ((held, refl), matched)))

  contained_after :
      (id : ℕ) (ids : List ℕ) (flows : Flows f)
      → All (λ e. contains e.0 ids ≡ true) flows
      → All (λ e. contains e.0 (id ∷ ids) ≡ true) flows
  unfolding contains
  contained_after id ids [] h = tt
  contained_after id ids (e ∷ flows) h = (ground (arith, h.0), contained_after id ids flows h.1)

  ids_contained : (flows : Flows f) → All (λ e. contains e.0 (ids_of flows) ≡ true) flows
  unfolding contains
  ids_contained [] = tt
  ids_contained (e ∷ flows) =
      (ground arith, contained_after e.0 (ids_of flows) flows (ids_contained flows))

  -- What `linking_attack` returns for these connections: nothing, or a report.
  abbrev pub IsLinked : List ℕ → Result Panic (Option (LinkingAttack f)) → Type 0
  IsLinked ids r =
      (r ≡ ok none)
      ⊎ ((a : LinkingAttack f) × (r ≡ ok (some a))
          × (a.flows ≡ length ids)
          × (map (λ m. m.0) a.matches ≡ ids)
          × IsMatched ids a.matches)

  linked-IsLinked :
      (records rs : List LogRecord) (events : EventNames) (config : AttackConfig f) (first : ℕ)
      (ids : List ℕ) (bin_ns : ℕ) (t0 t_end : Option ℕ)
      → 0 < bin_ns
      → All (λ r. r.unix_nanos < 2 ^ 64 - 1) rs
      → latest rs ≡ t_end
      → contains first ids ≡ true
      → IsLinked ids (linked f records events config first ids bin_ns t0 t_end)
  unfolding linked report
  linked-IsLinked records rs events config first ids bin_ns none t_end h b e c = inl refl
  linked-IsLinked records rs events config first ids bin_ns (some t0) none h b e c = inl refl
  linked-IsLinked records rs events config first ids bin_ns (some t0) (some t_end) h b e c =
      let n = (bin_of bin_ns t0 t_end + 1) % 2 ^ 64 in
      let some_bin =
        bin_in_range bin_ns t0 t_end t_end h (omega arith) (latest_in (2 ^ 64 - 1) t_end rs e b) in
      let start = empty_flows-IsFlows n ids in
      let (wires, reals, run, w, v) =
        fill_flows-IsFilled events bin_ns t0 n ids records (empty_flows f n ids)
          (empty_flows f n ids) (omega arith) start start in
      let (matches, linking, (same, matched)) =
        link_flows-IsMatched config.max_lag_bins first ids wires reals c
          (rw (v.ids_same) at (ids_contained reals)) in
      inr (report f (length ids) matches, rw (run, linking) refl, refl, same ∙ w.ids_same, matched)

  -- On records whose instants stay below 2^64 - 1, `linking_attack` never indexes out of range: not in
  -- the bins that it fills, and not in the series that it correlates. If it
  -- reports, there is one match for each connection in order, its guess is one of the connections, and it
  -- is marked correct if and only if the guess is the connection itself.
  pub linking_attack-IsLinked :
      (records : List LogRecord) (events : EventNames) (config : AttackConfig f) (ids : List ℕ)
      → All (λ r. r.unix_nanos < 2 ^ 64 - 1) records
      → IsLinked ids (linking_attack f records events config ids)
  unfolding linking_attack contains
  linking_attack-IsLinked records events config [] h = inl refl
  linking_attack-IsLinked records events config (id ∷ []) h = inl refl
  linking_attack-IsLinked records events config (id ∷ id' ∷ ids) h =
      let bin_ns = f.to_nat (f.mul config.bin_ms (f.literal 1_000_000 0)) in
      let rs = filter (is_relevant events) records in
      elim (Bool-cases (bin_ns == 0)) [
        | inl e ↦ rw e (inl refl)
        | inr e ↦ rw e (
            linked-IsLinked records rs events config id (id ∷ id' ∷ ids) bin_ns (earliest rs)
              (latest rs) (ground arith) (All-filter _ (is_relevant events) records h) refl
              (ground arith))
      ]
