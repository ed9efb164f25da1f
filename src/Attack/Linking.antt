-- ===== src/Attack/Linking.antt =====
-- `linking_attack` of src/correlation_attack.rs: each wire flow is matched with the real flow that correlates
-- best. A `BTreeMap` of series is the list of its entries.
pub mod Matches
use mix_tor.Base.{
  ℕ, zero, suc, ◌+◌, ◌-◌, ◌*◌, ◌/◌, ◌%◌, ◌^◌, ◌<◌, min, List, [], ◌∷◌, Option, none, some, Result,
  ok, err, ◌>>=◌, Bool, true, false, ◌&&◌, ◌||◌, ◌==◌, ltb, leb, if◌then◌else◌, map, length,
  replicate,
}
use mix_tor.Attack.{LogRecord}
use mix_tor.Attack.Floats.{Floats}
use mix_tor.Attack.Series.{
  EventNames, AttackConfig, Panic, out_of_range, is_wire, is_real, is_relevant, filter, earliest,
  latest, bin_of, add_at,
}
use mix_tor.Attack.Correlation.{peak_cross_correlation}

module _ (f : Floats) where
  abbrev pub Flows : Type 0
  Flows = List (ℕ × List f.F)

  -- One entry for each id, with bins of zero; the ids are distinct, as those of `distinct_conn_ids`.
  unfoldable pub empty_flows : ℕ → List ℕ → Flows
  empty_flows n_bins [] = []
  empty_flows n_bins (id ∷ ids) = (id, replicate n_bins (f.literal 0 0)) ∷ empty_flows n_bins ids

  -- `if let Some(v) = map.get_mut(&id) { v[i] += x }`
  unfoldable pub add_to : ℕ → ℕ → f.F → Flows → Result Panic Flows
  add_to id i x [] = ok []
  add_to id i x ((k, v) ∷ flows) = elim (k == id) [
    | true ↦ add_at f i x v >>= λ w. ok ((k, w) ∷ flows)
    | false ↦ add_to id i x flows >>= λ rest. ok ((k, v) ∷ rest)
  ]

  -- The loop's round for a record that is not before `t0`.
  add_record_to : EventNames → ℕ → LogRecord → Flows → Flows → Result Panic (Flows × Flows)
  unfolding add_to
  add_record_to events i r wires reals =
      let on_wire = add_to r.conn_id i (f.of_nat r.bytes) wires >>= λ w. ok (w, reals) in
      let on_real = add_to r.conn_id i (f.of_nat r.bytes) reals >>= λ v. ok (wires, v) in
      if is_wire events r then on_wire else if is_real events r then on_real else ok (wires, reals)

  unfoldable pub fill_flows :
      EventNames → ℕ → ℕ → ℕ → List LogRecord → Flows → Flows → Result Panic (Flows × Flows)
  unfolding add_record_to
  fill_flows events bin_ns t0 n_bins [] wires reals = ok (wires, reals)
  fill_flows events bin_ns t0 n_bins (r ∷ rs) wires reals =
      let added =
        add_record_to events (min (bin_of bin_ns t0 r.unix_nanos) (n_bins - 1)) r wires reals in
      (if leb t0 r.unix_nanos then added else ok (wires, reals)) >>= λ s.
      fill_flows events bin_ns t0 n_bins rs s.0 s.1

  next_best : ℕ × f.F → ℕ → f.F → ℕ × f.F
  next_best best id score = if f.below best.1 score then (id, score) else best

  -- The loop for one wire flow: the best id and score so far.
  guess_from : List f.F → ℕ → ℕ × f.F → Flows → Result Panic (ℕ × f.F)
  unfolding next_best
  guess_from wire max_lag best [] = ok best
  guess_from wire max_lag best ((id, real) ∷ rest) =
      peak_cross_correlation f wire real max_lag >>= λ peak.
      guess_from wire max_lag (next_best best id peak.1) rest

  -- The matches, with the first id as the guess at the start.
  unfoldable pub link_flows : ℕ → ℕ → Flows → Flows → Result Panic (List (ℕ × ℕ × Bool))
  unfolding guess_from next_best
  link_flows max_lag first [] reals = ok []
  link_flows max_lag first ((wire_id, wire) ∷ wires) reals = do
    (best, score) ← guess_from wire max_lag (first, f.neg_infinity) reals
    rest ← link_flows max_lag first wires reals
    ok ((wire_id, best, best == wire_id) ∷ rest)

  unfoldable pub correct : List (ℕ × ℕ × Bool) → ℕ
  correct [] = 0
  correct ((wire_id, best, is_correct) ∷ matches) =
      if is_correct then suc (correct matches) else correct matches

  pub record LinkingAttack : Type 0 where
    pub flows : ℕ
    pub linking_accuracy : f.F
    pub chance : f.F
    pub matches : List (ℕ × ℕ × Bool)
    pub beats_chance : Bool

  report : ℕ → List (ℕ × ℕ × Bool) → LinkingAttack
  unfolding correct
  report flows matches =
      let accuracy = f.div (f.of_nat (correct matches)) (f.of_nat flows) in
      let chance = f.div (f.literal 1 0) (f.of_nat flows) in
      record {
        flows = flows;
        linking_accuracy = accuracy;
        chance = chance;
        matches = matches;
        beats_chance =
            f.below (f.add chance (f.literal 1 9)) accuracy && f.below (f.literal 5 1) accuracy;
      }

  -- The attack on a span from `t0` to `t_end`.
  linked :
      List LogRecord
      → EventNames
      → AttackConfig f
      → ℕ
      → List ℕ
      → ℕ
      → Option ℕ
      → Option ℕ
      → Result Panic (Option LinkingAttack)
  unfolding fill_flows link_flows report empty_flows
  linked records events config first ids bin_ns none t_end = ok none
  linked records events config first ids bin_ns (some t0) none = ok none
  linked records events config first ids bin_ns (some t0) (some t_end) =
      let n_bins = (bin_of bin_ns t0 t_end + 1) % 2 ^ 64 in
      fill_flows events bin_ns t0 n_bins records (empty_flows n_bins ids) (empty_flows n_bins ids)
      >>= λ s. link_flows config.max_lag_bins first s.0 s.1 >>= λ matches.
          ok (some (report (length ids) matches))

  unfoldable pub linking_attack :
      List LogRecord → EventNames → AttackConfig f → List ℕ → Result Panic (Option LinkingAttack)
  unfolding linked
  linking_attack records events config [] = ok none
  linking_attack records events config (id ∷ []) = ok none
  linking_attack records events config (id ∷ id' ∷ ids) =
      let bin_ns = f.to_nat (f.mul config.bin_ms (f.literal 1_000_000 0)) in
      let rs = filter (is_relevant events) records in
      if bin_ns == 0
      then ok none
      else linked records events config id (id ∷ id' ∷ ids) bin_ns (earliest rs) (latest rs)
