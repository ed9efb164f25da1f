-- ===== src/Attack/Series.antt =====
-- The flows of a log and their time series, src/correlation_attack.rs: `EventNames`, `AttackConfig`,
-- `distinct_conn_ids` and `aligned_series`. An index out of range is a panic.
pub mod Bins
pub mod Flows
pub mod Totals
use mix_tor.Base.{
  ℕ, zero, suc, ◌+◌, ◌-◌, ◌*◌, ◌/◌, ◌%◌, ◌^◌, List, [], ◌∷◌, Option, none, some, Result, ok, err,
  ◌>>=◌, Bool, true, false, ◌&&◌, ◌||◌, ◌==◌, leb, if◌then◌else◌, map, replicate, min, max,
}
use mix_tor.Attack.{LogRecord}
use mix_tor.Attack.Floats.{Floats}

pub record EventNames : Type 0 where
  pub wire : List ℕ
  pub real : List ℕ

-- server_wire_input, server_real_output
abbrev pub server_events : EventNames
server_events = record {
  wire =
      115 ∷ 101 ∷ 114 ∷ 118 ∷ 101 ∷ 114 ∷ 95 ∷ 119 ∷ 105 ∷ 114 ∷ 101 ∷ 95 ∷ 105 ∷ 110 ∷ 112 ∷ 117
      ∷ 116 ∷ [];
  real =
      115 ∷ 101 ∷ 114 ∷ 118 ∷ 101 ∷ 114 ∷ 95 ∷ 114 ∷ 101 ∷ 97 ∷ 108 ∷ 95 ∷ 111 ∷ 117 ∷ 116 ∷ 112
      ∷ 117 ∷ 116 ∷ [];
}

-- client_wire_output, client_input
abbrev pub client_events : EventNames
client_events = record {
  wire =
      99 ∷ 108 ∷ 105 ∷ 101 ∷ 110 ∷ 116 ∷ 95 ∷ 119 ∷ 105 ∷ 114 ∷ 101 ∷ 95 ∷ 111 ∷ 117 ∷ 116 ∷ 112
      ∷ 117 ∷ 116 ∷ [];
  real = 99 ∷ 108 ∷ 105 ∷ 101 ∷ 110 ∷ 116 ∷ 95 ∷ 105 ∷ 110 ∷ 112 ∷ 117 ∷ 116 ∷ [];
}

-- server_wire_return, server_bridge_reply
abbrev pub server_return_events : EventNames
server_return_events = record {
  wire =
      115 ∷ 101 ∷ 114 ∷ 118 ∷ 101 ∷ 114 ∷ 95 ∷ 119 ∷ 105 ∷ 114 ∷ 101 ∷ 95 ∷ 114 ∷ 101 ∷ 116 ∷ 117
      ∷ 114 ∷ 110 ∷ [];
  real =
      115 ∷ 101 ∷ 114 ∷ 118 ∷ 101 ∷ 114 ∷ 95 ∷ 98 ∷ 114 ∷ 105 ∷ 100 ∷ 103 ∷ 101 ∷ 95 ∷ 114 ∷ 101
      ∷ 112 ∷ 108 ∷ 121 ∷ [];
}

-- client_wire_return, client_inbound_real
abbrev pub client_return_events : EventNames
client_return_events = record {
  wire =
      99 ∷ 108 ∷ 105 ∷ 101 ∷ 110 ∷ 116 ∷ 95 ∷ 119 ∷ 105 ∷ 114 ∷ 101 ∷ 95 ∷ 114 ∷ 101 ∷ 116 ∷ 117
      ∷ 114 ∷ 110 ∷ [];
  real =
      99 ∷ 108 ∷ 105 ∷ 101 ∷ 110 ∷ 116 ∷ 95 ∷ 105 ∷ 110 ∷ 98 ∷ 111 ∷ 117 ∷ 110 ∷ 100 ∷ 95 ∷ 114
      ∷ 101 ∷ 97 ∷ 108 ∷ [];
}

-- `==` on strings
unfoldable pub same_text : List ℕ → List ℕ → Bool
same_text [] [] = true
same_text [] (d ∷ ds) = false
same_text (c ∷ cs) [] = false
same_text (c ∷ cs) (d ∷ ds) = c == d && same_text cs ds

abbrev pub is_wire : EventNames → LogRecord → Bool
is_wire events r = same_text r.event events.wire

abbrev pub is_real : EventNames → LogRecord → Bool
is_real events r = same_text r.event events.real

abbrev pub is_relevant : EventNames → LogRecord → Bool
is_relevant events r = is_wire events r || is_real events r

unfoldable pub filter : (LogRecord → Bool) → List LogRecord → List LogRecord
filter keeps [] = []
filter keeps (r ∷ rs) = let rest = filter keeps rs in if keeps r then r ∷ rest else rest

-- `sort_unstable`
insert_id : ℕ → List ℕ → List ℕ
insert_id n [] = n ∷ []
insert_id n (m ∷ ms) = let rest = insert_id n ms in if leb n m then n ∷ m ∷ ms else m ∷ rest

sort_ids : List ℕ → List ℕ
unfolding insert_id
sort_ids [] = []
sort_ids (n ∷ ns) = insert_id n (sort_ids ns)

-- `dedup`: a number like the one in front of it goes.
dedup_from : ℕ → List ℕ → List ℕ
dedup_from last [] = []
dedup_from last (n ∷ ns) = elim (n == last) [
  | true ↦ dedup_from last ns
  | false ↦ n ∷ dedup_from n ns
]

dedup : List ℕ → List ℕ
unfolding dedup_from
dedup [] = []
dedup (n ∷ ns) = n ∷ dedup_from n ns

unfoldable pub distinct_conn_ids : List LogRecord → EventNames → List ℕ
unfolding filter sort_ids dedup
distinct_conn_ids records events =
    dedup (sort_ids (map (λ r. r.conn_id) (filter (is_relevant events) records)))

-- `min` and `max` of an iterator.
unfoldable pub earliest : List LogRecord → Option ℕ
earliest [] = none
earliest (r ∷ rs) = elim (earliest rs) [
  | none ↦ some r.unix_nanos
  | some t ↦ some (min r.unix_nanos t)
]

unfoldable pub latest : List LogRecord → Option ℕ
latest [] = none
latest (r ∷ rs) = elim (latest rs) [ none ↦ some r.unix_nanos | some t ↦ some (max r.unix_nanos t) ]

pub data Panic : Type 0 where
  out_of_range : Panic

-- `records.filter(..).filter(..)`; with an id, the records of this connection.
abbrev of_conn : Option ℕ → LogRecord → Bool
of_conn none r = true
of_conn (some id) r = r.conn_id == id

abbrev pub relevant : List LogRecord → EventNames → Option ℕ → List LogRecord
relevant records events conn = filter (of_conn conn) (filter (is_relevant events) records)

-- The bin of an instant.
abbrev pub bin_of : ℕ → ℕ → ℕ → ℕ
bin_of bin_ns t0 t = ((t - t0) / bin_ns) % 2 ^ 64

module _ (f : Floats) where
  pub record AttackConfig : Type 0 where
    pub bin_ms : f.F
    pub max_lag_bins : ℕ
    pub volume_corr_threshold : f.F
    pub size_ks_threshold : f.F
    pub min_bins : ℕ

  -- `AttackConfig::default`
  abbrev pub default_config : AttackConfig
  default_config = record {
    bin_ms = f.literal 100 0;
    max_lag_bins = 20;
    volume_corr_threshold = f.literal 5 1;
    size_ks_threshold = f.literal 15 2;
    min_bins = 3;
  }

  -- `series[i] += x`
  unfoldable pub add_at : ℕ → f.F → List f.F → Result Panic (List f.F)
  add_at i x [] = err out_of_range
  add_at zero x (y ∷ ys) = ok (f.add y x ∷ ys)
  add_at (suc i) x (y ∷ ys) = add_at i x ys >>= λ zs. ok (y ∷ zs)

  add_record : EventNames → ℕ → LogRecord → List f.F → List f.F → Result Panic (List f.F × List f.F)
  add_record events i r wire real =
      let on_wire = add_at i (f.of_nat r.bytes) wire >>= λ w. ok (w, real) in
      let on_real = add_at i (f.of_nat r.bytes) real >>= λ v. ok (wire, v) in
      if is_wire events r then on_wire else on_real

  -- The loop over the records.
  unfoldable pub fill_bins :
      EventNames → ℕ → ℕ → List LogRecord → List f.F → List f.F → Result Panic (List f.F × List f.F)
  unfolding add_record
  fill_bins events bin_ns t0 [] wire real = ok (wire, real)
  fill_bins events bin_ns t0 (r ∷ rs) wire real =
      add_record events (bin_of bin_ns t0 r.unix_nanos) r wire real >>= λ s.
      fill_bins events bin_ns t0 rs s.0 s.1

  some_series : Result Panic (List f.F × List f.F) → Result Panic (Option (List f.F × List f.F))
  some_series series = series >>= λ s. ok (some s)

  -- The series over the span from `t0` to `t_end`.
  binned :
      EventNames
      → ℕ
      → List LogRecord
      → Option ℕ
      → Option ℕ
      → Result Panic (Option (List f.F × List f.F))
  unfolding fill_bins some_series
  binned events bin_ns rs none t_end = ok none
  binned events bin_ns rs (some t0) none = ok none
  binned events bin_ns rs (some t0) (some t_end) =
      let n_bins = (bin_of bin_ns t0 t_end + 1) % 2 ^ 64 in
      some_series (
        fill_bins events bin_ns t0 rs (replicate n_bins (f.literal 0 0))
          (replicate n_bins (f.literal 0 0)))

  unfoldable pub aligned_series :
      List LogRecord → EventNames → f.F → Option ℕ → Result Panic (Option (List f.F × List f.F))
  unfolding binned
  aligned_series records events bin_ms conn =
      let bin_ns = f.to_nat (f.mul bin_ms (f.literal 1_000_000 0)) in
      let rs = relevant records events conn in
      if bin_ns == 0 then ok none else binned events bin_ns rs (earliest rs) (latest rs)
