-- ===== src/Attack/Tests.antt =====
-- A log that is written and read, and its series.
use mix_tor.Base.{
  Returns, ◌≤◌, ℕ, ◌+◌, ◌-◌, ◌*◌, ◌/◌, ◌^◌, List, [], ◌∷◌, none, some, ok, ltb, leb, ◌==◌, ◌≡◌,
  refl, arith,
}
use mix_tor.Decimal.{parse_uint}
use mix_tor.Hex.{trim}
use mix_tor.Lab.{LogRow}
use mix_tor.Attack.{LogRecord, parse_line, split}
use mix_tor.Attack.Floats.{Floats}
use mix_tor.Attack.Series.{
  distinct_conn_ids, server_events, filter, aligned_series, add_at, fill_bins, relevant, earliest,
  latest, same_text,
}
use mix_tor.Attack.Series.Flows.{IsIncreasing, contains, has_record, distinct_conn_ids_lem}
use mix_tor.Attack.Correlation.{peak_cross_correlation, unsigned_abs}
use mix_tor.Attack.Correlation.Peak.{peak_lag_bounds}
use mix_tor.Attack.Linking.{linking_attack}
use mix_tor.Attack.Linking.Matches.{IsLinked, linking_attack-IsLinked}
use mix_tor.Attack.Series.{AttackConfig, default_config}
use mix_tor.Attack.Series.Bins.{IsAligned, aligned_series-IsAligned}
use mix_tor.Attack.Series.Totals.{IsExact, IsSum, wire_bytes, real_bytes, total-aligned_series}

abbrev first_row : LogRow
first_row = record {
  unix_nanos = 17;
  event = 101 ∷ [];
  conn_id = 1;
  seq = 0;
  bytes = 512;
  kind = 114 ∷ [];
}

abbrev second_row : LogRow
second_row = record {
  unix_nanos = 19;
  event = 102 ∷ [];
  conn_id = 2;
  seq = 1;
  bytes = 48;
  kind = 100 ∷ [];
}

-- A line without all its fields is dropped.
cut_off : parse_line (49 ∷ 55 ∷ 44 ∷ 115 ∷ []) ≡ none
unfolding parse_line split parse_uint trim
cut_off = refl

-- Natural numbers in the place of floating-point ones.
abbrev naturals : Floats
naturals = record {
  F = ℕ;
  of_nat = λ n. n;
  to_nat = λ x. x;
  literal = λ n d. n / 10 ^ d;
  add = λ x y. x + y;
  sub = λ x y. x - y;
  mul = λ x y. x * y;
  div = λ x y. x / y;
  sqrt = λ x. x;
  abs = λ x. x;
  below = λ x y. ltb x y;
  at_most = λ x y. leb x y;
  same = λ x y. x == y;
  infinity = 2 ^ 64;
  neg_infinity = 0;
}

naturals-IsExact : IsExact naturals
naturals-IsExact = record { zero = refl; of_nat-add = λ a b h. refl }

abbrev wire_record : ℕ → ℕ → LogRecord
wire_record t b = record {
  unix_nanos = t;
  role = [];
  event = server_events.wire;
  conn_id = 1;
  seq = 0;
  bytes = b;
  kind = [];
}

abbrev real_record : ℕ → ℕ → LogRecord
real_record t b = record (wire_record t b) { event = server_events.real }

abbrev records : List LogRecord
records = wire_record 5 512 ∷ real_record 1_000_009 100 ∷ wire_record 3_000_006 512 ∷ []

-- Bins of one millisecond.
four_bins :
    aligned_series naturals records server_events 1 (some 1)
    ≡ ok (some (512 ∷ 0 ∷ 0 ∷ 512 ∷ [], 0 ∷ 100 ∷ 0 ∷ 0 ∷ []))
unfolding aligned_series fill_bins add_at filter earliest latest same_text
four_bins = refl

series_return : IsAligned naturals (aligned_series naturals records server_events 1 none)
series_return =
    aligned_series-IsAligned naturals records server_events 1 none
      (omega arith, (omega arith, (omega arith, tt)))

total-aligned_series_example :
    IsSum naturals
      (512 ∷ 0 ∷ 0 ∷ 512 ∷ [])
      (wire_bytes server_events (relevant records server_events (some 1)))
    × IsSum naturals
        (0 ∷ 100 ∷ 0 ∷ 0 ∷ [])
        (real_bytes server_events (relevant records server_events (some 1)))
total-aligned_series_example =
    total-aligned_series naturals naturals-IsExact records server_events 1 (some 1)
      (512 ∷ 0 ∷ 0 ∷ 512 ∷ []) (0 ∷ 100 ∷ 0 ∷ 0 ∷ [])
      (unfold relevant filter same_text in omega arith)
      (unfold relevant filter same_text in omega arith) four_bins

distinct_conn_ids_lem_run :
    IsIncreasing (distinct_conn_ids records server_events)
    × ((id : ℕ)
        → contains id (distinct_conn_ids records server_events)
          ≡ has_record server_events id records)
distinct_conn_ids_lem_run = distinct_conn_ids_lem records server_events

peak_lag_bounds_run :
    Returns
      (λ best. (unsigned_abs best.0 ≤ 20) × (unsigned_abs best.0 + 4 ≤ 8))
      (peak_cross_correlation naturals
        (1 ∷ 2 ∷ 9 ∷ 2 ∷ 1 ∷ 1 ∷ 1 ∷ 1 ∷ [])
        (1 ∷ 1 ∷ 1 ∷ 2 ∷ 9 ∷ 2 ∷ 1 ∷ 1 ∷ [])
        20)
peak_lag_bounds_run =
    peak_lag_bounds naturals (1 ∷ 2 ∷ 9 ∷ 2 ∷ 1 ∷ 1 ∷ 1 ∷ 1 ∷ [])
      (1 ∷ 1 ∷ 1 ∷ 2 ∷ 9 ∷ 2 ∷ 1 ∷ 1 ∷ []) 20

abbrev config : AttackConfig naturals
config = record (default_config naturals) { bin_ms = 1 }

linking_attack-IsLinked_example :
    IsLinked naturals
      (1 ∷ 2 ∷ [])
      (linking_attack naturals records server_events config (1 ∷ 2 ∷ []))
linking_attack-IsLinked_example =
    linking_attack-IsLinked naturals records server_events config (1 ∷ 2 ∷ [])
      (omega arith, (omega arith, (omega arith, tt)))
