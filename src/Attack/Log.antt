-- ===== src/Attack/Log.antt =====
-- A log that `LabLogger` of src/lab.rs writes, as `parse_reader` of src/correlation_attack.rs reads it.
use mix_tor.Base.{some, ℕ, ◌<◌, ◌≤◌, List, [], ◌∷◌, some, All, u64_max}
use mix_tor.Hex.RoundTrip.{IsPlain}
use mix_tor.Lab.{log, LabLogger, LogRow}
use mix_tor.Attack.{LogRecord, u128_max}

abbrev IsAbove : ℕ → List ℕ → Type 0
IsAbove at cs = All (λ c. at < c) cs

-- A row whose names have no space and no comma, and whose numbers fit their types.
pub record IsRow (r : LogRow) : Type 0 where
  pub unix_nanos : r.unix_nanos ≤ u128_max
  pub event : All IsPlain r.event
  pub conn_id : r.conn_id ≤ u64_max
  pub seq : r.seq ≤ u64_max
  pub bytes : r.bytes ≤ u64_max
  pub kind : All IsPlain r.kind

abbrev pub record_of : List ℕ → LogRow → LogRecord
record_of role r = record {
  unix_nanos = r.unix_nanos;
  role = role;
  event = r.event;
  conn_id = r.conn_id;
  seq = r.seq;
  bytes = r.bytes;
  kind = r.kind;
}

-- `log` for each row, in order.
abbrev pub log_row : LabLogger → LogRow → LabLogger
log_row l r = log l r.unix_nanos r.event r.conn_id r.seq r.bytes r.kind

unfoldable pub log_all : LabLogger → List LogRow → LabLogger
log_all l [] = l
log_all l (r ∷ rs) = log_all (log_row l r) rs
