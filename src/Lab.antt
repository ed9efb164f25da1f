-- ===== src/Lab.antt =====
-- src/lab.rs: `LogRow`, `LabLogger` and its writer thread. A text is the list of its bytes; the channel to
-- the writer is the list of the rows in it, and the writer's file is what it has written to it.
mod Tests
use mix_tor.Base.{
  ℕ, zero, suc, ◌+◌, List, [], ◌∷◌, ◌++◌, Option, none, some, Bool, true, false, if◌then◌else◌,
  u64_max, ◌%◌, ◌^◌,
}
use mix_tor.Decimal.{show}

pub record LogRow : Type 0 where
  pub unix_nanos : ℕ
  pub event : List ℕ
  pub conn_id : ℕ
  pub seq : ℕ
  pub bytes : ℕ
  pub kind : List ℕ

-- `sent` are the rows in the channel to the writer.
pub record LabLogger : Type 0 where
  pub sent : List LogRow
  pub next_conn_id : ℕ
  pub file : List ℕ

abbrev pub comma : ℕ
comma = 44

abbrev pub newline : ℕ
newline = 10

-- "unix_nanos"
abbrev pub unix_nanos_text : List ℕ
unix_nanos_text = 117 ∷ 110 ∷ 105 ∷ 120 ∷ 95 ∷ 110 ∷ 97 ∷ 110 ∷ 111 ∷ 115 ∷ []

-- ",role,event,conn_id,seq,bytes,kind"
abbrev pub column_text : List ℕ
column_text =
    44 ∷ 114 ∷ 111 ∷ 108 ∷ 101 ∷ 44 ∷ 101 ∷ 118 ∷ 101 ∷ 110 ∷ 116 ∷ 44 ∷ 99 ∷ 111 ∷ 110 ∷ 110 ∷ 95
    ∷ 105 ∷ 100 ∷ 44 ∷ 115 ∷ 101 ∷ 113 ∷ 44 ∷ 98 ∷ 121 ∷ 116 ∷ 101 ∷ 115 ∷ 44 ∷ 107 ∷ 105 ∷ 110
    ∷ 100 ∷ []

abbrev pub header : List ℕ
header = unix_nanos_text ++ column_text

unfoldable pub with_commas : List (List ℕ) → List ℕ
with_commas [] = []
with_commas (part ∷ []) = part
with_commas (part ∷ part' ∷ parts) = part ++ (44 ∷ with_commas (part' ∷ parts))

-- One row, `format!("{},{role},{},{},{},{},{}")`
unfoldable pub row_text : List ℕ → LogRow → List ℕ
unfolding with_commas
row_text role r =
    with_commas (
      show r.unix_nanos ∷ role ∷ r.event ∷ show r.conn_id ∷ show r.seq ∷ show r.bytes ∷ r.kind ∷ [])

-- `LabLogger::create`
unfoldable pub create : LabLogger
create = record { sent = []; next_conn_id = 1; file = header ++ (newline ∷ []) }

-- `next_conn_id`: `fetch_add` on 64 bits.
unfoldable pub take_conn_id : LabLogger → ℕ × LabLogger
take_conn_id l = (l.next_conn_id, record l { next_conn_id = (l.next_conn_id + 1) % 2 ^ 64 })

-- `log`, with the instant that the clock gives.
unfoldable pub log : LabLogger → ℕ → List ℕ → ℕ → ℕ → ℕ → List ℕ → LabLogger
log l now event conn_id seq bytes kind = record l {
  sent =
      l.sent
      ++ (record {
        unix_nanos = now;
        event = event;
        conn_id = conn_id;
        seq = seq;
        bytes = bytes;
        kind = kind;
      }
          ∷ []);
}

-- The writer's rounds on the rows, where no write fails.
unfoldable pub writes : List ℕ → List LogRow → List ℕ
writes role [] = []
writes role (r ∷ rs) = row_text role r ++ (newline ∷ writes role rs)

-- `drop`: the writer reads the channel to its end; a write that fails is not modelled.
unfoldable pub drop_logger : List ℕ → LabLogger → List ℕ
unfolding writes
drop_logger role l = l.file ++ writes role l.sent
