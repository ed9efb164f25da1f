-- ===== src/Cell.antt =====
-- The uniform cells of src/transport.rs: constants, `encode_real_cell`, `encode_close_cell`,
-- `decode_real_cell`, and the reader loops that cut a byte stream into cells.
-- A byte slice is a list of numbers; the padding generator is an `Rng`, its state threaded.
pub mod RoundTrip
mod Tests
use mix_tor.Base.{
  ℕ, zero, suc, ◌+◌, ◌-◌, ◌%◌, ◌^◌, ◌*◌, min, List, [], ◌∷◌, ◌++◌, Option, none, some, length,
  get_or, take, drop, be16, from_be16, ltb, leb, if◌then◌else◌, max,
}
use mix_tor.Base.Random.{Rng}

abbrev pub cell_bytes : ℕ
cell_bytes = 514

abbrev pub cell_header : ℕ
cell_header = 4

abbrev pub cell_payload : ℕ
cell_payload = cell_bytes - cell_header

abbrev pub default_max_frame_len : ℕ
default_max_frame_len = 64 * 1024

abbrev pub stream_id_single : ℕ
stream_id_single = 0

-- `&data[..n]` behind the two header fields, then random bytes up to the cell's end.
module _ (g : Rng) where
  unfoldable pub encode_real_cell : ℕ → List ℕ → Rng.State g → List ℕ × Rng.State g
  encode_real_cell stream_id payload s =
      let n = min (length payload) cell_payload in
      let (pad, s') = Rng.fill g (cell_bytes - (cell_header + n)) s in
      (be16 stream_id ++ (be16 (n % 2 ^ 16) ++ (take n payload ++ pad)), s')

  unfoldable pub encode_close_cell : ℕ → Rng.State g → List ℕ × Rng.State g
  encode_close_cell stream_id s =
      let (pad, s') = Rng.fill g (cell_bytes - cell_header) s in
      (be16 stream_id ++ (be16 0 ++ pad), s')

-- `&cell[CELL_HEADER..end]` with `end` clamped to the cell.
unfoldable pub decode_real_cell : List ℕ → ℕ × List ℕ
decode_real_cell cell =
    let n = from_be16 (get_or cell 2 0) (get_or cell 3 0) in
    let end = min (cell_header + n) (length cell) in
    if ltb (length cell) cell_header then (0, []) else (
      from_be16 (get_or cell 0 0) (get_or cell 1 0),
      take (end - cell_header) (drop cell_header cell),
    )
