-- ===== src/Reader/Tests.antt =====
-- Runs of the reader loops.
use mix_tor.Base.{length, arith, ◌≢◌, All, ◌++◌, ◌≡◌, replicate, List, ℕ, [], ◌∷◌}
use mix_tor.Samples.{zeros}
use mix_tor.Cell.{cell_bytes, decode_real_cell}
use mix_tor.Reader.{Source, eof, got, done, stream_reader, read_loop, receiver_gone}
use mix_tor.Reader.Delivery.{
  bytes_of, payloads, IsDataCell, stream_reader_delivers, read_loop-payloads,
}

-- Two reads, the first of 600 bytes, which takes two cells.
abbrev two_reads : Source
two_reads = got (replicate 600 7) (got (1 ∷ 2 ∷ 3 ∷ []) eof)

stream_reader_delivers_example :
    (cells : List (List ℕ)) × (close : List ℕ) × (stream_reader zeros 9 two_reads 0 700
      ≡ (cells ++ (close ∷ []), done))
    × All (IsDataCell 9) cells
    × (payloads cells ≡ bytes_of two_reads)
    × (decode_real_cell close ≡ (9, []))
    × (length close ≡ cell_bytes)
stream_reader_delivers_example =
    stream_reader_delivers zeros 9 (omega arith) two_reads 0 700 tt (omega arith)

-- A receiver that is dropped after the first cell.
loop_payloads :
    let (sent, ending, _, _) = read_loop zeros 9 two_reads 0 1 in
    (rest : List ℕ) × (bytes_of two_reads ≡ payloads sent ++ rest)
    × (ending ≢ receiver_gone → rest ≡ [])
loop_payloads = read_loop-payloads zeros 9 (omega arith) two_reads 0 1
