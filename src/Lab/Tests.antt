-- ===== src/Lab/Tests.antt =====
-- Runs of the logger.
use mix_tor.Base.{[], ◌∷◌, ◌≡◌, refl}
use mix_tor.Lab.{LogRow, create, take_conn_id, row_text, with_commas}
use mix_tor.Decimal.{show}

-- The first connection has the id 1, the next one 2.
first_ids : ((take_conn_id create).0 ≡ 1) × ((take_conn_id (take_conn_id create).1).0 ≡ 2)
unfolding take_conn_id create
first_ids = (refl, refl)

abbrev row : LogRow
row = record {
  unix_nanos = 17;
  event = 101 ∷ [];
  conn_id = 1;
  seq = 0;
  bytes = 512;
  kind = 114 ∷ [];
}

-- "17,s,e,1,0,512,r"
one_row :
    row_text (115 ∷ []) row
    ≡ 49 ∷ 55 ∷ 44 ∷ 115 ∷ 44 ∷ 101 ∷ 44 ∷ 49 ∷ 44 ∷ 48 ∷ 44 ∷ 53 ∷ 49 ∷ 50 ∷ 44 ∷ 114 ∷ []
unfolding row_text with_commas show
one_row = refl
