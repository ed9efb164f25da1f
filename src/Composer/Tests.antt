-- ===== src/Composer/Tests.antt =====
-- A composer's pool, and a draw that fails.
use mix_tor.Base.{ℕ, ◌≡◌, ◌≤◌, refl, List, [], ◌∷◌, ok, err, length, false}
use mix_tor.Samples.{still, cover_config, fresh_composer}
use mix_tor.Composer.Config.{heavy_cover, panicked, validate_composition, refuse_if, zero_cell_size}
use mix_tor.Composer.Parts.{gen_range}
use mix_tor.Composer.Pool.{recent, ingest_all, last_n, ingest_length_window}
use mix_tor.Composer.{SeedBComposer, ingest_length, dummy_count_absolute, count_range}

abbrev lengths : List ℕ
lengths = 1 ∷ 2 ∷ 3 ∷ 4 ∷ 5 ∷ 6 ∷ 7 ∷ 8 ∷ 9 ∷ 10 ∷ 11 ∷ 12 ∷ 13 ∷ 14 ∷ 15 ∷ 16 ∷ 17 ∷ 18 ∷ []

ingest_length_window_example :
    (recent still (ingest_all still fresh_composer lengths) ≡ last_n 16 lengths)
    × (length (ingest_all still fresh_composer lengths).length_pool ≤ 16)
ingest_length_window_example = ingest_length_window still fresh_composer lengths refl refl

-- The two oldest lengths are overwritten where they stood.
ring :
    (ingest_all still fresh_composer lengths).length_pool
    ≡ 17 ∷ 18 ∷ 3 ∷ 4 ∷ 5 ∷ 6 ∷ 7 ∷ 8 ∷ 9 ∷ 10 ∷ 11 ∷ 12 ∷ 13 ∷ 14 ∷ 15 ∷ 16 ∷ []
unfolding ingest_length
ring = refl

-- A regime of heavy cover under a maximum of five dummies, as `next_regime` makes it.
abbrev capped : SeedBComposer still
capped = record fresh_composer {
  config = record cover_config { max_dummy_packets_per_burst = 5 };
  regime = record {
    kind = heavy_cover;
    switch_after = record { bursts = 180; real_bytes = 4_000_000; real_packets = 4096 };
    dummy_lo = 10;
    dummy_hi = 5;
    spiky = false;
  };
}

capped_accepts : validate_composition capped.config ≡ ok capped.config
unfolding validate_composition refuse_if zero_cell_size
capped_accepts = refl

capped_panics : dummy_count_absolute still capped ≡ err panicked
unfolding dummy_count_absolute count_range gen_range
capped_panics = refl
