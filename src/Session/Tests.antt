-- ===== src/Session/Tests.antt =====
-- Runs of the session bounder.
use mix_tor.Base.{sum, ◌-◌, arith, ◌↔◌, ◌≤◌, ◌≡◌, ◌+◌, [], ◌∷◌, true}
use mix_tor.Samples.{zeros}
use mix_tor.Session.{
  short, FuzzedClassThresholds, classify, sample, target_volume_bytes, target_duration, seconds,
  bounder_new, final_padding_bytes, is_complete,
}
use mix_tor.Session.Classes.{rank, IsOrdered, sample-IsOrdered, classify_mono}
use mix_tor.Session.Padding.{record_all, final_padding_exact, is_complete_iff}

drawn_thresholds :
    let t = (sample zeros 0).0 in
    IsOrdered t
    × ((45_875 ≤ t.short_max) × (t.short_max ≤ 85_196))
    × ((734_003 ≤ t.medium_max) × (t.medium_max ≤ 1_363_148))
    × ((11_744_051 ≤ t.long_max) × (t.long_max ≤ 21_810_380))
drawn_thresholds = sample-IsOrdered zeros 0

abbrev thresholds : FuzzedClassThresholds
thresholds = record { short_max = 50_000; medium_max = 1_000_000; long_max = 20_000_000 }

ordered_classes : rank (classify thresholds 50_000) ≤ rank (classify thresholds 50_001)
ordered_classes =
    classify_mono thresholds 50_000 50_001
      (record { short_medium = omega arith; medium_long = omega arith }) (omega arith)

final_padding_exact_example :
    let b = record_all (bounder_new short 0) (1_000 ∷ 2_000 ∷ []) in
    (sum (1_000 ∷ 2_000 ∷ []) + 500 ≤ target_volume_bytes short
      → sum (1_000 ∷ 2_000 ∷ []) + 500 + final_padding_bytes b 500 ≡ target_volume_bytes short)
    × (target_volume_bytes short ≤ sum (1_000 ∷ 2_000 ∷ []) + 500 → final_padding_bytes b 500 ≡ 0)
final_padding_exact_example = final_padding_exact short 0 (1_000 ∷ 2_000 ∷ []) 500

complete_session :
    (is_complete (record_all (bounder_new short 10) (70_000 ∷ [])) (seconds 31) ≡ true)
    ↔ ((target_volume_bytes short ≤ sum (70_000 ∷ [])) × (target_duration short ≤ seconds 31 - 10))
complete_session = is_complete_iff short 10 (seconds 31) (70_000 ∷ [])
