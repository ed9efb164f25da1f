-- ===== src/Composer/Bursts/Tests.antt =====
-- A burst of two packets through a composer.
use mix_tor.Base.{◌≡◌, arith, [], ◌∷◌, Returns}
use mix_tor.Clump.{Burst, manual}
use mix_tor.Samples.{still, fresh_composer}
use mix_tor.Composer.Switch.{IsSound}
use mix_tor.Composer.Bursts.{compose}
use mix_tor.Composer.Bursts.Budget.{IsComposed, compose-IsComposed}

abbrev burst : Burst
burst = record {
  packets = record { bytes = 1 ∷ 2 ∷ [] } ∷ record { bytes = 3 ∷ 4 ∷ 5 ∷ 6 ∷ 7 ∷ [] } ∷ [];
  threshold = record { max_packets = 2; timeout = 0 };
  reason = manual;
}

sound : IsSound still fresh_composer
sound = record {
  usable = record {
    enough = omega arith;
    keepalive = omega arith;
    bursts = (omega arith, omega arith);
    real_bytes = (omega arith, omega arith);
    real_packets = (omega arith, omega arith);
    cell = λ n e. let four : 4 ≡ n = cc e in omega arith;
  };
  range = omega arith;
  bursts = omega arith;
  real_bytes = omega arith;
  real_packets = omega arith;
}

compose-IsComposed_example :
    Returns
      (λ out. IsComposed still fresh_composer burst.packets out.0 × IsSound still out.1)
      (compose still fresh_composer burst 1_000)
compose-IsComposed_example = compose-IsComposed still fresh_composer burst 1_000 sound
