-- ===== src/Samples.antt =====
-- Concrete instances of the model's parameters, for the tests: a generator of zeros that always draws
-- its lower bound, a composer and a departure clock on it, and a cipher that leaves the plaintext as it is and adds an empty tag.
use mix_tor.Base.{
  ◌+◌, ◌*◌, true, false, none, [], zero, suc, take-append, length-append, ap, ◌≡◌, ◌-◌,
  length-replicate, suc, length, IsByte, replicate, take, All, List, ℕ, ◌++◌, refl, some, arith,
}
use mix_tor.Base.Random.{Rng}
use mix_tor.Frame.{Aead}
use mix_tor.Handshake.{Primitives}
use mix_tor.Buckets.{padder_new}
use mix_tor.Composer.Config.{CompositionConfig, sparse}
use mix_tor.Composer.Parts.{Meters}
use mix_tor.Composer.{SeedBComposer}
use mix_tor.Correlator.{Clock, TimingCorrelator}

pub zeros-IsByte : (n : ℕ) → All IsByte (replicate n 0)
zeros-IsByte zero = tt
zeros-IsByte (suc n) = (omega arith, zeros-IsByte n)

abbrev pub zeros : Rng
zeros = record {
  State = ℕ;
  fill = λ n s. (replicate n 0, suc s);
  range = λ lo hi s. (lo, s);
  length-fill = λ n s. length-replicate n 0;
  fill-IsByte = λ n s. zeros-IsByte n;
  range_bounds = λ lo hi s h. (omega arith, h);
}

pub take_plaintext :
    (pt : List ℕ) → take (length (pt ++ replicate 16 0) - 16) (pt ++ replicate 16 0) ≡ pt
take_plaintext pt =
    let n : length (pt ++ replicate 16 0) - 16 ≡ length pt =
      omega (arith, length-append pt (replicate 16 0)) in
    rw n (take-append (length pt) pt (replicate 16 0) refl)

abbrev pub plain : Aead
plain = record {
  encrypt = λ key nonce pt. pt ++ replicate 16 0;
  decrypt = λ key nonce ct. some (take (length ct - 16) ct);
  decrypt-encrypt = λ key nonce pt. ap some (take_plaintext pt);
  length-encrypt = λ key nonce pt. length-append pt (replicate 16 0);
}

-- A composer's parts that draw the lower bound, estimate nothing and accept every configuration.
abbrev pub still : Meters
still = record {
  rng = zeros;
  seeded = λ seed label. 0;
  coin = λ s. (true, s);
  F = ℕ;
  of_ms = λ ms. ms;
  smooth = λ gap estimate. estimate;
  Spectral = ℕ;
  spectral_new = λ target s. some s;
  delay = λ target ceiling s. (ceiling, s);
  DpConfig = ℕ;
  Dp = ℕ;
  dp_new = λ config s. some config;
  Epsilon = ℕ;
  decide_window = λ real_bytes dp. ((1, real_bytes * 3), dp);
  Accountant = ℕ;
  accountant_new = 0;
  record_query = λ epsilon spent. spent + epsilon;
  Tester = ℕ;
  tester_new = 0;
  record_frame = λ frame at seen. suc seen;
  needed = λ bounder emitted now. 0;
}

abbrev pub cover_config : CompositionConfig ℕ ℕ
cover_config = record {
  max_dummy_packets_per_burst = 32;
  min_switch_bursts = 180;
  max_switch_bursts = 800;
  min_switch_real_bytes = 4_000_000;
  max_switch_real_bytes = 32_000_000;
  min_switch_real_packets = 4096;
  max_switch_real_packets = 32768;
  max_idle_gap_ms = 480;
  keepalive_min_bytes = 4;
  keepalive_max_bytes = 8;
  dp_shaper = some 7;
  session_class = none;
  padding_buckets = 4;
  cell_bytes = some 4;
  clock_ema_alpha = none;
  clock_min_iat_ms = none;
  clock_max_iat_ms = none;
  clock_initial_iat_ms = none;
  clock_adapt_rate = some false;
  clock_min_dummy_fraction = none;
}

-- A composer as it starts on that configuration, at the time 0.
abbrev pub fresh_composer : SeedBComposer still
fresh_composer = record {
  config = cover_config;
  rng = 0;
  regime = record {
    kind = sparse;
    switch_after = record { bursts = 180; real_bytes = 4_000_000; real_packets = 4096 };
    dummy_lo = 0;
    dummy_hi = 1;
    spiky = false;
  };
  bursts_in_regime = 0;
  real_bytes_in_regime = 0;
  real_packets_in_regime = 0;
  last_burst_at = 0;
  spectral_iat = 0;
  next_keepalive_due = 480_000_000;
  length_pool = [];
  length_pool_pos = 0;
  observed_real_iat_ms = 480;
  last_real_burst_at = none;
  optimal_padder = padder_new 4 32;
  dp_shaper = some 7;
  session_bounder = none;
  dummy_bytes_emitted = 0;
  accountant = 0;
  self_tester = 0;
  frame_clock_ms = 0;
}

-- A departure clock of steps of one millisecond, and a correlator on it.
abbrev pub metronome : Clock
metronome = record {
  Mean = ℕ;
  State = ℕ;
  sample_step = λ mean s. (mean, suc s);
  force_dummy = λ s. (false, suc s);
  adapt = λ gap mean. mean;
  fill = λ n s. (replicate n 0, suc s);
  length-fill = λ n s. length-replicate n 0;
}

abbrev pub idle : TimingCorrelator metronome
idle = record {
  config = record {
    cell_bytes = 4;
    max_queue_depth = 8;
    adapt_rate = false;
    reserves_dummies = true;
  };
  rng = 0;
  content_rng = 0;
  real_queue = [];
  next_departure = 10;
  mean_iat_ms = 1_000_000;
  last_real_arrival = none;
  real_emitted = 0;
  dummy_emitted = 0;
}

-- Primitives that return constants.
abbrev pub constants : Primitives
constants = record {
  Point = List ℕ;
  keyed_hash = λ key d. replicate 32 1;
  derive_key = λ ctx d. replicate 32 2;
  decode_representative = λ r. some r;
  point_of_public = λ b. b;
  dh = λ pt scalar. replicate 32 7;
  hours = ([], [], []);
  identity_context = [];
  key_extract_context = [];
  c2s_context = [];
  s2c_context = [];
  auth_label = [];
  protoid = [];
}
