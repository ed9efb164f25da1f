-- ===== src/Composer.antt =====
-- src/composition.rs: the budget layer `SeedBComposer`: its state, the budget of dummies for a burst,
-- the pool of observed lengths, payloads and padding, and the change of regimes.
pub mod Bursts
pub mod Config
pub mod Parts
pub mod Sound
pub mod Start
pub mod Switch
mod Pool
mod Tests
pub mod Regimes
use mix_tor.Base.Random.{Rng}
use mix_tor.Base.{
  sum, true, false, ℕ, zero, suc, ◌+◌, ◌-◌, ◌*◌, ◌/◌, ◌%◌, List, [], ◌∷◌, ◌++◌, Option, none, some,
  Result, ok, err, ◌>>=◌, Bool, true, false, ◌||◌, if◌then◌else◌, leb, ltb, ◌==◌, min, max, length,
  take, get_or, saturating_add, drop,
}
use mix_tor.Packet.{Packet, packet_new, ClumpingError}
use mix_tor.Buckets.{OptimalPadder, pad_length}
use mix_tor.Session.{SessionBounder, record_real_bytes}
use mix_tor.Composer.Config.{CompositionConfig, RatioRegime, Stop, panicked}
use mix_tor.Composer.Parts.{Meters, gen_range}
use mix_tor.Composer.Regimes.{next_regime}

abbrev pub length_pool_cap : ℕ
length_pool_cap = 16

pub record SeedBComposer (m : Meters) : Type 0 where
  pub config : CompositionConfig (Meters.F m) (Meters.DpConfig m)
  pub rng : Rng.State (Meters.rng m)
  pub regime : RatioRegime
  pub bursts_in_regime : ℕ
  pub real_bytes_in_regime : ℕ
  pub real_packets_in_regime : ℕ
  pub last_burst_at : ℕ
  pub spectral_iat : Meters.Spectral m
  pub next_keepalive_due : ℕ
  pub length_pool : List ℕ
  pub length_pool_pos : ℕ
  pub observed_real_iat_ms : Meters.F m
  pub last_real_burst_at : Option ℕ
  pub optimal_padder : OptimalPadder
  pub dp_shaper : Option (Meters.Dp m)
  pub session_bounder : Option SessionBounder
  pub dummy_bytes_emitted : ℕ
  pub accountant : Meters.Accountant m
  pub self_tester : Meters.Tester m
  pub frame_clock_ms : ℕ

-- `v[i] = x` for an index in the vector
abbrev pub set_at {ℓ} : {A : Type ℓ} → List A → ℕ → A → List A
set_at [] i x = []
set_at (y ∷ ys) zero x = x ∷ ys
set_at (y ∷ ys) (suc i) x = y ∷ set_at ys i x

-- The range of a draw, for a regime with or without two modes and the coin between them.
count_range : Bool → Bool → RatioRegime → ℕ × ℕ
count_range true true r = (0, 1)
count_range true false r = (r.dummy_lo, r.dummy_hi)
count_range false low r = (r.dummy_lo, r.dummy_hi)

module _ (m : Meters) where
  unfoldable pub ingest_length : SeedBComposer m → ℕ → SeedBComposer m
  ingest_length c len =
      if ltb (length c.length_pool) length_pool_cap
      then record c { length_pool = c.length_pool ++ (len ∷ []) }
      else record c {
        length_pool = set_at c.length_pool c.length_pool_pos len;
        length_pool_pos = (c.length_pool_pos + 1) % length_pool_cap;
      }

  unfoldable pub dummy_count_absolute : SeedBComposer m → Result Stop (ℕ × SeedBComposer m)
  unfolding count_range
  dummy_count_absolute c = do
    let (low, s) = Meters.coin m c.rng
    let (lo, hi) = count_range c.regime.spiky low c.regime
    (raw, s') ← gen_range (Meters.rng m) lo hi (if c.regime.spiky then s else c.rng)
    ok (min raw c.config.max_dummy_packets_per_burst, record c { rng = s' })

  -- The mean of the pool, with the least keepalive for an empty one.
  unfoldable pub mean_len : SeedBComposer m → ℕ
  mean_len c =
      if length c.length_pool == 0
      then c.config.keepalive_min_bytes
      else sum c.length_pool / length c.length_pool

  with_shaper : SeedBComposer m → ℕ → ℕ → Option (Meters.Dp m) → ℕ × SeedBComposer m
  with_shaper c real_bytes regime_count none = (regime_count, c)
  with_shaper c real_bytes regime_count (some dp) =
      let ((epsilon_spent, dummy_bytes), dp') = Meters.decide_window m real_bytes dp in
      let dp_count = dummy_bytes / max (mean_len c) 1 in
      (
        min (max dp_count regime_count) c.config.max_dummy_packets_per_burst,
        record c {
          dp_shaper = some dp';
          accountant = Meters.record_query m epsilon_spent c.accountant;
        },
      )

  unfoldable pub dummy_count_for_burst : SeedBComposer m → ℕ → Result Stop (ℕ × SeedBComposer m)
  unfolding with_shaper
  dummy_count_for_burst c real_bytes = do
    (regime_count, c') ← dummy_count_absolute c
    ok (with_shaper c' real_bytes regime_count c'.dp_shaper)

  -- The length that a payload has without a cell size: a length of the pool, padded to its bucket.
  pooled_len : SeedBComposer m → Result Stop (ℕ × SeedBComposer m)
  pooled_len c =
      let g = Meters.rng m in
      let empty = length c.length_pool == 0 in
      let lo = if empty then c.config.keepalive_min_bytes else 0 in
      let hi = if empty then c.config.keepalive_max_bytes else length c.length_pool - 1 in
      do
        (drawn, s) ← gen_range g lo hi c.rng
        let true_len = if empty then drawn else get_or c.length_pool drawn 0
        let (len, padder) = pad_length c.optimal_padder true_len
        ok (len, record c { rng = s; optimal_padder = padder })

  payload_len : SeedBComposer m → Option ℕ → Result Stop (ℕ × SeedBComposer m)
  unfolding pooled_len
  payload_len c none = pooled_len c
  payload_len c (some cell) = ok (cell, c)

  unfoldable pub dummy_payload : SeedBComposer m → Result Stop (List ℕ × SeedBComposer m)
  unfolding payload_len
  dummy_payload c = do
    (len, c') ← payload_len c c.config.cell_bytes
    let (bytes, s) = Rng.fill (Meters.rng m) len c'.rng
    ok (bytes, record c' { rng = s })

  -- `Packet::new(padded).expect(..)`
  expect_packet :
      Result ClumpingError Packet → SeedBComposer m → Result Stop (Packet × SeedBComposer m)
  expect_packet (ok packet) c = ok (packet, c)
  expect_packet (err e) c = err panicked

  pad_to : SeedBComposer m → Packet → Option ℕ → Result Stop (Packet × SeedBComposer m)
  unfolding expect_packet
  pad_to c packet none = ok (packet, c)
  pad_to c packet (some cell) =
      let raw = packet.bytes in
      let (padding, s) = Rng.fill (Meters.rng m) (cell - length raw) c.rng in
      if length raw == cell
      then expect_packet (packet_new raw) c
      else if ltb (length raw) cell
      then expect_packet (packet_new (raw ++ padding)) (record c { rng = s })
      else expect_packet (packet_new (take cell raw)) c

  unfoldable pub pad_real_packet : SeedBComposer m → Packet → Result Stop (Packet × SeedBComposer m)
  unfolding pad_to
  pad_real_packet c packet = pad_to c packet c.config.cell_bytes

  -- `set_target_iat_ms` and `next_delay_ms`, at the time `now`
  unfoldable pub reset_keepalive_deadline : SeedBComposer m → ℕ → SeedBComposer m
  reset_keepalive_deadline c now =
      let (ms, spectral) =
        Meters.delay m c.observed_real_iat_ms c.config.max_idle_gap_ms c.spectral_iat in
      record c { spectral_iat = spectral; next_keepalive_due = now + ms * 1_000_000 }

  note_real : Option SessionBounder → ℕ → Option SessionBounder
  note_real none real_bytes = none
  note_real (some bounder) real_bytes = some (record_real_bytes bounder real_bytes)

  smoothed : SeedBComposer m → Option ℕ → ℕ → Meters.F m
  smoothed c none now = c.observed_real_iat_ms
  smoothed c (some last) now = Meters.smooth m (now - last) c.observed_real_iat_ms

  -- The counters and estimates of `observe`, before a change of regime.
  unfoldable pub counted : SeedBComposer m → ℕ → ℕ → ℕ → SeedBComposer m
  unfolding note_real smoothed
  counted c real_bytes real_packets now = record c {
    bursts_in_regime = saturating_add c.bursts_in_regime 1;
    real_bytes_in_regime = saturating_add c.real_bytes_in_regime real_bytes;
    real_packets_in_regime = saturating_add c.real_packets_in_regime real_packets;
    session_bounder = note_real c.session_bounder real_bytes;
    observed_real_iat_ms = smoothed c c.last_real_burst_at now;
    last_real_burst_at = some now;
  }

  unfoldable pub must_switch : SeedBComposer m → Bool
  must_switch c =
      leb c.regime.switch_after.bursts c.bursts_in_regime
      || leb c.regime.switch_after.real_bytes c.real_bytes_in_regime
      || leb c.regime.switch_after.real_packets c.real_packets_in_regime

  switch_regime : SeedBComposer m → Result Stop (SeedBComposer m)
  switch_regime c = do
    (regime, s) ← next_regime (Meters.rng m) c.config c.rng
    ok (record c {
      rng = s;
      regime = regime;
      bursts_in_regime = 0;
      real_bytes_in_regime = 0;
      real_packets_in_regime = 0;
    })

  unfoldable pub observe : SeedBComposer m → ℕ → ℕ → ℕ → Result Stop (SeedBComposer m)
  unfolding switch_regime
  observe c real_bytes real_packets now =
      let c' = counted c real_bytes real_packets now in
      if must_switch c' then switch_regime c' else ok c'
