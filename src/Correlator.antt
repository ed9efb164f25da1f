-- ===== src/Correlator.antt =====
-- src/timing_correlator.rs: the departure clock and the queue of real packets. The floating-point parts
-- (the exponential draw, the coin for reserved dummies, the adapted mean) are parameters; instants are
-- nanoseconds.
pub mod Queue
pub mod Start
mod Drain
pub mod Schedule
mod Tests
use mix_tor.Base.{
  true, false, take, ltb, ◌≡◌, leb, false, ◌==◌, replicate, length, ◌++◌, ◌-◌, if◌then◌else◌, ◌*◌,
  Bool, ◌+◌, Option, List, ℕ, ◌∷◌, [], zero, suc, none, some,
}
use mix_tor.Packet.{Packet, MixedFrame, real, dummy, packet_new}

-- `sample_step` is the clamped and rounded step of `advance_clock` for a mean, `force_dummy` the
-- comparison of a draw with `min_dummy_fraction`, `adapt` the new mean after a gap in nanoseconds, and
-- `fill` the filling of a slice.
pub record Clock : Type 1 where
  pub Mean : Type 0
  pub State : Type 0
  pub sample_step : Mean → State → ℕ × State
  pub force_dummy : State → Bool × State
  pub adapt : ℕ → Mean → Mean
  pub fill : ℕ → State → List ℕ × State
  pub length-fill : (n : ℕ) (s : State) → length (fill n s).0 ≡ n

-- `reserves_dummies` is `min_dummy_fraction > 0.0`.
pub record TimingCorrelatorConfig : Type 0 where
  pub cell_bytes : ℕ
  pub max_queue_depth : ℕ
  pub adapt_rate : Bool
  pub reserves_dummies : Bool

pub record TimingCorrelator (k : Clock) : Type 0 where
  pub config : TimingCorrelatorConfig
  pub rng : Clock.State k
  pub content_rng : Clock.State k
  pub real_queue : List Packet
  pub next_departure : ℕ
  pub mean_iat_ms : Clock.Mean k
  pub last_real_arrival : Option ℕ
  pub real_emitted : ℕ
  pub dummy_emitted : ℕ

abbrev pub max_catchup_lag : ℕ
max_catchup_lag = 200 * 1_000_000

module _ (k : Clock) where
  adapted : TimingCorrelator k → Option ℕ → ℕ → Clock.Mean k
  adapted tc none now = tc.mean_iat_ms
  adapted tc (some last) now = Clock.adapt k (now - last) tc.mean_iat_ms

  -- `inject_real`: the queue is full, or the state with the packet in it.
  pub inject_real : TimingCorrelator k → Packet → ℕ → Option (TimingCorrelator k)
  unfolding adapted
  inject_real tc packet now =
      let queue = tc.real_queue ++ (packet ∷ []) in
      if leb tc.config.max_queue_depth (length tc.real_queue)
      then none
      else if tc.config.adapt_rate
      then some (record tc {
        mean_iat_ms = adapted tc tc.last_real_arrival now;
        last_real_arrival = some now;
        real_queue = queue;
      })
      else some (record tc { real_queue = queue })

  pub advance_clock : TimingCorrelator k → ℕ → TimingCorrelator k
  advance_clock tc now =
      let (step, rng') = Clock.sample_step k tc.mean_iat_ms tc.rng in
      let candidate = tc.next_departure + step in
      let next = if ltb (candidate + max_catchup_lag) now then now + step else candidate in
      record tc { rng = rng'; next_departure = next }

  pub restart_clock : TimingCorrelator k → ℕ → TimingCorrelator k
  restart_clock tc now = advance_clock (record tc { next_departure = now }) now

  -- The coin is drawn only if a fraction is reserved.
  flip : TimingCorrelator k → Bool × TimingCorrelator k
  flip tc =
      let (forced, rng') = Clock.force_dummy k tc.rng in
      if tc.config.reserves_dummies then (forced, record tc { rng = rng' }) else (false, tc)

  pub pad_to_cell : TimingCorrelator k → List ℕ → List ℕ × TimingCorrelator k
  pad_to_cell tc data' =
      let target = tc.config.cell_bytes in
      let (padding, rng') = Clock.fill k (target - length data') tc.rng in
      if length data' == target
      then (data', tc)
      else if ltb (length data') target
      then (data' ++ padding, record tc { rng = rng' })
      else (take target data', tc)

  -- `Packet::new(padded)`, with the fallback that the source calls unreachable.
  real_or_zeros : ℕ → List ℕ → MixedFrame
  real_or_zeros n [] = dummy (replicate n 0)
  real_or_zeros n (b ∷ bs) = real (record { bytes = b ∷ bs })

  pub make_real_frame : TimingCorrelator k → Packet → MixedFrame × TimingCorrelator k
  unfolding real_or_zeros
  make_real_frame tc packet =
      let (padded, tc') = pad_to_cell tc packet.bytes in
      (real_or_zeros tc.config.cell_bytes padded, tc')

  pub make_dummy_frame : TimingCorrelator k → MixedFrame × TimingCorrelator k
  make_dummy_frame tc =
      let (bytes, s) = Clock.fill k tc.config.cell_bytes tc.content_rng in
      (dummy bytes, record tc { content_rng = s })

  emit_dummy : TimingCorrelator k → MixedFrame × TimingCorrelator k
  emit_dummy tc =
      let (frame, tc') = make_dummy_frame tc in
      (frame, record tc' { dummy_emitted = suc tc'.dummy_emitted })

  pub emit_real : TimingCorrelator k → List Packet → MixedFrame × TimingCorrelator k
  emit_real tc [] = emit_dummy tc
  emit_real tc (packet ∷ rest) =
      let (frame, tc') = make_real_frame (record tc { real_queue = rest }) packet in
      (frame, record tc' { real_emitted = suc tc'.real_emitted })

  pub emit : Bool → TimingCorrelator k → MixedFrame × TimingCorrelator k
  emit true tc = emit_dummy tc
  emit false tc = emit_real tc tc.real_queue

  -- `TimingCorrelator::tick`
  pub correlator_tick : TimingCorrelator k → ℕ → Option MixedFrame × TimingCorrelator k
  unfolding emit emit_real emit_dummy flip
  correlator_tick tc now =
      let (forced, tc') = flip (advance_clock tc now) in
      let (frame, tc'') = emit forced tc' in
      if ltb now tc.next_departure then (none, tc) else (some frame, tc'')
