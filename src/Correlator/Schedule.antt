-- ===== src/Correlator/Schedule.antt =====
-- The departure schedule of src/timing_correlator.rs and the queue of real packets beside it.
use mix_tor.Base.{
  ◌<◌, All-append, ◌++◌, leb, ap₂, if_false, if_true, sym, ap, ltb, Option, [], true, false, none,
  some, inl, inr, Bool-cases, refl, ◌∙◌, arith, length-replicate, true, if◌then◌else◌, ◌∷◌, ◌==◌,
  Bool, List, All, length, ℕ, refl, ◌≡◌,
}
use mix_tor.Packet.{Packet, frame_len}
use mix_tor.Correlator.{
  inject_real, correlator_tick, pad_to_cell, emit_real, make_real_frame, MixedFrame, emit,
  real_or_zeros, Clock, TimingCorrelatorConfig, TimingCorrelator, advance_clock, flip,
  make_dummy_frame, emit_dummy,
}

module _ (k : Clock) where
  -- The parts of the state that decide when slots come.
  abbrev pub clock_of :
      TimingCorrelator k → TimingCorrelatorConfig × Clock.State k × ℕ × Clock.Mean k
  clock_of tc = (tc.config, tc.rng, tc.next_departure, tc.mean_iat_ms)

  abbrev pub IsCellSized : ℕ → Packet → Type 0
  IsCellSized n packet = length packet.bytes ≡ n

  -- The clock after a slot, from the clock before it alone.
  slot : TimingCorrelator k → ℕ → TimingCorrelator k
  slot tc now = (flip k (advance_clock k tc now)).1

  emit_dummy-clock :
      (tc : TimingCorrelator k)
      → (clock_of (emit_dummy k tc).1 ≡ clock_of tc)
        × (frame_len (emit_dummy k tc).0 ≡ tc.config.cell_bytes)
  unfolding emit_dummy make_dummy_frame
  emit_dummy-clock tc = (refl, Clock.length-fill k tc.config.cell_bytes tc.content_rng)

  real_or_zeros-len :
      (n : ℕ) (bytes : List ℕ)
      → frame_len (real_or_zeros k n bytes) ≡ (if length bytes == 0 then n else length bytes)
  unfolding real_or_zeros
  real_or_zeros-len n [] = length-replicate n 0
  real_or_zeros-len n (b ∷ bs) = ground arith

  make_real_frame-clock :
      (tc : TimingCorrelator k) (packet : Packet)
      → IsCellSized tc.config.cell_bytes packet
      → (clock_of (make_real_frame k tc packet).1 ≡ clock_of tc)
        × (frame_len (make_real_frame k tc packet).0 ≡ tc.config.cell_bytes)
        × ((make_real_frame k tc packet).1.real_queue ≡ tc.real_queue)
  unfolding make_real_frame pad_to_cell
  make_real_frame-clock tc packet h =
      let same : (length packet.bytes == tc.config.cell_bytes) ≡ true = ground arith in
      rw same (refl, real_or_zeros-len tc.config.cell_bytes packet.bytes ∙ ground arith, refl)

  -- A slot is filled with one cell, and filling it leaves the clock alone.
  record IsFilled (tc : TimingCorrelator k) (out : MixedFrame × TimingCorrelator k) : Type 0 where
    clock : clock_of out.1 ≡ clock_of tc
    size : frame_len out.0 ≡ tc.config.cell_bytes
    queue : All (IsCellSized tc.config.cell_bytes) out.1.real_queue

  emit_dummy-IsFilled :
      (tc : TimingCorrelator k)
      → All (IsCellSized tc.config.cell_bytes) tc.real_queue
      → IsFilled tc (emit_dummy k tc)
  unfolding emit_dummy make_dummy_frame
  emit_dummy-IsFilled tc h = record {
    clock = refl;
    size = Clock.length-fill k tc.config.cell_bytes tc.content_rng;
    queue = h;
  }

  emit_real-IsFilled :
      (tc : TimingCorrelator k) (queue : List Packet)
      → tc.real_queue ≡ queue
      → All (IsCellSized tc.config.cell_bytes) queue
      → IsFilled tc (emit_real k tc queue)
  unfolding emit_real
  emit_real-IsFilled tc [] e h = emit_dummy-IsFilled tc (rw e tt)
  emit_real-IsFilled tc (packet ∷ rest) e h =
      let (clock, size, kept) =
        make_real_frame-clock (record tc { real_queue = rest }) packet h.0 in
      record { clock = clock; size = size; queue = rw kept h.1 }

  emit-IsFilled :
      (forced : Bool) (tc : TimingCorrelator k)
      → All (IsCellSized tc.config.cell_bytes) tc.real_queue
      → IsFilled tc (emit k forced tc)
  unfolding emit
  emit-IsFilled true tc h = emit_dummy-IsFilled tc h
  emit-IsFilled false tc h = emit_real-IsFilled tc tc.real_queue refl h

  -- The frame that a poll sends, by its size, and the state after it.
  abbrev pub sent_len : Option MixedFrame → Option ℕ
  sent_len none = none
  sent_len (some frame) = some (frame_len frame)

  -- Two correlators whose clocks agree, whatever packets of a cell's size they hold.
  pub record IsSameClock (a b : TimingCorrelator k) : Type 0 where
    pub clock : clock_of a ≡ clock_of b
    pub cells_a : All (IsCellSized a.config.cell_bytes) a.real_queue
    pub cells_b : All (IsCellSized b.config.cell_bytes) b.real_queue

  -- The slot's state after the clock and the coin, and the coin.
  pub flipped : TimingCorrelator k → ℕ → Bool × TimingCorrelator k
  flipped tc now = flip k (advance_clock k tc now)

  -- The next slot moves on if the clock's draw is positive.
  pub flipped_later :
      (tc : TimingCorrelator k) (now : ℕ)
      → 0 < (Clock.sample_step k tc.mean_iat_ms tc.rng).0
      → tc.next_departure < (flipped tc now).1.next_departure
  unfolding flipped flip advance_clock
  flipped_later tc now moving = elim (Bool-cases tc.config.reserves_dummies) [
    | inl e ↦ rw e (ground (arith, moving))
    | inr e ↦ rw e (ground (arith, moving))
  ]

  -- What clock and coin do, on the clock's parts alone.
  pub coin_of :
      TimingCorrelatorConfig × Clock.State k × ℕ × Clock.Mean k
      → ℕ
      → TimingCorrelatorConfig × Clock.State k × ℕ × Clock.Mean k
  coin_of (config, rng, next, mean) now =
      let blank : TimingCorrelator k = record {
        config = config;
        rng = rng;
        content_rng = rng;
        real_queue = [];
        next_departure = next;
        mean_iat_ms = mean;
        last_real_arrival = none;
        real_emitted = 0;
        dummy_emitted = 0;
      } in
      clock_of (flipped blank now).1

  pub flipped-clock :
      (tc : TimingCorrelator k) (now : ℕ)
      → (clock_of (flipped tc now).1 ≡ coin_of (clock_of tc) now)
        × ((flipped tc now).1.real_queue ≡ tc.real_queue)
        × ((flipped tc now).1.config ≡ tc.config)
  unfolding flipped coin_of flip advance_clock
  flipped-clock tc now = elim (Bool-cases tc.config.reserves_dummies) [
    | inl e ↦ rw e (refl, refl, refl)
    | inr e ↦ rw e (refl, refl, refl)
  ]

  -- A poll, as far as an observer sees it, is a function of the clock.
  unfoldable pub seen :
      TimingCorrelatorConfig × Clock.State k × ℕ × Clock.Mean k
      → ℕ
      → Option ℕ × (TimingCorrelatorConfig × Clock.State k × ℕ × Clock.Mean k)
  seen c now = if ltb now c.2 then (none, c) else (some c.0.cell_bytes, coin_of c now)

  -- A poll at or after the next slot is seen to send a cell.
  pub seen_due :
      (tc : TimingCorrelator k) (now : ℕ)
      → leb tc.next_departure now ≡ true
      → (seen (clock_of tc) now).0 ≡ some tc.config.cell_bytes
  unfolding seen
  seen_due tc now h = let e : ltb now tc.next_departure ≡ false = ground arith in rw e

  pub tick_late :
      (tc : TimingCorrelator k) (now : ℕ)
      → ltb now tc.next_departure ≡ false
      → correlator_tick k tc now ≡ (
        some (emit k (flipped tc now).0 (flipped tc now).1).0,
        (emit k (flipped tc now).0 (flipped tc now).1).1,
      )
  unfolding correlator_tick flipped
  tick_late tc now e = if_false (ltb now tc.next_departure) _ _ e

  pub tick_early :
      (tc : TimingCorrelator k) (now : ℕ)
      → ltb now tc.next_departure ≡ true
      → correlator_tick k tc now ≡ (none, tc)
  unfolding correlator_tick
  tick_early tc now e = if_true (ltb now tc.next_departure) _ _ e

  -- What a poll leaves: the sizes and clocks that `seen` says, and a queue of cells still.
  abbrev pub IsSeen : TimingCorrelator k → ℕ → Option MixedFrame × TimingCorrelator k → Type 0
  IsSeen tc now out =
      ((sent_len out.0, clock_of out.1) ≡ seen (clock_of tc) now)
      × All (IsCellSized out.1.config.cell_bytes) out.1.real_queue

  -- A slot that has come is filled.
  flipped-IsFilled :
      (tc : TimingCorrelator k) (now : ℕ)
      → All (IsCellSized tc.config.cell_bytes) tc.real_queue
      → IsFilled (flipped tc now).1 (emit k (flipped tc now).0 (flipped tc now).1)
  flipped-IsFilled tc now h =
      let (clock, queue, config) = flipped-clock tc now in
      emit-IsFilled (flipped tc now).0 (flipped tc now).1 (rw (queue, config) h)

  pub tick-config :
      (tc : TimingCorrelator k) (now : ℕ)
      → All (IsCellSized tc.config.cell_bytes) tc.real_queue
      → (correlator_tick k tc now).1.config ≡ tc.config
  tick-config tc now h = elim (Bool-cases (ltb now tc.next_departure)) [
    | inl e ↦ rw (tick_early tc now e) refl
    | inr e ↦
        let (clock, queue, config) = flipped-clock tc now in
        rw (tick_late tc now e) (ap (λ c. c.0) (flipped-IsFilled tc now h).clock ∙ config)
  ]

  pub tick-IsSeen :
      (tc : TimingCorrelator k) (now : ℕ)
      → All (IsCellSized tc.config.cell_bytes) tc.real_queue
      → IsSeen tc now (correlator_tick k tc now)
  unfolding seen
  tick-IsSeen tc now h = elim (Bool-cases (ltb now tc.next_departure)) [
    | inl e ↦ rw (tick_early tc now e) (sym (if_true _ _ _ e), h)
    | inr e ↦
        let (clock, queue, config) = flipped-clock tc now in
        let tc' = (flipped tc now).1 in
        let filled = flipped-IsFilled tc now h in
        let kept : (emit k (flipped tc now).0 tc').1.config ≡ tc'.config =
          ap (λ c. c.0) filled.clock in
        let size = filled.size ∙ ap (λ c. c.cell_bytes) config in
        let pair = ap₂ (λ n c. (some n, c)) size (filled.clock ∙ clock) in
        rw (tick_late tc now e) (pair ∙ sym (if_false _ _ _ e), rw kept filled.queue)
  ]

  -- One poll of two correlators whose clocks agree, and whose queues hold only packets of exactly the
  -- cell's size, at one instant: either both send a frame, and the two frames have one size, or neither
  -- does; and their clocks agree after it, so that their next slots come at the same instant, and their
  -- queues still hold only such packets. Which of them wait, and how many, makes no difference.
  pub correlator_tick_independent :
      (a b : TimingCorrelator k) (now : ℕ)
      → clock_of a ≡ clock_of b
      → All (IsCellSized a.config.cell_bytes) a.real_queue
      → All (IsCellSized b.config.cell_bytes) b.real_queue
      → (sent_len (correlator_tick k a now).0 ≡ sent_len (correlator_tick k b now).0)
        × IsSameClock (correlator_tick k a now).1 (correlator_tick k b now).1
  correlator_tick_independent a b now clock sized_a sized_b =
      let (seen_a, cells_a) = tick-IsSeen a now sized_a in
      let (seen_b, cells_b) = tick-IsSeen b now sized_b in
      let same = seen_a ∙ ap (λ c. seen c now) clock ∙ sym seen_b in
      (
        ap (λ r. r.0) same,
        record { clock = ap (λ r. r.1) same; cells_a = cells_a; cells_b = cells_b },
      )

  -- At a fixed rate, putting one more packet of a cell's size into the queue of one of the two correlators
  -- leaves their clocks in agreement.
  pub inject_real-IsSameClock :
      (a b a' : TimingCorrelator k) (packet : Packet) (now : ℕ)
      → IsSameClock a b
      → a.config.adapt_rate ≡ false
      → IsCellSized a.config.cell_bytes packet
      → inject_real k a packet now ≡ some a'
      → IsSameClock a' b
  unfolding inject_real
  inject_real-IsSameClock a b a' packet now s fixed size e =
      elim (Bool-cases (leb a.config.max_queue_depth (length a.real_queue))) [
        | inl f ↦ cc (rw f at e)
        | inr f ↦
            let queued : TimingCorrelator k = record a {
              real_queue = a.real_queue ++ (packet ∷ []);
            } in
            let made : queued ≡ a' = cc (rw (f, fixed) at e) in
            let more = All-append _ a.real_queue (packet ∷ []) s.cells_a (size, tt) in
            rw (← made) (record { clock = s.clock; cells_a = more; cells_b = s.cells_b })
      ]
