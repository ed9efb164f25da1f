-- ===== src/Correlator/Queue.antt =====
-- The queue of real packets of src/timing_correlator.rs: what goes in and what a slot takes out.
use mix_tor.Base.{
  arith, refl, ◌∙◌, true, false, ◌<◌, List, Bool, ◌<◌, Option, All, ltb, ◌==◌, ◌∷◌, [], length, ℕ,
  ◌≡◌, ◌∙◌, [], ◌∷◌, ◌++◌, none, some, false, Bool-cases, ◌⊎◌, inl, inr, length, leb, if_true,
  if_false,
}
use mix_tor.Packet.{Packet, MixedFrame, real, dummy}
use mix_tor.Correlator.Schedule.{IsCellSized, tick_late, tick_early, flipped, flipped-clock}
use mix_tor.Correlator.{
  restart_clock, advance_clock, dummy, real, MixedFrame, correlator_tick, emit, emit_real,
  emit_dummy, make_real_frame, make_dummy_frame, pad_to_cell, real_or_zeros, Clock,
  TimingCorrelator, inject_real,
}

module _ (k : Clock) where
  -- At a fixed rate, putting a packet in changes the queue and nothing else.
  pub inject_real-fixed :
      (tc : TimingCorrelator k) (packet : Packet) (now : ℕ)
      → tc.config.adapt_rate ≡ false
      → ((leb tc.config.max_queue_depth (length tc.real_queue) ≡ true)
          × (inject_real k tc packet now ≡ none))
        ⊎ (inject_real k tc packet now
            ≡ some (record tc { real_queue = tc.real_queue ++ (packet ∷ []) }))
  unfolding inject_real
  inject_real-fixed tc packet now fixed =
      elim (Bool-cases (leb tc.config.max_queue_depth (length tc.real_queue))) [
        | inl e ↦ inl (e, if_true _ _ _ e)
        | inr e ↦ inr (if_false _ _ _ e ∙ if_false _ _ _ fixed)
      ]

  -- The real packets in what a poll gives.
  abbrev pub sent_packets : Option MixedFrame → List Packet
  sent_packets none = []
  sent_packets (some (real packet)) = packet ∷ []
  sent_packets (some (dummy bytes)) = []

  -- What a slot gives, before what still waits, is what waited before it.
  abbrev Pops : List Packet → MixedFrame × TimingCorrelator k → Type 0
  Pops queue out = sent_packets (some out.0) ++ out.1.real_queue ≡ queue

  emit_dummy-Pops : (tc : TimingCorrelator k) → Pops tc.real_queue (emit_dummy k tc)
  unfolding emit_dummy make_dummy_frame
  emit_dummy-Pops tc = refl

  real_or_zeros-real :
      (n : ℕ) (bytes : List ℕ)
      → 0 < length bytes
      → real_or_zeros k n bytes ≡ real (record { bytes = bytes })
  unfolding real_or_zeros
  real_or_zeros-real n [] h = absurd (omega arith)
  real_or_zeros-real n (b ∷ bs) h = refl

  emit_real-Pops :
      (tc : TimingCorrelator k) (queue : List Packet)
      → tc.real_queue ≡ queue
      → 0 < tc.config.cell_bytes
      → All (IsCellSized k tc.config.cell_bytes) queue
      → Pops queue (emit_real k tc queue)
  unfolding emit_real make_real_frame pad_to_cell
  emit_real-Pops tc [] e pos h = rw (← e) (emit_dummy-Pops tc)
  emit_real-Pops tc (packet ∷ rest) e pos h =
      let same : (length packet.bytes == tc.config.cell_bytes) ≡ true = ground (arith, h.0) in
      let whole = real_or_zeros-real tc.config.cell_bytes packet.bytes (omega (arith, h.0)) in
      rw (same, whole) refl

  emit-Pops :
      (forced : Bool) (tc : TimingCorrelator k)
      → 0 < tc.config.cell_bytes
      → All (IsCellSized k tc.config.cell_bytes) tc.real_queue
      → Pops tc.real_queue (emit k forced tc)
  unfolding emit
  emit-Pops true tc pos h = emit_dummy-Pops tc
  emit-Pops false tc pos h = emit_real-Pops tc tc.real_queue refl pos h

  -- A poll takes from the front of the queue what it sends, and nothing else.
  pub tick-Pops :
      (tc : TimingCorrelator k) (now : ℕ)
      → 0 < tc.config.cell_bytes
      → All (IsCellSized k tc.config.cell_bytes) tc.real_queue
      → sent_packets (correlator_tick k tc now).0 ++ (correlator_tick k tc now).1.real_queue
        ≡ tc.real_queue
  tick-Pops tc now pos h = elim (Bool-cases (ltb now tc.next_departure)) [
    | inl e ↦ rw (tick_early k tc now e) refl
    | inr e ↦
        let (_, queue, config) = flipped-clock k tc now in
        let tc' = (flipped k tc now).1 in
        let pos' : 0 < tc'.config.cell_bytes = rw config pos in
        rw (tick_late k tc now e)
          (emit-Pops (flipped k tc now).0 tc' pos' (rw (queue, config) h) ∙ queue)
  ]

  pub restart_clock-queue :
      (tc : TimingCorrelator k) (now : ℕ)
      → ((restart_clock k tc now).config ≡ tc.config)
        × ((restart_clock k tc now).real_queue ≡ tc.real_queue)
  unfolding restart_clock advance_clock
  restart_clock-queue tc now = (refl, refl)
