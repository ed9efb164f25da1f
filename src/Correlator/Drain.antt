-- ===== src/Correlator/Drain.antt =====
-- src/timing_correlator.rs: `inject_burst`, `drain_ready`. `inject_burst` reads the clock at `now`;
-- fuel of `drain_ready` that runs out is `none`.
use mathlib.Core.Path.{subst}
use mix_tor.Base.{
  length, ◌≤◌, leb→le, ℕ, zero, suc, ◌-◌, ◌<◌, List, [], ◌∷◌, ◌++◌, true, false, Option, none, some,
  Result, ok, err, ◌≡◌, refl, sym, ap, ◌∙◌, All, arith, Bool-cases, inl, inr, ltb, leb, if_false,
}
use mix_tor.Packet.{Packet, MixedFrame, real, dummy, frame_len}
use mix_tor.Composer.Bursts.Order.{reals}
use mix_tor.Correlator.{emit, Clock, TimingCorrelator, inject_real, correlator_tick}
use mix_tor.Correlator.Start.{TimingCorrelatorError, correlator_queue_full}
use mix_tor.Correlator.Schedule.{
  IsCellSized, seen, clock_of, coin_of, flipped_later, flipped, flipped-clock, tick_early,
  tick_late, tick-IsSeen, tick-config, sent_len,
}
use mix_tor.Correlator.Queue.{sent_packets, tick-Pops}

module _ (k : Clock) where
  inject_packets :
      TimingCorrelator k → List Packet → ℕ → ℕ → Result TimingCorrelatorError ℕ × TimingCorrelator k
  inject_packets tc [] now count = (ok count, tc)
  inject_packets tc (packet ∷ packets) now count = elim (inject_real k tc packet now) [
    | none ↦ (err correlator_queue_full, tc)
    | some tc' ↦ inject_packets tc' packets now (suc count)
  ]

  pub inject_burst :
      TimingCorrelator k → List Packet → ℕ → Result TimingCorrelatorError ℕ × TimingCorrelator k
  unfolding inject_packets
  inject_burst tc packets now = inject_packets tc packets now 0

  -- A poll and the rest of the loop.
  after_poll :
      Option MixedFrame × TimingCorrelator k
      → (TimingCorrelator k → Option (List MixedFrame × TimingCorrelator k))
      → Option (List MixedFrame × TimingCorrelator k)
  after_poll (none, tc) rest = some ([], tc)
  after_poll (some frame, tc) rest = elim (rest tc) [
    | none ↦ none
    | some (frames, tc') ↦ some (frame ∷ frames, tc')
  ]

  -- `times` are the instants of the polls, by their number.
  pub drain_ready : ℕ → TimingCorrelator k → (ℕ → ℕ) → Option (List MixedFrame × TimingCorrelator k)
  unfolding after_poll
  drain_ready zero tc times = none
  drain_ready (suc fuel) tc times =
      after_poll (correlator_tick k tc (times 0)) λ tc'. drain_ready fuel tc' (λ j. times (suc j))

  -- The clock's draw is at least a nanosecond.
  abbrev pub IsMoving : Type 0
  IsMoving = (mean : Clock.Mean k) (s : Clock.State k) → 0 < (Clock.sample_step k mean s).0

  -- A poll that sends a frame.
  record IsStep (tc : TimingCorrelator k) (frame : MixedFrame) (tc' : TimingCorrelator k)
      : Type 0 where
    later : tc.next_departure < tc'.next_departure
    cells : All (IsCellSized k tc'.config.cell_bytes) tc'.real_queue
    config : tc'.config ≡ tc.config
    size : frame_len frame ≡ tc.config.cell_bytes
    queue : sent_packets k (some frame) ++ tc'.real_queue ≡ tc.real_queue

  tick-IsStep :
      (tc : TimingCorrelator k) (now : ℕ) (frame : MixedFrame) (tc' : TimingCorrelator k)
      → IsMoving
      → 0 < tc.config.cell_bytes
      → All (IsCellSized k tc.config.cell_bytes) tc.real_queue
      → ltb now tc.next_departure ≡ false
      → correlator_tick k tc now ≡ (some frame, tc')
      → IsStep tc frame tc'
  unfolding seen
  tick-IsStep tc now frame tc' moving pos h late e =
      let (seen_so, cells) = tick-IsSeen k tc now h in
      let all : (some (frame_len frame), clock_of k tc')
          ≡ (some tc.config.cell_bytes, coin_of k (clock_of k tc) now) =
        ap (λ t. (sent_len k t.0, clock_of k t.1)) (sym e) ∙ seen_so ∙ if_false _ _ _ late in
      let clock : clock_of k tc' ≡ clock_of k (flipped k tc now).1 =
        ap (λ t. t.1) all ∙ sym (flipped-clock k tc now).0 in
      let next : tc'.next_departure ≡ (flipped k tc now).1.next_departure = ap (λ c. c.2) clock in
      let up = flipped_later k tc now (moving tc.mean_iat_ms tc.rng) in
      record {
        later = omega (arith, next, up);
        cells = subst (λ t. All (IsCellSized k t.1.config.cell_bytes) t.1.real_queue) e cells;
        config = ap (λ t. t.1.config) (sym e) ∙ tick-config k tc now h;
        size = let some_size = ap (λ t. t.0) all in cc some_size;
        queue = ap (λ t. sent_packets k t.0 ++ t.1.real_queue) (sym e) ∙ tick-Pops k tc now pos h;
      }

  -- The frames that `drain_ready` gives: each is one cell, the real ones are the front of the queue in
  -- order, and at the last poll the next slot was still to come.
  pub record IsDrained (tc : TimingCorrelator k) (times : ℕ → ℕ)
      (out : List MixedFrame × TimingCorrelator k) : Type 0 where
    pub sizes : All (λ frame. frame_len frame ≡ tc.config.cell_bytes) out.0
    pub queue : reals out.0 ++ out.1.real_queue ≡ tc.real_queue
    pub due : times (length out.0) < out.1.next_departure

  reals-cons :
      (frame : MixedFrame) (frames : List MixedFrame) (rest : List Packet)
      → reals (frame ∷ frames) ++ rest ≡ sent_packets k (some frame) ++ (reals frames ++ rest)
  reals-cons (real packet) frames rest = refl
  reals-cons (dummy bytes) frames rest = refl

  -- `drain_ready` ends: where the clock's draws are at least a nanosecond, cells are not empty and the
  -- queue holds packets of the cell size, and no poll comes after the instant `last`, one round for
  -- each nanosecond from the next slot to `last`, and two more, are enough. It gives frames of one cell
  -- each, in which the real packets are the front of the queue in order and none is lost, and the next
  -- slot is later than the last poll.
  pub drain_ready_ends :
      (fuel : ℕ) (tc : TimingCorrelator k) (times : ℕ → ℕ) (last : ℕ)
      → IsMoving
      → 0 < tc.config.cell_bytes
      → All (IsCellSized k tc.config.cell_bytes) tc.real_queue
      → ((j : ℕ) → times j ≤ last)
      → suc last - tc.next_departure < fuel
      → (out : List MixedFrame × TimingCorrelator k) × (drain_ready fuel tc times ≡ some out)
        × IsDrained tc times out
  unfolding drain_ready after_poll
  drain_ready_ends zero tc times last moving pos h within enough = absurd (omega arith)
  drain_ready_ends (suc fuel) tc times last moving pos h within enough =
      let now = times 0 in
      elim (Bool-cases (ltb now tc.next_departure)) [
        | inl e ↦
            rw (tick_early k tc now e, drain_ready)
              (_, refl, record { sizes = tt; queue = refl; due = ground (arith, e) })
        | inr e ↦
            let sent = emit k (flipped k tc now).0 (flipped k tc now).1 in
            let s = tick-IsStep tc now sent.0 sent.1 moving pos h e (tick_late k tc now e) in
            let come : leb tc.next_departure now ≡ true = ground (arith, e) in
            let (out, run, d) =
              drain_ready_ends fuel sent.1 (λ j. times (suc j)) last moving (rw s.config pos)
                s.cells (λ j. within (suc j)) (omega (arith, s.later, leb→le _ _ come, within 0)) in
            let lens : All (λ frame. frame_len frame ≡ tc.config.cell_bytes) out.0 =
              subst (λ c. All (λ frame. frame_len frame ≡ c.cell_bytes) out.0) s.config d.sizes in
            rw (tick_late k tc now e, run, drain_ready)
              (
                (sent.0 ∷ out.0, out.1),
                refl,
                record {
                  sizes = (s.size, lens);
                  queue =
                      reals-cons sent.0 out.0 out.1.real_queue
                      ∙ ap (λ ps. sent_packets k (some sent.0) ++ ps) d.queue
                      ∙ s.queue;
                  due = d.due;
                },
              )
      ]
