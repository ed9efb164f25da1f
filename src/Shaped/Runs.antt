-- ===== src/Shaped/Runs.antt =====
-- Runs of a `ShapedSession` of src/composition.rs: polls of its clock and packets that arrive, in any
-- order.
use mix_tor.Base.{
  arith, leb→le, ltb→lt, true, none, some, refl, none, err, ◌++◌, append-nil, sym, ℕ, ◌≡◌, refl,
  ◌∙◌, ap, List, [], ◌∷◌, Option, some, Result, ok, ◌>>=◌, Returns, Returns-bind, false, inl, inr,
  All, All-append,
}
use mix_tor.Packet.{Packet, MixedFrame, real, dummy}
use mix_tor.Correlator.{TimingCorrelator, Clock}
use mix_tor.Correlator.Schedule.{seen, sent_len, tick-IsSeen, tick-config, IsCellSized, clock_of}
use mix_tor.Correlator.Queue.{restart_clock-queue, inject_real-fixed}
use mix_tor.Composer.Config.{CompositionError, Stop}
use mix_tor.Composer.Parts.{Meters}
use mix_tor.Composer.Sound.{IsUsable, pad_real_packet-Has}
use mix_tor.Composer.Bursts.Order.{AllCarry}
use mix_tor.Composer.{SeedBComposer}
use mix_tor.Composer.Bursts.{record_one}
use mix_tor.Correlator.{correlator_tick}
use mix_tor.Shaped.{
  session_restart_clock, ticked, noted, ShapedSession, session_inject_real, session_tick, queued,
  has_queue_space,
}

pub data Event : Type 0 where
  poll : ℕ → Event
  arrive : Packet → ℕ → Event

-- The instants of the polls.
abbrev pub polls : List Event → List ℕ
polls [] = []
polls (poll now ∷ events) = now ∷ polls events
polls (arrive packet now ∷ events) = polls events

-- What a run gave: the frames of its polls, and the packets that it took in.
pub record Log : Type 0 where
  pub frames : List (Option MixedFrame)
  pub accepted : List Packet

abbrev pub taken : Result CompositionError (Unit {0}) → Packet → List Packet
taken (ok _) packet = packet ∷ []
taken (err e) packet = []

module _ (m : Meters) (k : Clock) where
  unfoldable pub session_run :
      ShapedSession m k → List Event → Result Stop (Log × ShapedSession m k)
  session_run s [] = ok (record { frames = []; accepted = [] }, s)
  session_run s (poll now ∷ events) = do
    let (frame, s') = session_tick m k s now
    (log, s'') ← session_run s' events
    ok (record log { frames = frame ∷ log.frames }, s'')
  session_run s (arrive packet now ∷ events) = do
    (answer, s') ← session_inject_real m k s packet now
    (log, s'') ← session_run s' events
    ok (record log { accepted = taken answer packet ++ log.accepted }, s'')

  -- A session at a fixed rate, whose two layers have one cell size and whose queue holds cells.
  pub record IsReady (s : ShapedSession m k) : Type 0 where
    pub usable : IsUsable s.composer.config
    pub cell : s.composer.config.cell_bytes ≡ some s.correlator.config.cell_bytes
    pub fixed : s.correlator.config.adapt_rate ≡ false
    pub queue : All (IsCellSized k s.correlator.config.cell_bytes) s.correlator.real_queue

  -- A packet that is put in leaves the clock as it was, and stands behind the others if it was taken.
  pub record IsInjected (s : ShapedSession m k) (packet : Packet)
      (out : Result CompositionError (Unit {0}) × ShapedSession m k) : Type 0 where
    pub ready : IsReady out.1
    pub clock : clock_of k out.1.correlator ≡ clock_of k s.correlator
    pub padded : List Packet
    pub queue : out.1.correlator.real_queue ≡ s.correlator.real_queue ++ padded
    pub carried : AllCarry s.composer.config.cell_bytes (taken out.0 packet) padded
    -- With space in the queue the packet is taken.
    pub fits : has_queue_space m k s ≡ true → out.0 ≡ ok tt

  pub session_inject_real-IsInjected :
      (s : ShapedSession m k) (packet : Packet) (now : ℕ)
      → IsReady s
      → Returns (IsInjected s packet) (session_inject_real m k s packet now)
  unfolding session_inject_real queued has_queue_space
  session_inject_real-IsInjected s packet now r =
      Returns-bind
        (pad_real_packet-Has m {r = s.composer.regime} r.usable s.composer packet (refl, refl))
        λ a (kept, carried).
          let sized : IsCellSized k s.correlator.config.cell_bytes a.0 = (rw r.cell at carried).0 in
          let usable : IsUsable a.1.config = rw kept.0 r.usable in
          let cell : a.1.config.cell_bytes ≡ some s.correlator.config.cell_bytes =
            ap (λ c. c.cell_bytes) kept.0 ∙ r.cell in
          elim (inject_real-fixed k s.correlator a.0 now r.fixed) [
            | inl (full, e) ↦
                let refused : IsInjected s packet (queued m k a.1 s.correlator none) = record {
                  ready = record { usable = usable; cell = cell; fixed = r.fixed; queue = r.queue };
                  clock = refl;
                  padded = [];
                  queue = sym (append-nil s.correlator.real_queue);
                  carried = tt;
                  fits = λ space.
                      let room = ltb→lt _ _ space in
                      let over = leb→le _ _ full in absurd (omega arith);
                } in
                rw e (_, refl, refused)
            | inr e ↦
                let queue = s.correlator.real_queue ++ (a.0 ∷ []) in
                let tc : TimingCorrelator k = record s.correlator { real_queue = queue } in
                let more = All-append _ s.correlator.real_queue (a.0 ∷ []) r.queue (sized, tt) in
                let put : IsInjected s packet (queued m k a.1 s.correlator (some tc)) = record {
                  ready = record { usable = usable; cell = cell; fixed = r.fixed; queue = more };
                  clock = refl;
                  padded = a.0 ∷ [];
                  queue = refl;
                  carried = (carried, tt);
                  fits = λ space. refl;
                } in
                rw e (_, refl, put)
          ]

  noted-config : (c : SeedBComposer m) (f : MixedFrame) → (noted m k c f).config ≡ c.config
  unfolding noted record_one
  noted-config c (real packet) = refl
  noted-config c (dummy bytes) = refl

  -- A poll leaves the composer's configuration, and of the correlator what the tick makes of it.
  pub ticked-parts :
      (c : SeedBComposer m) (out : Option MixedFrame × TimingCorrelator k)
      → ((ticked m k c out).1.composer.config ≡ c.config)
        × ((ticked m k c out).1.correlator ≡ out.1)
        × ((ticked m k c out).0 ≡ out.0)
  unfolding ticked
  ticked-parts c (none, tc) = (refl, refl, refl)
  ticked-parts c (some frame, tc) = (noted-config c frame, refl, refl)

  pub session_tick-IsReady :
      (s : ShapedSession m k) (now : ℕ)
      → IsReady s
      → IsReady (session_tick m k s now).1
        × ((sent_len k (session_tick m k s now).0, clock_of k (session_tick m k s now).1.correlator)
            ≡ seen k (clock_of k s.correlator) now)
        × ((session_tick m k s now).1.correlator.config ≡ s.correlator.config)
  unfolding session_tick
  session_tick-IsReady s now r =
      let out = correlator_tick k s.correlator now in
      let (config, tc, frame) = ticked-parts s.composer out in
      let (view, cells) = tick-IsSeen k s.correlator now r.queue in
      let kept : out.1.config ≡ s.correlator.config = tick-config k s.correlator now r.queue in
      (
        record {
          usable = rw config r.usable;
          cell = rw (config, tc, kept) r.cell;
          fixed = rw (tc, kept) r.fixed;
          queue = rw tc cells;
        },
        rw (tc, frame) view,
        rw tc kept,
      )

  pub session_restart_clock-IsReady :
      (s : ShapedSession m k) (now : ℕ)
      → IsReady s
      → IsReady (session_restart_clock m k s now)
        × ((session_restart_clock m k s now).correlator.config ≡ s.correlator.config)
        × ((session_restart_clock m k s now).correlator.real_queue ≡ s.correlator.real_queue)
  unfolding session_restart_clock
  session_restart_clock-IsReady s now r =
      let (config, queue) = restart_clock-queue k s.correlator now in
      (
        record {
          usable = r.usable;
          cell = rw config r.cell;
          fixed = rw config r.fixed;
          queue = rw (config, queue) r.queue;
        },
        config,
        queue,
      )
