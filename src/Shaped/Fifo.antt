-- ===== src/Shaped/Fifo.antt =====
-- The order of the real packets through a `ShapedSession` of src/composition.rs.
use mix_tor.Base.{
  ℕ, ◌≡◌, ◌<◌, refl, ◌∙◌, ap, List, [], ◌∷◌, ◌++◌, append-nil, append_assoc, Option, some, Returns,
  Returns-bind,
}
use mix_tor.Packet.{Packet, MixedFrame}
use mix_tor.Correlator.{Clock, correlator_tick}
use mix_tor.Correlator.Queue.{sent_packets, tick-Pops}
use mix_tor.Composer.Parts.{Meters}
use mix_tor.Composer.Bursts.Order.{AllCarry}
use mix_tor.Shaped.Runs.{
  Event, poll, arrive, Log, session_run, IsReady, session_inject_real-IsInjected,
  session_tick-IsReady, ticked-parts, taken,
}
use mix_tor.Shaped.{ShapedSession, session_tick}

-- The real packets that the polls of a run sent.
abbrev pub all_sent : (k : Clock) → List (Option MixedFrame) → List Packet
all_sent k [] = []
all_sent k (frame ∷ frames) = sent_packets k frame ++ all_sent k frames

pub AllCarry-append :
    (cell : Option ℕ) (ps qs ps' qs' : List Packet)
    → AllCarry cell ps qs
    → AllCarry cell ps' qs'
    → AllCarry cell (ps ++ ps') (qs ++ qs')
AllCarry-append cell [] [] ps' qs' h h' = h'
AllCarry-append cell [] (q ∷ qs) ps' qs' h h' = absurd h
AllCarry-append cell (p ∷ ps) [] ps' qs' h h' = absurd h
AllCarry-append cell (p ∷ ps) (q ∷ qs) ps' qs' h h' =
    (h.0, AllCarry-append cell ps qs ps' qs' h.1 h')

module _ (m : Meters) (k : Clock) where
  -- What a poll sends, before what still waits, is what waited.
  pub session_tick-pops :
      (s : ShapedSession m k) (now : ℕ)
      → IsReady m k s
      → sent_packets k (session_tick m k s now).0
          ++ (session_tick m k s now).1.correlator.real_queue
        ≡ s.correlator.real_queue
  unfolding session_tick
  session_tick-pops s now r =
      let out = correlator_tick k s.correlator now in
      let (_, tc, frame) = ticked-parts m k s.composer out in
      let pos : 0 < s.correlator.config.cell_bytes = r.usable.cell _ r.cell in
      rw (tc, frame) (tick-Pops k s.correlator now pos r.queue)

  -- The packets that came in so far, as they were sent or wait.
  abbrev Keeps : ℕ → List Packet → List Packet → Log × ShapedSession m k → Type 0
  Keeps cell history done out =
      AllCarry (some cell) (history ++ out.0.accepted)
        ((done ++ all_sent k out.0.frames) ++ out.1.correlator.real_queue)

  session_run-Keeps :
      (s : ShapedSession m k) (events : List Event) (cell : ℕ) (history done : List Packet)
      → IsReady m k s
      → s.correlator.config.cell_bytes ≡ cell
      → AllCarry (some cell) history (done ++ s.correlator.real_queue)
      → Returns (Keeps cell history done) (session_run m k s events)
  unfolding session_run
  session_run-Keeps s [] cell history done r size h =
      (_, refl, rw (append-nil history, append-nil done) h)
  session_run-Keeps s (poll now ∷ events) cell history done r size h =
      let (ready, _, config) = session_tick-IsReady m k s now r in
      let (frame, s') = session_tick m k s now in
      let sent = sent_packets k frame in
      let waiting : AllCarry (some cell) history ((done ++ sent) ++ s'.correlator.real_queue) =
        rw (append_assoc done sent s'.correlator.real_queue, session_tick-pops s now r) h in
      let size' : s'.correlator.config.cell_bytes ≡ cell = ap (λ c. c.cell_bytes) config ∙ size in
      Returns-bind (session_run-Keeps s' events cell history (done ++ sent) ready size' waiting)
        λ out kept. (_, refl, rw (← append_assoc done sent (all_sent k out.0.frames)) kept)
  session_run-Keeps s (arrive packet now ∷ events) cell history done r size h =
      Returns-bind (session_inject_real-IsInjected m k s packet now r) λ a put.
        let more = taken a.0 packet in
        let behind =
          AllCarry-append (some cell) history (done ++ s.correlator.real_queue) more put.padded h
            (rw (r.cell, size) at put.carried) in
        let waiting : AllCarry (some cell) (history ++ more) (done ++ a.1.correlator.real_queue) =
          rw (put.queue, ← append_assoc done s.correlator.real_queue put.padded) behind in
        let size' : a.1.correlator.config.cell_bytes ≡ cell =
          ap (λ c. c.0.cell_bytes) put.clock ∙ size in
        Returns-bind
          (session_run-Keeps a.1 events cell (history ++ more) done put.ready size' waiting)
          λ out kept. (_, refl, rw (← append_assoc history more out.0.accepted) kept)

  -- A session is a queue, first in first out: a run at a fixed rate from an empty queue returns, and
  -- the packets that it took in are, in their order and each padded or cut to the cell, those that its
  -- polls sent and then those that still wait. None is lost, doubled or overtaken.
  pub session_run_fifo :
      (s : ShapedSession m k) (events : List Event)
      → IsReady m k s
      → s.correlator.real_queue ≡ []
      → Returns
          (λ out.
            AllCarry
              (some s.correlator.config.cell_bytes)
              out.0.accepted
              (all_sent k out.0.frames ++ out.1.correlator.real_queue))
          (session_run m k s events)
  session_run_fifo s events r empty =
      session_run-Keeps s events s.correlator.config.cell_bytes [] [] r refl (rw empty tt)
