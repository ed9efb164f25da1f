-- ===== src/Shaped/Independence.antt =====
-- What an observer of the wire sees of a run of a `ShapedSession`, in src/composition.rs: when frames
-- leave, and their sizes.
use mix_tor.Base.{
  ℕ, ◌≡◌, refl, sym, ◌∙◌, ap, ap₂, List, [], ◌∷◌, Option, Returns, Returns-bind, Returns-map, map,
}
use mix_tor.Correlator.{Clock, TimingCorrelatorConfig}
use mix_tor.Correlator.Schedule.{clock_of, seen, sent_len}
use mix_tor.Composer.Parts.{Meters}
use mix_tor.Shaped.Runs.{
  Event, poll, arrive, polls, session_run, IsReady, session_inject_real-IsInjected,
  session_tick-IsReady,
}
use mix_tor.Shaped.{ShapedSession, session_tick}

-- What is seen of the polls at some instants, from the clock alone.
seen_run :
    (k : Clock)
    → TimingCorrelatorConfig × Clock.State k × ℕ × Clock.Mean k
    → List ℕ
    → List (Option ℕ)
seen_run k c [] = []
seen_run k c (now ∷ times) = let (size, c') = seen k c now in size ∷ seen_run k c' times

module _ (m : Meters) (k : Clock) where
  session_run-seen :
      (s : ShapedSession m k) (events : List Event)
      → IsReady m k s
      → Returns
          (λ out.
            map (sent_len k) out.0.frames ≡ seen_run k (clock_of k s.correlator) (polls events))
          (session_run m k s events)
  unfolding session_run seen_run
  session_run-seen s [] r = (_, refl, refl)
  session_run-seen s (poll now ∷ events) r =
      let (ready, view, _) = session_tick-IsReady m k s now r in
      Returns-bind (session_run-seen (session_tick m k s now).1 events ready) λ a e. (
        _,
        refl,
        ap₂ (λ x xs. x ∷ xs) (ap (λ p. p.0) view)
            (e ∙ ap (λ c. seen_run k c (polls events)) (ap (λ p. p.1) view)),
      )
  session_run-seen s (arrive packet now ∷ events) r =
      Returns-bind (session_inject_real-IsInjected m k s packet now r) λ a put.
        Returns-bind (session_run-seen a.1 events put.ready)
          λ out e. (_, refl, e ∙ ap (λ c. seen_run k c (polls events)) put.clock)

  -- What an observer sees does not depend on the traffic: for two sessions at a fixed rate whose clocks
  -- agree, and two runs with polls at the same instants, whatever packets arrive in each, of any
  -- number and size and at any time between the polls, both runs return, and poll for poll either both
  -- send a frame, of one size, or neither does.
  pub session_run_independent :
      (s t : ShapedSession m k) (events events' : List Event)
      → IsReady m k s
      → IsReady m k t
      → clock_of k s.correlator ≡ clock_of k t.correlator
      → polls events ≡ polls events'
      → Returns
          (λ out.
            Returns
              (λ out'. map (sent_len k) out.0.frames ≡ map (sent_len k) out'.0.frames)
              (session_run m k t events'))
          (session_run m k s events)
  session_run_independent s t events events' r r' clock times =
      Returns-map (session_run-seen s events r) λ out e.
        Returns-map (session_run-seen t events' r')
          λ out' e'. e ∙ ap₂ (seen_run k) clock times ∙ sym e'
