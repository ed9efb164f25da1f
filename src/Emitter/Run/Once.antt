-- ===== src/Emitter/Run/Once.antt =====
-- The rounds of `run_emitter` in src/transport.rs: every flow is serviced once.
use mathlib.Core.List.Perm
use mix_tor.Base.{
  ℕ, zero, suc, ◌≤◌, List, [], ◌∷◌, ◌++◌, Perm, Bool, true, false, ok, ◌≡◌, refl, sym, ◌∙◌, length,
  All, arith, Returns, Returns-map, append_assoc, length-append,
}
use mix_tor.Composer.Parts.{Meters}
use mix_tor.Correlator.{Clock}
use mix_tor.Frame.{Aead}
use mix_tor.Emitter.{FlowSlot, Pipe, service_flow}
use mix_tor.Emitter.Pull.{IsLive}
use mix_tor.Emitter.Service.{service_flow-IsServiced}
use mix_tor.Emitter.Run.{last_first, later, after_service, service_from, service_flows}
use mix_tor.Emitter.Run.Vec.{
  get_elem?-front, get_elem?-end, set-front, swap_remove-front, last_first-perm, length-last_first,
  All-last_first,
}

module _ (m : Meters) (k : Clock) (p : Pipe) (a : Aead) where
  -- Flows that are serviced one after the other, and those that `service_flow` keeps.
  pub data Serviced : List (FlowSlot m k p) → (ℕ → ℕ) → List (FlowSlot m k p) → Type 0 where
    all_done : {times : ℕ → ℕ} → Serviced [] times []
    keeps :
        {flow flow' : FlowSlot m k p} {flows kept : List (FlowSlot m k p)} {times : ℕ → ℕ}
        → service_flow m k p a flow (times 0) ≡ ok (true, flow')
        → Serviced flows (later times) kept
        → Serviced (flow ∷ flows) times (flow' ∷ kept)
    drops :
        {flow flow' : FlowSlot m k p} {flows kept : List (FlowSlot m k p)} {times : ℕ → ℕ}
        → service_flow m k p a flow (times 0) ≡ ok (false, flow')
        → Serviced flows (later times) kept
        → Serviced (flow ∷ flows) times kept

  module _ (P : FlowSlot m k p → Type 0) where
    -- The flows behind an index have been serviced, and what stands in front is kept.
    record IsRound (front back : List (FlowSlot m k p)) (times : ℕ → ℕ)
        (out : List (FlowSlot m k p)) : Type 0 where
      order : List (FlowSlot m k p)
      kept : List (FlowSlot m k p)
      same : Perm back order
      serviced : Serviced order times kept
      live : All (IsLive m k p a) kept
      all : All P back → All P order
      whole : out ≡ front ++ kept

    at_end : (front : List (FlowSlot m k p)) (times : ℕ → ℕ) → IsRound front [] times (front ++ [])
    at_end front times = record {
      order = [];
      kept = [];
      same = Perm.refl [];
      serviced = all_done;
      live = tt;
      all = λ h. h;
      whole = refl;
    }

    kept_one :
        (front back : List (FlowSlot m k p)) (flow flow' : FlowSlot m k p) (times : ℕ → ℕ)
        (out : List (FlowSlot m k p))
        → service_flow m k p a flow (times 0) ≡ ok (true, flow')
        → IsLive m k p a flow'
        → IsRound (front ++ flow' ∷ []) back (later times) out
        → IsRound front (flow ∷ back) times out
    kept_one front back flow flow' times out e l r = record {
      order = flow ∷ r.order;
      kept = flow' ∷ r.kept;
      same = Perm.cons flow r.same;
      serviced = keeps e r.serviced;
      live = (l, r.live);
      all = λ h. (h.0, r.all h.1);
      whole = r.whole ∙ append_assoc front (flow' ∷ []) r.kept;
    }

    dropped_one :
        (front back : List (FlowSlot m k p)) (flow flow' : FlowSlot m k p) (times : ℕ → ℕ)
        (out : List (FlowSlot m k p))
        → service_flow m k p a flow (times 0) ≡ ok (false, flow')
        → IsRound front (last_first back) (later times) out
        → IsRound front (flow ∷ back) times out
    dropped_one front back flow flow' times out e r = record {
      order = flow ∷ r.order;
      kept = r.kept;
      same = Perm.cons flow (Perm.trans (last_first-perm back) r.same);
      serviced = drops e r.serviced;
      live = r.live;
      all = λ h. (h.0, r.all (All-last_first P back h.1));
      whole = r.whole;
    }

    -- The rest of the loop is a loop over fewer flows, whatever the service answered.
    continued :
        (fuel : ℕ) (front back : List (FlowSlot m k p)) (flow : FlowSlot m k p) (times : ℕ → ℕ)
        (out : Bool × FlowSlot m k p)
        → ((front' back' : List (FlowSlot m k p))
            → length back' ≤ fuel
            → All (IsLive m k p a) back'
            → Returns
                (IsRound front' back' (later times))
                (service_from m k p a fuel (front' ++ back') (length front') (later times)))
        → length back ≤ fuel
        → All (IsLive m k p a) back
        → service_flow m k p a flow (times 0) ≡ ok out
        → IsLive m k p a out.1
        → Returns (IsRound front (flow ∷ back) times) (
            let (flows', i') = after_service m k p a (front ++ flow ∷ back) (length front) out in
            service_from m k p a fuel flows' i' (later times))
    unfolding after_service
    continued fuel front back flow times (true, flow') more h l e live =
        let longer : length (front ++ flow' ∷ []) ≡ suc (length front) =
          omega (arith, length-append front (flow' ∷ [])) in
        rw (set-front front flow back flow') (
          rw (sym longer) (
            Returns-map (more (front ++ flow' ∷ []) back h l)
              λ out r. kept_one front back flow flow' times out e live r))
    continued fuel front back flow times (false, flow') more h l e live =
        rw (swap_remove-front front flow back) (
          Returns-map
            (more front (last_first back) (omega (arith, length-last_first back))
              (All-last_first (IsLive m k p a) back l))
            λ out r. dropped_one front back flow flow' times out e r)

    service_from-IsRound :
        (fuel : ℕ) (front back : List (FlowSlot m k p)) (times : ℕ → ℕ)
        → length back ≤ fuel
        → All (IsLive m k p a) back
        → Returns
            (IsRound front back times)
            (service_from m k p a fuel (front ++ back) (length front) times)
    unfolding service_from
    service_from-IsRound zero front [] times h l = (_, refl, at_end front times)
    service_from-IsRound zero front (flow ∷ back) times h l = absurd (omega arith)
    service_from-IsRound (suc fuel) front [] times h l =
        rw (get_elem?-end front, service_from) (_, refl, at_end front times)
    service_from-IsRound (suc fuel) front (flow ∷ back) times h (here, there) =
        let (out, e, s) = service_flow-IsServiced m k p a flow (times 0) here in
        rw (get_elem?-front front flow back, service_from)
          (rw e (
            continued fuel front back flow times out
              (λ front' back' h' l'. service_from-IsRound fuel front' back' (later times) h' l')
              (omega arith) there e s.live))

    -- A round for flows of which some property holds.
    pub round_parts :
        (flows : List (FlowSlot m k p)) (times : ℕ → ℕ)
        → All (IsLive m k p a) flows
        → All P flows
        → Returns
            (λ kept.
              (order : List (FlowSlot m k p)) × Perm flows order
              × Serviced order times kept
              × All (IsLive m k p a) kept
              × All P order)
            (service_flows m k p a flows times)
    unfolding service_flows
    round_parts flows times l h =
        Returns-map (service_from-IsRound (length flows) [] flows times (omega arith) l)
          λ out r. (r.order, r.same, rw r.whole r.serviced, rw r.whole r.live, r.all h)

  -- A round of the emitter over any number of flows services every flow exactly once: the flows stand in
  -- some order, in which each is serviced, the first at the first instant of the round and so on, and
  -- what is left is exactly the flows that `service_flow` keeps, as it returns them, in that order. No
  -- call panics.
  pub service_flows_once :
      (flows : List (FlowSlot m k p)) (times : ℕ → ℕ)
      → All (IsLive m k p a) flows
      → Returns
          (λ kept.
            (order : List (FlowSlot m k p)) × Perm flows order
            × Serviced order times kept
            × All (IsLive m k p a) kept)
          (service_flows m k p a flows times)
  service_flows_once flows times l =
      Returns-map (round_parts (IsLive m k p a) flows times l l)
        λ kept (order, same, serviced, live, _). (order, same, serviced, live)
