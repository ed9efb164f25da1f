-- ===== src/Emitter/Run/End.antt =====
-- The loop of `run_emitter` in src/transport.rs: what it keeps, and when it ends.
use mix_tor.Base.{
  ok, ◌==◌, ◌&&◌, not, ℕ, suc, ◌≤◌, List, [], ◌∷◌, Bool, true, false, some, ◌≡◌, refl, length, All,
  All-append, All-map, arith, Returns, Returns-bind, Bool-cases, inl, inr,
}
use mix_tor.Composer.Parts.{Meters}
use mix_tor.Correlator.{Clock}
use mix_tor.Frame.{Aead}
use mix_tor.Emitter.{FlowSlot, Pipe}
use mix_tor.Emitter.Pull.{IsLive}
use mix_tor.Emitter.Gate.{service_flow_backstop}
use mix_tor.Emitter.Run.{Emitter, Round, run_emitter, admit}
use mix_tor.Emitter.Run.Once.{Serviced, all_done, keeps, drops, round_parts, service_flows_once}

module _ (m : Meters) (k : Clock) (p : Pipe) (a : Aead) where
  abbrev pub IsArriving : Round m k p → Type 0
  IsArriving r = All (IsLive m k p a) r.arrivals

  -- The emitter has returned only with no flow and no handle left.
  pub record IsKept (out : Bool × Emitter m k p) : Type 0 where
    pub live : All (IsLive m k p a) out.1.flows
    pub over : out.0 ≡ true → (out.1.flows ≡ []) × (out.1.reg_open ≡ false)

  admit-live :
      (flows : List (FlowSlot m k p)) (reg_open : Bool) (r : Round m k p)
      → All (IsLive m k p a) flows
      → IsArriving r
      → All (IsLive m k p a) (admit m k p a (record { flows = flows; reg_open = reg_open }) r).flows
  unfolding admit
  admit-live flows true r l n = All-append (IsLive m k p a) flows r.arrivals l n
  admit-live flows false r l n = l

  -- The test for the end.
  nothing_left :
      (flows : List (FlowSlot m k p)) (reg_open : Bool)
      → not reg_open && length flows == 0 ≡ true
      → (flows ≡ []) × (reg_open ≡ false)
  nothing_left [] false h = (refl, refl)
  nothing_left (f ∷ fs) false h =
      let more : (suc (length fs) == 0) ≡ false = ground arith in (cc (h, more), refl)
  nothing_left flows true h = (cc h, cc h)

  -- The emitter over any rounds, in which any flows are handed over: no call panics, and it returns
  -- only when all handles have been dropped and no flow is left.
  pub run_emitter-IsKept :
      (e : Emitter m k p) (rounds : List (Round m k p))
      → All (IsLive m k p a) e.flows
      → All IsArriving rounds
      → Returns IsKept (run_emitter m k p a e rounds)
  unfolding run_emitter
  run_emitter-IsKept e [] l n = (_, refl, record { live = l; over = λ h. cc h })
  run_emitter-IsKept e (r ∷ rounds) l (n, ns) =
      let e' = admit m k p a e r in
      let l' = admit-live e.flows e.reg_open r l n in
      elim (Bool-cases (not e'.reg_open && length e'.flows == 0)) [
        | inl h ↦
            rw (h, run_emitter)
              (_, refl, record { live = l'; over = λ _. nothing_left e'.flows e'.reg_open h })
        | inr h ↦
            rw (h, run_emitter)
              (Returns-bind (service_flows_once m k p a e'.flows r.times l') λ kept (_, _, _, live).
                run_emitter-IsKept (record e' { flows = kept }) rounds live ns)
      ]

  -- A flow whose reader has ended and whose forced close is due at `t`.
  abbrev pub IsExpired : ℕ → FlowSlot m k p → Type 0
  IsExpired t flow =
      IsLive m k p a flow
      × (flow.reader_done ≡ true)
      × (d : ℕ) × (flow.finish_by ≡ some d)
      × (d ≤ t)

  none_kept :
      (t : ℕ) {order kept : List (FlowSlot m k p)} {times : ℕ → ℕ}
      → ((j : ℕ) → t ≤ times j)
      → Serviced m k p a order times kept
      → All (IsExpired t) order
      → kept ≡ []
  none_kept t late all_done h = refl
  none_kept t {times = times} late (keeps {flow} e rest) ((l, done, d, by, due), hs) =
      let now = late 0 in
      let (out, e', over) =
        service_flow_backstop m k p a flow (times 0) d l done by (omega arith) in
      cc (e, e', over)
  none_kept t late (drops e rest) (h, hs) = none_kept t (λ j. late (suc j)) rest hs

  stopped :
      (next : Round m k p) (rounds : List (Round m k p))
      → run_emitter m k p a (record { flows = []; reg_open = false }) (next ∷ rounds)
        ≡ ok (true, record { flows = []; reg_open = false })
  unfolding run_emitter admit
  stopped next rounds = refl

  ends_at_once :
      (flows : List (FlowSlot m k p)) (reg_open : Bool) (next : Round m k p)
      (rounds : List (Round m k p))
      → flows ≡ []
      → reg_open ≡ false
      → Returns
          (λ out. (out.0 ≡ true) × (out.1.flows ≡ []) × (out.1.reg_open ≡ false))
          (run_emitter m k p a (record { flows = flows; reg_open = reg_open }) (next ∷ rounds))
  ends_at_once flows reg_open next rounds empty closed =
      rw (empty, closed) (_, stopped next rounds, (refl, refl, refl))

  -- The emitter ends: if all handles have been dropped when a round has admitted its flows, and every
  -- flow's reader has ended and its forced close is due at all instants of this round, then the
  -- emitter returns in this round or the next, with no flow left, whether or not any socket takes
  -- another byte.
  pub run_emitter_ends :
      (e : Emitter m k p) (r next : Round m k p) (rounds : List (Round m k p)) (t : ℕ)
      → (admit m k p a e r).reg_open ≡ false
      → All (IsExpired t) (admit m k p a e r).flows
      → ((j : ℕ) → t ≤ r.times j)
      → Returns
          (λ out. (out.0 ≡ true) × (out.1.flows ≡ []) × (out.1.reg_open ≡ false))
          (run_emitter m k p a e (r ∷ next ∷ rounds))
  unfolding run_emitter admit
  run_emitter_ends e r next rounds t closed expired late =
      let e' = admit m k p a e r in
      elim (Bool-cases (not e'.reg_open && length e'.flows == 0)) [
        | inl h ↦
            let (none_left, _) = nothing_left e'.flows e'.reg_open h in
            rw (h, run_emitter) (_, refl, (refl, none_left, closed))
        | inr h ↦
            rw (h, run_emitter)
              (Returns-bind
                (round_parts m k p a (IsExpired t) e'.flows r.times
                  (All-map (IsExpired t) (IsLive m k p a) (λ f x. x.0) e'.flows expired) expired)
                λ kept (order, same, serviced, live, gone).
                  ends_at_once kept e'.reg_open next rounds (none_kept t late serviced gone) closed)
      ]
