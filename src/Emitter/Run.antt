-- ===== src/Emitter/Run.antt =====
-- src/transport.rs: `run_emitter`. A vector is a list. What the registry's channel hands over in a round
-- and the instants at which its services read the clock are the round's; `sleep` is left out.
pub mod Once
pub mod End
pub mod Vec
use mix_tor.Base.{
  ℕ, zero, suc, List, [], ◌∷◌, ◌++◌, Bool, true, false, Option, none, some, Result, ok, err, length,
  ◌==◌, ◌>>=◌, ◌&&◌, not, if◌then◌else◌,
}
use mix_tor.Composer.Config.{Stop}
use mix_tor.Composer.Parts.{Meters}
use mix_tor.Correlator.{Clock}
use mix_tor.Frame.{Aead}
use mix_tor.Emitter.{FlowSlot, Pipe, service_flow}

module _ {ℓ} {A : Type ℓ} where
  pub get_elem? : List A → ℕ → Option A
  get_elem? [] i = none
  get_elem? (x ∷ xs) zero = some x
  get_elem? (x ∷ xs) (suc i) = get_elem? xs i

  -- `flows[i]` after a call that changed it
  pub set : List A → ℕ → A → List A
  set [] i y = []
  set (x ∷ xs) zero y = y ∷ xs
  set (x ∷ xs) (suc i) y = x ∷ set xs i y

  last_of : A → List A → A
  last_of x [] = x
  last_of x (y ∷ ys) = last_of y ys

  but_last : A → List A → List A
  but_last x [] = []
  but_last x (y ∷ ys) = x ∷ but_last y ys

  -- The last element comes first.
  pub last_first : List A → List A
  unfolding last_of but_last
  last_first [] = []
  last_first (x ∷ xs) = last_of x xs ∷ but_last x xs

  -- What `Vec::swap_remove` leaves: the last element stands where the one removed stood.
  pub swap_remove : List A → ℕ → List A
  unfolding last_first
  swap_remove [] i = []
  swap_remove (x ∷ xs) zero = last_first xs
  swap_remove (x ∷ xs) (suc i) = x ∷ swap_remove xs i

-- One round: the flows that `try_recv` hands over, whether it then says that all handles are dropped,
-- and the instants of the services, by their number in the round.
pub record Round (m : Meters) (k : Clock) (p : Pipe) : Type 0 where
  pub arrivals : List (FlowSlot m k p)
  pub closed : Bool
  pub times : ℕ → ℕ

-- The locals of `run_emitter`.
pub record Emitter (m : Meters) (k : Clock) (p : Pipe) : Type 0 where
  pub flows : List (FlowSlot m k p)
  pub reg_open : Bool

abbrev pub later : (ℕ → ℕ) → ℕ → ℕ
later times j = times (suc j)

module _ (m : Meters) (k : Clock) (p : Pipe) (a : Aead) where
  unfoldable pub admit : Emitter m k p → Round m k p → Emitter m k p
  admit e r =
      if e.reg_open then record { flows = e.flows ++ r.arrivals; reg_open = not r.closed } else e

  -- The vector and the index after a service at the index.
  after_service : List (FlowSlot m k p) → ℕ → Bool × FlowSlot m k p → List (FlowSlot m k p) × ℕ
  unfolding set swap_remove
  after_service flows i (true, flow) = (set flows i flow, suc i)
  after_service flows i (false, flow) = (swap_remove flows i, i)

  -- The loop over the flows; each service lowers the number of flows behind the index.
  service_from : ℕ → List (FlowSlot m k p) → ℕ → (ℕ → ℕ) → Result Stop (List (FlowSlot m k p))
  unfolding get_elem? after_service
  service_from zero flows i times = ok flows
  service_from (suc fuel) flows i times = elim (get_elem? flows i) [
    | none ↦ ok flows
    | some flow ↦ service_flow m k p a flow (times 0) >>= λ out.
        let (flows', i') = after_service flows i out in service_from fuel flows' i' (later times)
  ]

  pub service_flows : List (FlowSlot m k p) → (ℕ → ℕ) → Result Stop (List (FlowSlot m k p))
  unfolding service_from
  service_flows flows times = service_from (length flows) flows 0 times

  -- `run_emitter` over some rounds: whether it has returned, and its locals.
  pub run_emitter : Emitter m k p → List (Round m k p) → Result Stop (Bool × Emitter m k p)
  unfolding admit service_flows
  run_emitter e [] = ok (false, e)
  run_emitter e (r ∷ rounds) =
      let e' = admit e r in
      elim (not e'.reg_open && length e'.flows == 0) [
        | true ↦ ok (true, e')
        | false ↦ service_flows e'.flows r.times >>= λ flows.
            run_emitter (record e' { flows = flows }) rounds
      ]
