-- ===== src/Tail/Epoch.antt =====
-- `EpochClock::next_boundary` of src/transport.rs: where the boundaries lie.
use mix_tor.Base.{
  refl, false, ◌==◌, false, ◌==◌, ℕ, ◌+◌, ◌-◌, ◌*◌, ◌/◌, ◌%◌, ◌^◌, ◌≤◌, ◌<◌, ◌≡◌, arith,
}
use native.Mathlib.Nat.{
  div-mul-le_self, lt-div-mul-add, div-eq_of_lt-le, mod-eq_of_lt, mul-mod_left, add-sub_cancel_left,
}
use mix_tor.Tail.{EpochClock, next_boundary}

-- The clock runs, has started, and its next boundary is a number of nanoseconds below 2^64.
pub record IsRunning (c : EpochClock) (now : ℕ) : Type 0 where
  pub ticks : 0 < c.period
  pub started : c.origin ≤ now
  pub in_range : (now - c.origin) + c.period < 2 ^ 64

module _ (c : EpochClock) (now : ℕ) (r : IsRunning c now) where
  next_boundary_runs :
      (x : ℕ) → next_boundary c x ≡ c.origin + ((x - c.origin) / c.period + 1) * c.period % 2 ^ 64
  unfolding next_boundary
  next_boundary_runs x = let runs : (c.period == 0) ≡ false = ground (arith, r.ticks) in rw runs

  next_boundary_lem : next_boundary c now ≡ c.origin + ((now - c.origin) / c.period + 1) * c.period
  next_boundary_lem =
      let p = c.period in
      let q = (now - c.origin) / p in
      let low : q * p ≤ now - c.origin = div-mul-le_self (now - c.origin) p in
      let small : (q + 1) * p < 2 ^ 64 = omega (arith, r.in_range) in
      rw (next_boundary_runs now, mod-eq_of_lt small)

  -- The boundary is strictly after `now`, at most one period away, and a whole number of periods after
  -- the clock's origin.
  pub next_boundary_next :
      (now < next_boundary c now)
      × (next_boundary c now ≤ now + c.period)
      × ((next_boundary c now - c.origin) % c.period ≡ 0)
  next_boundary_next =
      let p = c.period in
      let q = (now - c.origin) / p in
      let low : q * p ≤ now - c.origin = div-mul-le_self (now - c.origin) p in
      let high : now - c.origin < q * p + p = lt-div-mul-add r.ticks in
      rw next_boundary_lem (
        omega (arith, r.started),
        omega (arith, r.started),
        rw (add-sub_cancel_left c.origin ((q + 1) * p)) (mul-mod_left (q + 1) p),
      )

  -- Every instant from `now` up to the boundary has the same boundary: connections that start within
  -- one epoch are held to one instant.
  pub next_boundary_shared :
      (later : ℕ)
      → now ≤ later
      → later < next_boundary c now
      → next_boundary c later ≡ next_boundary c now
  next_boundary_shared later h k =
      let p = c.period in
      let q = (now - c.origin) / p in
      let low : q * p ≤ now - c.origin = div-mul-le_self (now - c.origin) p in
      let below : later < c.origin + (q + 1) * p = rw next_boundary_lem at k in
      let same : (later - c.origin) / p ≡ q =
        div-eq_of_lt-le p (omega (arith, r.started)) (omega (arith, r.started)) in
      rw (next_boundary_runs later, same, ← next_boundary_runs now) refl
