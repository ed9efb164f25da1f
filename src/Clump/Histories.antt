-- ===== src/Clump/Histories.antt =====
-- Whole histories of a pool.
use mix_tor.Base.{
  le→leb, true, lt→leb_false, Option, false, ◌≤◌, length, ap, ◌<◌, append_assoc, All-append, ◌∙◌,
  sym, ◌≡◌, ◌++◌, ℕ, List, none, some, ◌∷◌, [], refl, arith,
}
use mix_tor.Base.Random.{Rng}
use mix_tor.Packet.{Packet}
use mix_tor.Clump.{
  flush_ready, timeout_reached, Burst, ClumpingPool, push, tick, flush, is_due, no_packets,
}
use mix_tor.Clump.Flush.{IsWell, IsBurst, IsArmed, flush_ready_all}
use mix_tor.Clump.Fifo.{
  idle-IsStep, idle-IsStep, packets_of, burst_list, IsStep, push-IsStep, tick-IsStep, flush-IsStep,
}

-- What can happen to a pool, at an instant.
pub data PoolOp : Type 0 where
  pushed : Packet → ℕ → PoolOp
  ticked flushed : ℕ → PoolOp

abbrev pub pushes : List PoolOp → List Packet
pushes [] = []
pushes (pushed p now ∷ ops) = p ∷ pushes ops
pushes (ticked now ∷ ops) = pushes ops
pushes (flushed now ∷ ops) = pushes ops

armed_waiting :
    (ps : List Packet) (d : Option ℕ)
    → IsArmed ps d
    → 0 < length ps
    → (no_packets ps ≡ false) × ((t : ℕ) × (d ≡ some t))
armed_waiting [] d a h = absurd (omega arith)
armed_waiting (p ∷ ps) d a h = (refl, a)

module _ (g : Rng) where
  -- Operations one after the other, oldest first: `Run p ops out q` sends `out` from `p` and ends in `q`.
  pub data Run : ClumpingPool g → List PoolOp → List Burst → ClumpingPool g → Type 0 where
    rest : {p : ClumpingPool g} → Run p [] [] p
    push_then :
        {p q r : ClumpingPool g} {packet : Packet} {now : ℕ} {out more : List Burst}
        {ops : List PoolOp}
        → push g p packet now ≡ some (out, q)
        → Run q ops more r
        → Run p (pushed packet now ∷ ops) (out ++ more) r
    tick_then :
        {p r : ClumpingPool g} {now : ℕ} {more : List Burst} {ops : List PoolOp}
        → Run (tick g p now).1 ops more r
        → Run p (ticked now ∷ ops) (burst_list (tick g p now).0 ++ more) r
    flush_then :
        {p r : ClumpingPool g} {now : ℕ} {more : List Burst} {ops : List PoolOp}
        → Run (flush g p now).1 ops more r
        → Run p (flushed now ∷ ops) (burst_list (flush g p now).0 ++ more) r

  packets_of-append : (xs ys : List Burst) → packets_of (xs ++ ys) ≡ packets_of xs ++ packets_of ys
  packets_of-append [] ys = refl
  packets_of-append (b ∷ xs) ys =
      rw (packets_of-append xs ys) (sym (append_assoc b.packets (packets_of xs) (packets_of ys)))

  -- Two stretches of a history make one.
  join :
      {p q r : ClumpingPool g} {xs ys : List Packet} {out more : List Burst}
      → IsStep g p xs out q
      → IsStep g q ys more r
      → IsStep g p (xs ++ ys) (out ++ more) r
  join {p = p} {q = q} {r = r} {xs = xs} {ys = ys} {out = out} {more = more} a b = record {
    well = b.well;
    same_config = b.same_config ∙ a.same_config;
    fifo =
        ap (λ t. t ++ r.buffered) (packets_of-append out more)
        ∙ append_assoc (packets_of out) (packets_of more) r.buffered
        ∙ ap (λ t. packets_of out ++ t) b.fifo
        ∙ sym (append_assoc (packets_of out) q.buffered ys)
        ∙ ap (λ t. t ++ ys) a.fifo
        ∙ append_assoc p.buffered xs ys;
    bursts = All-append (IsBurst p.config) out more a.bursts (rw a.same_config at b.bursts);
  }

  -- Every history of a well-formed pool runs to its end, since no push is stuck. The bursts sent and the
  -- packets still buffered are the packets that were buffered at first and those pushed, each once and in
  -- order; every burst has at least one packet and no more than its threshold, and its threshold is
  -- within the configured bounds; the pool is well formed at the end.
  pub Run-fifo :
      (p : ClumpingPool g) (ops : List PoolOp)
      → IsWell g p
      → (out : List Burst) × (q : ClumpingPool g) × Run p ops out q × IsStep g p (pushes ops) out q
  Run-fifo p [] w = ([], p, rest, idle-IsStep g p w)
  Run-fifo p (pushed x now ∷ ops) w =
      let (out, q, e, step) = push-IsStep g p x now w in
      let (more, r, run, steps) = Run-fifo q ops step.well in
      (out ++ more, r, push_then e run, join step steps)
  Run-fifo p (ticked now ∷ ops) w =
      let step = tick-IsStep g p now w in
      let (more, r, run, steps) = Run-fifo (tick g p now).1 ops step.well in
      (burst_list (tick g p now).0 ++ more, r, tick_then run, join step steps)
  Run-fifo p (flushed now ∷ ops) w =
      let step = flush-IsStep g p now w in
      let (more, r, run, steps) = Run-fifo (flush g p now).1 ops step.well in
      (burst_list (flush g p now).0 ++ more, r, flush_then run, join step steps)

  -- Latency: in a well-formed pool with packets a deadline is set. Before it `tick` does nothing; from it
  -- on, `tick` sends all the packets at once and leaves the pool empty with no deadline.
  pub tick_deadline :
      (p : ClumpingPool g)
      → IsWell g p
      → 0 < length p.buffered
      → (d : ℕ) × (p.deadline ≡ some d)
        × ((now : ℕ) → now < d → tick g p now ≡ (none, p))
        × ((now : ℕ)
            → d ≤ now
            → (b : Burst) × ((tick g p now).0 ≡ some b)
              × (b.packets ≡ p.buffered)
              × ((tick g p now).1.buffered ≡ [])
              × ((tick g p now).1.deadline ≡ none))
  unfolding tick is_due
  tick_deadline p w h =
      let (waits, (d, e)) = armed_waiting p.buffered p.deadline w.armed h in
      let early : (now : ℕ) → now < d → tick g p now ≡ (none, p) = λ now k.
        let due : is_due p.deadline now ≡ false = rw (e, is_due) (lt→leb_false d now k) in
        rw (due, tick) refl in
      let late : (now : ℕ)
          → d ≤ now
          → (b : Burst) × ((tick g p now).0 ≡ some b)
            × (b.packets ≡ p.buffered)
            × ((tick g p now).1.buffered ≡ [])
            × ((tick g p now).1.deadline ≡ none) =
        λ now k.
          let due : is_due p.deadline now ≡ true = rw (e, is_due) (le→leb d now k) in
          let (taken, empty, well, _) =
            flush_ready_all g p timeout_reached now w.config_valid (omega (arith, w.room)) in
          rw (due, waits, tick)
            ((flush_ready g p timeout_reached now).0, refl, taken, empty, rw empty at well.armed) in
      (d, e, early, late)
