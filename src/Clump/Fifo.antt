-- ===== src/Clump/Fifo.antt =====
-- The packets in and out of the pool of src/clumping.rs at each operation.
use mix_tor.Base.{
  ap, ◌∙◌, ltb_false→le, lt→leb_false, ◌+◌, le→leb, length-append, inr, if_true, leb, ltb→lt, ltb,
  inl, if_false, if◌then◌else◌, false, arith, suc, sym, Bool-cases, none, some, append-nil, All,
  some, ◌++◌, length, ℕ, List, Option, [], ◌∷◌, refl, ◌≤◌, ◌<◌, ◌≡◌,
}
use mix_tor.Base.Random.{Rng}
use mix_tor.Packet.{Packet}
use mix_tor.Clump.{
  manual, timeout_reached, is_due, size_threshold, no_packets, rearm, cons_burst, push_loop, tick,
  push, flush, Burst, ClumpingPool, FlushReason, flush_ready,
}
use mix_tor.Clump.Flush.{IsArmed, IsValid, IsWithin, IsWell, IsBurst, flush_ready_all}

-- The packets of bursts, in order.
abbrev pub packets_of : List Burst → List Packet
packets_of [] = []
packets_of (b ∷ bs) = b.packets ++ packets_of bs

abbrev pub burst_list : Option Burst → List Burst
burst_list none = []
burst_list (some b) = b ∷ []

no_packets-false : (ps : List Packet) → no_packets ps ≡ false → 0 < length ps
no_packets-false [] h = cc
no_packets-false (p ∷ ps) h = omega arith

module _ (g : Rng) where
  -- From `p` with the packets `fresh` pushed, an operation sends `out` and leaves `q`.
  pub record IsStep (p : ClumpingPool g) (fresh : List Packet) (out : List Burst)
      (q : ClumpingPool g) : Type 0 where
    pub well : IsWell g q
    pub same_config : q.config ≡ p.config
    pub fifo : packets_of out ++ q.buffered ≡ p.buffered ++ fresh
    pub bursts : All (IsBurst p.config) out

  -- A flush of a non-empty pool that is no fuller than its threshold.
  flush_ready-IsStep :
      (p : ClumpingPool g) (reason : FlushReason) (now : ℕ)
      → IsValid p.config
      → IsWithin p.config p.thresholds
      → 0 < length p.buffered
      → length p.buffered ≤ p.thresholds.max_packets
      → let (burst, q) = flush_ready g p reason now in IsStep p [] (burst ∷ []) q
  flush_ready-IsStep p reason now v w h k =
      let (taken, empty, well, same) = flush_ready_all g p reason now v k in
      let burst = (flush_ready g p reason now).0 in
      let here : burst.threshold ≡ p.thresholds = unfold flush_ready in refl in
      record {
        well = well;
        same_config = same;
        fifo = rw (empty, taken) (append-nil (p.buffered ++ []));
        bursts = (
          record { not_empty = rw taken h; bounded = rw (taken, here) k; within = rw here w },
          tt,
        );
      }

  push_loop_stop :
      (fuel : ℕ) (p : ClumpingPool g) (now : ℕ)
      → length p.buffered < p.thresholds.max_packets
      → push_loop g (suc fuel) p now ≡ some ([], p)
  unfolding push_loop
  push_loop_stop fuel p now h =
      if_false (leb p.thresholds.max_packets (length p.buffered)) _ _ (lt→leb_false _ _ h)

  -- A flush that empties the pool is the loop's last one.
  push_loop_flush :
      (fuel : ℕ) (p : ClumpingPool g) (now : ℕ)
      → IsValid p.config
      → length p.buffered ≡ p.thresholds.max_packets
      → let (burst, q) = flush_ready g p size_threshold now in
        push_loop g (suc (suc fuel)) p now ≡ some (burst ∷ [], q)
  unfolding rearm push_loop cons_burst
  push_loop_flush fuel p now v h =
      let (burst, q) = flush_ready g p size_threshold now in
      let (_, empty, well, _) = flush_ready_all g p size_threshold now v (omega arith) in
      let idle : rearm g q now ≡ q = rw empty refl in
      let last : push_loop g (suc fuel) (rearm g q now) now ≡ some ([], q) =
        rw idle (push_loop_stop fuel q now well.room) in
      let first =
        if_true (leb p.thresholds.max_packets (length p.buffered)) _ _ (le→leb _ _ (omega arith)) in
      first ∙ ap (cons_burst g burst) last

  -- The loop on a pool that is no fuller than its threshold.
  push_loop-IsStep :
      (fuel : ℕ) (p : ClumpingPool g) (now : ℕ)
      → IsValid p.config
      → IsWithin p.config p.thresholds
      → IsArmed p.buffered p.deadline
      → 0 < length p.buffered
      → length p.buffered ≤ p.thresholds.max_packets
      → (out : List Burst) × (q : ClumpingPool g) × (push_loop g (suc (suc fuel)) p now
          ≡ some (out, q))
        × IsStep p [] out q
  push_loop-IsStep fuel p now v w a h k =
      elim (Bool-cases (ltb (length p.buffered) p.thresholds.max_packets)) [
        | inl e ↦
            let room = ltb→lt _ _ e in
            let well : IsWell g p = record {
              config_valid = v;
              within = w;
              room = room;
              armed = a;
            } in
            let still : IsStep p [] [] p = record {
              well = well;
              same_config = refl;
              fifo = sym (append-nil p.buffered);
              bursts = tt;
            } in
            ([], p, push_loop_stop (suc fuel) p now room, still)
        | inr e ↦
            let full : length p.buffered ≡ p.thresholds.max_packets =
              omega (arith, ltb_false→le _ _ e) in
            (
              _,
              _,
              push_loop_flush fuel p now v full,
              flush_ready-IsStep p size_threshold now v w h k,
            )
      ]

  -- The deadline that `push` leaves.
  push-IsArmed :
      (ps : List Packet) (x : Packet) (t : ℕ) (d : Option ℕ)
      → IsArmed ps d
      → IsArmed (ps ++ (x ∷ [])) (if no_packets ps then some t else d)
  push-IsArmed [] x t d h = (t, refl)
  push-IsArmed (p ∷ ps) x t d h = h

  -- A push into a well-formed pool ends with a well-formed pool. What it sends and what is buffered
  -- then is what was buffered and the packet, in order, and each burst is within bounds.
  pub push-IsStep :
      (p : ClumpingPool g) (packet : Packet) (now : ℕ)
      → IsWell g p
      → (out : List Burst) × (q : ClumpingPool g) × (push g p packet now ≡ some (out, q))
        × IsStep p (packet ∷ []) out q
  unfolding push
  push-IsStep p packet now w =
      let all = p.buffered ++ (packet ∷ []) in
      let n : length all ≡ suc (length p.buffered) =
        omega (arith, length-append p.buffered (packet ∷ [])) in
      let due = if no_packets p.buffered then some (now + p.thresholds.timeout) else p.deadline in
      let r : ClumpingPool g = record p { buffered = all; deadline = due } in
      let armed = push-IsArmed p.buffered packet (now + p.thresholds.timeout) p.deadline w.armed in
      let (out, q, run, step) =
        push_loop-IsStep (length p.buffered) r now w.config_valid w.within armed (omega arith)
          (omega (arith, w.room)) in
      let total : packets_of out ++ q.buffered ≡ all = step.fifo ∙ append-nil all in
      let done : IsStep p (packet ∷ []) out q = record {
        well = step.well;
        same_config = step.same_config;
        fifo = total;
        bursts = step.bursts;
      } in
      let steps : push g p packet now ≡ push_loop g (suc (suc (length p.buffered))) r now =
        ap (λ k. push_loop g (suc k) r now) n in
      (out, q, steps ∙ run, done)

  -- Nothing sent, nothing changed.
  pub idle-IsStep : (p : ClumpingPool g) → IsWell g p → IsStep p [] [] p
  idle-IsStep p w = record {
    well = w;
    same_config = refl;
    fifo = sym (append-nil p.buffered);
    bursts = tt;
  }

  flush_well-IsStep :
      (p : ClumpingPool g) (reason : FlushReason) (now : ℕ)
      → IsWell g p
      → no_packets p.buffered ≡ false
      → let (burst, q) = flush_ready g p reason now in IsStep p [] (burst ∷ []) q
  flush_well-IsStep p reason now w e =
      flush_ready-IsStep p reason now w.config_valid w.within (no_packets-false p.buffered e)
        (omega (arith, w.room))

  pub tick-IsStep :
      (p : ClumpingPool g) (now : ℕ)
      → IsWell g p
      → let (out, q) = tick g p now in IsStep p [] (burst_list out) q
  unfolding tick
  tick-IsStep p now w = elim (Bool-cases (is_due p.deadline now)) [
    | inr e ↦ rw (e, tick) (idle-IsStep p w)
    | inl e ↦ elim (Bool-cases (no_packets p.buffered)) [
      | inl f ↦ rw (e, f, tick) (idle-IsStep p w)
      | inr f ↦ rw (e, f, tick) (flush_well-IsStep p timeout_reached now w f)
    ]
  ]

  pub flush-IsStep :
      (p : ClumpingPool g) (now : ℕ)
      → IsWell g p
      → let (out, q) = flush g p now in IsStep p [] (burst_list out) q
  unfolding flush
  flush-IsStep p now w = elim (Bool-cases (no_packets p.buffered)) [
    | inl f ↦ rw (f, flush) (idle-IsStep p w)
    | inr f ↦ rw (f, flush) (flush_well-IsStep p manual now w f)
  ]
