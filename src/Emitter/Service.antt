-- ===== src/Emitter/Service.antt =====
-- One service of a flow by the emitter of src/transport.rs.
use mix_tor.Base.{
  not, ◌&&◌, true, false, refl, append_assoc, append-nil, take, ap₂, ok, arith, if◌then◌else◌,
  Returns, Bool, length-append, sym, Returns-map, Returns-bind, ltb, leb, lt→leb_false, if_true,
  if_false, true, false, ◌⊎◌, suc, ℕ, zero, suc, ◌+◌, ◌<◌, ◌≡◌, refl, ◌∙◌, ap, List, [], ◌++◌,
  Bool-cases, inl, inr, length, take, drop, take-append-drop, All, ◌==◌,
}
use mix_tor.Packet.{Packet, MixedFrame}
use mix_tor.Frame.{Aead}
use mix_tor.Strip.{frame_len_on_wire}
use mix_tor.Strip.Forward.{IsCell, sealed}
use mix_tor.Correlator.{Clock}
use mix_tor.Composer.Parts.{Meters}
use mix_tor.Composer.Bursts.Order.{reals}
use mix_tor.Shaped.{session_restart_clock}
use mix_tor.Shaped.Runs.{session_restart_clock-IsReady}
use mix_tor.Emitter.Loop.{Emits, emit_slots-Looped, none-Emits}
use mix_tor.Emitter.Round.{IsClosing, IsHeld}
use mix_tor.Emitter.Pull.{IsLive, cipher_after}
use mix_tor.Emitter.{
  ended, accepted_len, emit_slots, service_flow, FlowSlot, Pipe, Written, wrote, would_block,
  write_error, pending_cap, start_clock, flushed, flush_pending,
}

module _ (m : Meters) (k : Clock) (p : Pipe) (a : Aead) where
  abbrev queue_of : FlowSlot m k p → List Packet
  queue_of flow = flow.session.correlator.real_queue

  -- A first service restarts the clock and leaves the rest.
  record IsStarted (flow flow' : FlowSlot m k p) : Type 0 where
    live : IsLive m k p a flow'
    queue : queue_of flow' ≡ queue_of flow
    pending : flow'.pending ≡ flow.pending
    cipher : flow'.cipher ≡ flow.cipher
    count : flow'.wire_seq ≡ flow.wire_seq
    held : IsHeld m k p a flow flow'
    wire : flow'.wire ≡ flow.wire
    closing : IsClosing m k p a flow flow'
    hold : flow'.real_hold_until ≡ flow.real_hold_until

  start_clock-cases :
      (flow : FlowSlot m k p) (now : ℕ)
      → (start_clock m k p a flow now ≡ flow)
        ⊎ (start_clock m k p a flow now ≡ record flow {
          session = session_restart_clock m k flow.session now;
          clock_started = true;
        })
  unfolding start_clock
  start_clock-cases flow now = elim (Bool-cases flow.clock_started) [
    | inl e ↦ inl (if_true flow.clock_started _ _ e)
    | inr e ↦ inr (if_false flow.clock_started _ _ e)
  ]

  start_clock-IsStarted :
      (flow : FlowSlot m k p) (now : ℕ)
      → IsLive m k p a flow
      → IsStarted flow (start_clock m k p a flow now)
  start_clock-IsStarted flow now l = elim (start_clock-cases flow now) [
    | inl e ↦ rw e (record {
      live = l;
      queue = refl;
      pending = refl;
      cipher = refl;
      count = refl;
      held = (refl, refl, refl);
      wire = refl;
      closing = (refl, refl);
      hold = refl;
    })
    | inr e ↦
        let (ready, config, queue) = session_restart_clock-IsReady m k flow.session now l.ready in
        rw e (record {
          live = record { ready = ready; cells = ap (λ c. c.cell_bytes) config ∙ l.cells };
          queue = queue;
          pending = refl;
          cipher = refl;
          count = refl;
          held = (refl, refl, refl);
          wire = refl;
          closing = (refl, refl);
          hold = refl;
        })
  ]

  -- A flush takes bytes from the front of those that wait, and leaves the rest of the flow.
  record IsFlushed (flow flow' : FlowSlot m k p) : Type 0 where
    wire : Pipe.Socket p
    written : List ℕ
    rest : List ℕ
    same : flow' ≡ record flow { wire = wire; pending = rest }
    split : written ++ rest ≡ flow.pending
    sent : Pipe.sent p wire ≡ Pipe.sent p flow.wire ++ written

  kept :
      (flow : FlowSlot m k p) (wire : Pipe.Socket p)
      → Pipe.sent p wire ≡ Pipe.sent p flow.wire
      → IsFlushed flow (record flow { wire = wire })
  kept flow wire e = record {
    wire = wire;
    written = [];
    rest = flow.pending;
    same = refl;
    split = refl;
    sent = e ∙ sym (append-nil (Pipe.sent p flow.wire));
  }

  flushed-IsFlushed :
      (flow : FlowSlot m k p) (out : Written × Pipe.Socket p)
      → Pipe.sent p out.1 ≡ Pipe.sent p flow.wire ++ take (accepted_len out.0) flow.pending
      → IsFlushed flow (flushed m k p a flow out).1
  unfolding flushed
  flushed-IsFlushed flow (wrote zero, wire) e = kept flow wire (e ∙ append-nil _)
  flushed-IsFlushed flow (wrote (suc n), wire) e = record {
    wire = wire;
    written = take (suc n) flow.pending;
    rest = drop (suc n) flow.pending;
    same = refl;
    split = take-append-drop (suc n) flow.pending;
    sent = e;
  }
  flushed-IsFlushed flow (would_block, wire) e = kept flow wire (e ∙ append-nil _)
  flushed-IsFlushed flow (write_error, wire) e = kept flow wire (e ∙ append-nil _)

  flush_pending-IsFlushed : (flow : FlowSlot m k p) → IsFlushed flow (flush_pending m k p a flow).1
  unfolding flush_pending
  flush_pending-IsFlushed flow = elim (Bool-cases (length flow.pending == 0)) [
    | inl e ↦ rw e (kept flow flow.wire refl)
    | inr e ↦ rw e (
        flushed-IsFlushed flow (Pipe.try_write p flow.wire flow.pending)
          (Pipe.sent-try_write p flow.wire flow.pending))
  ]

  -- What one service does: frames of a cell each are sealed in order, some bytes go to the wire from
  -- the front, and the real frames come in order from the session's queue and the reader.
  pub record IsServiced (flow : FlowSlot m k p) (now : ℕ) (flow' : FlowSlot m k p) : Type 0 where
    pub frames : List MixedFrame
    pub cells : All IsCell frames
    pub sent :
        Pipe.sent p flow'.wire ++ flow'.pending
        ≡ (Pipe.sent p flow.wire ++ flow.pending) ++ sealed a frames flow.cipher
    pub cipher : flow'.cipher ≡ cipher_after a frames flow.cipher
    pub count : flow'.wire_seq ≡ flow.wire_seq + length frames
    pub taken : List Packet
    pub order : reals frames ++ queue_of flow' ≡ queue_of flow ++ taken
    pub live : IsLive m k p a flow'
    pub held :
        now < flow.real_hold_until
        → (reals frames ++ queue_of flow' ≡ queue_of flow) × IsHeld m k p a flow flow'
    pub closing : flow.reader_done ≡ true → IsClosing m k p a flow flow'
    pub bound :
        length flow.pending < pending_cap + frame_len_on_wire
        → length flow'.pending < pending_cap + frame_len_on_wire

  -- The loop, or no loop where too many bytes wait already.
  loop_if_room :
      (flow : FlowSlot m k p) (gate : Bool) (now : ℕ)
      → IsLive m k p a flow
      → Returns
          (λ flow'.
            (frames : List MixedFrame) × Emits m k p a gate flow flow' frames
            × (length flow.pending < pending_cap + frame_len_on_wire
                → length flow'.pending < pending_cap + frame_len_on_wire))
          (if ltb (length flow.pending) pending_cap
            then emit_slots m k p a pending_cap flow gate now
            else ok flow)
  loop_if_room flow gate now l = elim (Bool-cases (ltb (length flow.pending) pending_cap)) [
    | inl e ↦ rw e (
        Returns-map (emit_slots-Looped m k p a pending_cap flow gate now (omega arith) l)
          λ out looped. (looped.frames, looped.emits, looped.bound))
    | inr e ↦ rw e (flow, refl, ([], none-Emits m k p a gate flow l, λ b. b))
  ]

  kept_open : (alive done : Bool) → (alive && not done) ≡ true → done ≡ false
  kept_open true true e = cc e
  kept_open true false e = refl
  kept_open false done e = cc e

  -- A service, and that a flow that is kept is not at its end.
  pub service_flow-parts :
      (flow : FlowSlot m k p) (now : ℕ)
      → IsLive m k p a flow
      → Returns
          (λ out. IsServiced flow now out.1 × (out.0 ≡ true → ended m k p a out.1 now ≡ false))
          (service_flow m k p a flow now)
  unfolding service_flow
  service_flow-parts flow now l =
      let started = start_clock-IsStarted flow now l in
      let flow₁ = start_clock m k p a flow now in
      let gate = leb flow₁.real_hold_until now in
      Returns-bind (loop_if_room flow₁ gate now started.live) λ flow₂ (frames, emits, bound).
        let flow₃ = (flush_pending m k p a flow₂).1 in
        let flush = flush_pending-IsFlushed flow₂ in
        let whole : flow₂.pending ≡ flow.pending ++ sealed a frames flow.cipher =
          emits.pending
          ∙ ap₂ (λ bytes c. bytes ++ sealed a frames c) started.pending started.cipher in
        let shorter : length flush.written + length flush.rest ≡ length flow₂.pending =
          sym (length-append flush.written flush.rest) ∙ ap length flush.split in
        let wire : Pipe.sent p flush.wire ≡ Pipe.sent p flow.wire ++ flush.written =
          flush.sent ∙ ap (λ w. Pipe.sent p w ++ flush.written) (emits.wire ∙ started.wire) in
        let stream : Pipe.sent p flush.wire ++ flush.rest
            ≡ (Pipe.sent p flow.wire ++ flow.pending) ++ sealed a frames flow.cipher =
          ap (λ w. w ++ flush.rest) wire
          ∙ append_assoc (Pipe.sent p flow.wire) flush.written flush.rest
          ∙ ap (λ w. Pipe.sent p flow.wire ++ w) (flush.split ∙ whole)
          ∙ sym (append_assoc (Pipe.sent p flow.wire) flow.pending (sealed a frames flow.cipher)) in
        let serviced : IsServiced flow now
            (record flow₂ { wire = flush.wire; pending = flush.rest }) =
          record {
            frames = frames;
            cells = emits.cells;
            sent = stream;
            cipher = emits.cipher ∙ ap (cipher_after a frames) started.cipher;
            count = omega (arith, emits.count, started.count);
            taken = emits.taken;
            order = emits.order ∙ ap (λ q. q ++ emits.taken) started.queue;
            live = record { ready = emits.live.ready; cells = emits.live.cells };
            closing = λ done.
                let (d₁, by₁) = started.closing in
                let (d, by) = emits.closing (d₁ ∙ done) in (d ∙ d₁, by ∙ by₁);
            held = λ early.
                let closed : gate ≡ false = lt→leb_false _ _ (rw started.hold early) in
                let (order, (rx, done, bytes)) = emits.held closed in
                let (rx₁, done₁, bytes₁) = started.held in
                (order ∙ started.queue, (rx ∙ rx₁, done ∙ done₁, bytes ∙ bytes₁));
            bound = λ b.
                let b₁ : length flow₁.pending < pending_cap + frame_len_on_wire =
                  rw started.pending b in
                let b₂ = bound b₁ in omega arith;
          } in
        (_, refl, (rw flush.same serviced, kept_open _ _))

  pub service_flow-IsServiced :
      (flow : FlowSlot m k p) (now : ℕ)
      → IsLive m k p a flow
      → Returns (λ out. IsServiced flow now out.1) (service_flow m k p a flow now)
  service_flow-IsServiced flow now l = Returns-map (service_flow-parts flow now l) λ out (s, _). s
