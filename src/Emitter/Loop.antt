-- ===== src/Emitter/Loop.antt =====
-- The loop of `service_flow` in src/transport.rs over the slots that have come.
use mix_tor.Base.{
  append-nil, append_assoc, sym, refl, inl, inr, true, false, [], ◌∷◌, ltb, ltb→lt, Bool-cases,
  Returns-bind, Returns-map, ℕ, zero, suc, ◌+◌, ◌≤◌, ◌<◌, ◌≡◌, refl, sym, ◌∙◌, ap, List, [], ◌∷◌,
  ◌++◌, append-nil, append_assoc, Returns, Returns-bind, Returns-map, Bool, true, false, Bool-cases,
  inl, inr, length, length-append, All, arith, ltb, ◌&&◌, ltb→lt,
}
use mix_tor.Packet.{Packet, MixedFrame}
use mix_tor.Composer.Bursts.Order.{reals, reals-append}
use mix_tor.Frame.{Aead}
use mix_tor.Strip.{encode_frame, frame_len_on_wire}
use mix_tor.Strip.Forward.{length-encode_frame, IsCell, sealed, length-encode_frame}
use mix_tor.Correlator.{Clock}
use mix_tor.Composer.Parts.{Meters}
use mix_tor.Shaped.{slot_ready}
use mix_tor.Shaped.{slot_ready}
use mix_tor.Strip.{frame_len_on_wire}
use mix_tor.Emitter.Round.{IsClosing, IsHeld, slot_round-IsPushed, IsPushed, slot_round-IsPushed}
use mix_tor.Emitter.Pull.{IsLive, cipher_after}
use mix_tor.Emitter.{FlowSlot, Pipe, pending_cap, more_slots, emit_slots}

module _ (m : Meters) (k : Clock) (p : Pipe) (a : Aead) where
  -- Frames of a cell each, sealed one after the other behind the bytes that wait.
  pub record Emits (gate : Bool) (flow flow' : FlowSlot m k p) (frames : List MixedFrame)
      : Type 0 where
    pub live : IsLive m k p a flow'
    pub cells : All IsCell frames
    pub pending : flow'.pending ≡ flow.pending ++ sealed a frames flow.cipher
    pub cipher : flow'.cipher ≡ cipher_after a frames flow.cipher
    pub count : flow'.wire_seq ≡ flow.wire_seq + length frames
    pub taken : List Packet
    pub order :
        reals frames ++ flow'.session.correlator.real_queue
        ≡ flow.session.correlator.real_queue ++ taken
    pub held :
        gate ≡ false
        → (reals frames ++ flow'.session.correlator.real_queue ≡ flow.session.correlator.real_queue)
          × IsHeld m k p a flow flow'
    pub wire : flow'.wire ≡ flow.wire
    pub closing : flow.reader_done ≡ true → IsClosing m k p a flow flow'

  pub none-Emits :
      (gate : Bool) (flow : FlowSlot m k p) → IsLive m k p a flow → Emits gate flow flow []
  none-Emits gate flow l = record {
    live = l;
    cells = tt;
    pending = sym (append-nil flow.pending);
    cipher = refl;
    count = omega arith;
    taken = [];
    order = sym (append-nil flow.session.correlator.real_queue);
    held = λ _. (refl, (refl, refl, refl));
    wire = refl;
    closing = λ _. (refl, refl);
  }

  push-order :
      (f : MixedFrame) (fs : List MixedFrame) (q q₁ q₂ t t₁ : List Packet)
      → reals (f ∷ []) ++ q₁ ≡ q ++ t
      → reals fs ++ q₂ ≡ q₁ ++ t₁
      → reals (f ∷ fs) ++ q₂ ≡ q ++ (t ++ t₁)
  push-order f fs q q₁ q₂ t t₁ e e₁ =
      rw
        (
          reals-append (f ∷ []) fs,
          append_assoc (reals (f ∷ [])) (reals fs) q₂,
          e₁,
          ← append_assoc (reals (f ∷ [])) q₁ t₁,
          e,
          append_assoc q t t₁,
        )
        refl

  push-Emits :
      {gate : Bool} (flow flow₁ flow₂ : FlowSlot m k p) (f : MixedFrame) (fs : List MixedFrame)
      → IsPushed m k p a gate flow flow₁ f
      → Emits gate flow₁ flow₂ fs
      → Emits gate flow flow₂ (f ∷ fs)
  push-Emits flow flow₁ flow₂ f fs h g =
      let bytes = (encode_frame a f flow.cipher).0.0 in
      let c' = (encode_frame a f flow.cipher).1 in
      let pending : flow₂.pending ≡ (flow.pending ++ bytes) ++ sealed a fs c' =
        rw (← h.pending, ← h.cipher) g.pending in
      let q = flow.session.correlator.real_queue in
      let q₁ = flow₁.session.correlator.real_queue in
      let q₂ = flow₂.session.correlator.real_queue in
      record {
        live = g.live;
        cells = (h.cell, g.cells);
        pending = pending ∙ append_assoc flow.pending bytes (sealed a fs c');
        cipher = rw (← h.cipher) g.cipher;
        count = omega (arith, g.count, h.count);
        taken = h.taken ++ g.taken;
        order = push-order f fs q q₁ q₂ h.taken g.taken h.order g.order;
        wire = g.wire ∙ h.wire;
        closing = λ done.
            let (d, f_by) = h.closing done in
            let (d₁, f_by₁) = g.closing (d ∙ done) in (d₁ ∙ d, f_by₁ ∙ f_by);
        held = λ closed.
            let (e, (rx, done, bytes)) = h.held closed in
            let (e₁, (rx₁, done₁, bytes₁)) = g.held closed in
            let order =
              push-order f fs q q₁ q₂ [] [] (e ∙ sym (append-nil q)) (e₁ ∙ sym (append-nil q₁)) in
            (order ∙ append-nil q, (rx₁ ∙ rx, done₁ ∙ done, bytes₁ ∙ bytes));
      }

  push-length :
      {gate : Bool} (flow flow₁ : FlowSlot m k p) (f : MixedFrame)
      → IsPushed m k p a gate flow flow₁ f
      → length flow₁.pending ≡ length flow.pending + frame_len_on_wire
  push-length flow flow₁ f h =
      let bytes = (encode_frame a f flow.cipher).0.0 in
      ap length h.pending
      ∙ length-append flow.pending bytes
      ∙ ap (λ n. length flow.pending + n) (length-encode_frame a f flow.cipher h.cell)

  -- What a run of the loop leaves: frames sealed, its condition false, and little over the cap.
  pub record Looped (gate : Bool) (flow : FlowSlot m k p) (now : ℕ) (flow' : FlowSlot m k p)
      : Type 0 where
    pub frames : List MixedFrame
    pub emits : Emits gate flow flow' frames
    pub over : more_slots m k p a flow' now ≡ false
    pub bound :
        length flow.pending < pending_cap + frame_len_on_wire
        → length flow'.pending < pending_cap + frame_len_on_wire

  both : (b c : Bool) → (b && c) ≡ true → (b ≡ true) × (c ≡ true)
  both true true e = (refl, refl)
  both true false e = cc e
  both false c e = cc e

  more_slots-both :
      (flow : FlowSlot m k p) (now : ℕ)
      → more_slots m k p a flow now ≡ true
      → (slot_ready m k flow.session now ≡ true) × (ltb (length flow.pending) pending_cap ≡ true)
  unfolding more_slots
  more_slots-both flow now e = both _ _ e

  full :
      (flow : FlowSlot m k p) (now : ℕ)
      → pending_cap ≤ length flow.pending
      → more_slots m k p a flow now ≡ false
  unfolding more_slots
  full flow now h = ground arith

  -- The loop over the slots that have come returns and ends by its own condition, no slot being due or
  -- the cap being reached, with any fuel that makes up the cap with the bytes that wait. It seals
  -- frames of one cell each, and fewer bytes wait than the cap and one frame, if that was so before.
  pub emit_slots-Looped :
      (fuel : ℕ) (flow : FlowSlot m k p) (gate : Bool) (now : ℕ)
      → pending_cap ≤ length flow.pending + fuel
      → IsLive m k p a flow
      → Returns (Looped gate flow now) (emit_slots m k p a fuel flow gate now)
  unfolding emit_slots
  emit_slots-Looped zero flow gate now h l = (
    flow,
    refl,
    record {
      frames = [];
      emits = none-Emits gate flow l;
      over = full flow now (omega arith);
      bound = λ b. b;
    },
  )
  emit_slots-Looped (suc fuel) flow gate now h l = elim (Bool-cases (more_slots m k p a flow now)) [
    | inl e ↦
        let (due, below) = more_slots-both flow now e in
        rw (e, emit_slots)
          (Returns-bind (slot_round-IsPushed m k p a flow gate now due l) λ flow₁ (f, pushed).
            let longer = push-length flow flow₁ f pushed in
            let below' = ltb→lt _ _ below in
            Returns-map (emit_slots-Looped fuel flow₁ gate now (omega arith) pushed.live)
              λ flow₂ rest. record {
                frames = f ∷ rest.frames;
                emits = push-Emits flow flow₁ flow₂ f rest.frames pushed rest.emits;
                over = rest.over;
                bound = λ b. rest.bound (omega arith);
              })
    | inr e ↦
        rw (e, emit_slots)
          (
            flow,
            refl,
            record { frames = []; emits = none-Emits gate flow l; over = e; bound = λ b. b },
          )
  ]
