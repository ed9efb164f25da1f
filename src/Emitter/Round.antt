-- ===== src/Emitter/Round.antt =====
-- One round of the loop of `service_flow` in src/transport.rs over the slots that have come.
use mix_tor.Base.{
  false, ap₂, refl, [], ◌∷◌, none, some, true, ap, ◌∙◌, ◌++◌, suc, leb, suc, ◌++◌, Option, some, ℕ,
  ◌≡◌, refl, ◌∙◌, ap, List, [], ◌∷◌, Returns, Returns-bind, Bool,
}
use mix_tor.Packet.{dummy, real, frame_len, Packet, MixedFrame}
use mix_tor.Frame.{Aead}
use mix_tor.Strip.{encode_frame}
use mix_tor.Correlator.{Clock}
use mix_tor.Correlator.Schedule.{sent_len, seen_due}
use mix_tor.Strip.Forward.{IsCell}
use mix_tor.Composer.Parts.{Meters}
use mix_tor.Shaped.{slot_ready, session_tick}
use mix_tor.Shaped.Fifo.{session_tick-pops}
use mix_tor.Correlator.Queue.{sent_packets}
use mix_tor.Composer.Bursts.Order.{reals}
use mix_tor.Shaped.Runs.{session_tick-IsReady}
use mix_tor.Emitter.Channel.{IsTaken}
use mix_tor.Emitter.Pull.{IsLive, pull-IsDrawn}
use mix_tor.Emitter.{slot_round, push_frame, FlowSlot, Pipe}

module _ (m : Meters) (k : Clock) (p : Pipe) (a : Aead) where
  -- What a closed gate leaves as it was.
  abbrev pub IsHeld : FlowSlot m k p → FlowSlot m k p → Type 0
  IsHeld flow flow' =
      (flow'.cell_rx ≡ flow.cell_rx)
      × (flow'.reader_done ≡ flow.reader_done)
      × (flow'.real_bytes ≡ flow.real_bytes)

  -- What the end of the reader leaves as it was.
  abbrev pub IsClosing : FlowSlot m k p → FlowSlot m k p → Type 0
  IsClosing flow flow' = (flow'.reader_done ≡ flow.reader_done) × (flow'.finish_by ≡ flow.finish_by)

  -- A frame of a cell, sealed behind the bytes that wait.
  pub record IsPushed (gate : Bool) (flow flow' : FlowSlot m k p) (f : MixedFrame) : Type 0 where
    pub live : IsLive m k p a flow'
    pub cell : IsCell f
    pub pending : flow'.pending ≡ flow.pending ++ (encode_frame a f flow.cipher).0.0
    pub cipher : flow'.cipher ≡ (encode_frame a f flow.cipher).1
    pub count : flow'.wire_seq ≡ suc flow.wire_seq
    pub taken : List Packet
    pub from_reader : IsTaken p flow.cell_rx taken flow'.cell_rx
    pub order :
        reals (f ∷ []) ++ flow'.session.correlator.real_queue
        ≡ flow.session.correlator.real_queue ++ taken
    pub held :
        gate ≡ false
        → (reals (f ∷ []) ++ flow'.session.correlator.real_queue
            ≡ flow.session.correlator.real_queue)
          × IsHeld flow flow'
    pub wire : flow'.wire ≡ flow.wire
    pub closing : flow.reader_done ≡ true → IsClosing flow flow'

  sized-IsCell : (f : MixedFrame) → some (frame_len f) ≡ some 514 → IsCell f
  sized-IsCell (real packet) e = cc e
  sized-IsCell (dummy bytes) e = cc e

  reals_of : (f : MixedFrame) → sent_packets k (some f) ≡ reals (f ∷ [])
  reals_of (real packet) = refl
  reals_of (dummy bytes) = refl

  sized_frame :
      (frame : Option MixedFrame)
      → sent_len k frame ≡ some 514
      → (f : MixedFrame) × (frame ≡ some f) × IsCell f
  sized_frame none e = cc e
  sized_frame (some f) e = (f, refl, sized-IsCell f e)

  pub slot_round-IsPushed :
      (flow : FlowSlot m k p) (gate : Bool) (now : ℕ)
      → slot_ready m k flow.session now ≡ true
      → IsLive m k p a flow
      → Returns
          (λ flow'. (f : MixedFrame) × IsPushed gate flow flow' f)
          (slot_round m k p a flow gate now)
  unfolding slot_round slot_ready push_frame
  slot_round-IsPushed flow gate now due l =
      Returns-bind (pull-IsDrawn m k p a flow gate now l) λ a' (pulled, still, shut).
        let (ready, view, config) = session_tick-IsReady m k a'.session now pulled.live.ready in
        let session = (session_tick m k a'.session now).1 in
        let due' : leb a'.session.correlator.next_departure now ≡ true =
          ap (λ c. leb c.2 now) pulled.clock ∙ due in
        let size : sent_len k (session_tick m k a'.session now).0 ≡ some 514 =
          ap (λ v. v.0) view
          ∙ seen_due k a'.session.correlator now due'
          ∙ ap some pulled.live.cells in
        let (f, given, sized) = sized_frame (session_tick m k a'.session now).0 size in
        let pops : reals (f ∷ []) ++ session.correlator.real_queue
            ≡ a'.session.correlator.real_queue =
          rw (← reals_of f, ← given) (session_tick-pops m k a'.session now pulled.live.ready) in
        let sealed_here = encode_frame a f a'.cipher in
        let flow' : FlowSlot m k p = record a' {
          session = session;
          cipher = sealed_here.1;
          wire_seq = suc a'.wire_seq;
          pending = a'.pending ++ sealed_here.0.0;
        } in
        let here : IsPushed gate flow flow' f = record {
          live = record {
            ready = ready;
            cells = ap (λ c. c.cell_bytes) config ∙ pulled.live.cells;
          };
          cell = sized;
          pending = ap₂ (λ bytes c. bytes ++ (encode_frame a f c).0.0) pulled.pending pulled.cipher;
          cipher = ap (λ c. (encode_frame a f c).1) pulled.cipher;
          count = ap suc pulled.count;
          taken = pulled.taken;
          from_reader = pulled.from_reader;
          order = pops ∙ pulled.queue;
          wire = pulled.wire;
          closing = λ done.
              let same = shut done in (ap (λ s. s.reader_done) same, ap (λ s. s.finish_by) same);
          held = λ closed.
              let same = still closed in
              (
                pops ∙ ap (λ s. s.session.correlator.real_queue) same,
                (
                  ap (λ s. s.cell_rx) same,
                  ap (λ s. s.reader_done) same,
                  ap (λ s. s.real_bytes) same,
                ),
              );
        } in
        rw given (_, refl, (f, here))
