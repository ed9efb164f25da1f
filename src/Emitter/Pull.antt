-- ===== src/Emitter/Pull.antt =====
-- One pull from the reader in the loop of `service_flow` in src/transport.rs.
use mix_tor.Base.{
  false, sym, append-nil, refl, [], ◌∷◌, some, true, inl, inr, ap, ◌∙◌, ◌++◌, ◌++◌, some, ℕ, ◌≡◌,
  refl, ◌∙◌, ap, List, [], ◌∷◌, Result, ok, err, Returns, Returns-bind, Returns-map, Bool,
  Bool-cases, inl, inr, not, ◌&&◌,
}
use mix_tor.Packet.{Packet, MixedFrame, packet_new}
use mix_tor.Frame.{Aead, FrameCipher}
use mix_tor.Strip.{encode_frame}
use mix_tor.Correlator.{Clock}
use mix_tor.Correlator.Schedule.{clock_of}
use mix_tor.Composer.Config.{CompositionError}
use mix_tor.Composer.Parts.{Meters}
use mix_tor.Shaped.{ShapedSession, has_queue_space}
use mix_tor.Composer.Bursts.Order.{AllCarry}
use mix_tor.Shaped.Runs.{IsInjected, IsReady, session_inject_real-IsInjected}
use mix_tor.Emitter.Channel.{brought, IsTaken, none-IsTaken, one-IsTaken}
use mix_tor.Emitter.{
  FlowSlot, Pipe, Received, cell, empty, disconnected, close_reader, taken_in, take_packet,
  received, pull,
}

-- The cipher after some frames.
abbrev pub cipher_after : Aead → List MixedFrame → FrameCipher → FrameCipher
cipher_after a [] c = c
cipher_after a (f ∷ fs) c = cipher_after a fs (encode_frame a f c).1

module _ (m : Meters) (k : Clock) (p : Pipe) (a : Aead) where
  -- A flow whose session is at a fixed rate and has the cell size of the wire.
  pub record IsLive (flow : FlowSlot m k p) : Type 0 where
    pub ready : IsReady m k flow.session
    pub cells : flow.session.correlator.config.cell_bytes ≡ 514

  -- A pull that brings some packets leaves the clock, the wire's bytes, the cipher and their count, and
  -- the packets stand as cells behind the queue.
  record IsPulled (packets : List Packet) (flow flow' : FlowSlot m k p) : Type 0 where
    live : IsLive flow'
    clock : clock_of k flow'.session.correlator ≡ clock_of k flow.session.correlator
    pending : flow'.pending ≡ flow.pending
    cipher : flow'.cipher ≡ flow.cipher
    count : flow'.wire_seq ≡ flow.wire_seq
    wire : flow'.wire ≡ flow.wire
    taken : List Packet
    queue : flow'.session.correlator.real_queue ≡ flow.session.correlator.real_queue ++ taken
    carried : AllCarry (some 514) packets taken
    same_rx : flow'.cell_rx ≡ flow.cell_rx

  -- A session that took a packet in its flow.
  in_session :
      (flow flow' : FlowSlot m k p) (packet : Packet)
      (out : Result CompositionError (Unit {0}) × ShapedSession m k)
      → IsInjected m k flow.session packet out
      → out.0 ≡ ok tt
      → flow'.session ≡ out.1
      → flow'.cell_rx ≡ flow.cell_rx
      → flow'.pending ≡ flow.pending
      → flow'.cipher ≡ flow.cipher
      → flow'.wire_seq ≡ flow.wire_seq
      → flow'.wire ≡ flow.wire
      → IsLive flow
      → IsPulled (packet ∷ []) flow flow'
  in_session flow flow' packet out put accepted s rx e c n w l =
      let size : out.1.correlator.config.cell_bytes ≡ 514 =
        ap (λ c. c.0.cell_bytes) put.clock ∙ l.cells in
      record {
        live = record { ready = rw s put.ready; cells = rw s size };
        clock = rw s put.clock;
        pending = e;
        cipher = c;
        count = n;
        wire = w;
        taken = put.padded;
        queue = rw s put.queue;
        carried = rw (← l.cells, ← l.ready.cell) (rw accepted at put.carried);
        same_rx = rx;
      }

  taken_in-IsPulled :
      (flow : FlowSlot m k p) (n : ℕ) (packet : Packet)
      (out : Result CompositionError (Unit {0}) × ShapedSession m k)
      → IsInjected m k flow.session packet out
      → out.0 ≡ ok tt
      → IsLive flow
      → IsPulled (packet ∷ []) flow (taken_in m k p a flow n out)
  unfolding taken_in
  taken_in-IsPulled flow n packet (ok u, session) put accepted l =
      in_session flow _ packet (ok u, session) put accepted refl refl refl refl refl refl l
  taken_in-IsPulled flow n packet (err e, session) put accepted l = cc accepted

  same-IsPulled :
      (flow flow' : FlowSlot m k p)
      → flow'.session ≡ flow.session
      → flow'.cell_rx ≡ flow.cell_rx
      → flow'.pending ≡ flow.pending
      → flow'.cipher ≡ flow.cipher
      → flow'.wire_seq ≡ flow.wire_seq
      → flow'.wire ≡ flow.wire
      → IsLive flow
      → IsPulled [] flow flow'
  same-IsPulled flow flow' s rx e c n w l = record {
    live = record { ready = rw s l.ready; cells = rw s l.cells };
    clock = rw s;
    pending = e;
    cipher = c;
    count = n;
    wire = w;
    taken = [];
    queue = rw s (sym (append-nil flow.session.correlator.real_queue));
    carried = tt;
    same_rx = rx;
  }

  take_packet-IsPulled :
      (flow : FlowSlot m k p) (n : ℕ) (packet : Packet) (now : ℕ)
      → has_queue_space m k flow.session ≡ true
      → IsLive flow
      → Returns (IsPulled (packet ∷ []) flow) (take_packet m k p a flow n (ok packet) now)
  unfolding take_packet
  take_packet-IsPulled flow n packet now space l =
      Returns-bind (session_inject_real-IsInjected m k flow.session packet now l.ready)
        λ out put. (_, refl, taken_in-IsPulled flow n packet out put (put.fits space) l)

  received-IsPulled :
      (flow : FlowSlot m k p) (got : Received) (now : ℕ)
      → has_queue_space m k flow.session ≡ true
      → IsLive flow
      → Returns (IsPulled (brought got) flow) (received m k p a flow got now)
  unfolding received close_reader take_packet packet_new
  received-IsPulled flow (cell []) now space l =
      (flow, refl, same-IsPulled flow flow refl refl refl refl refl refl l)
  received-IsPulled flow (cell (b ∷ bs)) now space l =
      take_packet-IsPulled flow _ (record { bytes = b ∷ bs }) now space l
  received-IsPulled flow empty now space l =
      (flow, refl, same-IsPulled flow flow refl refl refl refl refl refl l)
  received-IsPulled flow disconnected now space l =
      (_, refl, same-IsPulled flow _ refl refl refl refl refl refl l)

  open_queue : (b c gate : Bool) → (not b && c && gate) ≡ true → c ≡ true
  open_queue false true gate e = refl
  open_queue false false gate e = cc e
  open_queue true c gate e = cc e

  -- The same of a pull, and its packets are those that the channel gave.
  pub record IsDrawn (flow flow' : FlowSlot m k p) : Type 0 where
    pub live : IsLive flow'
    pub clock : clock_of k flow'.session.correlator ≡ clock_of k flow.session.correlator
    pub pending : flow'.pending ≡ flow.pending
    pub cipher : flow'.cipher ≡ flow.cipher
    pub count : flow'.wire_seq ≡ flow.wire_seq
    pub wire : flow'.wire ≡ flow.wire
    pub taken : List Packet
    pub queue : flow'.session.correlator.real_queue ≡ flow.session.correlator.real_queue ++ taken
    pub from_reader : IsTaken p flow.cell_rx taken flow'.cell_rx

  same-IsDrawn : (flow : FlowSlot m k p) → IsLive flow → IsDrawn flow flow
  same-IsDrawn flow l = record {
    live = l;
    clock = refl;
    pending = refl;
    cipher = refl;
    count = refl;
    wire = refl;
    taken = [];
    queue = sym (append-nil flow.session.correlator.real_queue);
    from_reader = none-IsTaken p flow.cell_rx;
  }

  closed_gate : (b c gate : Bool) → (b && c && gate) ≡ true → gate ≡ false → ⊥
  closed_gate true true true e g = cc g
  closed_gate true true false e g = cc e
  closed_gate true false gate e g = cc e
  closed_gate false c gate e g = cc e

  closed_reader : (b c gate : Bool) → (not b && c && gate) ≡ true → b ≡ true → ⊥
  closed_reader true c gate e g = cc e
  closed_reader false c gate e g = cc g

  -- Under a closed gate, and after the reader has ended, a pull does nothing.
  pub pull-IsDrawn :
      (flow : FlowSlot m k p) (gate : Bool) (now : ℕ)
      → IsLive flow
      → Returns
          (λ flow'.
            IsDrawn flow flow'
            × (gate ≡ false → flow' ≡ flow)
            × (flow.reader_done ≡ true → flow' ≡ flow))
          (pull m k p a flow gate now)
  unfolding pull
  pull-IsDrawn flow gate now l =
      let (got, rx) = Pipe.try_recv p flow.cell_rx in
      let flow' : FlowSlot m k p = record flow { cell_rx = rx } in
      let live : IsLive flow' = record { ready = l.ready; cells = l.cells } in
      elim (Bool-cases (not flow.reader_done && has_queue_space m k flow.session && gate)) [
        | inl e ↦ rw e (
            Returns-map
              (received-IsPulled flow' got now (open_queue flow.reader_done _ gate e) live)
              λ out h. (
                record {
                  live = h.live;
                  clock = h.clock;
                  pending = h.pending;
                  cipher = h.cipher;
                  count = h.count;
                  wire = h.wire;
                  taken = h.taken;
                  queue = h.queue;
                  from_reader = rw h.same_rx (one-IsTaken p flow.cell_rx h.taken h.carried);
                },
                λ closed. absurd (
                    closed_gate (not flow.reader_done) (has_queue_space m k flow.session) gate e
                      closed),
                λ closed. absurd (
                    closed_reader flow.reader_done (has_queue_space m k flow.session) gate e
                      closed),
              ))
        | inr e ↦ rw e (flow, refl, (same-IsDrawn flow l, λ _. refl, λ _. refl))
      ]
