-- ===== src/Emitter/Delivery.antt =====
-- The emitter of src/transport.rs over many services, and the receiver at the other end of the wire.
use mix_tor.Base.{
  if◌then◌else◌, ap₂, ok, Result, ◌>>=◌, suc, ◌*◌, false, some, refl, ℕ, ◌<◌, ◌≡◌, refl, ap₂, List,
  [], ◌∷◌, ◌++◌, length, All,
}
use mix_tor.Packet.{MixedFrame}
use mix_tor.Frame.{Aead, FrameCipher}
use mix_tor.Strip.{frame_len_on_wire}
use mix_tor.Reader.{done}
use mix_tor.Composer.Config.{Stop}
use mix_tor.Composer.Parts.{Meters}
use mix_tor.Correlator.{Clock}
use mix_tor.Composer.Bursts.Order.{reals}
use mix_tor.Strip.{strip_and_forward}
use mix_tor.Packet.{Packet}
use mix_tor.Emitter.{FlowSlot, Pipe, service_flow}
use mix_tor.Strip.Forward.{real_data, IsCell, sealed}
use mix_tor.Emitter.Pull.{cipher_after}

module _ (a : Aead) where
  -- The first bytes of a stream of sealed frames: whole frames, and a part of one.
  record IsPrefix (fs : List MixedFrame) (c : FrameCipher) (xs : List ℕ) : Type 0 where
    whole : List MixedFrame
    later : List MixedFrame
    part : List ℕ
    frames : fs ≡ whole ++ later
    bytes : xs ≡ sealed a whole c ++ part
    short : length part < frame_len_on_wire
    cells : All IsCell whole

module _ (m : Meters) (k : Clock) (p : Pipe) (a : Aead) where
  -- The services of one flow at some instants, until it is dropped.
  pub serve : FlowSlot m k p → List ℕ → Result Stop (FlowSlot m k p)
  serve flow [] = ok flow
  serve flow (now ∷ times) =
      service_flow m k p a flow now >>= λ out. if out.0 then serve out.1 times else ok out.1

  -- What many services do: the wire and the bytes that wait hold the sealed frames in order.
  record IsServed (flow flow' : FlowSlot m k p) : Type 0 where
    frames : List MixedFrame
    cells : All IsCell frames
    sent :
        Pipe.sent p flow'.wire ++ flow'.pending
        ≡ (Pipe.sent p flow.wire ++ flow.pending) ++ sealed a frames flow.cipher
    cipher : flow'.cipher ≡ cipher_after a frames flow.cipher
    taken : List Packet
    order :
        reals frames ++ flow'.session.correlator.real_queue
        ≡ flow.session.correlator.real_queue ++ taken

  -- What the receiver makes of the wire's bytes: `whole` are the frames that have arrived entirely.
  pub record IsDelivered (flow flow' : FlowSlot m k p) : Type 0 where
    pub whole : List MixedFrame
    pub later : List MixedFrame
    pub taken : List Packet
    pub order :
        reals (whole ++ later) ++ flow'.session.correlator.real_queue
        ≡ flow.session.correlator.real_queue ++ taken
    pub arrived : length (Pipe.sent p flow'.wire) < frame_len_on_wire * suc (length whole)
    pub delivered :
        strip_and_forward a
          (record { bytes = Pipe.sent p flow'.wire; breaks = false })
          flow.cipher
          (length (Pipe.sent p flow'.wire))
        ≡ (real_data whole, some done)
