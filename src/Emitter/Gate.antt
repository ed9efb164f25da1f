-- ===== src/Emitter/Gate.antt =====
-- The epoch's entry gate and the forced close of a flow in the emitter of src/transport.rs.
use mix_tor.Base.{
  ℕ, ◌≤◌, ◌<◌, ◌≡◌, refl, sym, ◌∙◌, ap, List, [], ◌∷◌, ◌++◌, some, Returns, Returns-map, Bool, true,
  false, ◌&&◌, ◌||◌, Bool-cases, inl, inr, All, le→leb,
}
use mix_tor.Packet.{MixedFrame}
use mix_tor.Frame.{Aead}
use mix_tor.Strip.Forward.{IsCell, sealed}
use mix_tor.Correlator.{Clock}
use mix_tor.Composer.Parts.{Meters}
use mix_tor.Composer.Bursts.Order.{reals}
use mix_tor.Emitter.Round.{IsHeld}
use mix_tor.Emitter.Pull.{IsLive}
use mix_tor.Emitter.Service.{service_flow-parts}
use mix_tor.Emitter.{FlowSlot, Pipe, past_deadline, ended, service_flow}

no_more : {A : Type 0} (xs ys : List A) → xs ++ ys ≡ [] → (xs ≡ []) × (ys ≡ [])
no_more [] ys e = (refl, e)
no_more (x ∷ xs) ys e = cc e

and_or : (b c d : Bool) → b ≡ true → d ≡ true → (b && (c || d)) ≡ true
and_or true true true e g = refl
and_or true false true e g = refl
and_or true c false e g = cc g
and_or false c d e g = cc e

module _ (m : Meters) (k : Clock) (p : Pipe) (a : Aead) where
  -- Cover without traffic: frames of a cell each, none of them real, and nothing taken from the reader.
  pub record IsCover (flow flow' : FlowSlot m k p) : Type 0 where
    pub frames : List MixedFrame
    pub cells : All IsCell frames
    pub sent :
        Pipe.sent p flow'.wire ++ flow'.pending
        ≡ (Pipe.sent p flow.wire ++ flow.pending) ++ sealed a frames flow.cipher
    pub cover : reals frames ≡ []
    pub queue : flow'.session.correlator.real_queue ≡ []
    pub held : IsHeld m k p a flow flow'

  -- Before the epoch's boundary no traffic leaves: a service of a flow whose session has no real packet
  -- waiting, at a time before `real_hold_until`, returns; the frames that it seals are all dummies, the
  -- reader's channel, its end and the count of real bytes are left as they were, and no packet waits
  -- after it.
  pub service_flow_gate :
      (flow : FlowSlot m k p) (now : ℕ)
      → IsLive m k p a flow
      → flow.session.correlator.real_queue ≡ []
      → now < flow.real_hold_until
      → Returns (λ out. IsCover flow out.1) (service_flow m k p a flow now)
  service_flow_gate flow now l empty early =
      Returns-map (service_flow-parts m k p a flow now l) λ out (s, _).
        let (order, held) = s.held early in
        let (cover, queue) = no_more _ _ (order ∙ empty) in
        record {
          frames = s.frames;
          cells = s.cells;
          sent = s.sent;
          cover = cover;
          queue = queue;
          held = held;
        }

  ended_past :
      (flow : FlowSlot m k p) (t now : ℕ)
      → flow.reader_done ≡ true
      → flow.finish_by ≡ some t
      → t ≤ now
      → ended m k p a flow now ≡ true
  unfolding ended past_deadline
  ended_past flow t now done by h =
      let late : past_deadline m k p a flow.finish_by now ≡ true =
        ap (λ f. past_deadline m k p a f now) by ∙ le→leb t now h in
      and_or flow.reader_done _ _ done late

  -- No flow outlives its forced close: once the reader has ended, a service at or after `finish_by`
  -- returns and drops the flow, whatever waits to be written and however long the tail is.
  pub service_flow_backstop :
      (flow : FlowSlot m k p) (now t : ℕ)
      → IsLive m k p a flow
      → flow.reader_done ≡ true
      → flow.finish_by ≡ some t
      → t ≤ now
      → Returns (λ out. out.0 ≡ false) (service_flow m k p a flow now)
  service_flow_backstop flow now t l done by late =
      Returns-map (service_flow-parts m k p a flow now l) λ out (s, open_still).
        let (done', by') = s.closing done in
        let over = ended_past out.1 t now (done' ∙ done) (by' ∙ by) late in
        elim (Bool-cases out.0) [
          | inl e ↦ let still = open_still e in cc (sym over ∙ still)
          | inr e ↦ e
        ]
