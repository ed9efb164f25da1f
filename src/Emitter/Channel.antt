-- ===== src/Emitter/Channel.antt =====
-- What the emitter of src/transport.rs takes from the channel of a flow's reader by `try_recv`.
use mix_tor.Base.{
  arith, ℕ, zero, suc, ◌+◌, ◌≡◌, refl, ◌∙◌, ap, List, [], ◌∷◌, ◌++◌, append_assoc, append-nil, some,
}
use mix_tor.Packet.{Packet}
use mix_tor.Composer.Bursts.Order.{AllCarry}
use mix_tor.Shaped.Fifo.{AllCarry-append}
use mix_tor.Emitter.{Pipe, Received, cell, empty, disconnected}

-- The packet that an answer of the channel brings: the bytes of a cell, unless there are none.
abbrev pub brought : Received → List Packet
brought (cell []) = []
brought (cell (b ∷ bs)) = record { bytes = b ∷ bs } ∷ []
brought empty = []
brought disconnected = []

module _ (p : Pipe) where
  -- The packets that so many polls of a channel bring, oldest first, and the channel after them.
  pub polled : ℕ → Pipe.Receiver p → List Packet × Pipe.Receiver p
  polled zero rx = ([], rx)
  polled (suc n) rx =
      let (got, rx₁) = Pipe.try_recv p rx in
      let (packets, rx₂) = polled n rx₁ in (brought got ++ packets, rx₂)

  -- Packets that are all that some polls of a channel bring, in order, each as a cell of 514 bytes.
  pub record IsTaken (rx : Pipe.Receiver p) (packets : List Packet) (rx' : Pipe.Receiver p)
      : Type 0 where
    pub polls : ℕ
    pub rest : rx' ≡ (polled polls rx).1
    pub carried : AllCarry (some 514) (polled polls rx).0 packets

  pub none-IsTaken : (rx : Pipe.Receiver p) → IsTaken rx [] rx
  unfolding polled
  none-IsTaken rx = record { polls = 0; rest = refl; carried = tt }

  pub one-IsTaken :
      (rx : Pipe.Receiver p) (packets : List Packet)
      → AllCarry (some 514) (brought (Pipe.try_recv p rx).0) packets
      → IsTaken rx packets (Pipe.try_recv p rx).1
  unfolding polled
  one-IsTaken rx packets h = record {
    polls = 1;
    rest = refl;
    carried = rw (append-nil (brought (Pipe.try_recv p rx).0)) h;
  }

  -- Polls and then more polls.
  polled-add :
      (n n' : ℕ) (rx : Pipe.Receiver p)
      → polled (n + n') rx
        ≡ ((polled n rx).0 ++ (polled n' (polled n rx).1).0, (polled n' (polled n rx).1).1)
  unfolding polled
  polled-add zero n' rx = let e : 0 + n' ≡ n' = omega arith in rw e refl
  polled-add (suc n) n' rx =
      let (got, rx₁) = Pipe.try_recv p rx in
      let later = (polled n' (polled n rx₁).1).0 in
      let e : suc n + n' ≡ suc (n + n') = omega arith in
      rw (e, polled-add n n' rx₁, append_assoc (brought got) (polled n rx₁).0 later) refl

  pub then-IsTaken :
      (rx rx₁ rx₂ : Pipe.Receiver p) (packets more : List Packet)
      → IsTaken rx packets rx₁
      → IsTaken rx₁ more rx₂
      → IsTaken rx (packets ++ more) rx₂
  then-IsTaken rx rx₁ rx₂ packets more h g =
      let (first, rx') = polled h.polls rx in
      let joined = polled-add h.polls g.polls rx in
      let rest : rx₂ ≡ (polled g.polls rx').1 = g.rest ∙ ap (λ r. (polled g.polls r).1) h.rest in
      let later : AllCarry (some 514) (polled g.polls rx').0 more = rw (← h.rest) g.carried in
      record {
        polls = h.polls + g.polls;
        rest = rw joined rest;
        carried =
            rw joined (
              AllCarry-append (some 514) first packets (polled g.polls rx').0 more h.carried later);
      }
