-- ===== src/Composer/Bursts/Order.antt =====
-- How dummies are dropped between the real packets of a burst, in src/composition.rs.
use mix_tor.Base.{
  ℕ, zero, suc, ◌+◌, ◌-◌, ◌<◌, ◌≡◌, refl, ap, ◌∙◌, List, [], ◌∷◌, ◌++◌, All, All-append, Returns,
  Returns-bind, Returns-map, length, length-replicate, replicate, sum, arith, Bool-cases, inl, inr,
  ◌==◌, Option, none, some,
}
use mix_tor.Packet.{Packet, MixedFrame, real, dummy, frame_len}
use mix_tor.Composer.Config.{CompositionConfig, RatioRegime}
use mix_tor.Composer.Parts.{Meters}
use mix_tor.Composer.{SeedBComposer}
use mix_tor.Composer.Sound.{
  IsUsable, IsCell, Carries, Has, gen_range-Returns, dummy_payload-Has, pad_real_packet-Has,
}
use mix_tor.Composer.Bursts.{
  bump, scatter, dummy_gaps, dummies, lay, lay_all, interleave_preserving_real_order,
}

-- The real packets of a burst's frames, in order, and how many of its frames are dummies.
abbrev pub reals : List MixedFrame → List Packet
reals [] = []
reals (real packet ∷ frames) = packet ∷ reals frames
reals (dummy bytes ∷ frames) = reals frames

abbrev pub count_dummies : List MixedFrame → ℕ
count_dummies [] = 0
count_dummies (real packet ∷ frames) = count_dummies frames
count_dummies (dummy bytes ∷ frames) = suc (count_dummies frames)

-- Two lists of packets, the one as sent of the other.
abbrev pub AllCarry : Option ℕ → List Packet → List Packet → Type 0
AllCarry cell [] [] = Unit
AllCarry cell [] (q ∷ qs) = ⊥
AllCarry cell (p ∷ ps) [] = ⊥
AllCarry cell (p ∷ ps) (q ∷ qs) = Carries cell p q × AllCarry cell ps qs

-- The frames carry the packets in order, with `n` dummies, all of the cell's size.
pub record IsMixed (cell : Option ℕ) (packets : List Packet) (n : ℕ) (frames : List MixedFrame)
    : Type 0 where
  pub order : AllCarry cell packets (reals frames)
  pub dummies : count_dummies frames ≡ n
  pub sizes : All (λ f. IsCell cell (frame_len f)) frames

pub reals-append : (a b : List MixedFrame) → reals (a ++ b) ≡ reals a ++ reals b
reals-append [] b = refl
reals-append (real p ∷ a) b = ap (λ ps. p ∷ ps) (reals-append a b)
reals-append (dummy bytes ∷ a) b = reals-append a b

count_dummies-append :
    (a b : List MixedFrame) → count_dummies (a ++ b) ≡ count_dummies a + count_dummies b
count_dummies-append [] b = omega arith
count_dummies-append (real p ∷ a) b = count_dummies-append a b
count_dummies-append (dummy bytes ∷ a) b = omega (arith, count_dummies-append a b)

Carries-IsCell :
    (cell : Option ℕ) (p q : Packet) → Carries cell p q → IsCell cell (frame_len (real q))
Carries-IsCell none p q h = tt
Carries-IsCell (some n) p q h = h.0

-- Frames without a real packet, before frames that carry the packets.
append-IsMixed :
    {cell : Option ℕ} {packets : List Packet} {n k : ℕ} {a b : List MixedFrame}
    → IsMixed cell [] n a
    → IsMixed cell packets k b
    → IsMixed cell packets (n + k) (a ++ b)
append-IsMixed {cell = cell} {a = a} {b = b} h g =
    let only : reals a ≡ [] = no_reals cell (reals a) h.order in
    record {
      order = rw (reals-append a b, only) g.order;
      dummies = count_dummies-append a b ∙ omega (arith, h.dummies, g.dummies);
      sizes = All-append _ a b h.sizes g.sizes;
    }
  where
    no_reals : (cell : Option ℕ) (ps : List Packet) → AllCarry cell [] ps → ps ≡ []
    no_reals cell [] h = refl
    no_reals cell (p ∷ ps) h = absurd h

sum-bump : (gaps : List ℕ) (i : ℕ) → i < length gaps → sum (bump gaps i) ≡ suc (sum gaps)
sum-bump [] i h = absurd (omega arith)
sum-bump (g ∷ gs) zero h = omega arith
sum-bump (g ∷ gs) (suc i) h = omega (arith, sum-bump gs i (omega arith))

length-bump : (gaps : List ℕ) (i : ℕ) → length (bump gaps i) ≡ length gaps
length-bump [] i = refl
length-bump (g ∷ gs) zero = refl
length-bump (g ∷ gs) (suc i) = ap suc (length-bump gs i)

sum-replicate : (n : ℕ) → sum (replicate n 0) ≡ 0
sum-replicate zero = refl
sum-replicate (suc n) = omega (arith, sum-replicate n)

module _ (m : Meters) (k : CompositionConfig (Meters.F m) (Meters.DpConfig m))
    (r : RatioRegime) where
  -- Gaps for a number of packets, with room for a number of dummies.
  abbrev AreGaps : ℕ → ℕ → List ℕ × SeedBComposer m → Type 0
  AreGaps packets n out = (length out.0 ≡ suc packets) × (sum out.0 ≡ n) × Has m k r out.1

  abbrev pub Mixes : List Packet → ℕ → List MixedFrame × SeedBComposer m → Type 0
  Mixes packets n out = IsMixed k.cell_bytes packets n out.0 × Has m k r out.1

module _ (m : Meters) {k : CompositionConfig (Meters.F m) (Meters.DpConfig m)} {r : RatioRegime}
    (usable : IsUsable k) where
  scatter-AreGaps :
      (packets remaining : ℕ) (gaps : List ℕ) (c : SeedBComposer m)
      → length gaps ≡ suc packets
      → Has m k r c
      → Returns (AreGaps m k r packets (sum gaps + remaining)) (scatter m remaining gaps c)
  unfolding scatter
  scatter-AreGaps packets zero gaps c n h = (_, refl, (n, omega arith, h))
  scatter-AreGaps packets (suc remaining) gaps c n h =
      Returns-bind (gen_range-Returns _ 0 (length gaps - 1) c.rng (omega arith)) λ a b.
        let more = sum-bump gaps a.0 (omega arith) in
        Returns-map
          (scatter-AreGaps packets remaining (bump gaps a.0) (record c { rng = a.1 })
            (length-bump gaps a.0 ∙ n) h)
          λ out (l, s, kept). (l, omega arith, kept)

  spread-AreGaps :
      (packets n : ℕ) (c : SeedBComposer m)
      → Has m k r c
      → Returns (AreGaps m k r packets n) (scatter m n (replicate (packets + 1) 0) c)
  spread-AreGaps packets n c h =
      let start = sum-replicate (packets + 1) in
      let room : length (replicate {A = ℕ} (packets + 1) 0) ≡ suc packets =
        omega (arith, length-replicate {A = ℕ} (packets + 1) 0) in
      Returns-map (scatter-AreGaps packets n (replicate (packets + 1) 0) c room h)
        λ out (l, s, kept). (l, omega arith, kept)

  dummy_gaps-AreGaps :
      (packets n : ℕ) (c : SeedBComposer m)
      → Has m k r c
      → Returns (AreGaps m k r packets n) (dummy_gaps m packets n c)
  unfolding dummy_gaps
  dummy_gaps-AreGaps packets n c h = elim (Bool-cases (packets == 1)) [
    | inl e ↦
        let lone : packets ≡ 1 = ground arith in
        rw e (
          Returns-bind (gen_range-Returns _ 0 n c.rng (omega arith))
            λ a b. (_, refl, (omega arith, omega arith, h)))
    | inr e ↦ rw e (spread-AreGaps packets n c h)
  ]

  pub dummies-Mixes :
      (n : ℕ) (c : SeedBComposer m) → Has m k r c → Returns (Mixes m k r [] n) (dummies m n c)
  unfolding dummies
  dummies-Mixes zero c h = (_, refl, (record { order = tt; dummies = refl; sizes = tt }, h))
  dummies-Mixes (suc n) c h = Returns-bind (dummy_payload-Has m usable c h) λ a (h₁, size).
      Returns-bind (dummies-Mixes n a.1 h₁) λ b (mixed, h₂).
        let more : IsMixed k.cell_bytes [] (suc n) (dummy a.0 ∷ b.0) = record {
          order = mixed.order;
          dummies = ap suc mixed.dummies;
          sizes = (size, mixed.sizes);
        } in
        (_, refl, (more, h₂))

  lay-Mixes :
      (packets : List Packet) (gaps : List ℕ) (c : SeedBComposer m)
      → length gaps ≡ length packets
      → Has m k r c
      → Returns (Mixes m k r packets (sum gaps)) (lay m packets gaps c)
  unfolding lay
  lay-Mixes [] [] c n h = (_, refl, (record { order = tt; dummies = refl; sizes = tt }, h))
  lay-Mixes [] (gap ∷ gaps) c n h = absurd (omega arith)
  lay-Mixes (packet ∷ packets) [] c n h = absurd (omega arith)
  lay-Mixes (packet ∷ packets) (gap ∷ gaps) c n h =
      Returns-bind (pad_real_packet-Has m usable c packet h) λ a (h₁, carried).
        Returns-bind (dummies-Mixes gap a.1 h₁) λ b (after, h₂).
          Returns-bind (lay-Mixes packets gaps b.1 (omega arith) h₂) λ d (rest, h₃).
            let mixed = append-IsMixed after rest in
            let more : IsMixed k.cell_bytes (packet ∷ packets) (gap + sum gaps)
                (real a.0 ∷ (b.0 ++ d.0)) =
              record {
                order = (carried, mixed.order);
                dummies = mixed.dummies;
                sizes = (Carries-IsCell k.cell_bytes packet a.0 carried, mixed.sizes);
              } in
            (_, refl, (more, h₃))

  lay_all-Mixes :
      (packets : List Packet) (gaps : List ℕ) (c : SeedBComposer m)
      → length gaps ≡ suc (length packets)
      → Has m k r c
      → Returns (Mixes m k r packets (sum gaps)) (lay_all m packets gaps c)
  unfolding lay_all
  lay_all-Mixes packets [] c n h = absurd (omega arith)
  lay_all-Mixes packets (gap ∷ gaps) c n h = Returns-bind (dummies-Mixes gap c h) λ a (before, h₁).
      Returns-bind (lay-Mixes packets gaps a.1 (omega arith) h₁)
        λ b (rest, h₂). (_, refl, (append-IsMixed before rest, h₂))

  pub interleave-Mixes :
      (c : SeedBComposer m) (packets : List Packet) (n : ℕ)
      → Has m k r c
      → Returns (Mixes m k r packets n) (interleave_preserving_real_order m c packets n)
  unfolding interleave_preserving_real_order
  interleave-Mixes c packets n h =
      Returns-bind (dummy_gaps-AreGaps (length packets) n c h) λ a (l, s, h₁).
        Returns-map (lay_all-Mixes packets a.0 a.1 l h₁) λ out (mixed, kept). (rw (← s) mixed, kept)
