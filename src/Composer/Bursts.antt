-- ===== src/Composer/Bursts.antt =====
-- src/composition.rs: bursts of the synchronous path: `interleave_preserving_real_order`, `compose`,
-- `compose_keepalive`. A call reads the clock once, at `now`.
mod Budget
mod Tests
pub mod Order
use mix_tor.Base.{
  replicate, ◌++◌, Option, none, some, ◌>>=◌, saturating_add, max, ◌/◌, some, ◌==◌, saturating_add,
  length, min, ◌∷◌, Option, [], if◌then◌else◌, ℕ, zero, suc, ◌+◌, ◌-◌, List, Result, ok, err,
}
use mix_tor.Packet.{Packet, MixedFrame, real, dummy}
use mix_tor.Buckets.{observe_length}
use mix_tor.Clump.{Burst}
use mix_tor.Composer.Config.{RatioRegime, Stop, panicked}
use mix_tor.Composer.Parts.{Meters, gen_range}
use mix_tor.Composer.{
  SessionBounder, SeedBComposer, ingest_length, dummy_count_for_burst, dummy_payload,
  pad_real_packet, reset_keepalive_deadline, observe,
}

pub record MixedBurst : Type 0 where
  pub frames : List MixedFrame
  pub ratio_regime : RatioRegime
  pub real_packets : ℕ
  pub dummy_packets : ℕ

-- `gaps[i] += 1` for an index in the vector
abbrev pub bump : List ℕ → ℕ → List ℕ
bump [] i = []
bump (g ∷ gs) zero = suc g ∷ gs
bump (g ∷ gs) (suc i) = g ∷ bump gs i

abbrev pub dummy_bytes_of : List MixedFrame → ℕ
dummy_bytes_of [] = 0
dummy_bytes_of (real p ∷ frames) = dummy_bytes_of frames
dummy_bytes_of (dummy bytes ∷ frames) = length bytes + dummy_bytes_of frames

module _ (m : Meters) where
  -- The loop that drops the remaining dummies into random gaps.
  scatter : ℕ → List ℕ → SeedBComposer m → Result Stop (List ℕ × SeedBComposer m)
  scatter zero gaps c = ok (gaps, c)
  scatter (suc remaining) gaps c = do
    (gap, s) ← gen_range (Meters.rng m) 0 (length gaps - 1) c.rng
    scatter remaining (bump gaps gap) (record c { rng = s })

  -- A lone packet has a uniform number of dummies before it.
  dummy_gaps : ℕ → ℕ → SeedBComposer m → Result Stop (List ℕ × SeedBComposer m)
  unfolding scatter
  dummy_gaps packets remaining c =
      if packets == 1
      then (do
        (leading, s) ← gen_range (Meters.rng m) 0 remaining c.rng
        ok (leading ∷ (remaining - leading) ∷ [], record c { rng = s }))
      else scatter remaining (replicate (packets + 1) 0) c

  pub dummies : ℕ → SeedBComposer m → Result Stop (List MixedFrame × SeedBComposer m)
  dummies zero c = ok ([], c)
  dummies (suc n) c = do
    (bytes, c₁) ← dummy_payload m c
    (rest, c₂) ← dummies n c₁
    ok (dummy bytes ∷ rest, c₂)

  -- The real packets, each with the dummies of the gap after it.
  lay : List Packet → List ℕ → SeedBComposer m → Result Stop (List MixedFrame × SeedBComposer m)
  lay [] gaps c = ok ([], c)
  lay (packet ∷ packets) [] c = err panicked
  lay (packet ∷ packets) (gap ∷ gaps) c = do
    (padded, c₁) ← pad_real_packet m c packet
    (after, c₂) ← dummies gap c₁
    (rest, c₃) ← lay packets gaps c₂
    ok (real padded ∷ (after ++ rest), c₃)

  lay_all : List Packet → List ℕ → SeedBComposer m → Result Stop (List MixedFrame × SeedBComposer m)
  unfolding dummies lay
  lay_all packets [] c = err panicked
  lay_all packets (gap ∷ gaps) c = do
    (before, c₁) ← dummies gap c
    (rest, c₂) ← lay packets gaps c₁
    ok (before ++ rest, c₂)

  pub interleave_preserving_real_order :
      SeedBComposer m → List Packet → ℕ → Result Stop (List MixedFrame × SeedBComposer m)
  unfolding dummy_gaps lay_all
  interleave_preserving_real_order c real_packets dummy_packets = do
    (gaps, c₁) ← dummy_gaps (length real_packets) dummy_packets c
    lay_all real_packets gaps c₁

  pub ingest_packet : SeedBComposer m → Packet → SeedBComposer m
  ingest_packet c packet =
      let len = length packet.bytes in
      let c' = ingest_length m (ingest_length m (ingest_length m c len) len) len in
      record c' { optimal_padder = observe_length c'.optimal_padder len }

  pub ingest_packets : SeedBComposer m → List Packet → SeedBComposer m
  unfolding ingest_packet
  ingest_packets c [] = c
  ingest_packets c (packet ∷ packets) = ingest_packets (ingest_packet c packet) packets

  unfoldable pub record_one : SeedBComposer m → MixedFrame → SeedBComposer m
  record_one c frame =
      let clock = c.frame_clock_ms + 1 in
      record c {
        frame_clock_ms = clock;
        self_tester = Meters.record_frame m frame clock c.self_tester;
      }

  pub record_frames : SeedBComposer m → List MixedFrame → SeedBComposer m
  unfolding record_one
  record_frames c [] = c
  record_frames c (frame ∷ frames) = record_frames (record_one c frame) frames

  pub emitted : SeedBComposer m → List MixedFrame → SeedBComposer m
  unfolding record_frames
  emitted c frames =
      record_frames
        (record c {
          dummy_bytes_emitted = saturating_add c.dummy_bytes_emitted (dummy_bytes_of frames);
        })
        frames

  pub total_bytes : List Packet → ℕ
  total_bytes [] = 0
  total_bytes (packet ∷ packets) = length packet.bytes + total_bytes packets

  pub compose : SeedBComposer m → Burst → ℕ → Result Stop (MixedBurst × SeedBComposer m)
  unfolding ingest_packets emitted total_bytes
  compose c burst now = do
    let real_bytes = total_bytes burst.packets
    (dummy_count, c₁) ← dummy_count_for_burst m (ingest_packets c burst.packets) real_bytes
    (frames, c₂) ← interleave_preserving_real_order c₁ burst.packets dummy_count
    let mixed : MixedBurst = record {
      frames = frames;
      ratio_regime = c₂.regime;
      real_packets = length burst.packets;
      dummy_packets = dummy_count;
    }
    c₃ ← observe m (emitted c₂ frames) real_bytes (length burst.packets) now
    ok (mixed, reset_keepalive_deadline m (record c₃ { last_burst_at = now }) now)

  -- The dummies beyond the first that a session's volume target asks for.
  extra_dummies : SeedBComposer m → Option SessionBounder → ℕ → ℕ
  extra_dummies c none now = 0
  extra_dummies c (some bounder) now =
      let mean_pkt = (c.config.keepalive_min_bytes + c.config.keepalive_max_bytes) / 2 in
      Meters.needed m bounder c.dummy_bytes_emitted now / max mean_pkt 1

  pub compose_keepalive : SeedBComposer m → ℕ → Result Stop (MixedBurst × SeedBComposer m)
  unfolding extra_dummies dummies emitted
  compose_keepalive c now = do
    let extra = extra_dummies c c.session_bounder now
    let dummy_count = min (1 + extra) c.config.max_dummy_packets_per_burst
    (frames, c₁) ← dummies dummy_count c
    let c₂ = emitted c₁ frames
    ok (
      record {
        frames = frames;
        ratio_regime = c₂.regime;
        real_packets = 0;
        dummy_packets = dummy_count;
      },
      reset_keepalive_deadline m (record c₂ { last_burst_at = now }) now,
    )
