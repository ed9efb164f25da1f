-- ===== src/Strip/Forward.antt =====
-- The receiving loop of src/transport.rs on what `encode_frame` wrote, and on any other bytes.
use mix_tor.Base.{
  leb_false→lt, ap, ◌∙◌, sym, length-drop, Result, ◌≢◌, inr, inl, Bool-cases, not, ◌&&◌, ◌==◌, ℕ,
  zero, suc, ◌*◌, ◌≤◌, ◌<◌, ◌≡◌, refl, List, [], ◌∷◌, ◌++◌, length, All, Bool, true, false, Option,
  none, some, if◌then◌else◌, take-append, drop-append, append_assoc, length-append, arith, ok, err,
  leb,
}
use mix_tor.Packet.{MixedFrame, real, dummy}
use mix_tor.Frame.{HandshakeError, kind_real, io, Aead, FrameCipher}
use mix_tor.Frame.Lockstep.{open_frame-seal, length-seal}
use mix_tor.Cell.{cell_bytes, decode_real_cell}
use mix_tor.Reader.{Outcome, done, io_error}
use mix_tor.Strip.{
  strip_round, Wire, frame_len_on_wire, kind_byte, cell_of, is_empty, encode_frame,
  read_sealed_frame, strip_loop, strip_and_forward, write_then,
}

-- The payloads of the real frames that are no close sentinels.
abbrev pub real_data : List MixedFrame → List (List ℕ)
real_data [] = []
real_data (dummy bytes ∷ fs) = real_data fs
real_data (real p ∷ fs) =
    let payload = (decode_real_cell p.bytes).1 in
    let rest = real_data fs in if is_empty payload then rest else payload ∷ rest

abbrev pub IsCell : MixedFrame → Type 0
IsCell f = length (cell_of f) ≡ cell_bytes

-- One round of the loop on a frame, given what the rest of the loop does.
on_frame :
    (f : MixedFrame) (fs : List MixedFrame) (takes : ℕ) (ending : Option Outcome)
    (next : ℕ → List (List ℕ) × Option Outcome)
    → length fs < takes
    → ((n : ℕ) → length fs ≤ n → next n ≡ (real_data fs, ending))
    → (if kind_byte f == kind_real && not (is_empty (decode_real_cell (cell_of f)).1)
        then write_then (decode_real_cell (cell_of f)).1 takes next
        else next takes)
      ≡ (real_data (f ∷ fs), ending)
unfolding write_then
on_frame (dummy bytes) fs takes ending next h rest = rest takes (omega arith)
on_frame (real p) fs zero ending next h rest = absurd (omega arith)
on_frame (real p) fs (suc takes) ending next h rest =
    elim (Bool-cases (is_empty (decode_real_cell p.bytes).1)) [
      | inl e ↦ rw e (rest (suc takes) (omega arith))
      | inr e ↦ rw (e, rest takes (omega arith)) refl
    ]

strip_round-ne-none :
    (r : Result HandshakeError (Option (ℕ × List ℕ)) × Wire × FrameCipher)
    (rest : Wire → FrameCipher → ℕ → List (List ℕ) × Option Outcome) (takes : ℕ)
    → ((f : ℕ × List ℕ) → r.0 ≡ ok (some f) → (n : ℕ) → (rest r.1 r.2 n).1 ≢ none)
    → (strip_round r rest takes).1 ≢ none
unfolding strip_round
strip_round-ne-none (err e, w, c) rest takes h = λ q. cc
strip_round-ne-none (ok none, w, c) rest takes h = λ q. cc
strip_round-ne-none (ok (some (kind, cell)), w, c) rest zero h =
    ground (arith, h (kind, cell) refl 0)
strip_round-ne-none (ok (some (kind, cell)), w, c) rest (suc takes) h =
    ground (arith, h (kind, cell) refl takes, h (kind, cell) refl (suc takes))

module _ (a : Aead) where
  -- What the sender writes for its frames, one after the other.
  abbrev pub sealed : List MixedFrame → FrameCipher → List ℕ
  sealed [] c = []
  sealed (f ∷ fs) c = let ((bytes, _), c') = encode_frame a f c in bytes ++ sealed fs c'

  pub length-encode_frame :
      (f : MixedFrame) (c : FrameCipher)
      → IsCell f
      → length (encode_frame a f c).0.0 ≡ frame_len_on_wire
  unfolding encode_frame
  length-encode_frame f c h = omega (arith, length-seal a c (kind_byte f) (cell_of f))

  -- What the sender writes for frames of one cell each is 531 bytes for each frame, real or dummy.
  pub length-sealed :
      (fs : List MixedFrame) (c : FrameCipher)
      → All IsCell fs
      → length (sealed fs c) ≡ frame_len_on_wire * length fs
  length-sealed [] c h = omega arith
  length-sealed (f ∷ fs) c h =
      let ((bytes, _), c') = encode_frame a f c in
      omega (
        arith,
        length-append bytes (sealed fs c'),
        length-encode_frame f c h.0,
        length-sealed fs c' h.1,
      )

  read_encoded :
      (f : MixedFrame) (c : FrameCipher) (more : List ℕ) (breaks : Bool)
      → IsCell f
      → let ((bytes, _), c') = encode_frame a f c in
        read_sealed_frame a (record { bytes = bytes ++ more; breaks = breaks }) c
        ≡ (ok (some (kind_byte f, cell_of f)), record { bytes = more; breaks = breaks }, c')
  unfolding read_sealed_frame
  read_encoded f c more breaks h =
      let bytes = (encode_frame a f c).0.0 in
      let n = length-encode_frame f c h in
      let long : leb frame_len_on_wire (length (bytes ++ more)) ≡ true =
        ground (arith, n, length-append bytes more) in
      let opened = open_frame-seal a c (kind_byte f) (cell_of f) in
      unfold encode_frame in
      rw (long, take-append frame_len_on_wire bytes more n)
        (rw (drop-append frame_len_on_wire bytes more n) (rw opened refl))

  read_short :
      (w : Wire) (c : FrameCipher)
      → length w.bytes < frame_len_on_wire
      → read_sealed_frame a w c ≡ (if w.breaks then err io else ok none, record w { bytes = [] }, c)
  unfolding read_sealed_frame
  read_short w c h =
      let short : leb frame_len_on_wire (length w.bytes) ≡ false = ground arith in rw short

  -- The loop on the frames of a sender in step, `tail` being less than a frame.
  strip_loop-sealed :
      (fs : List MixedFrame) (c : FrameCipher) (tail : List ℕ) (breaks : Bool) (fuel takes : ℕ)
      → All IsCell fs
      → length tail < frame_len_on_wire
      → length fs < fuel
      → length fs ≤ takes
      → strip_loop a fuel (record { bytes = sealed fs c ++ tail; breaks = breaks }) c takes
        ≡ (real_data fs, some (if breaks then io_error else done))
  unfolding strip_loop strip_round
  strip_loop-sealed fs c tail breaks zero takes h t k r = absurd (omega arith)
  strip_loop-sealed [] c tail true (suc fuel) takes h t k r =
      rw (read_short (record { bytes = tail; breaks = true }) c t, strip_round) refl
  strip_loop-sealed [] c tail false (suc fuel) takes h t k r =
      rw (read_short (record { bytes = tail; breaks = false }) c t, strip_round) refl
  strip_loop-sealed (f ∷ fs) c tail breaks (suc fuel) takes h t k r =
      let ((bytes, _), c') = encode_frame a f c in
      let read = read_encoded f c (sealed fs c' ++ tail) breaks h.0 in
      let next = λ (n : ℕ) (q : length fs ≤ n).
        strip_loop-sealed fs c' tail breaks fuel n h.1 t (omega arith) q in
      rw (append_assoc bytes (sealed fs c') tail)
        (rw (read, strip_round) (on_frame f fs takes _ _ r next))

  -- A receiver in step with the sender, whose output takes as many writes as there are frames, forwards
  -- the payloads of the real frames, in order and each in one write, whatever dummies stand between
  -- them; it drops what is less than a frame at the end, and it ends with an error if the wire breaks
  -- there and without one if the wire ends.
  pub strip_and_forward-sealed :
      (fs : List MixedFrame) (c : FrameCipher) (tail : List ℕ) (breaks : Bool) (takes : ℕ)
      → All IsCell fs
      → length tail < frame_len_on_wire
      → length fs ≤ takes
      → strip_and_forward a (record { bytes = sealed fs c ++ tail; breaks = breaks }) c takes
        ≡ (real_data fs, some (if breaks then io_error else done))
  unfolding strip_and_forward
  strip_and_forward-sealed fs c tail breaks takes h t r =
      strip_loop-sealed fs c tail breaks (suc (length (sealed fs c ++ tail))) takes h t
        (omega (arith, length-append (sealed fs c) tail, length-sealed fs c h)) r

  read_nothing :
      (w : Wire) (c : FrameCipher) (f : ℕ × List ℕ)
      → length w.bytes < frame_len_on_wire
      → (read_sealed_frame a w c).0 ≢ ok (some f)
  read_nothing w c f h e =
      let q : (if w.breaks then err io else ok none) ≡ ok (some f) =
        sym (ap (λ t. t.0) (read_short w c h)) ∙ e in
      elim (Bool-cases w.breaks) [ inl b ↦ cc (rw b at q) | inr b ↦ cc (rw b at q) ]

  read_shorter :
      (w : Wire) (c : FrameCipher) (f : ℕ × List ℕ)
      → (read_sealed_frame a w c).0 ≡ ok (some f)
      → (fuel : ℕ) → length w.bytes < suc fuel
      → length (read_sealed_frame a w c).1.bytes < fuel
  unfolding read_sealed_frame
  read_shorter w c f e fuel h = elim (Bool-cases (leb frame_len_on_wire (length w.bytes))) [
    | inl long ↦ rw long (
        let many : frame_len_on_wire ≤ length w.bytes = ground arith in
        omega (arith, length-drop frame_len_on_wire w.bytes))
    | inr short ↦ absurd (read_nothing w c f (leb_false→lt _ _ short) e)
  ]

  -- On any wire at all the loop ends before its fuel does.
  strip_loop-ne-none :
      (fuel : ℕ) (w : Wire) (c : FrameCipher) (takes : ℕ)
      → length w.bytes < fuel
      → (strip_loop a fuel w c takes).1 ≢ none
  unfolding strip_loop
  strip_loop-ne-none zero w c takes h = absurd (omega arith)
  strip_loop-ne-none (suc fuel) w c takes h =
      strip_round-ne-none (read_sealed_frame a w c) (strip_loop a fuel) takes
        (λ (f : ℕ × List ℕ) (e : (read_sealed_frame a w c).0 ≡ ok (some f)) (n : ℕ).
          strip_loop-ne-none fuel (read_sealed_frame a w c).1 (read_sealed_frame a w c).2 n
            (read_shorter w c f e fuel h))

  -- Whatever a peer sends, honest or not, `strip_and_forward` returns.
  pub strip_and_forward-ne-none :
      (w : Wire) (c : FrameCipher) (takes : ℕ) → (strip_and_forward a w c takes).1 ≢ none
  unfolding strip_and_forward
  strip_and_forward-ne-none w c takes =
      strip_loop-ne-none (suc (length w.bytes)) w c takes (omega arith)
