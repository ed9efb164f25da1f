-- ===== src/Relay/Hold.antt =====
-- What the hold phase keeps, delays and loses.
use mix_tor.Base.{
  length-append, leb_false→lt, Option, lt→leb_false, true, false, inr, inl, leb, Bool-cases, ap,
  concat, ◌++◌, true, All, ◌≡◌, length, ◌+◌, Bool, List, ℕ, ◌∷◌, [], refl, none, some, arith, ◌≤◌,
  ◌<◌,
}
use mix_tor.Relay.{
  Arrivals, channel_closes, gate_opens, message, unread, epoch_hold_max_bytes, hold_loop, push_held,
  hold, relay_writes,
}

-- The gate opens before the channel closes.
abbrev pub Opens : Arrivals → Type 0
Opens channel_closes = ⊥
Opens (gate_opens after) = Unit {0}
Opens (message data' rest) = Opens rest

-- Every message is a cell's payload at most.
abbrev pub IsSmall : List ℕ → Type 0
IsSmall m = length m ≤ 510

hold_loop_lossless :
    (n : ℕ) (a : Arrivals)
    → Opens a
    → (held live : List (List ℕ)) × (hold_loop n a ≡ some (held, live)) × (held ++ live ≡ unread a)
unfolding hold_loop push_held
hold_loop_lossless n channel_closes o = absurd o
hold_loop_lossless n (gate_opens after) o = ([], after, refl, refl)
hold_loop_lossless n (message m rest) o = elim (Bool-cases (leb epoch_hold_max_bytes n)) [
  | inl e ↦ ([], m ∷ unread rest, rw e refl, refl)
  | inr e ↦
      let (held, live, run, all) = hold_loop_lossless (n + length m) rest o in
      (m ∷ held, live, rw (e, run) refl, ap (λ t. m ∷ t) all)
]

-- If the gate opens before the channel closes, or was open at the start, the bridge gets every message,
-- each once and in order, however many were held.
pub relay_lossless :
    (waits : Bool) (a : Arrivals)
    → (waits ≡ true → Opens a)
    → relay_writes waits a ≡ some (unread a)
unfolding relay_writes hold
relay_lossless true a o =
    let (held, live, run, all) = hold_loop_lossless 0 a (o refl) in
    rw (run, relay_writes) (ap some all)
relay_lossless false a o = refl

-- The bytes in `held`.
held_total : Option (List (List ℕ) × List (List ℕ)) → ℕ
held_total none = 0
held_total (some (held, live)) = length (concat held)

held_total-push_held :
    (m : List ℕ) (o : Option (List (List ℕ) × List (List ℕ)))
    → held_total (push_held m o) ≤ length m + held_total o
unfolding held_total push_held
held_total-push_held m none = omega arith
held_total-push_held m (some (held, live)) = omega (arith, length-append m (concat held))

hold_loop_bounded :
    (n : ℕ) (a : Arrivals)
    → n < epoch_hold_max_bytes + 510
    → All IsSmall (unread a)
    → n + held_total (hold_loop n a) < epoch_hold_max_bytes + 510
unfolding hold_loop held_total
hold_loop_bounded n channel_closes h small = elim (Bool-cases (leb epoch_hold_max_bytes n)) [
  | inl e ↦ rw e (omega arith)
  | inr e ↦ rw e (omega arith)
]
hold_loop_bounded n (gate_opens after) h small = omega arith
hold_loop_bounded n (message m rest) h small = elim (Bool-cases (leb epoch_hold_max_bytes n)) [
  | inl e ↦ rw e (omega arith)
  | inr e ↦
      let below = leb_false→lt _ _ e in
      let later = hold_loop_bounded (n + length m) rest (omega (arith, small.0)) small.1 in
      rw e (omega (arith, held_total-push_held m (hold_loop (n + length m) rest)))
]

-- The buffer of the hold phase is bounded: whatever arrives, in messages of a cell's payload at most, it
-- holds fewer than 256 KiB and one payload more.
pub hold_bounded :
    (a : Arrivals) (held live : List (List ℕ))
    → All IsSmall (unread a)
    → hold true a ≡ some (held, live)
    → length (concat held) < epoch_hold_max_bytes + 510
unfolding hold held_total
hold_bounded a held live small e =
    let bound = hold_loop_bounded 0 a (omega arith) small in
    let same : held_total (hold_loop 0 a) ≡ length (concat held) = rw e refl in omega arith

-- Messages, and then the end of the channel.
abbrev pub closing : List (List ℕ) → Arrivals
closing [] = channel_closes
closing (m ∷ ms) = message m (closing ms)

hold_loop-closing :
    (n : ℕ) (ms : List (List ℕ))
    → n + length (concat ms) < epoch_hold_max_bytes
    → hold_loop n (closing ms) ≡ none
unfolding hold_loop push_held
hold_loop-closing n [] h = rw (lt→leb_false epoch_hold_max_bytes n (omega arith)) refl
hold_loop-closing n (m ∷ ms) h =
    let total = length-append m (concat ms) in
    rw (lt→leb_false epoch_hold_max_bytes n (omega arith))
      (rw (hold_loop-closing (n + length m) ms (omega arith)) refl)

-- A stream that is closed while it is held, with fewer than 256 KiB received, is dropped with all that it
-- sent: the bridge is not even connected to, whether messages were held or not.
pub relay_closed_early :
    (ms : List (List ℕ))
    → length (concat ms) < epoch_hold_max_bytes
    → relay_writes true (closing ms) ≡ none
unfolding relay_writes hold
relay_closed_early ms h = rw (hold_loop-closing 0 ms (omega arith), relay_writes) refl
