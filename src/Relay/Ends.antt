-- ===== src/Relay/Ends.antt =====
-- How a relay to the bridge ends, src/transport.rs: `bridge_stream_relay` after its hold phase, with a bridge
-- that refuses the connection or a write, and the same loop of `mux_tor_writer` towards Tor. The other
-- task of a relay is its reader (Reader); here it does not end first. A write takes its whole message or
-- nothing of it.
use mix_tor.Base.{
  ℕ, zero, suc, List, [], ◌∷◌, ◌++◌, Option, none, some, Bool, true, false, if◌then◌else◌, ◌≡◌,
  refl, ap,
}
use mix_tor.Relay.Hold.{Opens, relay_lossless}
use mix_tor.Relay.{unread, Arrivals, hold, relay_writes}

pub data RelayEnd : Type 0 where
  closed_before_gate refused write_failed shut_down : RelayEnd

-- The writes of a writer task: `accepts` says after how many of them one fails, if it does.
unfoldable pub write_each : List (List ℕ) → Option ℕ → List (List ℕ) × RelayEnd
write_each [] accepts = ([], shut_down)
write_each (data' ∷ rest) none = let (done, e) = write_each rest none in (data' ∷ done, e)
write_each (data' ∷ rest) (some zero) = ([], write_failed)
write_each (data' ∷ rest) (some (suc n)) =
    let (done, e) = write_each rest (some n) in (data' ∷ done, e)

-- `bridge_stream_writer`
abbrev pub bridge_stream_writer :
    List (List ℕ) → List (List ℕ) → Option ℕ → List (List ℕ) × RelayEnd
bridge_stream_writer held live accepts = write_each (held ++ live) accepts

-- `mux_tor_writer`, over what comes from its channel.
abbrev pub mux_tor_writer : List (List ℕ) → Option ℕ → List (List ℕ) × RelayEnd
mux_tor_writer down accepts = write_each down accepts

-- With the messages of `hold`, `connects` says whether the bridge takes the connection.
after_hold : Option (List (List ℕ) × List (List ℕ)) → Bool → Option ℕ → List (List ℕ) × RelayEnd
after_hold none connects accepts = ([], closed_before_gate)
after_hold (some (held, live)) connects accepts =
    if connects then bridge_stream_writer held live accepts else ([], refused)

unfoldable pub relay_ends_with : Bool → Arrivals → Bool → Option ℕ → List (List ℕ) × RelayEnd
unfolding after_hold
relay_ends_with waits arrivals connects accepts = after_hold (hold waits arrivals) connects accepts

-- What is written is the front of what there is, and all of it where the writer shuts the socket down.
abbrev IsFront : List (List ℕ) → List (List ℕ) × RelayEnd → Type 0
IsFront all out =
    (unwritten : List (List ℕ)) × (out.0 ++ unwritten ≡ all) × (out.1 ≡ shut_down → unwritten ≡ [])

write_each-IsFront :
    (messages : List (List ℕ)) (accepts : Option ℕ) → IsFront messages (write_each messages accepts)
unfolding write_each
write_each-IsFront [] accepts = ([], refl, λ e. refl)
write_each-IsFront (m ∷ ms) none =
    let (unwritten, front, whole) = write_each-IsFront ms none in
    (unwritten, ap (λ t. m ∷ t) front, whole)
write_each-IsFront (m ∷ ms) (some zero) = (m ∷ ms, refl, λ e. cc)
write_each-IsFront (m ∷ ms) (some (suc n)) =
    let (unwritten, front, whole) = write_each-IsFront ms (some n) in
    (unwritten, ap (λ t. m ∷ t) front, whole)

-- What a relay may have written when it ends: nothing where it ends before the gate or is refused.
abbrev pub IsEnded : Option (List (List ℕ)) → List (List ℕ) × RelayEnd → Type 0
IsEnded none out = out ≡ ([], closed_before_gate)
IsEnded (some all) out =
    (unwritten : List (List ℕ)) × (out.0 ++ unwritten ≡ all) × (out.1 ≡ shut_down → unwritten ≡ [])

after_hold-IsEnded :
    (held : Option (List (List ℕ) × List (List ℕ))) (connects : Bool) (accepts : Option ℕ)
    → IsEnded
        (elim held [ none ↦ none | some (h, l) ↦ some (h ++ l) ])
        (after_hold held connects accepts)
unfolding after_hold
after_hold-IsEnded none connects accepts = refl
after_hold-IsEnded (some (h, l)) true accepts = write_each-IsFront (h ++ l) accepts
after_hold-IsEnded (some (h, l)) false accepts = (h ++ l, refl, λ e. cc)

relay_ends_with-IsEnded :
    (waits : Bool) (arrivals : Arrivals) (connects : Bool) (accepts : Option ℕ)
    → IsEnded (relay_writes waits arrivals) (relay_ends_with waits arrivals connects accepts)
unfolding relay_writes relay_ends_with
relay_ends_with-IsEnded waits arrivals connects accepts =
    after_hold-IsEnded (hold waits arrivals) connects accepts

-- If the gate opens before the channel closes, or was open at the start, then however the bridge behaves
-- it gets a front part of the messages, each once, unchanged and in order, however many were held: all of
-- them where the relay's writer comes to shut the connection down.
pub relay_delivers :
    (waits : Bool) (a : Arrivals) (connects : Bool) (accepts : Option ℕ)
    → (waits ≡ true → Opens a)
    → IsEnded (some (unread a)) (relay_ends_with waits a connects accepts)
relay_delivers waits a connects accepts o =
    rw (relay_lossless waits a o) at (relay_ends_with-IsEnded waits a connects accepts)
