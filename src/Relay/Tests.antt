-- ===== src/Relay/Tests.antt =====
-- Runs of the hold phase.
use mix_tor.Base.{
  false, List, ◌+◌, ◌<◌, arith, concat, length, ◌≡◌, ℕ, [], ◌∷◌, refl, none, some, true,
}
use mix_tor.Relay.{Arrivals, gate_opens, message, unread, epoch_hold_max_bytes, hold, relay_writes}
use mix_tor.Relay.Ends.{IsEnded, relay_ends_with, relay_delivers, refused}
use mix_tor.Relay.Hold.{closing, relay_lossless, hold_bounded, relay_closed_early}

abbrev early : Arrivals
early = message (1 ∷ 2 ∷ []) (message (3 ∷ []) (gate_opens ((4 ∷ []) ∷ [])))

early_is_kept : relay_writes true early ≡ some (unread early)
early_is_kept = relay_lossless true early (λ e. tt)

holds : hold true early ≡ some ((1 ∷ 2 ∷ []) ∷ (3 ∷ []) ∷ [], (4 ∷ []) ∷ [])
unfolding hold
holds = refl

abbrev first_two : List (List ℕ)
first_two = (1 ∷ 2 ∷ []) ∷ (3 ∷ []) ∷ []

hold_bounded_run : length (concat first_two) < epoch_hold_max_bytes + 510
hold_bounded_run =
    hold_bounded early first_two ((4 ∷ []) ∷ []) (omega arith, (omega arith, (omega arith, tt)))
      holds

-- A stream of five bytes that is closed before the gate.
relay_closed_early_example :
    relay_writes true (closing ((1 ∷ 2 ∷ 3 ∷ []) ∷ (4 ∷ 5 ∷ []) ∷ [])) ≡ none
relay_closed_early_example = relay_closed_early ((1 ∷ 2 ∷ 3 ∷ []) ∷ (4 ∷ 5 ∷ []) ∷ []) (omega arith)

-- The bridge takes two writes and resets the connection.
relay_delivers_example : IsEnded (some (unread early)) (relay_ends_with true early true (some 2))
relay_delivers_example = relay_delivers true early true (some 2) (λ e. tt)

refused_bridge : relay_ends_with true early false none ≡ ([], refused)
unfolding relay_ends_with hold
refused_bridge = refl
