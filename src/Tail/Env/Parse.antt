-- ===== src/Tail/Env/Parse.antt =====
-- What `TailPolicy::from_env` of src/transport.rs makes of a value.
use mix_tor.Base.{
  sym, ℕ, zero, suc, ◌*◌, ◌≤◌, ◌<◌, List, [], ◌∷◌, ◌++◌, some, ok, ◌≡◌, refl, ap, ◌∙◌, arith, All,
  true, false, ◌==◌, ltb, leb, length, take, get_or, u64_max, Bool-cases, inl, inr,
}
use mix_tor.Decimal.{IsDigit, show, parse_uint}
use mix_tor.Decimal.RoundTrip.{IsNumeral, show-IsNumeral, parse_uint-show}
use mix_tor.Tail.{fixed}
use mix_tor.Tail.Env.{
  epoch_prefix, same_ignoring_case, epoch_of, with_period, floor_of, named_or_number, from_env,
}

-- A text that begins with a digit is no word.
digit_is_no_word :
    (c d : ℕ) (cs ds : List ℕ)
    → IsDigit c
    → 58 < d
    → d < 123
    → 96 < d
    → same_ignoring_case (c ∷ cs) (d ∷ ds) ≡ false
unfolding same_ignoring_case
digit_is_no_word c d cs ds h lo hi letter = ground arith

get_or-digit : (cs : List ℕ) (i : ℕ) → All IsDigit cs → get_or cs i 0 < 128
get_or-digit [] i h = omega arith
get_or-digit (c ∷ cs) zero h = omega (arith, h.0)
get_or-digit (c ∷ cs) (suc i) h = get_or-digit cs i h.1

named_or_number-numeral :
    (v : List ℕ) → IsNumeral v → named_or_number v ≡ floor_of (parse_uint u64_max v)
unfolding named_or_number
named_or_number-numeral v h =
    let c =
      digit_is_no_word h.first 99 h.others (108 ∷ 97 ∷ 115 ∷ 115 ∷ []) h.digit (omega arith)
        (omega arith) (omega arith) in
    let o =
      digit_is_no_word h.first 111 h.others (102 ∷ 102 ∷ []) h.digit (omega arith) (omega arith)
        (omega arith) in
    let n =
      digit_is_no_word h.first 110 h.others (111 ∷ 110 ∷ 101 ∷ []) h.digit (omega arith)
        (omega arith) (omega arith) in
    rw (h.split, c, o, n) refl

from_env-digits :
    (c : ℕ) (cs : List ℕ) (now : ℕ)
    → IsDigit c
    → All IsDigit cs
    → from_env (some (c ∷ cs)) now ≡ ok (named_or_number (c ∷ cs))
unfolding from_env
from_env-digits c cs now h hs =
    let word =
      digit_is_no_word c 101 cs (112 ∷ 111 ∷ 99 ∷ 104 ∷ []) h (omega arith) (omega arith)
        (omega arith) in
    let prefix =
      digit_is_no_word c 101 (take 5 cs) (112 ∷ 111 ∷ 99 ∷ 104 ∷ 58 ∷ []) h (omega arith)
        (omega arith) (omega arith) in
    let low : leb 128 (get_or (c ∷ cs) 6 0) ≡ false =
      ground (arith, get_or-digit (c ∷ cs) 6 (h, hs)) in
    elim (Bool-cases (ltb 6 (length (c ∷ cs)))) [
      | inl e ↦ rw (word, e, low, prefix) refl
      | inr e ↦ rw (word, e) refl
    ]

-- A number has no name in front of it: the slices are taken and neither prefix fits.
from_env-numeral :
    (v : List ℕ) (now : ℕ)
    → IsNumeral v
    → from_env (some v) now ≡ ok (floor_of (parse_uint u64_max v))
from_env-numeral v now h = rw (h.split) (
    from_env-digits h.first h.others now h.digit h.digits
    ∙ ap (λ o. ok o) (rw (sym (h.split)) (named_or_number-numeral v h)))

-- The part of `from_env` behind `epoch:`.
from_env-prefix :
    (v : List ℕ) (now : ℕ)
    → IsNumeral v
    → from_env (some (epoch_prefix ++ v)) now ≡ ok (with_period (parse_uint u64_max v) now)
unfolding from_env same_ignoring_case
from_env-prefix v now h =
    let low : leb 128 h.first ≡ false = ground (arith, h.digit) in
    let long : ltb 6 (suc (suc (suc (suc (suc (suc (suc (length h.others)))))))) ≡ true =
      ground arith in
    rw (h.split, long, low) refl

-- A positive number of milliseconds that fits 64 bits, printed into the variable, is taken as the fixed
-- floor of that time, and behind `epoch:` as an epoch clock of that period which starts now.
pub from_env-show :
    (ms now : ℕ)
    → 0 < ms
    → ms ≤ u64_max
    → (from_env (some (show ms)) now ≡ ok (some (fixed (ms * 1_000_000))))
      × (from_env (some (epoch_prefix ++ show ms)) now ≡ ok (some (epoch_of ms now)))
unfolding floor_of with_period
from_env-show ms now some_time h =
    let parsed = parse_uint-show u64_max ms h in
    let e : (ms == 0) ≡ false = ground arith in
    let floor : ok (floor_of (parse_uint u64_max (show ms))) ≡ ok (some (fixed (ms * 1_000_000))) =
      rw (parsed, e) refl in
    let period : ok (with_period (parse_uint u64_max (show ms)) now) ≡ ok (some (epoch_of ms now)) =
      rw parsed refl in
    (
      from_env-numeral (show ms) now (show-IsNumeral ms) ∙ floor,
      from_env-prefix (show ms) now (show-IsNumeral ms) ∙ period,
    )
