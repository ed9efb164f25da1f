-- ===== src/Tail/Env.antt =====
-- src/transport.rs: `TailPolicy::from_env`, `from_env_or`, `default_for_production`, `EpochClock::new`. The
-- variable's value is the list of its UTF-8 bytes; `now` is what `Instant::now()` returns.
pub mod Parse
use mix_tor.Base.{
  ℕ, ◌+◌, ◌*◌, ◌≤◌, ◌<◌, List, [], ◌∷◌, ◌++◌, Option, none, some, Result, ok, err, ◌>>=◌, Bool,
  true, false, ◌&&◌, ◌||◌, ◌==◌, ltb, leb, if◌then◌else◌, length, take, drop, get_or, u64_max, not,
}
use mix_tor.Decimal.{parse_uint}
use mix_tor.Tail.{TailPolicy, EpochClock, off, fixed, by_class, epoch, default_epoch_duration}

pub data Panic : Type 0 where
  slice_inside_character : Panic

abbrev pub epoch_text : List ℕ
epoch_text = 101 ∷ 112 ∷ 111 ∷ 99 ∷ 104 ∷ []

-- with a colon
abbrev pub epoch_prefix : List ℕ
epoch_prefix = 101 ∷ 112 ∷ 111 ∷ 99 ∷ 104 ∷ 58 ∷ []

abbrev pub class_text : List ℕ
class_text = 99 ∷ 108 ∷ 97 ∷ 115 ∷ 115 ∷ []

abbrev pub off_text : List ℕ
off_text = 111 ∷ 102 ∷ 102 ∷ []

abbrev pub none_text : List ℕ
none_text = 110 ∷ 111 ∷ 110 ∷ 101 ∷ []

abbrev pub lower : ℕ → ℕ
lower c = if leb 65 c && leb c 90 then c + 32 else c

-- `eq_ignore_ascii_case`
unfoldable pub same_ignoring_case : List ℕ → List ℕ → Bool
same_ignoring_case [] [] = true
same_ignoring_case [] (d ∷ ds) = false
same_ignoring_case (c ∷ cs) [] = false
same_ignoring_case (c ∷ cs) (d ∷ ds) = lower c == lower d && same_ignoring_case cs ds

-- A byte of a character that is not its first one.
abbrev pub is_continuation : ℕ → Bool
is_continuation b = leb 128 b && ltb b 192

-- `EpochClock::new`, for a period in milliseconds
abbrev pub epoch_of : ℕ → ℕ → TailPolicy
epoch_of ms now = epoch (record { origin = now; period = ms * 1_000_000 })

-- The period of `epoch:<ms>`, `.ok()?` on what was parsed.
with_period : Option ℕ → ℕ → Option TailPolicy
with_period none now = none
with_period (some ms) now = some (epoch_of ms now)

floor_of : Option ℕ → Option TailPolicy
floor_of none = none
floor_of (some ms) = if ms == 0 then some off else some (fixed (ms * 1_000_000))

-- The last three arms of the match.
unfoldable pub named_or_number : List ℕ → Option TailPolicy
unfolding floor_of
named_or_number v =
    if same_ignoring_case v class_text
    then some by_class
    else if same_ignoring_case v off_text || same_ignoring_case v none_text
    then some off
    else floor_of (parse_uint u64_max v)

-- The slices `v[..6]` and `v[6..]` panic where the seventh byte is inside a character.
unfoldable pub from_env : Option (List ℕ) → ℕ → Result Panic (Option TailPolicy)
unfolding with_period
from_env none now = ok none
from_env (some v) now =
    if same_ignoring_case v epoch_text
    then ok (some (epoch (record { origin = now; period = default_epoch_duration })))
    else if not (ltb 6 (length v))
    then ok (named_or_number v)
    else if is_continuation (get_or v 6 0)
    then err slice_inside_character
    else if same_ignoring_case (take 6 v) epoch_prefix
    then ok (with_period (parse_uint u64_max (drop 6 v)) now)
    else ok (named_or_number v)

or_policy : Option TailPolicy → TailPolicy → TailPolicy
or_policy none d = d
or_policy (some p) d = p

unfoldable pub from_env_or : TailPolicy → Option (List ℕ) → ℕ → Result Panic TailPolicy
unfolding or_policy
from_env_or d v now = from_env v now >>= λ p. ok (or_policy p d)

unfoldable pub default_for_production : Option (List ℕ) → ℕ → Result Panic TailPolicy
unfolding or_policy
default_for_production v now = from_env v now >>= λ p.
    ok (or_policy p (epoch (record { origin = now; period = default_epoch_duration })))
