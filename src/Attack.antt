-- ===== src/Attack.antt =====
-- src/correlation_attack.rs: the records of a log and the series that the attacks compare. A text is the
-- list of its bytes.
pub mod Log
pub mod Floats
pub mod Series
pub mod Correlation
pub mod Linking
mod Tests
use mix_tor.Base.{
  ℕ, zero, suc, ◌+◌, List, [], ◌∷◌, ◌++◌, Option, none, some, Bool, true, false, ◌&&◌, ◌==◌,
  if◌then◌else◌, u64_max, ◌-◌, ◌^◌,
}
use mix_tor.Decimal.{parse_uint}
use mix_tor.Hex.{trim}
use mix_tor.Lab.{unix_nanos_text}

pub record LogRecord : Type 0 where
  pub unix_nanos : ℕ
  pub role : List ℕ
  pub event : List ℕ
  pub conn_id : ℕ
  pub seq : ℕ
  pub bytes : ℕ
  pub kind : List ℕ

abbrev pub u128_max : ℕ
u128_max = 2 ^ 128 - 1

-- `str::split` at one character: there is always a first part.
in_front : ℕ → List (List ℕ) → List (List ℕ)
in_front c [] = (c ∷ []) ∷ []
in_front c (part ∷ parts) = (c ∷ part) ∷ parts

unfoldable pub split : ℕ → List ℕ → List (List ℕ)
unfolding in_front
split at [] = [] ∷ []
split at (c ∷ cs) = let rest = split at cs in if c == at then [] ∷ rest else in_front c rest

-- `?` on an option
infixl 5 ◌>>=◌
abbrev pub ◌>>=◌ {ℓ κ} : {A : Type ℓ} {B : Type κ} → Option A → (A → Option B) → Option B
none >>= k = none
some x >>= k = k x

-- `f.next()?`: the part and the parts behind it.
next : List (List ℕ) → Option (List ℕ × List (List ℕ))
next [] = none
next (part ∷ parts) = some (part, parts)

-- `f.next()?.trim().parse().ok()?`
next_number : ℕ → List (List ℕ) → Option (ℕ × List (List ℕ))
unfolding next
next_number limit parts = do
  (part, rest) ← next parts
  n ← parse_uint limit (trim part)
  some (n, rest)

next_text : List (List ℕ) → Option (List ℕ × List (List ℕ))
unfolding next
next_text parts = do (part, rest) ← next parts; some (trim part, rest)

unfoldable pub parse_line : List ℕ → Option LogRecord
unfolding next_number next_text
parse_line line = do
  (unix_nanos, f₁) ← next_number u128_max (split 44 line)
  (role, f₂) ← next_text f₁
  (event, f₃) ← next_text f₂
  (conn_id, f₄) ← next_number u64_max f₃
  (seq, f₅) ← next_number u64_max f₄
  (bytes, f₆) ← next_number u64_max f₅
  (kind, f₇) ← next_text f₆
  some (record {
    unix_nanos = unix_nanos;
    role = role;
    event = event;
    conn_id = conn_id;
    seq = seq;
    bytes = bytes;
    kind = kind;
  })

starts_with : List ℕ → List ℕ → Bool
starts_with cs [] = true
starts_with [] (d ∷ ds) = false
starts_with (c ∷ cs) (d ∷ ds) = c == d && starts_with cs ds

is_empty_text : List ℕ → Bool
is_empty_text [] = true
is_empty_text (c ∷ cs) = false

push_record : Option LogRecord → List LogRecord → List LogRecord
push_record none out = out
push_record (some r) out = r ∷ out

-- The loop of `parse_reader` on the lines behind the first one, `none` for a line that is not read.
parse_rows : List (Option (List ℕ)) → List LogRecord
unfolding push_record
parse_rows [] = []
parse_rows (none ∷ lines) = parse_rows lines
parse_rows (some line ∷ lines) =
    let rest = parse_rows lines in
    if is_empty_text (trim line) then rest else push_record (parse_line line) rest

unfoldable pub parse_reader : List (Option (List ℕ)) → List LogRecord
unfolding parse_rows starts_with is_empty_text push_record
parse_reader [] = []
parse_reader (none ∷ lines) = parse_rows lines
parse_reader (some line ∷ lines) =
    if starts_with line unix_nanos_text then parse_rows lines else parse_rows (some line ∷ lines)

-- `BufRead::lines` on a text that is read without errors: a line ends at a newline, and a carriage return
-- in front of it is dropped.
chomp : List ℕ → List ℕ
chomp [] = []
chomp (c ∷ []) = if c == 13 then [] else c ∷ []
chomp (c ∷ d ∷ cs) = c ∷ chomp (d ∷ cs)

last_line : List ℕ → List (Option (List ℕ))
last_line [] = []
last_line (c ∷ cs) = some (c ∷ cs) ∷ []

with_lines : List (List ℕ) → List (Option (List ℕ))
unfolding last_line chomp
with_lines [] = []
with_lines (part ∷ []) = last_line part
with_lines (part ∷ part' ∷ parts) = some (chomp part) ∷ with_lines (part' ∷ parts)

unfoldable pub lines : List ℕ → List (Option (List ℕ))
unfolding with_lines chomp last_line
lines text = with_lines (split 10 text)
