-- ===== src/Decimal.antt =====
-- Unsigned numbers as decimal text, as the standard library of the source prints and parses them. A text
-- is the list of its bytes.
pub mod RoundTrip
use mix_tor.Base.{
  ℕ, zero, suc, ◌+◌, ◌-◌, ◌*◌, ◌/◌, ◌%◌, ◌≤◌, List, [], ◌∷◌, Option, none, some, true, false, ◌||◌,
  ◌==◌, ltb, if◌then◌else◌,
}

abbrev pub IsDigit : ℕ → Type 0
IsDigit c = (48 ≤ c) × (c ≤ 57)

push_digits : ℕ → ℕ → List ℕ → List ℕ
push_digits zero n out = out
push_digits (suc fuel) n out = elim (n == 0) [
  | true ↦ out
  | false ↦ push_digits fuel (n / 10) ((48 + n % 10) ∷ out)
]

-- `format!("{}")`; a number has no more digits than its value.
unfoldable pub show : ℕ → List ℕ
unfolding push_digits
show n = if n == 0 then 48 ∷ [] else push_digits n n []

-- The digits behind the number `n`, with nothing above `limit`.
scan : ℕ → List ℕ → ℕ → Option ℕ
scan limit [] n = some n
scan limit (c ∷ cs) n =
    let d = c - 48 in
    let rest = scan limit cs (n * 10 + d) in
    if ltb c 48 || ltb 57 c then none else if ltb limit (n * 10 + d) then none else rest

digits_only : ℕ → List ℕ → Option ℕ
unfolding scan
digits_only limit [] = none
digits_only limit (c ∷ cs) = scan limit (c ∷ cs) 0

-- `str::parse` for an unsigned type of the largest value `limit`: one plus sign may stand in front.
unfoldable pub parse_uint : ℕ → List ℕ → Option ℕ
unfolding digits_only
parse_uint limit [] = none
parse_uint limit (c ∷ cs) = if c == 43 then digits_only limit cs else digits_only limit (c ∷ cs)
