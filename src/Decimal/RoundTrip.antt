-- ===== src/Decimal/RoundTrip.antt =====
-- A printed number is read back, and its text is digits.
use mix_tor.Base.{
  ℕ, zero, suc, ◌+◌, ◌-◌, ◌*◌, ◌/◌, ◌%◌, ◌≤◌, List, [], ◌∷◌, some, ◌≡◌, refl, ◌∙◌, arith, All, ◌==◌,
  Bool-cases, inl, inr, false, ltb, ◌||◌,
}
use mix_tor.Decimal.{IsDigit, push_digits, show, scan, digits_only, parse_uint}

-- A text of digits that is not empty.
pub record IsNumeral (cs : List ℕ) : Type 0 where
  pub first : ℕ
  pub others : List ℕ
  pub split : cs ≡ first ∷ others
  pub digit : IsDigit first
  pub digits : All IsDigit others

push_digits-IsNumeral :
    (fuel n c : ℕ) (out : List ℕ)
    → IsDigit c
    → All IsDigit out
    → IsNumeral (push_digits fuel n (c ∷ out))
unfolding push_digits
push_digits-IsNumeral zero n c out h hs = record {
  first = c;
  others = out;
  split = refl;
  digit = h;
  digits = hs;
}
push_digits-IsNumeral (suc fuel) n c out h hs = elim (Bool-cases (n == 0)) [
  | inl e ↦
      rw (e, push_digits) (record { first = c; others = out; split = refl; digit = h; digits = hs })
  | inr e ↦
      rw (e, push_digits)
        (push_digits-IsNumeral fuel (n / 10) (48 + n % 10) (c ∷ out) (omega arith, omega arith)
          (h, hs))
]

pub show-IsNumeral : (n : ℕ) → IsNumeral (show n)
unfolding show push_digits
show-IsNumeral zero = record {
  first = 48;
  others = [];
  split = refl;
  digit = (omega arith, omega arith);
  digits = tt;
}
show-IsNumeral (suc n) =
    let e : (suc n == 0) ≡ false = ground arith in
    rw (e, show, push_digits)
      (push_digits-IsNumeral n (suc n / 10) (48 + suc n % 10) [] (omega arith, omega arith) tt)

scan_digit :
    (limit n : ℕ) (out : List ℕ)
    → n ≤ limit
    → scan limit ((48 + n % 10) ∷ out) (n / 10) ≡ scan limit out n
unfolding scan
scan_digit limit n out h =
    let value : n / 10 * 10 + (48 + n % 10 - 48) ≡ n = omega arith in
    let digit : (ltb (48 + n % 10) 48 || ltb 57 (48 + n % 10)) ≡ false = ground arith in
    let fits : ltb limit n ≡ false = ground arith in rw (digit, value, fits) refl

scan-push_digits :
    (limit fuel n : ℕ) (out : List ℕ)
    → n ≤ fuel
    → n ≤ limit
    → scan limit (push_digits fuel n out) 0 ≡ scan limit out n
unfolding push_digits
scan-push_digits limit zero n out h k = let e : n ≡ 0 = omega arith in rw e refl
scan-push_digits limit (suc fuel) n out h k = elim (Bool-cases (n == 0)) [
  | inl e ↦ let z : n ≡ 0 = ground arith in rw z refl
  | inr e ↦
      rw (e, push_digits)
        (scan-push_digits limit fuel (n / 10) ((48 + n % 10) ∷ out) (ground arith) (omega arith)
          ∙ scan_digit limit n out k)
]

numeral : (limit : ℕ) (cs : List ℕ) → IsNumeral cs → parse_uint limit cs ≡ scan limit cs 0
unfolding parse_uint digits_only
numeral limit cs h =
    let no_sign : (h.first == 43) ≡ false = ground (arith, h.digit) in rw (h.split, no_sign) refl

scan-show : (limit n : ℕ) → n ≤ limit → scan limit (show n) 0 ≡ some n
unfolding show scan
scan-show limit zero h = let fits : ltb limit 0 ≡ false = ground arith in rw fits refl
scan-show limit (suc n) h =
    let e : (suc n == 0) ≡ false = ground arith in
    rw (e, show) (scan-push_digits limit (suc n) (suc n) [] (omega arith) h)

-- A number within the limit is read back from its text.
pub parse_uint-show : (limit n : ℕ) → n ≤ limit → parse_uint limit (show n) ≡ some n
parse_uint-show limit n h = numeral limit (show n) (show-IsNumeral n) ∙ scan-show limit n h
