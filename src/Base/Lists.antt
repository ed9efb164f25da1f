-- ===== src/Base/Lists.antt =====
-- Lists measured and cut by native numbers, under the library's names.
use Prim.Native.Nat.{◌<◌, ℕ, zero, suc, ◌+◌, ◌-◌, ◌≤◌, min}
use mathlib.Core.Path.{◌≡◌, refl, ap}
use mathlib.Core.List.{List, [], ◌∷◌, ◌++◌}
use native.Mathlib.Omega.{arith}

abbrev pub sum : List ℕ → ℕ
sum [] = 0
sum (n ∷ ns) = n + sum ns

module _ {ℓ} {A : Type ℓ} where
  -- A predicate of every element.
  abbrev pub All {κ} : (A → Type κ) → List A → Type κ
  All P [] = Unit {κ}
  All P (x ∷ xs) = P x × All P xs

module _ {ℓ} {A : Type ℓ} where
  abbrev pub length : List A → ℕ
  length [] = 0
  length (x ∷ xs) = suc (length xs)

  abbrev pub get_or : List A → ℕ → A → A
  get_or [] i d = d
  get_or (x ∷ xs) zero d = x
  get_or (x ∷ xs) (suc i) d = get_or xs i d

  abbrev pub take : ℕ → List A → List A
  take zero xs = []
  take (suc n) [] = []
  take (suc n) (x ∷ xs) = x ∷ take n xs

  abbrev pub drop : ℕ → List A → List A
  drop zero xs = xs
  drop (suc n) [] = []
  drop (suc n) (x ∷ xs) = drop n xs

  abbrev pub replicate : ℕ → A → List A
  replicate zero a = []
  replicate (suc n) a = a ∷ replicate n a

  abbrev pub concat : List (List A) → List A
  concat [] = []
  concat (x ∷ xs) = x ++ concat xs

  chunk_rounds : ℕ → ℕ → List A → List (List A)
  chunk_rounds zero n xs = []
  chunk_rounds (suc fuel) n [] = []
  chunk_rounds (suc fuel) n (x ∷ xs) = take n (x ∷ xs) ∷ chunk_rounds fuel n (drop n (x ∷ xs))

  -- `slice::chunks`: pieces of `n` elements, the last one shorter. For `0 < n` every round takes an
  -- element at least, so the list's length is fuel enough.
  unfoldable pub chunks : ℕ → List A → List (List A)
  unfolding chunk_rounds
  chunks n xs = chunk_rounds (length xs) n xs

  pub length-append : (xs ys : List A) → length (xs ++ ys) ≡ length xs + length ys
  length-append [] ys = omega arith
  length-append (x ∷ xs) ys = omega (arith, length-append xs ys)

  pub take-append-drop : (n : ℕ) (xs : List A) → take n xs ++ drop n xs ≡ xs
  take-append-drop zero xs = refl
  take-append-drop (suc n) [] = refl
  take-append-drop (suc n) (x ∷ xs) = rw (take-append-drop n xs)

  pub length-take : (n : ℕ) (xs : List A) → length (take n xs) ≡ min n (length xs)
  length-take zero xs = omega arith
  length-take (suc n) [] = omega arith
  length-take (suc n) (x ∷ xs) = omega (arith, length-take n xs)

  pub length-drop : (n : ℕ) (xs : List A) → length (drop n xs) ≡ length xs - n
  length-drop zero xs = omega arith
  length-drop (suc n) [] = omega arith
  length-drop (suc n) (x ∷ xs) = omega (arith, length-drop n xs)

  pub length-replicate : (n : ℕ) (a : A) → length (replicate n a) ≡ n
  length-replicate zero a = refl
  length-replicate (suc n) a = ap suc (length-replicate n a)

  take_none : (n : ℕ) → take n [] ≡ []
  take_none zero = refl
  take_none (suc n) = refl

  pub take_all : (n : ℕ) (xs : List A) → length xs ≤ n → take n xs ≡ xs
  take_all zero [] h = refl
  take_all zero (x ∷ xs) h = absurd (omega arith)
  take_all (suc n) [] h = refl
  take_all (suc n) (x ∷ xs) h = ap (λ t. x ∷ t) (take_all n xs (omega arith))

  pub take-take : (m n : ℕ) (xs : List A) → m ≤ n → take m (take n xs) ≡ take m xs
  take-take zero n xs h = refl
  take-take (suc m) zero xs h = absurd (omega arith)
  take-take (suc m) (suc n) [] h = refl
  take-take (suc m) (suc n) (x ∷ xs) h = ap (λ t. x ∷ t) (take-take m n xs (omega arith))

  pub drop-length : (xs : List A) → drop (length xs) xs ≡ []
  drop-length [] = refl
  drop-length (x ∷ xs) = drop-length xs

  pub take-min-length : (n : ℕ) (xs : List A) → take (min (length xs) n) xs ≡ take n xs
  take-min-length n [] = rw (take_none (min 0 n)) (rw (take_none n) refl)
  take-min-length zero (x ∷ xs) = let e : min (suc (length xs)) 0 ≡ 0 = omega arith in rw e
  take-min-length (suc n) (x ∷ xs) =
      let e : min (suc (length xs)) (suc n) ≡ suc (min (length xs) n) = omega arith in
      rw e (ap (λ t. x ∷ t) (take-min-length n xs))

  -- Cutting a list at the end of its first part.
  pub take-append : (n : ℕ) (xs ys : List A) → length xs ≡ n → take n (xs ++ ys) ≡ xs
  take-append zero [] ys h = refl
  take-append zero (x ∷ xs) ys h = absurd (omega arith)
  take-append (suc n) [] ys h = absurd (omega arith)
  take-append (suc n) (x ∷ xs) ys h = ap (λ t. x ∷ t) (take-append n xs ys (omega arith))

  pub drop-append : (n : ℕ) (xs ys : List A) → length xs ≡ n → drop n (xs ++ ys) ≡ ys
  drop-append zero [] ys h = refl
  drop-append zero (x ∷ xs) ys h = absurd (omega arith)
  drop-append (suc n) [] ys h = absurd (omega arith)
  drop-append (suc n) (x ∷ xs) ys h = drop-append n xs ys (omega arith)

  pub All-append {κ} : (P : A → Type κ) (xs ys : List A) → All P xs → All P ys → All P (xs ++ ys)
  All-append P [] ys hx hy = hy
  All-append P (x ∷ xs) ys hx hy = (hx.0, All-append P xs ys hx.1 hy)

  pub All-map {κ μ} :
      (P : A → Type κ) (Q : A → Type μ)
      → ((x : A) → P x → Q x)
      → (xs : List A) → All P xs
      → All Q xs
  All-map P Q f [] h = tt
  All-map P Q f (x ∷ xs) h = (f x h.0, All-map P Q f xs h.1)

  concat-chunk_rounds :
      (fuel n : ℕ) (xs : List A) → 0 < n → length xs ≤ fuel → concat (chunk_rounds fuel n xs) ≡ xs
  unfolding chunk_rounds
  concat-chunk_rounds zero n [] h k = refl
  concat-chunk_rounds zero n (x ∷ xs) h k = absurd (omega arith)
  concat-chunk_rounds (suc fuel) n [] h k = refl
  concat-chunk_rounds (suc fuel) n (x ∷ xs) h k =
      rw (concat-chunk_rounds fuel n (drop n (x ∷ xs)) h (omega (arith, length-drop n (x ∷ xs))))
        (take-append-drop n (x ∷ xs))

  -- The pieces make up the list.
  pub concat-chunks : (n : ℕ) (xs : List A) → 0 < n → concat (chunks n xs) ≡ xs
  unfolding chunks
  concat-chunks n xs h = concat-chunk_rounds (length xs) n xs h (omega arith)

  -- A piece is not empty and no longer than `n`.
  abbrev pub IsPiece : ℕ → List A → Type 0
  IsPiece n xs = (0 < length xs) × (length xs ≤ n)

module _ {ℓ} {A : Type ℓ} where
  chunk_rounds-IsPiece :
      (fuel n : ℕ) (xs : List A) → 0 < n → All (IsPiece n) (chunk_rounds fuel n xs)
  unfolding chunk_rounds
  chunk_rounds-IsPiece zero n xs h = tt
  chunk_rounds-IsPiece (suc fuel) n [] h = tt
  chunk_rounds-IsPiece (suc fuel) n (x ∷ xs) h =
      (omega (arith, length-take n (x ∷ xs)), chunk_rounds-IsPiece fuel n (drop n (x ∷ xs)) h)

  pub chunks-IsPiece : (n : ℕ) (xs : List A) → 0 < n → All (IsPiece n) (chunks n xs)
  unfolding chunks
  chunks-IsPiece n xs h = chunk_rounds-IsPiece (length xs) n xs h

module _ {ℓ} {A : Type ℓ} where
  length-chunk_rounds-le :
      (fuel n : ℕ) (xs : List A) → 0 < n → length (chunk_rounds fuel n xs) ≤ length xs
  unfolding chunk_rounds
  length-chunk_rounds-le zero n xs h = omega arith
  length-chunk_rounds-le (suc fuel) n [] h = omega arith
  length-chunk_rounds-le (suc fuel) n (x ∷ xs) h =
      omega (arith, length-drop n (x ∷ xs), length-chunk_rounds-le fuel n (drop n (x ∷ xs)) h)

  pub length-chunks-le : (n : ℕ) (xs : List A) → 0 < n → length (chunks n xs) ≤ length xs
  unfolding chunks
  length-chunks-le n xs h = length-chunk_rounds-le (length xs) n xs h
