-- ===== src/Composer/Pool.antt =====
-- The pool of observed lengths of src/composition.rs, a ring of sixteen places, against a window over
-- the whole history of lengths.
use mix_tor.Base.{
  sym, length-take, inr, inl, append_assoc, ltb, ◌∙◌, append-nil, Bool-cases, ◌%◌, ℕ, zero, suc,
  ◌+◌, ◌-◌, ◌≤◌, ◌<◌, ◌≡◌, refl, ap, List, [], ◌∷◌, ◌++◌, length, take, drop, length-append,
  length-drop, arith,
}
use mix_tor.Composer.Parts.{Meters}
use mix_tor.Composer.{SeedBComposer, ingest_length, length_pool_cap, set_at}

-- The last `n` elements of a list.
abbrev pub last_n : ℕ → List ℕ → List ℕ
last_n n xs = drop (length xs - n) xs

drop-append_le : (n : ℕ) (xs ys : List ℕ) → n ≤ length xs → drop n (xs ++ ys) ≡ drop n xs ++ ys
drop-append_le zero xs ys h = refl
drop-append_le (suc n) [] ys h = absurd (omega arith)
drop-append_le (suc n) (x ∷ xs) ys h = drop-append_le n xs ys (omega arith)

drop-drop : (m n : ℕ) (xs : List ℕ) → drop m (drop n xs) ≡ drop (n + m) xs
drop-drop m zero xs = let e : 0 + m ≡ m = omega arith in rw e
drop-drop zero (suc n) [] = let e : suc n + 0 ≡ suc n = omega arith in rw e
drop-drop (suc m) (suc n) [] = let e : suc n + suc m ≡ suc (n + suc m) = omega arith in rw e
drop-drop m (suc n) (x ∷ xs) =
    let e : suc n + m ≡ suc (n + m) = omega arith in rw e (drop-drop m n xs)

-- A window of a window and one more element is the window of the whole list and that element.
last_n-push :
    (n : ℕ) (xs : List ℕ) (y : ℕ) → last_n n (last_n n xs ++ (y ∷ [])) ≡ last_n n (xs ++ (y ∷ []))
last_n-push n xs y =
    let shorter : length xs - n ≤ length xs = omega arith in
    let a = drop-append_le (length xs - n) xs (y ∷ []) shorter in
    let l = length-append xs (y ∷ []) in
    let m = length-drop (length xs - n) (xs ++ (y ∷ [])) in
    let e : length xs - n + (length (xs ++ (y ∷ [])) - (length xs - n) - n)
        ≡ length (xs ++ (y ∷ [])) - n =
      omega arith in
    rw (← a, m, drop-drop, e)

-- A place of a list, with what stands before and after it.
split_at :
    (i : ℕ) (xs : List ℕ)
    → i < length xs
    → (x : ℕ) × (rest : List ℕ) × (drop i xs ≡ x ∷ rest)
      × ((y : ℕ) → set_at xs i y ≡ take i xs ++ (y ∷ rest))
split_at i [] h = absurd (omega arith)
split_at zero (x ∷ xs) h = (x, xs, refl, λ y. refl)
split_at (suc i) (x ∷ xs) h =
    let (z, rest, e, set) = split_at i xs (omega arith) in
    (z, rest, e, λ y. ap (λ zs. x ∷ zs) (set y))

take-append_more : (xs ys : List ℕ) (y : ℕ) → take (length xs + 1) (xs ++ (y ∷ ys)) ≡ xs ++ (y ∷ [])
take-append_more [] ys y = refl
take-append_more (x ∷ xs) ys y =
    let e : suc (length xs) + 1 ≡ suc (length xs + 1) = omega arith in
    rw e (ap (λ zs. x ∷ zs) (take-append_more xs ys y))

drop-append_more : (xs ys : List ℕ) (y : ℕ) → drop (length xs + 1) (xs ++ (y ∷ ys)) ≡ ys
drop-append_more [] ys y = refl
drop-append_more (x ∷ xs) ys y =
    let e : suc (length xs) + 1 ≡ suc (length xs + 1) = omega arith in
    rw e (drop-append_more xs ys y)

-- A ring read from the place where it is written next.
abbrev pub ring_view : List ℕ → ℕ → List ℕ
ring_view xs i = drop i xs ++ take i xs

set_at-view :
    (before rest : List ℕ) (y next : ℕ)
    → length before + 1 + length rest ≡ length_pool_cap
    → next ≡ (length before + 1) % length_pool_cap
    → ring_view (before ++ (y ∷ rest)) next ≡ (rest ++ before) ++ (y ∷ [])
set_at-view before [] y next n e =
    let first : next ≡ 0 = omega arith in rw (first, append-nil (before ++ (y ∷ []))) refl
set_at-view before (r ∷ rest) y next n e =
    let second : next ≡ length before + 1 = omega arith in
    rw
      (
        second,
        drop-append_more before (r ∷ rest) y,
        take-append_more before (r ∷ rest) y,
        append_assoc (r ∷ rest) before (y ∷ []),
      )
      refl

ring_push :
    (xs : List ℕ) (i y : ℕ)
    → length xs ≡ length_pool_cap
    → i < length_pool_cap
    → (length (set_at xs i y) ≡ length_pool_cap)
      × (ring_view (set_at xs i y) ((i + 1) % length_pool_cap)
          ≡ last_n length_pool_cap (ring_view xs i ++ (y ∷ [])))
ring_push xs i y n h =
    let (x, rest, e, set) = split_at i xs (omega arith) in
    let before = length-take i xs in
    let i_before : length (take i xs) ≡ i = omega arith in
    let left = ap length e ∙ refl in
    let after = length-drop i xs in
    let size : length (take i xs) + 1 + length rest ≡ length_pool_cap = omega arith in
    let l = length-append (take i xs) (y ∷ rest) in
    let view =
      set_at-view (take i xs) rest y ((i + 1) % length_pool_cap) size
        (ap (λ j. (j + 1) % length_pool_cap) (sym i_before)) in
    let l' = length-append (rest ++ take i xs) (y ∷ []) in
    let l'' = length-append rest (take i xs) in
    let over : suc (length ((rest ++ take i xs) ++ (y ∷ []))) - length_pool_cap ≡ 1 = omega arith in
    (ap length (set y) ∙ l ∙ omega arith, rw (set y, view, e, over) refl)

module _ (m : Meters) where
  -- The pool read from its oldest length on.
  abbrev pub recent : SeedBComposer m → List ℕ
  recent c = drop c.length_pool_pos c.length_pool ++ take c.length_pool_pos c.length_pool

  pub record IsPool (c : SeedBComposer m) : Type 0 where
    pub bounded : length c.length_pool ≤ length_pool_cap
    pub place : c.length_pool_pos < length_pool_cap
    pub filling : length c.length_pool < length_pool_cap → c.length_pool_pos ≡ 0

  abbrev pub ingest_all : SeedBComposer m → List ℕ → SeedBComposer m
  ingest_all c [] = c
  ingest_all c (len ∷ lens) = ingest_all (ingest_length m c len) lens

  -- One more length, with what the pool reads then.
  abbrev Took : SeedBComposer m → ℕ → SeedBComposer m → Type 0
  Took c len c' = IsPool c' × (recent c' ≡ last_n length_pool_cap (recent c ++ (len ∷ [])))

  ingest_filling :
      (c : SeedBComposer m) (len : ℕ)
      → IsPool c
      → length c.length_pool < length_pool_cap
      → Took c len (record c { length_pool = c.length_pool ++ (len ∷ []) })
  ingest_filling c len p h =
      let first = p.filling h in
      let l = length-append c.length_pool (len ∷ []) in
      let none_lost : length (c.length_pool ++ (len ∷ [])) - length_pool_cap ≡ 0 = omega arith in
      (
        record { bounded = omega arith; place = p.place; filling = λ _. first },
        rw (first, append-nil c.length_pool, append-nil (c.length_pool ++ (len ∷ [])), none_lost)
            refl,
      )

  ingest_full :
      (c : SeedBComposer m) (len : ℕ)
      → IsPool c
      → length_pool_cap ≤ length c.length_pool
      → Took c len (record c {
        length_pool = set_at c.length_pool c.length_pool_pos len;
        length_pool_pos = (c.length_pool_pos + 1) % length_pool_cap;
      })
  ingest_full c len p h =
      let full : length c.length_pool ≡ length_pool_cap = omega (arith, p.bounded) in
      let (size, view) = ring_push c.length_pool c.length_pool_pos len full p.place in
      (
        record {
          bounded = omega arith;
          place = omega arith;
          filling = λ short. absurd (omega arith);
        },
        view,
      )

  pub ingest_length-Took :
      (c : SeedBComposer m) (len : ℕ) → IsPool c → Took c len (ingest_length m c len)
  unfolding ingest_length
  ingest_length-Took c len p = elim (Bool-cases (ltb (length c.length_pool) length_pool_cap)) [
    | inl e ↦ rw e (ingest_filling c len p (ground arith))
    | inr e ↦ rw e (ingest_full c len p (ground arith))
  ]

  pub ingest_all-last_n :
      (lens : List ℕ) (c : SeedBComposer m) (history : List ℕ)
      → IsPool c
      → recent c ≡ last_n length_pool_cap history
      → IsPool (ingest_all c lens)
        × (recent (ingest_all c lens) ≡ last_n length_pool_cap (history ++ lens))
  ingest_all-last_n [] c history p e = (p, rw (append-nil history) e)
  ingest_all-last_n (len ∷ lens) c history p e =
      let (p', e') = ingest_length-Took c len p in
      let window = last_n-push length_pool_cap history len in
      let more : recent (ingest_length m c len) ≡ last_n length_pool_cap (history ++ (len ∷ [])) =
        e' ∙ ap (λ xs. last_n length_pool_cap (xs ++ (len ∷ []))) e ∙ window in
      rw (← append_assoc history (len ∷ []) lens)
        (ingest_all-last_n lens (ingest_length m c len) (history ++ (len ∷ [])) p' more)

  -- The pool implements a window over all lengths that the composer has seen: from an empty pool, any
  -- number of calls of `ingest_length` leaves in the ring, read from the place that is written next,
  -- the last sixteen of them in order, or all of them if they are fewer.
  pub ingest_length_window :
      (c : SeedBComposer m) (lens : List ℕ)
      → c.length_pool ≡ []
      → c.length_pool_pos ≡ 0
      → (recent (ingest_all c lens) ≡ last_n length_pool_cap lens)
        × (length (ingest_all c lens).length_pool ≤ length_pool_cap)
  ingest_length_window c lens empty first =
      let size : length c.length_pool ≡ 0 = ap length empty in
      let pool : IsPool c = record {
        bounded = omega arith;
        place = omega arith;
        filling = λ _. first;
      } in
      let (pool', view) = ingest_all-last_n lens c [] pool (rw (empty, first) refl) in
      (view, pool'.bounded)
