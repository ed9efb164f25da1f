-- ===== src/Emitter/Run/Vec.antt =====
-- Lemmas on the vector of `run_emitter` in src/transport.rs.
use mathlib.Core.List.Perm
use mix_tor.Base.{suc, List, [], ◌∷◌, ◌++◌, Perm, none, some, ◌≡◌, refl, ap, length, All}
use mix_tor.Emitter.Run.{get_elem?, set, last_of, but_last, last_first, swap_remove}

module _ {ℓ} {A : Type ℓ} where
  pub get_elem?-front :
      (front : List A) (x : A) (back : List A)
      → get_elem? (front ++ x ∷ back) (length front) ≡ some x
  unfolding get_elem?
  get_elem?-front [] x back = refl
  get_elem?-front (y ∷ front) x back = get_elem?-front front x back

  pub get_elem?-end : (front : List A) → get_elem? (front ++ []) (length front) ≡ none
  unfolding get_elem?
  get_elem?-end [] = refl
  get_elem?-end (y ∷ front) = get_elem?-end front

  pub set-front :
      (front : List A) (x : A) (back : List A) (y : A)
      → set (front ++ x ∷ back) (length front) y ≡ (front ++ y ∷ []) ++ back
  unfolding set
  set-front [] x back y = refl
  set-front (z ∷ front) x back y = ap (λ xs. z ∷ xs) (set-front front x back y)

  pub swap_remove-front :
      (front : List A) (x : A) (back : List A)
      → swap_remove (front ++ x ∷ back) (length front) ≡ front ++ last_first back
  unfolding swap_remove
  swap_remove-front [] x back = refl
  swap_remove-front (z ∷ front) x back = ap (λ xs. z ∷ xs) (swap_remove-front front x back)

  last_of-perm : (x : A) (xs : List A) → Perm (x ∷ xs) (last_of x xs ∷ but_last x xs)
  unfolding last_of but_last
  last_of-perm x [] = Perm.refl _
  last_of-perm x (y ∷ ys) = Perm.trans (Perm.cons x (last_of-perm y ys)) (Perm.swap _ x _)

  pub last_first-perm : (xs : List A) → Perm xs (last_first xs)
  unfolding last_first
  last_first-perm [] = Perm.refl _
  last_first-perm (x ∷ xs) = last_of-perm x xs

  length-but_last : (x : A) (xs : List A) → length (but_last x xs) ≡ length xs
  unfolding but_last
  length-but_last x [] = refl
  length-but_last x (y ∷ ys) = ap suc (length-but_last y ys)

  pub length-last_first : (xs : List A) → length (last_first xs) ≡ length xs
  unfolding last_first
  length-last_first [] = refl
  length-last_first (x ∷ xs) = ap suc (length-but_last x xs)

  All-last_of {κ} :
      (P : A → Type κ) (x : A) (xs : List A)
      → P x
      → All P xs
      → P (last_of x xs) × All P (but_last x xs)
  unfolding last_of but_last
  All-last_of P x [] h hs = (h, tt)
  All-last_of P x (y ∷ ys) h hs =
      let (last, rest) = All-last_of P y ys hs.0 hs.1 in (last, (h, rest))

  pub All-last_first {κ} : (P : A → Type κ) (xs : List A) → All P xs → All P (last_first xs)
  unfolding last_first
  All-last_first P [] h = tt
  All-last_first P (x ∷ xs) h = All-last_of P x xs h.0 h.1
