-- ===== src/Base/Results.antt =====
-- `Result<A, E>` of the source, its `?` as the bind of a do block.
use mathlib.Core.Path.{◌≡◌, refl}
use mathlib.Core.Logic.{◌⊎◌, inl, inr}

pub data Result {ℓ κ} (E : Type κ) (A : Type ℓ) : Type (ℓ ⊔ κ) where
  ok : A → Result E A
  err : E → Result E A

infixl 5 ◌>>=◌ ◌>>◌
abbrev pub ◌>>=◌ {ℓ κ μ} :
    {E : Type κ} {A : Type ℓ} {B : Type μ} → Result E A → (A → Result E B) → Result E B
ok a >>= f = f a
err e >>= f = err e

abbrev pub ◌>>◌ {ℓ κ μ} :
    {E : Type κ} {A : Type ℓ} {B : Type μ} → Result E A → Result E B → Result E B
m >> k = m >>= λ _. k

pub Result-cases {ℓ κ} :
    {E : Type κ} {A : Type ℓ} (r : Result E A) → ((a : A) × (r ≡ ok a)) ⊎ ((e : E) × (r ≡ err e))
Result-cases (ok a) = inl (a, refl)
Result-cases (err e) = inr (e, refl)

-- The code returns, and a predicate holds of what it returns.
abbrev pub Returns {ℓ κ μ} :
    {E : Type κ} {A : Type ℓ} → (A → Type μ) → Result E A → Type (ℓ ⊔ κ ⊔ μ)
Returns {A = A} P r = (a : A) × (r ≡ ok a) × P a

pub Returns-bind {ℓ κ μ ν ξ} :
    {E : Type κ} {A : Type ℓ} {B : Type μ} {P : A → Type ν} {Q : B → Type ξ} {m : Result E A}
    {f : A → Result E B}
    → Returns P m
    → ((a : A) → P a → Returns Q (f a))
    → Returns Q (m >>= f)
Returns-bind (a, e, p) h = rw e (h a p)

pub Returns-map {ℓ κ μ ν} :
    {E : Type κ} {A : Type ℓ} {P : A → Type μ} {Q : A → Type ν} {r : Result E A}
    → Returns P r
    → ((a : A) → P a → Q a)
    → Returns Q r
Returns-map (a, e, p) h = (a, e, h a p)
