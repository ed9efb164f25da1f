-- ===== src/Base/Random.antt =====
-- The random generators of the crate `rand`, a parameter of every definition that draws from one.
use Prim.Native.Nat.{ℕ, ◌≤◌}
use mathlib.Core.Path.{◌≡◌}
use mathlib.Core.List.{List}
use mix_tor.Base.Lists.{length, All}
use mix_tor.Base.Bytes.{IsByte}

-- A generator with its state. `fill n` is `fill_bytes` on a slice of `n` bytes, `range lo hi` is
-- `gen_range(lo..=hi)`; the laws are what the crate documents of them.
pub record Rng : Type 1 where
  pub State : Type 0
  pub fill : ℕ → State → List ℕ × State
  pub range : ℕ → ℕ → State → ℕ × State
  pub length-fill : (n : ℕ) (s : State) → length (fill n s).0 ≡ n
  pub fill-IsByte : (n : ℕ) (s : State) → All IsByte (fill n s).0
  pub range_bounds :
      (lo hi : ℕ) (s : State) → lo ≤ hi → (lo ≤ (range lo hi s).0) × ((range lo hi s).0 ≤ hi)
