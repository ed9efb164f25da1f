-- ===== src/Attack/Floats.antt =====
-- The 64-bit floating-point numbers that src/correlation_attack.rs computes with, as operations that are
-- given: nothing is assumed of them. `literal n d` is the number n / 10^d as the source writes it, and
-- `to_nat` is the cast to an unsigned integer.
use mix_tor.Base.{ℕ, Bool}

pub record Floats : Type 1 where
  pub F : Type 0
  pub of_nat : ℕ → F
  pub to_nat : F → ℕ
  pub literal : ℕ → ℕ → F
  pub add : F → F → F
  pub sub : F → F → F
  pub mul : F → F → F
  pub div : F → F → F
  pub sqrt : F → F
  pub abs : F → F
  pub below : F → F → Bool
  pub at_most : F → F → Bool
  pub same : F → F → Bool
  pub infinity : F
  pub neg_infinity : F
