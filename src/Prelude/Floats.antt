-- ===== src/Prelude/Floats.antt =====
-- Floating point, as far as the program uses it: no law of it is assumed.
pub mod Whole
use Prim.Native.Nat.{ℕ}
use mathlib.Core.Bool.{Bool}

-- `f64`: `as f64` and `as usize` of a rounded value, the arithmetic, and literals as a fraction.
pub record Floats : Type 1 where
  pub F : Type 0
  pub of_nat : ℕ → F
  pub literal : ℕ → ℕ → F
  pub plus : F → F → F
  pub minus : F → F → F
  pub times : F → F → F
  pub over : F → F → F
  pub least : F → F → F
  pub greatest : F → F → F
  pub round : F → F
  pub floor : F → ℕ
  pub ceil : F → ℕ
  pub at_most : F → F → Bool
  pub less : F → F → Bool
  -- The largest integer that is no greater, as an `f64`.
  pub round_down : F → F
  pub magnitude : F → F
  -- `f64::total_cmp` is not `Greater`.
  pub in_order : F → F → Bool
  pub infinity : F
