-- ===== src/Float.antt =====
-- Go's float64, as a parameter: the operations that the gateway uses. The laws that a theorem
-- needs are named where they are used.
pub mod Whole
use aigateway.Prelude.{ℕ, Bool}

pub record Float64 : Type 1 where
  pub F : Type 0
  pub of_int : ℕ → F
  -- Conversion to int, towards 0.
  pub to_int : F → ℕ
  pub add : F → F → F
  pub mul : F → F → F
  pub div : F → F → F
  pub lt : F → F → Bool
  pub le : F → F → Bool
