-- ===== src/Float/Whole.antt =====
-- Whole numbers in place of floats, where a division by nought is nought: for runs and tests.
use aigateway.Prelude.{ℕ, zero, suc, ◌+◌, ◌*◌, ◌/◌, ltb, leb}
use aigateway.Float.{Float64}

abbrev pub quotient : ℕ → ℕ → ℕ
quotient n zero = 0
quotient n (suc d) = n / suc d

abbrev pub whole : Float64
whole = record {
  F = ℕ;
  of_int = λ n. n;
  to_int = λ n. n;
  add = λ a b. a + b;
  mul = λ a b. a * b;
  div = quotient;
  lt = ltb;
  le = leb;
}
