-- ===== src/Common/Double.antt =====
-- `double`: the type and what the code does with it are parameters. `of_nat` and `of_int` convert
-- from unsigned and signed integers; the comparisons are those of C++.
use low_latency.Prelude.{ℕ, Bool}
use low_latency.Prelude.Int.{ℤ}

pub record Double (F : Type 0) : Type 0 where
  pub of_nat : ℕ → F
  pub of_int : ℤ → F
  pub plus : F → F → F
  pub minus : F → F → F
  pub times : F → F → F
  pub over : F → F → F
  pub half : F
  pub nan : F
  pub lt : F → F → Bool
  pub le : F → F → Bool
  pub eq : F → F → Bool
