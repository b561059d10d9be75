-- ===== src/Metrics/Float64.antt =====
-- Go's `float64` as an abstract type: the operations that internal/metrics uses, with no laws. A
-- theorem that needs an order law takes it as a hypothesis.
use mavlink_doctor.Common.{ℕ, Bool}
use mavlink_doctor.Common.Int.{ℤ}

pub record Float64 : Type 1 where
  pub F : Type 0
  pub of_nat : ℕ → F
  pub of_int : ℤ → F
  -- The literal nearest to a fraction: `ratio 8 10` is 0.8.
  pub ratio : ℕ → ℕ → F
  pub add : F → F → F
  pub mul : F → F → F
  pub div : F → F → F
  pub abs : F → F
  pub lt : F → F → Bool
  pub le : F → F → Bool
  pub is_zero : F → Bool
