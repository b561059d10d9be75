-- ===== src/Common/Table.antt =====
-- A Boolean that holds of every number below a bound, shown by evaluation.
use Prim.Native.Nat.{ℕ, zero, suc, ◌<◌}
use mathlib.Core.Path.{◌≡◌}
use mathlib.Core.Bool.{Bool, true, ◌&&◌}
use native.Mathlib.Omega.{arith}

-- The table of a test up to a bound, its entries joined.
unfoldable pub table : (ℕ → Bool) → ℕ → Bool
table test zero = true
table test (suc bound) = table test bound && test bound

module _ (test : ℕ → Bool) where
  pub table_entry : (entry bound : ℕ) → entry < bound → table test bound ≡ true → test entry ≡ true
  unfolding table
  table_entry entry zero inside holds = elim inside [ ]
  table_entry entry (suc bound) inside holds = ground (arith, table_entry entry bound)
