-- ===== src/Common/Words.antt =====
-- Go's fixed-width unsigned integers: a number below 2^w, with each write reduced.
use Prim.Native.Nat.{ℕ, ◌+◌, ◌%◌}
use mathlib.Core.Path.{◌≡◌}
use native.Mathlib.Omega.{arith}

abbrev pub u8 : ℕ → ℕ
u8 n = n % 256

abbrev pub u64 : ℕ → ℕ
u64 n = n % 18446744073709551616

-- Adding to a reduced number, or to the number itself, is the same after the next reduction.
pub u64-add : (a b : ℕ) → u64 (u64 a + b) ≡ u64 (a + b)
u64-add a b = omega arith
