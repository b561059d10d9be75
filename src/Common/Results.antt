-- ===== src/Common/Results.antt =====
-- A Go pair of a value and an `error`: the value where the error is nil, or else the error.
use mathlib.Core.Path.{◌≡◌, refl}
use mathlib.Core.Bool.{Bool, true, false}
use mathlib.Core.Option.{Option, none, some}
use mavlink_doctor.Common.Tests.{if◌then◌else◌}

pub data Result (E A : Type 0) : Type 0 where
  ok : A → Result E A
  err : E → Result E A

-- A result that is no error has passed the guard before it.
pub guard_passed :
    {E A : Type 0} (failing : Bool) (e : E) (rest : Result E A) (a : A)
    → (if failing then err e else rest) ≡ ok a
    → (failing ≡ false) × (rest ≡ ok a)
guard_passed true e rest a h = absurd (cc h)
guard_passed false e rest a h = (refl, h)

-- A step that may give nothing, for chains in `do` blocks.
infixl 10 ◌>>=◌
abbrev pub ◌>>=◌ : {A B : Type 0} → Option A → (A → Option B) → Option B
none >>= next = none
some a >>= next = next a
