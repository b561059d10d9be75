-- ===== src/Common/NoRepeats.antt =====
-- Membership in a list of strings, and lists in which no string stands twice.
use mathlib.Core.Path.{◌≡◌, refl, sym}
use mathlib.Core.Bool.{Bool, true, false, not, ◌&&◌, ◌||◌}
use mathlib.Core.List.{List, [], ◌∷◌, ◌++◌}
use native.Mathlib.Omega.{arith}
use mavlink_doctor.Common.Tests.{◌==◌, ==_false, ne_of_==}
use mavlink_doctor.Common.Lists.{any}
use mavlink_doctor.Common.Text.{Bytes, Bytes-Eq}

abbrev pub is_in : Bytes → List Bytes → Bool
is_in x xs = any (λ s. s == x) xs

abbrev pub no_repeats : List Bytes → Bool
no_repeats [] = true
no_repeats (x ∷ xs) = not (is_in x xs) && no_repeats xs

pub is_in-append : (x : Bytes) (xs ys : List Bytes) → is_in x (xs ++ ys) ≡ is_in x xs || is_in x ys
is_in-append x [] ys = refl
is_in-append x (z ∷ zs) ys = ground (arith, is_in-append x zs ys)

new_differs : (x z : Bytes) (zs : List Bytes) → is_in x (z ∷ zs) ≡ false → (x == z) ≡ false
new_differs x z zs h = ==_false x z (λ e. ne_of_== z x (ground arith) (sym e))

pub no_repeats-append :
    (x : Bytes) (xs : List Bytes)
    → is_in x xs ≡ false
    → no_repeats xs ≡ true
    → no_repeats (xs ++ x ∷ []) ≡ true
no_repeats-append x [] h d = refl
no_repeats-append x (z ∷ zs) h d =
    ground (arith, no_repeats-append x zs, is_in-append z zs (x ∷ []), new_differs x z zs h)
