-- ===== src/Common/Ascii.antt =====
-- Functions of package strings on ASCII: case, white space, trimming.
use Prim.Native.Nat.{ℕ, ◌+◌, ◌-◌}
use mathlib.Core.Path.{◌≡◌, refl, ap, sym, ◌∙◌}
use mathlib.Core.Logic.{◌≢◌}
use mathlib.Core.Bool.{Bool, true, false, ◌&&◌, ◌||◌}
use mathlib.Core.List.{[], ◌∷◌, ◌++◌, append_assoc}
use mavlink_doctor.Common.Tests.{nat_eq, leb, if◌then◌else◌, ◌==◌, ==_false}
use mavlink_doctor.Common.Lists.{All}
use mavlink_doctor.Common.Text.{Bytes, Bytes-Eq, bytes_eq}

-- `unicode.IsSpace` and `unicode.ToLower` on ASCII.
abbrev pub is_space : ℕ → Bool
is_space c = (leb 9 c && leb c 13) || nat_eq c 32

abbrev pub lower : ℕ → ℕ
lower c = if leb 65 c && leb c 90 then c + 32 else c

abbrev pub upper : ℕ → ℕ
upper c = if leb 97 c && leb c 122 then c - 32 else c

unfoldable pub to_upper : Bytes → Bytes
to_upper [] = []
to_upper (c ∷ cs) = upper c ∷ to_upper cs

unfoldable pub to_lower : Bytes → Bytes
to_lower [] = []
to_lower (c ∷ cs) = lower c ∷ to_lower cs

unfoldable pub trim_left : Bytes → Bytes
trim_left [] = []
trim_left (c ∷ cs) = let rest = trim_left cs in if is_space c then rest else c ∷ cs

-- The last character that is no space ends the string.
unfoldable pub trim_right : Bytes → Bytes
trim_right [] = []
trim_right (c ∷ cs) = let rest = trim_right cs in if is_space c && rest == [] then [] else c ∷ rest

unfoldable pub trim_space : Bytes → Bytes
unfolding trim_left trim_right
trim_space s = trim_right (trim_left s)

and-false : (b : Bool) → (b && false) ≡ false
and-false true = refl
and-false false = refl

abbrev pub NotSpace : ℕ → Type 0
NotSpace c = is_space c ≡ false

-- A text that stands for itself between blanks: not empty, with no space in it.
abbrev pub IsWord : Bytes → Type 0
IsWord [] = ⊥
IsWord (c ∷ cs) = NotSpace c × All NotSpace cs

pub word_solid : (w : Bytes) → IsWord w → All NotSpace w
word_solid [] h = absurd h
word_solid (c ∷ cs) h = h

pub trim_left_word : (w rest : Bytes) → IsWord w → trim_left (w ++ rest) ≡ w ++ rest
unfolding trim_left
trim_left_word [] rest h = absurd h
trim_left_word (c ∷ cs) rest h = rw h.0

-- Where something is left of the end, the whole start is left.
pub trim_right-append :
    (xs ys : Bytes) → trim_right ys ≢ [] → trim_right (xs ++ ys) ≡ xs ++ trim_right ys
unfolding trim_right
trim_right-append [] ys h = refl
trim_right-append (c ∷ xs) ys h = rw (trim_right-append xs ys h) (keep c xs (trim_right ys) h)
  where
    keep :
        (c : ℕ) (xs zs : Bytes)
        → zs ≢ []
        → (if is_space c && (xs ++ zs == []) then [] else c ∷ (xs ++ zs)) ≡ c ∷ (xs ++ zs)
    keep c [] zs h = rw (==_false zs [] h, and-false (is_space c))
    keep c (x ∷ xs) zs h = rw (==_false (x ∷ (xs ++ zs)) [] (λ e. cc), and-false (is_space c))

pub trim_right-space :
    (xs : Bytes) (c : ℕ) → is_space c ≡ true → trim_right (xs ++ c ∷ []) ≡ trim_right xs
unfolding trim_right bytes_eq
trim_right-space [] c h = rw h
trim_right-space (x ∷ xs) c h = rw (trim_right-space xs c h)

trim_right_solid : (xs : Bytes) → All NotSpace xs → trim_right xs ≡ xs
unfolding trim_right
trim_right_solid [] h = refl
trim_right_solid (c ∷ cs) h = rw (h.0, trim_right_solid cs h.1)

pub trim_right_word : (w : Bytes) → IsWord w → trim_right w ≡ w
trim_right_word [] h = absurd h
trim_right_word (c ∷ cs) h = trim_right_solid (c ∷ cs) h

pub word-ne-nil : (w : Bytes) → IsWord w → w ≢ []
word-ne-nil [] h e = absurd h
word-ne-nil (c ∷ cs) h e = cc

-- A text that begins and ends with a word is trimmed.
pub trim_space_between :
    (v middle w : Bytes)
    → IsWord v
    → IsWord w
    → trim_space (v ++ (middle ++ w)) ≡ v ++ (middle ++ w)
unfolding trim_space
trim_space_between v middle w hv hw =
    ap trim_right (trim_left_word v (middle ++ w) hv)
    ∙ ap trim_right (sym (append_assoc v middle w))
    ∙ trim_right-append (v ++ middle) w (λ e. word-ne-nil w hw (sym (trim_right_word w hw) ∙ e))
    ∙ ap (λ x. (v ++ middle) ++ x) (trim_right_word w hw)
    ∙ append_assoc v middle w
