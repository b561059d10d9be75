-- ===== src/Common/Fields.antt =====
-- `strings.Split` at a byte, `strings.Join`, `strings.Fields` and `strings.Contains`.
use Prim.Native.Nat.{ℕ}
use mathlib.Core.Path.{◌≡◌, refl, sym, ap, ◌∙◌}
use mathlib.Core.Logic.{◌≢◌}
use mathlib.Core.Bool.{Bool, true, false, ◌||◌}
use mathlib.Core.List.{List, [], ◌∷◌, ◌++◌, append-nil, append_assoc}
use native.Mathlib.Omega.{arith}
use mavlink_doctor.Common.Tests.{nat_eq, if◌then◌else◌}
use mavlink_doctor.Common.Lists.{All}
use mavlink_doctor.Common.Text.{Bytes, has_prefix, has_prefix-append}
use mavlink_doctor.Common.Ascii.{
  is_space, NotSpace, IsWord, trim_space, trim_left, trim_right, trim_left_word, trim_right_word,
  trim_right-append, trim_right-space,
}

-- A byte put before the first piece.
abbrev onto_first : ℕ → List Bytes → List Bytes
onto_first c [] = (c ∷ []) ∷ []
onto_first c (w ∷ ws) = (c ∷ w) ∷ ws

unfoldable pub split_at : ℕ → Bytes → List Bytes
split_at sep [] = [] ∷ []
split_at sep (c ∷ cs) =
    let rest = split_at sep cs in if nat_eq c sep then [] ∷ rest else onto_first c rest

unfoldable pub join : Bytes → List Bytes → Bytes
join sep [] = []
join sep (w ∷ []) = w
join sep (w ∷ v ∷ ws) = w ++ (sep ++ join sep (v ∷ ws))

-- A piece that has ended, unless it is empty.
abbrev close_field : Bytes → List Bytes → List Bytes
close_field [] ws = ws
close_field (c ∷ cs) ws = (c ∷ cs) ∷ ws

-- `field` is what has been read of the current field.
unfoldable pub fields_from : Bytes → Bytes → List Bytes
fields_from field [] = close_field field []
fields_from field (c ∷ cs) =
    let next = fields_from [] cs in
    let more = fields_from (field ++ c ∷ []) cs in
    if is_space c then close_field field next else more

unfoldable pub fields : Bytes → List Bytes
unfolding fields_from
fields s = fields_from [] s

unfoldable pub contains_text : Bytes → Bytes → Bool
contains_text sub [] = has_prefix sub []
contains_text sub (c ∷ cs) = has_prefix sub (c ∷ cs) || contains_text sub cs

-- Pieces without the separator, joined by it, are split apart again.
abbrev pub Without : ℕ → Bytes → Type 0
Without sep w = All (λ c. nat_eq c sep ≡ false) w

split_at_piece :
    (sep : ℕ) (w rest : Bytes)
    → Without sep w
    → split_at sep (w ++ sep ∷ rest) ≡ w ∷ split_at sep rest
unfolding split_at
split_at_piece sep [] rest h = ground arith
split_at_piece sep (c ∷ cs) rest h = rw (h.0, split_at_piece sep cs rest h.1)

split_at_last : (sep : ℕ) (w : Bytes) → Without sep w → split_at sep w ≡ w ∷ []
unfolding split_at
split_at_last sep [] h = refl
split_at_last sep (c ∷ cs) h = rw (h.0, split_at_last sep cs h.1)

pub split_at-join :
    (sep : ℕ) (w : Bytes) (ws : List Bytes)
    → All (Without sep) (w ∷ ws)
    → split_at sep (join (sep ∷ []) (w ∷ ws)) ≡ w ∷ ws
unfolding join
split_at-join sep w [] h = split_at_last sep w h.0
split_at-join sep w (v ∷ ws) h =
    split_at_piece sep w (join (sep ∷ []) (v ∷ ws)) h.0 ∙ ap (◌∷◌ w) (split_at-join sep v ws h.1)

-- A blank stretch: any number of spaces and tabs.
abbrev pub IsBlank : Bytes → Type 0
IsBlank s = All (λ c. is_space c ≡ true) s

fields_from_solid :
    (field w rest : Bytes)
    → All NotSpace w
    → fields_from field (w ++ rest) ≡ fields_from (field ++ w) rest
unfolding fields_from
fields_from_solid field [] rest h = rw append-nil
fields_from_solid field (c ∷ cs) rest h =
    rw h.0 (fields_from_solid (field ++ c ∷ []) cs rest h.1 ∙ rw append_assoc)

fields_from_blank : (s rest : Bytes) → IsBlank s → fields_from [] (s ++ rest) ≡ fields_from [] rest
unfolding fields_from
fields_from_blank [] rest h = refl
fields_from_blank (c ∷ cs) rest h = rw h.0 (fields_from_blank cs rest h.1)

-- Words with a blank of any positive length before each.
abbrev pub spread : List (ℕ × Bytes × Bytes) → Bytes
spread [] = []
spread ((c, blank, w) ∷ rest) = c ∷ (blank ++ (w ++ spread rest))

abbrev pub IsSpread : List (ℕ × Bytes × Bytes) → Type 0
IsSpread [] = Unit
IsSpread ((c, blank, w) ∷ rest) = (is_space c ≡ true) × IsBlank blank × IsWord w × IsSpread rest

abbrev pub words_of : List (ℕ × Bytes × Bytes) → List Bytes
words_of [] = []
words_of ((c, blank, w) ∷ rest) = w ∷ words_of rest

fields_from-spread :
    (w : Bytes) (ps : List (ℕ × Bytes × Bytes))
    → IsWord w
    → IsSpread ps
    → fields_from [] (w ++ spread ps) ≡ w ∷ words_of ps
unfolding fields_from
fields_from-spread [] ps h k = absurd h
fields_from-spread (c ∷ cs) [] h k = fields_from_solid [] (c ∷ cs) [] h
fields_from-spread (c ∷ cs) ((d, blank, v) ∷ ps) h k =
    fields_from_solid [] (c ∷ cs) (spread ((d, blank, v) ∷ ps)) h
    ∙ rw k.0 (
        ap (◌∷◌ (c ∷ cs))
          (fields_from_blank blank (v ++ spread ps) k.1 ∙ fields_from-spread v ps k.2 k.3))

-- `strings.Fields` gives the words of a line, whatever the blanks between them.
pub fields-spread :
    (w : Bytes) (ps : List (ℕ × Bytes × Bytes))
    → IsWord w
    → IsSpread ps
    → fields (w ++ spread ps) ≡ w ∷ words_of ps
unfolding fields
fields-spread w ps h k = fields_from-spread w ps h k

pub word-append-ne-nil : (w rest : Bytes) → IsWord w → w ++ rest ≢ []
word-append-ne-nil [] rest h e = absurd h
word-append-ne-nil (c ∷ cs) rest h e = cc

-- The blanks of a line end at its last word.
pub trim_right_line :
    (w : Bytes) (ps : List (ℕ × Bytes × Bytes))
    → IsWord w
    → IsSpread ps
    → trim_right (w ++ spread ps) ≡ w ++ spread ps
trim_right_line w [] h k = rw append-nil (trim_right_word w h)
trim_right_line w ((c, b, v) ∷ ps) h k =
    let ends = trim_right_line v ps k.2 k.3 in
    let solid : trim_right (v ++ spread ps) ≢ [] =
      λ e. word-append-ne-nil v (spread ps) k.2 (sym ends ∙ e) in
    ap trim_right (regroup w c b (v ++ spread ps))
    ∙ trim_right-append (w ++ c ∷ b) (v ++ spread ps) solid
    ∙ ap (λ x. (w ++ c ∷ b) ++ x) ends
    ∙ sym (regroup w c b (v ++ spread ps))
  where
    regroup : (w : Bytes) (c : ℕ) (b x : Bytes) → w ++ c ∷ (b ++ x) ≡ (w ++ c ∷ b) ++ x
    regroup w c b x = sym (append_assoc w (c ∷ b) x)

pub trim_space_line :
    (w : Bytes) (ps : List (ℕ × Bytes × Bytes))
    → IsWord w
    → IsSpread ps
    → trim_space (w ++ spread ps) ≡ w ++ spread ps
unfolding trim_space
trim_space_line w ps h k = ap trim_right (trim_left_word w (spread ps) h) ∙ trim_right_line w ps h k

-- The blanks after a line, newlines among them, are trimmed.
trim_right_blank : (s blank : Bytes) → IsBlank blank → trim_right (s ++ blank) ≡ trim_right s
trim_right_blank s [] h = ap trim_right (append-nil s)
trim_right_blank s (c ∷ blank) h =
    ap trim_right (sym (append_assoc s (c ∷ []) blank))
    ∙ trim_right_blank (s ++ c ∷ []) blank h.1
    ∙ trim_right-space s c h.0

pub trim_space_output :
    (w : Bytes) (ps : List (ℕ × Bytes × Bytes)) (blank : Bytes)
    → IsWord w
    → IsSpread ps
    → IsBlank blank
    → trim_space ((w ++ spread ps) ++ blank) ≡ w ++ spread ps
unfolding trim_space
trim_space_output w ps blank h k b =
    ap (λ x. trim_right (trim_left x)) (append_assoc w (spread ps) blank)
    ∙ ap trim_right (trim_left_word w (spread ps ++ blank) h)
    ∙ ap trim_right (sym (append_assoc w (spread ps) blank))
    ∙ trim_right_blank (w ++ spread ps) blank b
    ∙ trim_right_line w ps h k

pub contains-found :
    (sub before after : Bytes) → contains_text sub (before ++ (sub ++ after)) ≡ true
unfolding contains_text has_prefix
contains-found [] [] [] = refl
contains-found [] [] (c ∷ after) = refl
contains-found (x ∷ sub) [] after = ground (arith, has_prefix-append sub after)
contains-found sub (c ∷ before) after = ground (arith, contains-found sub before after)
