-- ===== src/Reporter/Redact/Pieces.antt =====
-- How internal/reporter/support_report.go masks a text with several addresses.
use mavlink_doctor.Common.{
  ℕ, zero, suc, ◌≡◌, refl, ap, ◌∙◌, ◌<◌, Bool, true, false, none, List, [], ◌∷◌, ◌++◌, Bytes, codes,
  arith, nat_eq, if◌then◌else◌, Bool-cases, inl, inr,
}
use mavlink_doctor.Common.Decimal.{decimal}
use mavlink_doctor.Common.Fields.{Without}
use mavlink_doctor.Reporter.Redact.{
  is_digit, is_word, is_nil, ends_word, match_dot, take_digits, match_number, match_group,
  match_quad, match_at, quad_text, mask_from, mask_ip, replacement, covered,
}
use mavlink_doctor.Reporter.Redact.Addresses.{quad_of, last_is_word, mask_ip-address}

-- The text before an address, and the address.
pub record Piece : Type 0 where
  pub gap : Bytes
  pub a : ℕ
  pub b : ℕ
  pub c : ℕ
  pub d : ℕ

-- A text of such pieces, and what follows the last.
abbrev pub text_of : List Piece → Bytes → Bytes
text_of [] last = last
text_of (p ∷ ps) last = p.gap ++ (quad_text (quad_of p.a p.b p.c p.d) ++ text_of ps last)

-- The text with its addresses hidden.
abbrev pub hidden_of : List Piece → Bytes → Bytes
hidden_of [] last = last
hidden_of (p ∷ ps) last =
    p.gap
    ++ ((if nat_eq p.a 127
          then quad_text (quad_of p.a p.b p.c p.d)
          else decimal p.a ++ codes "." ++ decimal p.b ++ codes ".xxx.xxx")
        ++ hidden_of ps last)

-- After an address comes no letter, digit or underscore.
abbrev pub Opens : Bool → Bytes → Type 0
Opens false s = Unit
Opens true s = ends_word s ≡ true

-- The gaps hold no dot, and keep the addresses apart from letters, digits and underscores.
abbrev pub IsText : Bool → List Piece → Bytes → Type 0
IsText after_word [] last = Opens after_word last × Without b'.' last
IsText after_word (p ∷ ps) last =
    Opens after_word p.gap
    × Without b'.' p.gap
    × (last_is_word after_word p.gap ≡ false)
    × (p.a < 256)
    × (p.b < 256)
    × (p.c < 256)
    × (p.d < 256)
    × IsText true ps last

no_dot : (c : ℕ) (s : Bytes) → nat_eq c b'.' ≡ false → match_dot (c ∷ s) ≡ none
no_dot c s h = rw h

-- Where a text has no dot, no dot follows the digits at its start.
take_digits_dotless : (n : ℕ) (s : Bytes) → Without b'.' s → match_dot (take_digits n s).1 ≡ none
unfolding take_digits
take_digits_dotless zero [] h = refl
take_digits_dotless zero (c ∷ s) h = no_dot c s h.0
take_digits_dotless (suc n) [] h = refl
take_digits_dotless (suc n) (c ∷ s) h = elim (Bool-cases (is_digit c)) [
  | inl digit ↦ rw digit (take_digits_dotless n s h.1)
  | inr other ↦ rw other (no_dot c s h.0)
]

not_digit : (c : ℕ) → is_word c ≡ false → is_digit c ≡ false
not_digit c h = ground arith

-- So it is where the text has no dot up to a character that is no digit.
take_digits_gap :
    (n c : ℕ) (g rest : Bytes)
    → Without b'.' (c ∷ g)
    → last_is_word (is_word c) g ≡ false
    → match_dot (take_digits n (c ∷ (g ++ rest))).1 ≡ none
unfolding take_digits
take_digits_gap zero c g rest h e = no_dot c (g ++ rest) h.0
take_digits_gap (suc n) c [] rest h e = rw (not_digit c e) (no_dot c rest h.0)
take_digits_gap (suc n) c (d ∷ g) rest h e = elim (Bool-cases (is_digit c)) [
  | inl digit ↦ rw digit (take_digits_gap n d g rest h.1 e)
  | inr other ↦ rw other (no_dot c ((d ∷ g) ++ rest) h.0)
]

match_quad-none : (s : Bytes) → match_dot (take_digits 3 s).1 ≡ none → match_quad s ≡ none
unfolding match_quad match_group match_number
match_quad-none s h = elim (Bool-cases (is_nil (take_digits 3 s).0)) [
  | inl empty ↦ rw empty refl
  | inr digits ↦ rw (digits, h) refl
]

match_at-none : (w : Bool) (s : Bytes) → match_quad s ≡ none → match_at w s ≡ none
match_at-none true s h = refl
match_at-none false s h = h

mask_from-unmatched :
    (w : Bool) (c : ℕ) (s : Bytes)
    → match_at w (c ∷ s) ≡ none
    → mask_from w 0 (c ∷ s) ≡ c ∷ mask_from (is_word c) 0 s
unfolding mask_from replacement covered
mask_from-unmatched w c s h = rw h refl

mask_from-gap :
    (w : Bool) (gap rest : Bytes)
    → Without b'.' gap
    → last_is_word w gap ≡ false
    → mask_from w 0 (gap ++ rest) ≡ gap ++ mask_from false 0 rest
mask_from-gap w [] rest h e = ap (λ v. mask_from v 0 rest) e
mask_from-gap w (c ∷ g) rest h e =
    mask_from-unmatched w c (g ++ rest) (
      match_at-none w (c ∷ (g ++ rest))
        (match_quad-none (c ∷ (g ++ rest)) (take_digits_gap 3 c g rest h e)))
    ∙ ap (◌∷◌ c) (mask_from-gap (is_word c) g rest h.1 e)

mask_from-dotless : (w : Bool) (s : Bytes) → Without b'.' s → mask_from w 0 s ≡ s
unfolding mask_from
mask_from-dotless w [] h = refl
mask_from-dotless w (c ∷ s) h =
    mask_from-unmatched w c s
      (match_at-none w (c ∷ s) (match_quad-none (c ∷ s) (take_digits_dotless 3 (c ∷ s) h)))
    ∙ ap (◌∷◌ c) (mask_from-dotless (is_word c) s h.1)

ends_word-gap :
    (gap rest : Bytes)
    → ends_word gap ≡ true
    → last_is_word true gap ≡ false
    → ends_word (gap ++ rest) ≡ true
ends_word-gap [] rest h e = absurd (ground arith)
ends_word-gap (c ∷ g) rest h e = h

text-ends_word :
    (ps : List Piece) (last : Bytes) → IsText true ps last → ends_word (text_of ps last) ≡ true
text-ends_word [] last h = h.0
text-ends_word (p ∷ ps) last (opens, _, apart, _, _, _, _, _) =
    ends_word-gap p.gap (quad_text (quad_of p.a p.b p.c p.d) ++ text_of ps last) opens apart

mask_from-text :
    (w : Bool) (ps : List Piece) (last : Bytes)
    → IsText w ps last
    → mask_from w 0 (text_of ps last) ≡ hidden_of ps last
unfolding mask_ip
mask_from-text w [] last h = mask_from-dotless w last h.1
mask_from-text w (p ∷ ps) last (opens, dotless, apart, ha, hb, hc, hd, rest) =
    mask_from-gap w p.gap (quad_text (quad_of p.a p.b p.c p.d) ++ text_of ps last) dotless apart
    ∙ ap (λ t. p.gap ++ t)
        (mask_ip-address p.a p.b p.c p.d (text_of ps last) ha hb hc hd (text-ends_word ps last rest)
          ∙ ap
              (λ t.
                (if nat_eq p.a 127
                  then quad_text (quad_of p.a p.b p.c p.d)
                  else decimal p.a ++ codes "." ++ decimal p.b ++ codes ".xxx.xxx")
                ++ t)
              (mask_from-text true ps last rest))

-- For every text of any number of IPv4 addresses with other text before, between and after them, which
-- holds no dot, and no letter, digit or underscore next to an address: masking hides the last two numbers
-- of every address whose first is not 127, and leaves those that are 127 and all other text as they are.
pub mask_ip-text :
    (ps : List Piece) (last : Bytes)
    → IsText false ps last
    → mask_ip (text_of ps last) ≡ hidden_of ps last
unfolding mask_ip
mask_ip-text ps last h = mask_from-text false ps last h
