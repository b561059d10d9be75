-- ===== src/Reporter/Redact/Addresses.antt =====
-- How internal/reporter/support_report.go masks an address in a text.
use mavlink_doctor.Common.{
  ℕ, ◌≡◌, refl, sym, ap, ◌∙◌, ◌<◌, Bool, true, false, some, [], ◌∷◌, ◌++◌, append_assoc, Bytes,
  codes, arith, All, length, nat_eq, if◌then◌else◌,
}
use mavlink_doctor.Common.Decimal.{decimal, IsDigit, All-decimal}
use mavlink_doctor.Reporter.Redact.{
  is_word, is_nil, ends_word, Quad, match_quad, quad_text, is_octet, mask_quad, mask_from, mask_ip,
  replacement, covered,
}
use mavlink_doctor.Reporter.Redact.Numbers.{
  starts_no_digit, byte_text, match_number-decimal, match_group-decimal, digit_on,
}

-- The address a.b.c.d.
abbrev pub quad_of : ℕ → ℕ → ℕ → ℕ → Quad
quad_of a b c d = record {
  first = decimal a;
  second = decimal b;
  third = decimal c;
  fourth = decimal d;
}

abbrev spread : ℕ → ℕ → ℕ → ℕ → Bytes → Bytes
spread a b c d rest =
    decimal a ++ b'.' ∷ (decimal b ++ b'.' ∷ (decimal c ++ b'.' ∷ (decimal d ++ rest)))

quad_text-spread :
    (a b c d : ℕ) (rest : Bytes) → quad_text (quad_of a b c d) ++ rest ≡ spread a b c d rest
unfolding quad_text codes
quad_text-spread a b c d rest =
    let from_c : Bytes = decimal c ++ b'.' ∷ decimal d in
    let from_b : Bytes = decimal b ++ b'.' ∷ from_c in
    append_assoc (decimal a) (b'.' ∷ from_b) rest
    ∙ ap (λ t. decimal a ++ b'.' ∷ t)
        (append_assoc (decimal b) (b'.' ∷ from_c) rest
          ∙ ap (λ t. decimal b ++ b'.' ∷ t) (append_assoc (decimal c) (b'.' ∷ decimal d) rest))

ends_no_digit : (rest : Bytes) → ends_word rest ≡ true → starts_no_digit rest ≡ true
ends_no_digit [] h = refl
ends_no_digit (c ∷ s) h = ground arith

match_quad-spread :
    (a b c d : ℕ) (rest : Bytes)
    → a < 256
    → b < 256
    → c < 256
    → d < 256
    → ends_word rest ≡ true
    → match_quad (spread a b c d rest) ≡ some (quad_of a b c d)
unfolding match_quad
match_quad-spread a b c d rest ha hb hc hd e = rw (
  match_group-decimal a _ ha,
  match_group-decimal b _ hb,
  match_group-decimal c _ hc,
  match_number-decimal d rest hd (ends_no_digit rest e),
  e,
)

abbrev pub last_is_word : Bool → Bytes → Bool
last_is_word w [] = w
last_is_word w (c ∷ s) = last_is_word (is_word c) s

mask_from-skip :
    (w : Bool) (s rest : Bytes)
    → mask_from w (length s) (s ++ rest) ≡ mask_from (last_is_word w s) 0 rest
unfolding mask_from
mask_from-skip w [] rest = refl
mask_from-skip w (c ∷ s) rest = mask_from-skip (is_word c) s rest

EndsInWord : Bytes → Type 0
EndsInWord s = (w : Bool) → last_is_word w s ≡ true

append-EndsInWord : (xs ys : Bytes) → EndsInWord ys → EndsInWord (xs ++ ys)
unfolding EndsInWord
append-EndsInWord [] ys h w = h w
append-EndsInWord (x ∷ xs) ys h w = append-EndsInWord xs ys h (is_word x)

digits_end : (ds : Bytes) → All IsDigit ds → last_is_word true ds ≡ true
digits_end [] h = refl
digits_end (d ∷ ds) (h, hs) = rw (digit_on d h) (digits_end ds hs)

digits-EndsInWord : (ds : Bytes) → All IsDigit ds → is_nil ds ≡ false → EndsInWord ds
unfolding EndsInWord
digits-EndsInWord [] h n w = absurd (cc n)
digits-EndsInWord (d ∷ ds) (h, hs) n w = rw (digit_on d h) (digits_end ds hs)

replacement-found : (q : Quad) (c : ℕ) → replacement (some q) c ≡ mask_quad q
unfolding replacement
replacement-found q c = refl

covered-found : (q : Quad) (c : ℕ) (s : Bytes) → quad_text q ≡ c ∷ s → covered (some q) ≡ length s
unfolding covered
covered-found q c s t = rw t (omega arith)

-- A match at the start of a text is replaced, and the search goes on after it.
mask_found :
    (c : ℕ) (s rest : Bytes) (q : Quad)
    → match_quad (c ∷ (s ++ rest)) ≡ some q
    → quad_text q ≡ c ∷ s
    → mask_from false 0 (c ∷ (s ++ rest))
      ≡ mask_quad q ++ mask_from (last_is_word (is_word c) s) 0 rest
unfolding mask_from
mask_found c s rest q m t =
    rw (m, replacement-found q c, covered-found q c s t)
      (ap (λ r. mask_quad q ++ r) (mask_from-skip (is_word c) s rest))

not_nil : (ds : Bytes) → is_nil ds ≡ false → (x : ℕ) × (s : Bytes) × (ds ≡ x ∷ s)
not_nil [] h = absurd (cc h)
not_nil (x ∷ s) h = (x, s, refl)

quad_text-EndsInWord : (a b c d : ℕ) → d < 256 → EndsInWord (quad_text (quad_of a b c d))
unfolding quad_text codes
quad_text-EndsInWord a b c d h =
    let (_, _, _, full) = byte_text d h in
    append-EndsInWord (decimal a) _ (
      append-EndsInWord (codes ".") _ (
        append-EndsInWord (decimal b) _ (
          append-EndsInWord (codes ".") _ (
            append-EndsInWord (decimal c) _ (
              append-EndsInWord (codes ".") _
                (digits-EndsInWord (decimal d) (All-decimal d) full))))))

-- The text of an address is not empty, and its last character is a digit.
quad_text-cons :
    (a b c d : ℕ)
    → a < 256
    → d < 256
    → (x : ℕ) × (s : Bytes) × (quad_text (quad_of a b c d) ≡ x ∷ s)
      × (last_is_word (is_word x) s ≡ true)
unfolding quad_text EndsInWord
quad_text-cons a b c d ha hd =
    let (_, _, _, full) = byte_text a ha in
    let (x, s, e) = not_nil (decimal a) full in
    let tail = codes "." ++ (decimal b ++ (codes "." ++ (decimal c ++ (codes "." ++ decimal d)))) in
    let text : quad_text (quad_of a b c d) ≡ x ∷ (s ++ tail) = ap (λ t. t ++ tail) e in
    (x, s ++ tail, text, ap (last_is_word true) (sym text) ∙ quad_text-EndsInWord a b c d hd true)

is_octet-decimal : (n : ℕ) → n < 256 → is_octet (decimal n) ≡ true
is_octet-decimal n h = ground (arith, byte_text n h)

mask_quad-address :
    (a b c d : ℕ)
    → a < 256
    → b < 256
    → c < 256
    → d < 256
    → mask_quad (quad_of a b c d) ≡ (
        if nat_eq a 127
        then quad_text (quad_of a b c d)
        else decimal a ++ codes "." ++ decimal b ++ codes ".xxx.xxx")
unfolding mask_quad
mask_quad-address a b c d ha hb hc hd =
    let (_, va, _, _) = byte_text a ha in
    let (_, vb, _, _) = byte_text b hb in
    rw (
      is_octet-decimal a ha,
      is_octet-decimal b hb,
      is_octet-decimal c hc,
      is_octet-decimal d hd,
      va,
      vb,
    )

-- An IPv4 address at the start of a text, followed by no letter, digit or underscore: its last two
-- numbers are masked, unless the first is 127 and the address is left as it is, and then the rest of
-- the text is masked.
pub mask_ip-address :
    (a b c d : ℕ) (rest : Bytes)
    → a < 256
    → b < 256
    → c < 256
    → d < 256
    → ends_word rest ≡ true
    → mask_ip (quad_text (quad_of a b c d) ++ rest)
      ≡ (if nat_eq a 127
          then quad_text (quad_of a b c d)
          else decimal a ++ codes "." ++ decimal b ++ codes ".xxx.xxx")
        ++ mask_from true 0 rest
unfolding mask_ip
mask_ip-address a b c d rest ha hb hc hd e =
    let q = quad_of a b c d in
    let (x, s, text, last) = quad_text-cons a b c d ha hd in
    let found : match_quad (x ∷ (s ++ rest)) ≡ some q =
      ap (λ t. match_quad (t ++ rest)) (sym text)
      ∙ ap match_quad (quad_text-spread a b c d rest)
      ∙ match_quad-spread a b c d rest ha hb hc hd e in
    ap (λ t. mask_from false 0 (t ++ rest)) text
    ∙ mask_found x s rest q found text
    ∙ ap (λ w. mask_quad q ++ mask_from w 0 rest) last
    ∙ ap (λ t. t ++ mask_from true 0 rest) (mask_quad-address a b c d ha hb hc hd)
