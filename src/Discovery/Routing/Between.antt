-- ===== src/Discovery/Routing/Between.antt =====
-- A word in spaces, in a line of words: it occurs only where it is one of them.
use mavlink_doctor.Common.{
  ℕ, true, false, List, [], ◌∷◌, ◌++◌, ◌≡◌, ◌≢◌, refl, ◌∙◌, Bytes, Bytes-Eq, All, Bool-cases, inl,
  inr, arith, has_prefix,
}
use mavlink_doctor.Common.Ascii.{NotSpace, is_space}
use mavlink_doctor.Common.Fields.{contains_text, IsSpread, IsBlank, spread, words_of}

-- A word followed by a space, at the start of a line, is its first word.
prefix_word :
    (v w : Bytes) (ps : List (ℕ × Bytes × Bytes))
    → All NotSpace v
    → All NotSpace w
    → IsSpread ps
    → has_prefix (v ++ 32 ∷ []) (w ++ spread ps) ≡ true
    → v ≡ w
unfolding has_prefix
prefix_word [] [] ps hv hw k e = refl
prefix_word [] (c ∷ cs) ps hv hw k e = ground arith
prefix_word (x ∷ xs) [] [] hv hw k e = cc
prefix_word (x ∷ xs) [] ((d, b, u) ∷ ps) hv hw k e = ground (arith)
prefix_word (x ∷ xs) (c ∷ cs) ps hv hw k e = ground (arith, prefix_word xs cs ps)

-- The word in spaces.
module _ (v : Bytes) (solid : All NotSpace v) where
  abbrev pub between : Bytes
  between = 32 ∷ (v ++ 32 ∷ [])

  pub contains-solid :
      (w rest : Bytes)
      → All NotSpace w
      → contains_text between (w ++ rest) ≡ contains_text between rest
  unfolding contains_text has_prefix
  contains-solid [] rest h = refl
  contains-solid (c ∷ cs) rest h = ground (arith, contains-solid cs rest)

  no_prefix :
      (w : Bytes) (ps : List (ℕ × Bytes × Bytes))
      → All NotSpace w
      → IsSpread ps
      → v ≢ w
      → has_prefix (v ++ 32 ∷ []) (w ++ spread ps) ≡ false
  no_prefix w ps hw k ne = elim (Bool-cases (has_prefix (v ++ 32 ∷ []) (w ++ spread ps))) [
    | inl found ↦ absurd (ne (prefix_word v w ps solid hw k found))
    | inr absent ↦ absent
  ]

-- A word that stands between blanks occurs in a line only if it is one of its words.
module _ (x : ℕ) (xs : Bytes) (solid : All NotSpace (x ∷ xs)) where
  contains-blank :
      (c : ℕ) (b w : Bytes) (ps : List (ℕ × Bytes × Bytes))
      → is_space c ≡ true
      → IsBlank b
      → All NotSpace w
      → IsSpread ps
      → x ∷ xs ≢ w
      → contains_text (between (x ∷ xs) solid) (c ∷ (b ++ (w ++ spread ps)))
        ≡ contains_text (between (x ∷ xs) solid) (spread ps)
  unfolding contains_text has_prefix
  contains-blank c [] w ps hc hb hw k ne =
      ground (arith, no_prefix (x ∷ xs) solid w ps, contains-solid (x ∷ xs) solid w (spread ps))
  contains-blank c (d ∷ b) w ps hc hb hw k ne = ground (arith, contains-blank d b w ps)

  pub contains-spread :
      (ps : List (ℕ × Bytes × Bytes))
      → IsSpread ps
      → All (λ w. x ∷ xs ≢ w) (words_of ps)
      → contains_text (between (x ∷ xs) solid) (spread ps) ≡ false
  unfolding contains_text has_prefix
  contains-spread [] k h = refl
  contains-spread ((c, b, []) ∷ ps) k h = absurd k.2
  contains-spread ((c, b, d ∷ w) ∷ ps) k h =
      contains-blank c b (d ∷ w) ps k.0 k.1 k.2 k.3 h.0 ∙ contains-spread ps k.3 h.1
