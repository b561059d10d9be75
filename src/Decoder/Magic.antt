-- ===== src/Decoder/Magic.antt =====
-- The three ways in which internal/decoder/frame_inspector.go looks for magic bytes agree.
use mavlink_doctor.Common.{
  ℕ, ◌+◌, ◌≡◌, refl, ◌⊎◌, inl, inr, subst, Bool, true, false, ltb, [], ◌∷◌, ◌++◌, Bytes, arith, ap,
  nat_eq, length, All, Bool-cases,
}
use mavlink_doctor.Common.Int.{ℤ, pos, negsuc}
use mavlink_doctor.Decoder.FrameInspector.{
  magic_v1, magic_v2, is_magic, looks_like_mavlink, find_magic_from, find_magic_offset, count_byte,
  count_magic_bytes,
}

-- The offset of the first magic byte, counted from `i`, or -1 where there is none.
abbrev pub FirstMagic : ℕ → Bytes → ℤ → Type 0
FirstMagic i bs r =
    ((pre : Bytes) × (b : ℕ) × (post : Bytes) × (bs ≡ pre ++ (b ∷ post))
      × All (λ x. is_magic x ≡ false) pre
      × (is_magic b ≡ true)
      × (r ≡ pos (i + length pre)))
    ⊎ (All (λ x. is_magic x ≡ false) bs × (r ≡ negsuc 0))

FirstMagic-cons :
    (i b : ℕ) (bs : Bytes) (r : ℤ)
    → is_magic b ≡ false
    → FirstMagic (i + 1) bs r
    → FirstMagic i (b ∷ bs) r
FirstMagic-cons i b bs r m (inl (pre, c, post, e, h, k, q)) =
    inl (b ∷ pre, c, post, ap (◌∷◌ b) e, (m, h), k, ground arith)
FirstMagic-cons i b bs r m (inr (h, q)) = inr ((m, h), q)

find_magic_from-FirstMagic : (i : ℕ) (bs : Bytes) → FirstMagic i bs (find_magic_from i bs)
unfolding find_magic_from
find_magic_from-FirstMagic i [] = inr (tt, refl)
find_magic_from-FirstMagic i (b ∷ bs) = elim (Bool-cases (is_magic b)) [
  | inl p ↦ inl ([], b, bs, refl, tt, p, rw p (ground arith))
  | inr q ↦ subst (FirstMagic i (b ∷ bs)) (rw q) (
      FirstMagic-cons i b bs (find_magic_from (i + 1) bs) q (find_magic_from-FirstMagic (i + 1) bs))
]

-- `FindMagicOffset` returns the index of the first magic byte, with no magic byte before it, or -1
-- where the buffer has none.
pub find_magic_offset-FirstMagic : (bs : Bytes) → FirstMagic 0 bs (find_magic_offset bs)
unfolding find_magic_offset
find_magic_offset-FirstMagic bs = find_magic_from-FirstMagic 0 bs

abbrev pub is_found : ℤ → Bool
is_found (pos i) = true
is_found (negsuc i) = false

abbrev pub is_at_start : ℤ → Bool
is_at_start (pos i) = nat_eq i 0
is_at_start (negsuc i) = false

found_count :
    (i : ℕ) (bs : Bytes)
    → is_found (find_magic_from i bs) ≡ ltb 0 (count_byte magic_v1 bs + count_byte magic_v2 bs)
unfolding find_magic_from count_byte
found_count i [] = refl
found_count i (b ∷ bs) = ground (arith, found_count (i + 1) bs)

later_not_start : (i : ℕ) (bs : Bytes) → is_at_start (find_magic_from (i + 1) bs) ≡ false
unfolding find_magic_from
later_not_start i [] = refl
later_not_start i (b ∷ bs) = ground (arith, later_not_start (i + 1) bs)

start_looks_like : (bs : Bytes) → looks_like_mavlink bs ≡ is_at_start (find_magic_from 0 bs)
unfolding looks_like_mavlink find_magic_from
start_looks_like [] = refl
start_looks_like (b ∷ bs) = ground (arith, later_not_start 0 bs)

-- A buffer looks like MAVLink exactly when the first magic byte stands at offset 0, and some offset
-- is found exactly when the two counts of magic bytes are not both 0.
pub magic_agree :
    (bs : Bytes)
    → let (v1, v2) = count_magic_bytes bs in
      (looks_like_mavlink bs ≡ is_at_start (find_magic_offset bs))
      × (is_found (find_magic_offset bs) ≡ ltb 0 (v1 + v2))
unfolding count_magic_bytes find_magic_offset
magic_agree bs = (start_looks_like bs, found_count 0 bs)
