-- ===== src/Discovery/Subnet/Increment.antt =====
-- `inc` of internal/discovery/subnet_probe.go adds one to the address as a number.
use native.Mathlib.Nat.{pow-suc}
use mavlink_doctor.Common.{
  ℕ, suc, ◌+◌, ◌*◌, ◌^◌, ◌%◌, ◌<◌, ◌≡◌, refl, subst, ◌∙◌, inl, inr, Bool, true, false, [], ◌∷◌,
  Bytes, arith, All, length, u8, nat_eq, ap, if◌then◌else◌, Bool-cases,
}
use native.Mathlib.Decide.{ℕ_discrete}
use mavlink_doctor.Discovery.Subnet.{inc, inc_carry, last_byte}

abbrev pub IsByte : ℕ → Type 0
IsByte b = b < 256

-- The number that an address stands for.
pub value : Bytes → ℕ
value [] = 0
value (b ∷ bs) = b * 256 ^ length bs + value bs

-- The value of the carry out of `n` bytes.
abbrev carried : Bool → ℕ → ℕ
carried true n = 256 ^ n
carried false n = 0

carry_sum :
    (b v v' power : ℕ)
    → b < 256
    → v' + power ≡ v + 1
    → u8 (b + 1) * power + v' + (if nat_eq (u8 (b + 1)) 0 then power * 256 else 0)
      ≡ b * power + v + 1
carry_sum b v v' power h e = elim (ℕ_discrete b 255) [
  | yes p ↦ rw p (omega arith)
  | no n ↦ let small : u8 (b + 1) ≡ b + 1 = omega arith in rw small (ground (arith, keeps))
]
  where
    keeps : (b + 1) * power + v' ≡ b * power + v + 1
    keeps = omega arith

carried-suc : (c : Bool) (n : ℕ) → carried c (suc n) ≡ (if c then 256 ^ n * 256 else 0)
carried-suc true n = pow-suc 256 n
carried-suc false n = refl

inc_carry_lem :
    (ip : Bytes)
    → All IsByte ip
    → let (carry, ip') = inc_carry ip in
      (value ip' + carried carry (length ip) ≡ value ip + 1)
      × (length ip' ≡ length ip)
      × All IsByte ip'
unfolding inc_carry value
inc_carry_lem [] h = (refl, refl, tt)
inc_carry_lem (b ∷ bs) h =
    let ih = inc_carry_lem bs h.1 in
    elim (Bool-cases (inc_carry bs).0) [
      | inl p ↦ rw p (
        rw (carried-suc (nat_eq (u8 (b + 1)) 0) (length bs), ih.1)
            (carry_sum b (value bs) (value (inc_carry bs).1) (256 ^ length bs) h.0 (rw p at ih.0)),
        ap suc ih.1,
        (omega arith, ih.2),
      )
      | inr q ↦ rw q (rw ih.1 (omega (arith, rw q at ih.0)), ap suc ih.1, (h.0, ih.2))
    ]

value-lt : (ip : Bytes) → All IsByte ip → value ip < 256 ^ length ip
unfolding value
value-lt [] h = omega arith
value-lt (b ∷ bs) h =
    rw (pow-suc 256 (length bs)) (below (256 ^ length bs) (value bs) (value-lt bs h.1))
  where
    below : (power v : ℕ) → v < power → b * power + v < power * 256
    below power v k = grind (arith, h.0)

wrap_lem :
    (c : Bool) (v v' n : ℕ) → v' < 256 ^ n → v' + carried c n ≡ v + 1 → v' ≡ (v + 1) % 256 ^ n
wrap_lem true v v' n h e = grind arith
wrap_lem false v v' n h e = grind arith

-- `inc` keeps the length of an address, and adds one to its number, modulo 256 to the length.
pub inc_lem :
    (ip : Bytes)
    → All IsByte ip
    → (value (inc ip) ≡ (value ip + 1) % 256 ^ length ip)
      × (length (inc ip) ≡ length ip)
      × All IsByte (inc ip)
unfolding inc
inc_lem ip h = (
  wrap_lem (inc_carry ip).0 (value ip) (value (inc_carry ip).1) (length ip)
      (subst (λ n. value (inc_carry ip).1 < 256 ^ n) (inc_carry_lem ip h).1
        (value-lt (inc_carry ip).1 (inc_carry_lem ip h).2))
      (inc_carry_lem ip h).0,
  (inc_carry_lem ip h).1,
  (inc_carry_lem ip h).2,
)

length-inc_carry : (ip : Bytes) → length (inc_carry ip).1 ≡ length ip
unfolding inc_carry
length-inc_carry [] = refl
length-inc_carry (b ∷ bs) = ground (arith, length-inc_carry bs)

last_byte-cons : (x : ℕ) (ys : Bytes) → 0 < length ys → last_byte (x ∷ ys) ≡ last_byte ys
unfolding last_byte
last_byte-cons x [] h = absurd (omega arith)
last_byte-cons x (y ∷ ys) h = refl

last_byte-inc_carry :
    (b : ℕ) (bs : Bytes) → last_byte (inc_carry (b ∷ bs)).1 ≡ u8 (last_byte (b ∷ bs) + 1)
unfolding inc_carry last_byte
last_byte-inc_carry b [] = refl
last_byte-inc_carry b (c ∷ bs) =
    let tail = (inc_carry (c ∷ bs)).1 in
    let long : 0 < length tail = omega (arith, length-inc_carry (c ∷ bs)) in
    elim (Bool-cases (inc_carry (c ∷ bs)).0) [
      | inl p ↦ rw p (last_byte-cons (u8 (b + 1)) tail long ∙ last_byte-inc_carry c bs)
      | inr q ↦ rw q (last_byte-cons b tail long ∙ last_byte-inc_carry c bs)
    ]

-- The last byte of the next address is the next byte.
pub last_byte-inc : (ip : Bytes) → 0 < length ip → last_byte (inc ip) ≡ u8 (last_byte ip + 1)
unfolding inc
last_byte-inc [] h = absurd (omega arith)
last_byte-inc (b ∷ bs) h = last_byte-inc_carry b bs

pub length-inc : (ip : Bytes) → length (inc ip) ≡ length ip
unfolding inc
length-inc ip = length-inc_carry ip
