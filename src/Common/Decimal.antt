-- ===== src/Common/Decimal.antt =====
-- `fmt.Sprintf("%d", n)` for a natural number: its decimal digits, most significant first.
use Prim.Native.Nat.{ℕ, zero, suc, ◌+◌, ◌-◌, ◌*◌, ◌/◌, ◌%◌, ◌≤◌, ◌<◌}
use mathlib.Core.Path.{◌≡◌, refl, sym, ap, ◌∙◌}
use mathlib.Core.Logic.{inl, inr}
use mathlib.Core.Bool.{false}
use mathlib.Core.List.{[], ◌∷◌, ◌++◌}
use native.Mathlib.Omega.{arith}
use mavlink_doctor.Common.Tests.{ltb, if◌then◌else◌, Bool-cases}
use mavlink_doctor.Common.Lists.{All, All-append}
use mavlink_doctor.Common.Text.{Bytes}
use mavlink_doctor.Common.Int.{ℤ, pos, negsuc}

-- `fuel` bounds the number of digits; `suc n` is enough for `n`.
unfoldable pub digits : ℕ → ℕ → Bytes
digits zero n = []
digits (suc fuel) n =
    let more = digits fuel (n / 10) ++ (48 + n % 10) ∷ [] in
    if ltb n 10 then (48 + n) ∷ [] else more

unfoldable pub decimal : ℕ → Bytes
unfolding digits
decimal n = digits (suc n) n

-- `fmt.Sprint(n)` for an `int`.
unfoldable pub sprint : ℤ → Bytes
unfolding decimal
sprint (pos n) = decimal n
sprint (negsuc n) = b'-' ∷ decimal (suc n)

-- `strconv.Itoa` read back.
value_from : ℕ → Bytes → ℕ
value_from acc [] = acc
value_from acc (c ∷ cs) = value_from (acc * 10 + (c - 48)) cs

value_from-append :
    (acc : ℕ) (xs ys : Bytes) → value_from acc (xs ++ ys) ≡ value_from (value_from acc xs) ys
unfolding value_from
value_from-append acc [] ys = refl
value_from-append acc (x ∷ xs) ys = value_from-append (acc * 10 + (x - 48)) xs ys

value_from-digits : (fuel n : ℕ) → n < fuel → value_from 0 (digits fuel n) ≡ n
unfolding digits value_from
value_from-digits zero n h = elim h [ ]
value_from-digits (suc fuel) n h = elim (Bool-cases (ltb n 10)) [
  | inl small ↦ rw small (ground arith)
  | inr large ↦
      rw (large, value_from-append 0 (digits fuel (n / 10)) ((48 + n % 10) ∷ []))
        (rw (value_from-digits fuel (n / 10) (ground arith)) (omega arith))
]

-- Two numbers with one decimal form are equal.
pub decimal-injective : (a b : ℕ) → decimal a ≡ decimal b → a ≡ b
unfolding decimal
decimal-injective a b h =
    sym (value_from-digits (suc a) a (omega arith))
    ∙ ap (value_from 0) h
    ∙ value_from-digits (suc b) b (omega arith)

abbrev pub IsDigit : ℕ → Type 0
IsDigit c = (48 ≤ c) × (c ≤ 57)

All-digits : (fuel n : ℕ) → All IsDigit (digits fuel n)
unfolding digits
All-digits zero n = tt
All-digits (suc fuel) n = elim (Bool-cases (ltb n 10)) [
  | inl small ↦ rw small ((omega arith, ground arith), tt)
  | inr large ↦
      rw large
        (All-append IsDigit (digits fuel (n / 10)) _ (All-digits fuel (n / 10)) (omega arith))
]

-- A decimal form is made of digits.
pub All-decimal : (n : ℕ) → All IsDigit (decimal n)
unfolding decimal
All-decimal n = All-digits (suc n) n

digits_fuel : (f g n : ℕ) → n < f → n < g → digits f n ≡ digits g n
unfolding digits
digits_fuel zero g n h k = elim h [ ]
digits_fuel (suc f) zero n h k = elim k [ ]
digits_fuel (suc f) (suc g) n h k = elim (Bool-cases (ltb n 10)) [
  | inl small ↦ rw small
  | inr large ↦ rw (large, digits_fuel f g (n / 10) (ground arith) (ground arith))
]

-- One more digit at the end.
pub decimal-extend : (n d : ℕ) → 0 < n → d < 10 → decimal (n * 10 + d) ≡ decimal n ++ (48 + d) ∷ []
unfolding decimal digits
decimal-extend n d h k =
    let large : ltb (n * 10 + d) 10 ≡ false = ground arith in
    let quotient : (n * 10 + d) / 10 ≡ n = omega arith in
    let rest : (n * 10 + d) % 10 ≡ d = omega arith in
    rw (large, quotient, rest, digits_fuel (n * 10 + d) (suc n) n (omega arith) (omega arith))
