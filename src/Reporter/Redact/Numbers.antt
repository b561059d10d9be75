-- ===== src/Reporter/Redact/Numbers.antt =====
-- The numbers of an address as internal/reporter/support_report.go matches and reads them.
use mavlink_doctor.Common.{
  ℕ, zero, suc, ◌≡◌, refl, ◌<◌, ◌≤◌, Bool, true, false, not, ◌&&◌, some, [], ◌∷◌, ◌++◌, Bytes,
  arith, All, length, nat_eq, leb,
}
use mavlink_doctor.Common.Decimal.{decimal, digits, IsDigit, All-decimal}
use mavlink_doctor.Common.Table.{table, table_entry}
use mavlink_doctor.Reporter.Redact.{
  is_digit, is_nil, take_digits, match_number, match_group, number_of, has_leading_zero,
}

abbrev pub starts_no_digit : Bytes → Bool
starts_no_digit [] = true
starts_no_digit (c ∷ s) = not (is_digit c)

digit_off : (c : ℕ) → not (is_digit c) ≡ true → is_digit c ≡ false
digit_off c h = ground arith

pub digit_on : (c : ℕ) → IsDigit c → is_digit c ≡ true
digit_on c h = ground arith

take_digits_none :
    (n : ℕ) (rest : Bytes) → starts_no_digit rest ≡ true → take_digits n rest ≡ ([], rest)
unfolding take_digits
take_digits_none zero rest h = refl
take_digits_none (suc n) [] h = refl
take_digits_none (suc n) (c ∷ s) h = rw (digit_off c h) refl

take_digits_full :
    (n : ℕ) (ds rest : Bytes)
    → All IsDigit ds
    → length ds ≤ n
    → starts_no_digit rest ≡ true
    → take_digits n (ds ++ rest) ≡ (ds, rest)
unfolding take_digits
take_digits_full n [] rest h l s = take_digits_none n rest s
take_digits_full zero (d ∷ ds) rest h l s = absurd (omega (arith, l))
take_digits_full (suc n) (d ∷ ds) rest (h, hs) l s =
    rw (take_digits_full n ds rest hs (omega (arith, l)) s, digit_on d h)

-- What the decimal text of a byte looks like, by evaluation.
abbrev reads_back : ℕ → Bool
reads_back n =
    leb (length (decimal n)) 3
    && nat_eq (number_of 0 (decimal n)) n
    && not (has_leading_zero (decimal n))
    && not (is_nil (decimal n))

bytes_read_back : table reads_back 256 ≡ true
unfolding table decimal digits number_of
bytes_read_back = refl

pub byte_text :
    (n : ℕ)
    → n < 256
    → (length (decimal n) ≤ 3)
      × (number_of 0 (decimal n) ≡ n)
      × (has_leading_zero (decimal n) ≡ false)
      × (is_nil (decimal n) ≡ false)
byte_text n h = ground (arith, table_entry reads_back n 256 h bytes_read_back)

pub match_number-decimal :
    (n : ℕ) (rest : Bytes)
    → n < 256
    → starts_no_digit rest ≡ true
    → match_number (decimal n ++ rest) ≡ some (decimal n, rest)
unfolding match_number
match_number-decimal n rest h s =
    let (short, _, _, full) = byte_text n h in
    rw (take_digits_full 3 (decimal n) rest (All-decimal n) short s, full)

pub match_group-decimal :
    (n : ℕ) (rest : Bytes)
    → n < 256
    → match_group (decimal n ++ b'.' ∷ rest) ≡ some (decimal n, rest)
unfolding match_group
match_group-decimal n rest h = rw (match_number-decimal n (b'.' ∷ rest) h refl)
