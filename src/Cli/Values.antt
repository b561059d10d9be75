-- ===== src/Cli/Values.antt =====
-- How package flag reads the values of internal/cli/flags.go: `strconv.ParseBool`, and
-- `strconv.ParseInt` with base 0 and 64 bits.
use mavlink_doctor.Common.{
  ℕ, ◌+◌, ◌-◌, ◌*◌, ◌^◌, Bool, true, false, not, ◌&&◌, ◌||◌, Option, none, some, [], ◌∷◌, Bytes,
  Bytes-Eq, ◌==◌, codes, nat_eq, leb, ltb, any, ◌>>=◌, if◌then◌else◌,
}
use mavlink_doctor.Common.Int.{ℤ, pos, negsuc}
use mavlink_doctor.Common.Ascii.{lower}

unfoldable pub parse_bool : Bytes → Option Bool
parse_bool s =
    if s == codes "1"
      || s == codes "t"
      || s == codes "T"
      || s == codes "TRUE"
      || s == codes "true"
      || s == codes "True"
    then some true
    else if s == codes "0"
        || s == codes "f"
        || s == codes "F"
        || s == codes "FALSE"
        || s == codes "false"
        || s == codes "False"
    then some false
    else none

abbrev underscore : ℕ
underscore = 95

-- The base that a prefix names, with the digits after it.
unfoldable pub split_base : Bytes → ℕ × Bytes
split_base [] = (10, [])
split_base (z ∷ []) = if nat_eq z b'0' then (8, []) else (10, z ∷ [])
split_base (z ∷ p ∷ []) = if nat_eq z b'0' then (8, p ∷ []) else (10, z ∷ p ∷ [])
split_base (z ∷ p ∷ d ∷ s) =
    if not (nat_eq z b'0')
    then (10, z ∷ p ∷ d ∷ s)
    else if nat_eq (lower p) b'b'
    then (2, d ∷ s)
    else if nat_eq (lower p) b'o'
    then (8, d ∷ s)
    else if nat_eq (lower p) b'x'
    then (16, d ∷ s)
    else (8, p ∷ d ∷ s)

-- A digit or a letter as a number; 36 is none.
abbrev digit_value : ℕ → ℕ
digit_value c =
    if leb b'0' c && leb c b'9'
    then c - b'0'
    else if leb b'a' (lower c) && leb (lower c) b'z'
    then lower c - b'a' + 10
    else 36

unfoldable pub digits_value : ℕ → ℕ → Bytes → Option ℕ
digits_value base acc [] = some acc
digits_value base acc (c ∷ s) =
    let rest =
      digits_value base (if nat_eq c underscore then acc else acc * base + digit_value c) s in
    if nat_eq c underscore || ltb (digit_value c) base then rest else none

-- `underscoreOK` after the prefix: an underscore stands between digits, where the prefix counts as one.
unfoldable pub underscores_ok : (after_digit after_underscore is_hex : Bool) → Bytes → Bool
underscores_ok after_digit after_underscore is_hex [] = not after_underscore
underscores_ok after_digit after_underscore is_hex (c ∷ s) =
    let on_digit = ltb (digit_value c) (if is_hex then 16 else 10) in
    let rest = underscores_ok on_digit (nat_eq c underscore) is_hex s in
    if on_digit
    then rest
    else if nat_eq c underscore
    then after_digit && rest
    else not after_underscore && rest

abbrev has_prefix_base : Bytes → Bool
has_prefix_base [] = false
has_prefix_base (z ∷ []) = false
has_prefix_base (z ∷ p ∷ s) =
    nat_eq z b'0' && (nat_eq (lower p) b'b' || nat_eq (lower p) b'o' || nat_eq (lower p) b'x')

abbrev is_hex_prefix : Bytes → Bool
is_hex_prefix [] = false
is_hex_prefix (z ∷ []) = false
is_hex_prefix (z ∷ p ∷ s) = nat_eq z b'0' && nat_eq (lower p) b'x'

abbrev after_prefix : Bytes → Bytes
after_prefix [] = []
after_prefix (z ∷ []) = z ∷ []
after_prefix (z ∷ p ∷ s) = if has_prefix_base (z ∷ p ∷ s) then s else z ∷ p ∷ s

abbrev has_underscore : Bytes → Bool
has_underscore s = any (λ c. nat_eq c underscore) s

abbrev is_well_separated : Bytes → Bool
is_well_separated s =
    not (has_underscore s)
    || underscores_ok (has_prefix_base s) false (is_hex_prefix s) (after_prefix s)

-- The value of a number without sign.
unfoldable pub parse_uint : Bytes → Option ℕ
unfolding split_base digits_value underscores_ok
parse_uint [] = none
parse_uint (c ∷ s) =
    let (base, ds) = split_base (c ∷ s) in
    if is_well_separated (c ∷ s) then digits_value base 0 ds else none

abbrev in_range : ℕ → ℕ → Option ℕ
in_range limit n = if ltb n limit then some n else none

abbrev negative : ℕ → ℤ
negative n = if nat_eq n 0 then pos 0 else negsuc (n - 1)

unfoldable pub parse_negative : Bytes → Option ℤ
unfolding parse_uint
parse_negative s = do n ← parse_uint s; m ← in_range (2 ^ 63 + 1) n; some (negative m)

unfoldable pub parse_positive : Bytes → Option ℤ
unfolding parse_uint
parse_positive s = do n ← parse_uint s; m ← in_range (2 ^ 63) n; some (pos m)

unfoldable pub parse_int : Bytes → Option ℤ
unfolding parse_negative parse_positive
parse_int [] = none
parse_int (c ∷ s) =
    if nat_eq c b'-'
    then parse_negative s
    else if nat_eq c b'+'
    then parse_positive s
    else parse_positive (c ∷ s)
