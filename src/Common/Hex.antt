-- ===== src/Common/Hex.antt =====
-- `fmt.Sprintf("%X", n)` and `hex.EncodeToString`.
use Prim.Native.Nat.{ℕ, zero, suc, ◌+◌, ◌-◌, ◌/◌, ◌%◌}
use mathlib.Core.List.{[], ◌∷◌, ◌++◌}
use mavlink_doctor.Common.Tests.{ltb, if◌then◌else◌}
use mavlink_doctor.Common.Text.{Bytes}

-- The digit of a number below 16; the letters begin at `letter`.
abbrev pub hex_digit : ℕ → ℕ → ℕ
hex_digit letter d = if ltb d 10 then 48 + d else letter + (d - 10)

-- `fuel` bounds the number of digits; `suc n` is enough for `n`.
unfoldable pub hex_digits : ℕ → ℕ → Bytes
hex_digits zero n = []
hex_digits (suc fuel) n =
    let more = hex_digits fuel (n / 16) ++ hex_digit b'A' (n % 16) ∷ [] in
    if ltb n 16 then hex_digit b'A' n ∷ [] else more

unfoldable pub hex_upper : ℕ → Bytes
unfolding hex_digits
hex_upper n = hex_digits (suc n) n

unfoldable pub encode_to_string : Bytes → Bytes
encode_to_string [] = []
encode_to_string (b ∷ bs) = hex_digit b'a' (b / 16) ∷ hex_digit b'a' (b % 16) ∷ encode_to_string bs
