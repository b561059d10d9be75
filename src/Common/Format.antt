-- ===== src/Common/Format.antt =====
-- What `fmt` and `time` print: padded texts, slices, durations, and texts beyond ASCII.
use Prim.Native.Nat.{ℕ, zero, suc, ◌+◌, ◌-◌, ◌/◌, ◌%◌, ◌^◌, ◌≤◌}
use Prim.Native.Char.{code}
use Prim.Native.String.{String}
use mathlib.Core.Path.{◌≡◌, refl, ◌∙◌}
use mathlib.Core.Bool.{◌&&◌}
use mathlib.Core.List.{List, [], ◌∷◌, ◌++◌}
use native.Mathlib.Omega.{arith}
use mavlink_doctor.Common.Tests.{ltb, leb, nat_eq, if◌then◌else◌}
use mavlink_doctor.Common.Lists.{All, length, length-append}
use mavlink_doctor.Common.Text.{Bytes, codes}
use mavlink_doctor.Common.Decimal.{decimal}
use mavlink_doctor.Common.Fields.{join}

-- The UTF-8 encoding of a literal; `codes` serves for ASCII.
abbrev utf8_of : ℕ → Bytes
utf8_of c =
    if ltb c 0x80
    then c ∷ []
    else if ltb c 0x800
    then (0xC0 + c / 64) ∷ (0x80 + c % 64) ∷ []
    else if ltb c 0x10000
    then (0xE0 + c / 4096) ∷ (0x80 + c / 64 % 64) ∷ (0x80 + c % 64) ∷ []
    else (0xF0 + c / 262144) ∷ (0x80 + c / 4096 % 64) ∷ (0x80 + c / 64 % 64) ∷ (0x80 + c % 64) ∷ []

unfoldable pub utf8 : String → Bytes
utf8 String.[] = []
utf8 (String.◌∷◌ c s) = utf8_of (code c) ++ utf8 s

-- The number of characters of a text: of its bytes that do not continue a character.
unfoldable pub rune_count : Bytes → ℕ
rune_count [] = 0
rune_count (c ∷ cs) = (if leb 0x80 c && ltb c 0xC0 then 0 else 1) + rune_count cs

unfoldable pub replicate : ℕ → ℕ → Bytes
replicate zero c = []
replicate (suc n) c = c ∷ replicate n c

-- `%-10s` with a width: spaces on the right.
unfoldable pub pad : ℕ → Bytes → Bytes
unfolding rune_count replicate
pad width s = s ++ replicate (width - rune_count s) 32

-- `%v` of a slice, its elements printed.
unfoldable pub bracketed : List Bytes → Bytes
bracketed ws = codes "[" ++ (join (codes " ") ws ++ codes "]")

unfoldable pub all_digits : ℕ → ℕ → Bytes
all_digits zero v = []
all_digits (suc digits) v = all_digits digits (v / 10) ++ (48 + v % 10) ∷ []

-- A fraction of `digits` decimal places, with no zeros at its end.
unfoldable pub fraction : ℕ → ℕ → Bytes
unfolding all_digits
fraction zero v = []
fraction (suc digits) v =
    let less = fraction digits (v / 10) in
    if nat_eq (v % 10) 0 then less else all_digits (suc digits) v

abbrev with_point : Bytes → Bytes
with_point [] = []
with_point (c ∷ cs) = b'.' ∷ c ∷ cs

-- `v` units of which 10 to `digits` make one that is printed.
abbrev scaled : ℕ → ℕ → Bytes
scaled digits v = decimal (v / 10 ^ digits) ++ with_point (fraction digits (v % 10 ^ digits))

abbrev hours_minutes : ℕ → Bytes
hours_minutes secs =
    if leb 3600 secs
    then decimal (secs / 3600) ++ (codes "h" ++ (decimal (secs / 60 % 60) ++ codes "m"))
    else if leb 60 secs
    then decimal (secs / 60) ++ codes "m"
    else []

-- `time.Duration.String` of a duration that is not negative, in nanoseconds.
unfoldable pub duration_text : ℕ → Bytes
unfolding fraction
duration_text d =
    if nat_eq d 0
    then codes "0s"
    else if ltb d 1000
    then decimal d ++ codes "ns"
    else if ltb d 1000000
    then scaled 3 d ++ utf8 "µs"
    else if ltb d 1000000000
    then scaled 6 d ++ codes "ms"
    else hours_minutes (d / 1000000000) ++ (scaled 9 (d % 60000000000) ++ codes "s")

-- `d.Round(time.Millisecond)`
unfoldable pub round_millisecond : ℕ → ℕ
round_millisecond d = let r = d % 1000000 in if ltb (r + r) 1000000 then d - r else d + 1000000 - r

pub length-replicate : (n c : ℕ) → length (replicate n c) ≡ n
unfolding replicate
length-replicate zero c = refl
length-replicate (suc n) c = omega (arith, length-replicate n c)

-- A byte of ASCII.
abbrev pub IsAscii : ℕ → Type 0
IsAscii c = suc c ≤ 128

pub rune_count-ascii : (s : Bytes) → All IsAscii s → rune_count s ≡ length s
unfolding rune_count
rune_count-ascii [] h = refl
rune_count-ascii (c ∷ cs) h = ground (arith, rune_count-ascii cs)

-- An ASCII text that fits is padded to the width.
pub length-pad :
    (width : ℕ) (s : Bytes) → All IsAscii s → length s ≤ width → length (pad width s) ≡ width
unfolding pad
length-pad width s h fits =
    length-append s (replicate (width - rune_count s) 32)
    ∙ omega (arith, length-replicate (width - rune_count s) 32, rune_count-ascii s h)

duration_tests :
    (duration_text 10000000000 ≡ codes "10s")
    × (duration_text 90500000000 ≡ codes "1m30.5s")
    × (duration_text 3600000000000 ≡ codes "1h0m0s")
    × (duration_text 12000000 ≡ codes "12ms")
    × (duration_text 1005000000 ≡ codes "1.005s")
    × (duration_text 1500 ≡ utf8 "1.5µs")
unfolding duration_text codes decimal utf8
duration_tests = (refl, refl, refl, refl, refl, refl)
