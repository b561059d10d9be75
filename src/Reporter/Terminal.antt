-- ===== src/Reporter/Terminal.antt =====
-- internal/reporter/terminal.go: what the program prints on the terminal, as the bytes of the standard
-- output. The texts of float64 values (`%.1f`, `%.2f`) are a function of the caller.
pub mod Names
pub mod Environment
pub mod Telemetry
pub mod Columns
use mavlink_doctor.Common.{ℕ, ◌∷◌, [], ◌++◌, Bytes, codes}
use mavlink_doctor.Common.Format.{utf8}

abbrev pub line : Bytes → Bytes
line s = s ++ (10 ∷ [])

-- The signs that U+FE0F follows, in UTF-8.
unfoldable pub warn_sign : Bytes
warn_sign = utf8 "⚠" ++ 0xEF ∷ 0xB8 ∷ 0x8F ∷ []

unfoldable pub info_sign : Bytes
info_sign = utf8 "ℹ" ++ 0xEF ∷ 0xB8 ∷ 0x8F ∷ []

unfoldable pub rule : Bytes
rule = codes "============================================================"

unfoldable pub section : Bytes → Bytes
unfolding rule
section title = line [] ++ (line rule ++ (line (codes " " ++ title) ++ line rule))

unfoldable pub ok_line : Bytes → Bytes
unfolding utf8
ok_line msg = utf8 "✅ " ++ line msg

unfoldable pub warn_line : Bytes → Bytes
unfolding warn_sign
warn_line msg = warn_sign ++ (codes "  " ++ line msg)

unfoldable pub fail_line : Bytes → Bytes
unfolding utf8
fail_line msg = utf8 "❌ " ++ line msg

unfoldable pub info_line : Bytes → Bytes
info_line msg = codes "   " ++ line msg
