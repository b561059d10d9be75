-- ===== src/Decoder/FrameInspector.antt =====
-- internal/decoder/frame_inspector.go: magic bytes and frame versions. A byte slice is a list of
-- numbers below 256.
use mavlink_doctor.Common.{ℕ, ◌+◌, Bool, false, ◌||◌, [], ◌∷◌, Bytes, codes, nat_eq, if◌then◌else◌}
use mavlink_doctor.Common.Int.{ℤ, pos, negsuc}
use mavlink_doctor.Gomavlib.{Frame, FrameKind, v1_frame, v2_frame, unknown_frame}

abbrev pub magic_v1 : ℕ
magic_v1 = 0xFE

abbrev pub magic_v2 : ℕ
magic_v2 = 0xFD

abbrev kind_version : FrameKind → Bytes
kind_version v1_frame = codes "MAVLink 1"
kind_version v2_frame = codes "MAVLink 2"
kind_version unknown_frame = codes "Unknown MAVLink version"

unfoldable pub frame_version : Frame → Bytes
frame_version fr = kind_version fr.kind

unfoldable pub magic_byte_name : ℕ → Bytes
magic_byte_name b =
    if nat_eq b magic_v1
    then codes "MAVLink 1 (0xFE)"
    else if nat_eq b magic_v2
    then codes "MAVLink 2 (0xFD)"
    else codes "Non-MAVLink"

abbrev pub is_magic : ℕ → Bool
is_magic b = nat_eq b magic_v1 || nat_eq b magic_v2

unfoldable pub looks_like_mavlink : Bytes → Bool
looks_like_mavlink [] = false
looks_like_mavlink (b ∷ bs) = is_magic b

-- The `range` loop with its index; -1 when no byte matches.
unfoldable pub find_magic_from : ℕ → Bytes → ℤ
find_magic_from i [] = negsuc 0
find_magic_from i (b ∷ bs) =
    let rest = find_magic_from (i + 1) bs in if is_magic b then pos i else rest

unfoldable pub find_magic_offset : Bytes → ℤ
unfolding find_magic_from
find_magic_offset bs = find_magic_from 0 bs

-- `bytes.Count(data, []byte{c})`
unfoldable pub count_byte : ℕ → Bytes → ℕ
count_byte c [] = 0
count_byte c (b ∷ bs) = (if nat_eq b c then 1 else 0) + count_byte c bs

unfoldable pub count_magic_bytes : Bytes → ℕ × ℕ
unfolding count_byte
count_magic_bytes bs = (count_byte magic_v1 bs, count_byte magic_v2 bs)
