-- ===== src/Reporter/Terminal/Names.antt =====
-- internal/reporter/terminal.go: the short names in the table of sources.
use mavlink_doctor.Common.{
  ℕ, ℕ-Eq, ◌∷◌, [], ◌++◌, ◌≤◌, Bytes, codes, length, length-take, take, ltb, if◌then◌else◌, arith,
}
use mavlink_doctor.Common.Assoc.{Assoc, lookup, get_or}
use mavlink_doctor.Common.Decimal.{decimal}
use mavlink_doctor.Common.Fields.{contains_text}

abbrev pub short_components : Assoc ℕ Bytes
short_components =
    (1, codes "Autopilot")
    ∷ (154, codes "Gimbal 1")
    ∷ (155, codes "Gimbal 2")
    ∷ (100, codes "Camera 1")
    ∷ (191, codes "Companion PC")
    ∷ (190, codes "GCS")
    ∷ []

unfoldable pub short_component_name : ℕ → Bytes
short_component_name comp =
    get_or (lookup comp short_components) (codes "Component " ++ decimal comp)

unfoldable pub short_type_string : Bytes → Bytes
short_type_string type =
    if contains_text (codes "Quadrotor") type
    then codes "Quadrotor"
    else if contains_text (codes "Gimbal") type
    then codes "Payload Gimbal"
    else if contains_text (codes "Fixed Wing") type
    then codes "Fixed Wing"
    else if contains_text (codes "Hexarotor") type
    then codes "Hexarotor"
    else if ltb 22 (length type)
    then take 22 type
    else type

unfoldable pub short_status_string : Bytes → Bytes
short_status_string status =
    if contains_text (codes "STANDBY") status
    then codes "STANDBY"
    else if contains_text (codes "ACTIVE") status
    then codes "ACTIVE"
    else if contains_text (codes "UNINIT") status
    then codes "UNINIT"
    else if contains_text (codes "BOOT") status
    then codes "BOOT"
    else status

-- A short type is at most 22 bytes long.
pub length-short_type_string : (type : Bytes) → length (short_type_string type) ≤ 22
unfolding short_type_string codes
length-short_type_string type = ground (arith, length-take 22 type)
