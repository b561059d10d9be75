-- ===== src/Decoder/Enums.antt =====
-- internal/decoder/enums.go: the names of MAVLink enum values. A `switch` with a default is a table
-- and a default text.
use mavlink_doctor.Common.{ℕ, ℕ-Eq, ◌∷◌, [], ◌++◌, Bytes, codes}
use mavlink_doctor.Common.Assoc.{Assoc, lookup, get_or}
use mavlink_doctor.Common.Decimal.{decimal}

-- `fmt.Sprintf` of a format with one `%d` between two texts.
unfoldable pub format_d : Bytes → Bytes → ℕ → Bytes
format_d before after n = before ++ (decimal n ++ after)

unfoldable pub name_in : Assoc ℕ Bytes → Bytes → Bytes → ℕ → Bytes
unfolding format_d
name_in table before after n = get_or (lookup n table) (format_d before after n)

abbrev pub autopilots : Assoc ℕ Bytes
autopilots =
    (0, codes "Generic / Unknown (MAV_AUTOPILOT_GENERIC)")
    ∷ (1, codes "PIXHAWK / PX4")
    ∷ (2, codes "SLUGS")
    ∷ (3, codes "ArduPilot (ArduCopter/ArduPlane/Rover/Sub)")
    ∷ (4, codes "OpenPilot")
    ∷ (5, codes "Generic Mission Computer")
    ∷ (6, codes "FlexiPilot")
    ∷ (7, codes "AutoQuad")
    ∷ (8, codes "UDB")
    ∷ (9, codes "FP-Optimizer")
    ∷ (10, codes "Armazila")
    ∷ (11, codes "Aerob")
    ∷ (12, codes "PX4 Autopilot")
    ∷ (13, codes "SMACCMPilot")
    ∷ (14, codes "AutoTeam")
    ∷ (15, codes "Freefall Clipper")
    ∷ (16, codes "InertiaLabs")
    ∷ (17, codes "INAIR")
    ∷ (18, codes "Inav / Cleanflight / Betaflight")
    ∷ []

unfoldable pub autopilot_name : ℕ → Bytes
autopilot_name = name_in autopilots (codes "Custom / Other (") (codes ")")

abbrev pub vehicle_types : Assoc ℕ Bytes
vehicle_types =
    (0, codes "Generic Micro Air Vehicle (MAV_TYPE_GENERIC)")
    ∷ (1, codes "Fixed Wing Aircraft")
    ∷ (2, codes "Quadrotor Multirotor")
    ∷ (3, codes "Coaxial Helicopter")
    ∷ (4, codes "Helicopter (Normal single rotor)")
    ∷ (5, codes "Ground Installation / Antenna Tracker")
    ∷ (6, codes "Ground Control Station (GCS)")
    ∷ (7, codes "Airship / Blimp")
    ∷ (8, codes "Free Balloon")
    ∷ (9, codes "Rocket")
    ∷ (10, codes "Ground Rover")
    ∷ (11, codes "Surface Boat")
    ∷ (12, codes "Submarine / Underwater ROV")
    ∷ (13, codes "Hexarotor Multirotor")
    ∷ (14, codes "Octorotor Multirotor")
    ∷ (15, codes "Tricopter")
    ∷ (16, codes "Flapping Wing Ornithopter")
    ∷ (17, codes "Kite")
    ∷ (18, codes "Onboard Companion Computer")
    ∷ (19, codes "Two-Rotor VTOL (Tailsitter / Tiltrotor)")
    ∷ (20, codes "Quad-Rotor VTOL")
    ∷ (21, codes "Tiltrotor VTOL")
    ∷ (26, codes "Payload Gimbal")
    ∷ (27, codes "Onboard ADSB Transponder")
    ∷ (30, codes "Camera")
    ∷ (31, codes "Charging Station")
    ∷ []

unfoldable pub vehicle_type_name : ℕ → Bytes
vehicle_type_name = name_in vehicle_types (codes "Specialized / Unknown (") (codes ")")

abbrev pub system_statuses : Assoc ℕ Bytes
system_statuses =
    (0, codes "UNINIT (Uninitialized)")
    ∷ (1, codes "BOOT (System booting)")
    ∷ (2, codes "CALIBRATING (Sensors calibrating)")
    ∷ (3, codes "STANDBY (Grounded, disarmed, ready)")
    ∷ (4, codes "ACTIVE (Armed and operational)")
    ∷ (5, codes "CRITICAL (Failsafe or critical alarm active)")
    ∷ (6, codes "EMERGENCY (System shutdown / emergency landing)")
    ∷ (7, codes "POWEROFF (Powering off)")
    ∷ (8, codes "TERMINATION (Flight termination)")
    ∷ []

unfoldable pub system_status_name : ℕ → Bytes
system_status_name = name_in system_statuses (codes "Unknown state (") (codes ")")

abbrev pub components : Assoc ℕ Bytes
components =
    (1, codes "Autopilot 1 (Flight Controller)")
    ∷ (2, codes "Autopilot 2 (Redundant FC)")
    ∷ (100, codes "Camera 1")
    ∷ (101, codes "Camera 2")
    ∷ (140, codes "Servo Actuator 1")
    ∷ (154, codes "Gimbal 1")
    ∷ (155, codes "Gimbal 2")
    ∷ (156, codes "ADSB Transponder")
    ∷ (158, codes "Precision Landing / Beacon")
    ∷ (190, codes "GCS (Ground Control Station)")
    ∷ (191, codes "Companion Computer 1")
    ∷ (192, codes "Companion Computer 2")
    ∷ (196, codes "Obstacle Avoidance System")
    ∷ (200, codes "Laser Scanner / Lidar")
    ∷ (240, codes "Telemetry Radio / Air Unit")
    ∷ []

unfoldable pub component_name : ℕ → Bytes
component_name = name_in components (codes "Component ") []
