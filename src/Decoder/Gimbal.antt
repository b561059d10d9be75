-- ===== src/Decoder/Gimbal.antt =====
-- internal/decoder/gimbal.go: evidence of a gimbal, gathered message by message.
use mavlink_doctor.Common.{
  ℕ, Bool, true, false, ◌||◌, Option, none, some, List, [], ◌∷◌, ◌++◌, Bytes, Bytes-Eq, ◌==◌, codes,
  nat_eq, if◌then◌else◌,
}
use mavlink_doctor.Common.Decimal.{decimal}
use mavlink_doctor.Common.Hex.{hex_upper}
use mavlink_doctor.Gomavlib.{
  Message, heartbeat, gimbal_device_attitude_status, gimbal_device_information,
  gimbal_manager_status, gimbal_manager_information, mount_orientation, other,
}

-- A nil slice is `none`. The attitude fields are float32 bit patterns, which nothing sets.
pub record GimbalEvidence : Type 0 where
  pub observed : Bool
  pub gimbal_type : Bytes
  pub system_id : ℕ
  pub component_id : ℕ
  pub messages_seen : Option (List Bytes)
  pub attitude_roll : ℕ
  pub attitude_pitch : ℕ
  pub attitude_yaw : ℕ
  pub details : Bytes

abbrev pub no_evidence : GimbalEvidence
no_evidence = record {
  observed = false;
  gimbal_type = [];
  system_id = 0;
  component_id = 0;
  messages_seen = none;
  attitude_roll = 0;
  attitude_pitch = 0;
  attitude_yaw = 0;
  details = [];
}

-- common.MAV_TYPE_GIMBAL
abbrev pub mav_type_gimbal : ℕ
mav_type_gimbal = 26

unfoldable pub contains : Bytes → List Bytes → Bool
contains val [] = false
contains val (item ∷ items) = if item == val then true else contains val items

unfoldable pub append_unique : List Bytes → Bytes → List Bytes
unfolding contains
append_unique items val = if contains val items then items else items ++ val ∷ []

abbrev pub seen_list : Option (List Bytes) → List Bytes
seen_list none = []
seen_list (some items) = items

-- The fields that every branch sets when it finds a gimbal.
unfoldable pub observe : GimbalEvidence → ℕ → ℕ → Bytes → GimbalEvidence
unfolding append_unique
observe e sys comp label = record e {
  observed = true;
  system_id = sys;
  component_id = comp;
  messages_seen = some (append_unique (seen_list e.messages_seen) label);
}

abbrev pub is_gimbal_component : ℕ → Bool
is_gimbal_component comp = nat_eq comp 154 || nat_eq comp 155

-- `float_text` is `fmt.Sprintf("%.1f", x)` of a float32.
module _ (float_text : ℕ → Bytes) where
  unfoldable pub inspect : Message → ℕ → ℕ → GimbalEvidence → Bool × GimbalEvidence
  unfolding observe
  inspect (heartbeat type autopilot status) sys comp e =
      if nat_eq type mav_type_gimbal || is_gimbal_component comp
      then (
        true,
        record (observe e sys comp (codes "HEARTBEAT(MAV_TYPE_GIMBAL)")) {
          gimbal_type = codes "Payload Gimbal via HEARTBEAT";
          details =
              codes "Gimbal heartbeat received from sys="
              ++ (decimal sys ++ (codes " comp=" ++ decimal comp));
        },
      )
      else (false, e)
  inspect (gimbal_device_attitude_status system component) sys comp e = (
    true,
    record (observe e sys comp (codes "GIMBAL_DEVICE_ATTITUDE_STATUS")) {
      gimbal_type = codes "MAVLink v2 Gimbal Protocol v2";
      details =
          codes "Gimbal device attitude reported (target sys="
          ++ (decimal system ++ (codes " comp=" ++ (decimal component ++ codes ")")));
    },
  )
  inspect (gimbal_device_information model vendor uid) sys comp e = (
    true,
    record (observe e sys comp (codes "GIMBAL_DEVICE_INFORMATION")) {
      gimbal_type = codes "Gimbal: " ++ (model ++ (codes " (Vendor: " ++ (vendor ++ codes ")")));
      details = codes "Hardware UID: " ++ decimal uid;
    },
  )
  inspect (gimbal_manager_status device) sys comp e = (
    true,
    record (observe e sys comp (codes "GIMBAL_MANAGER_STATUS")) {
      details =
          codes "Gimbal Manager sys="
          ++ (decimal sys
              ++ (codes " comp=" ++ (decimal comp ++ (codes " device_id=" ++ decimal device))));
    },
  )
  inspect (gimbal_manager_information flags) sys comp e = (
    true,
    record (observe e sys comp (codes "GIMBAL_MANAGER_INFORMATION")) {
      details = codes "Gimbal Manager Cap Flags=0x" ++ hex_upper flags;
    },
  )
  inspect (mount_orientation roll pitch yaw) sys comp e = (
    true,
    record (observe e sys comp (codes "MOUNT_ORIENTATION")) {
      gimbal_type = codes "Mount Orientation Protocol";
      details =
          codes "Mount roll="
          ++ (float_text roll
              ++ (codes " pitch=" ++ (float_text pitch ++ (codes " yaw=" ++ float_text yaw))));
    },
  )
  inspect (other name) sys comp e =
      if is_gimbal_component comp then (true, observe e sys comp name) else (false, e)

  -- A nil slice of seen messages is made empty first.
  unfoldable pub check_gimbal_message : Message → ℕ → ℕ → GimbalEvidence → Bool × GimbalEvidence
  unfolding inspect
  check_gimbal_message msg sys comp e =
      inspect msg sys comp (record e { messages_seen = some (seen_list e.messages_seen) })
