-- ===== src/Gomavlib.antt =====
-- The values that the program receives from github.com/bluenviron/gomavlib/v4: frames, messages
-- and node events, as far as the program looks into them. A `float32` is its bit pattern.
use mavlink_doctor.Common.{ℕ, Bytes}

-- The message types that the program tells apart; `other` carries its `%T` name.
pub data Message : Type 0 where
  heartbeat : (type autopilot system_status : ℕ) → Message
  gimbal_device_attitude_status : (target_system target_component : ℕ) → Message
  gimbal_device_information : (model_name vendor_name : Bytes) (uid : ℕ) → Message
  gimbal_manager_status : (gimbal_device_id : ℕ) → Message
  gimbal_manager_information : (cap_flags : ℕ) → Message
  mount_orientation : (roll pitch yaw : ℕ) → Message
  other : (type_name : Bytes) → Message

pub data FrameKind : Type 0 where
  v1_frame v2_frame unknown_frame : FrameKind

-- What the getters of `frame.Frame` return.
pub record Frame : Type 0 where
  pub kind : FrameKind
  pub message : Message
  pub system_id : ℕ
  pub component_id : ℕ
  pub sequence_number : ℕ

-- The events of a node's channel.
pub data Event : Type 0 where
  channel_open : Event
  frame_received : Frame → Event
  parse_error : Event
  stream_requested : Event
  channel_close : Event
