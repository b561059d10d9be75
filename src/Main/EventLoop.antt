-- ===== src/Main/EventLoop.antt =====
-- cmd/mavlink-doctor/main.go: the event loop of `runMavlinkTest`. A run is the list of the events that
-- the loop takes from the node before the timer, the context or the closed channel ends it.
use mavlink_doctor.Common.{
  ℕ, Bool, true, false, not, ◌&&◌, Option, none, some, List, [], ◌∷◌, ◌++◌, Bytes, Bytes-Eq, codes,
  if◌then◌else◌,
}
use mavlink_doctor.Common.Assoc.{Assoc, lookup, insert, get_or}
use mavlink_doctor.Common.Decimal.{decimal}
use mavlink_doctor.Gomavlib.{
  Message, heartbeat, gimbal_device_attitude_status, gimbal_device_information,
  gimbal_manager_status, gimbal_manager_information, mount_orientation, other, Frame, Event,
  channel_open, frame_received, parse_error, stream_requested, channel_close,
}
use mavlink_doctor.Cli.Flags.{Config}
use mavlink_doctor.Decoder.Enums.{
  autopilot_name, vehicle_type_name, system_status_name, component_name,
}
use mavlink_doctor.Decoder.FrameInspector.{frame_version}
use mavlink_doctor.Decoder.Gimbal.{GimbalEvidence, no_evidence, check_gimbal_message}
use mavlink_doctor.Metrics.Float64.{Float64}
use mavlink_doctor.Metrics.Types.{EndpointKey}
use mavlink_doctor.Metrics.Tracker.{Tracker, new_tracker, record_frame, record_parse_error}
use mavlink_doctor.Metrics.Heartbeat.{Identity, record_heartbeat}

-- What the loop prints, less the clock's text.
pub data Line : Type 0 where
  opened requested closed bad_frame : Line
  online : (source : Bytes) (vehicle status : Bytes) → Line
  telemetry : (source : Bytes) (component : Bytes) → Line
  frame_log : Frame → Line

-- The variables of the loop, with what it has printed.
pub record LoopState (F : Type 0) : Type 0 where
  pub tracker : Tracker F
  pub gimbal : GimbalEvidence
  pub announced : Assoc Bytes Bool
  pub printed : List Line

-- An event, with the times that `RecordFrame` and `RecordHeartbeat` read from the clock.
pub record Timed : Type 0 where
  pub event : Event
  pub frame_time : ℕ
  pub beat_time : ℕ

unfoldable pub src_key : ℕ → ℕ → Bytes
src_key sys comp = decimal sys ++ (codes "/" ++ decimal comp)

unfoldable pub identity_of : Message → Option Identity
identity_of (heartbeat type autopilot status) = some record {
  autopilot = autopilot_name autopilot;
  vehicle = vehicle_type_name type;
  state = system_status_name status;
}
identity_of (gimbal_device_attitude_status _ _) = none
identity_of (gimbal_device_information _ _ _) = none
identity_of (gimbal_manager_status _) = none
identity_of (gimbal_manager_information _) = none
identity_of (mount_orientation _ _ _) = none
identity_of (other _) = none

abbrev pub is_verbose : Config → Bool
is_verbose cfg = cfg.verbose && not cfg.json_output

abbrev pub print : Line → List Line → List Line
print line lines = lines ++ line ∷ []

-- The line that announces a source: the first frame from it decides which.
unfoldable pub announcement : Option Identity → ℕ → ℕ → Line
announcement (some i) sys comp = online (src_key sys comp) i.vehicle i.state
announcement none sys comp = telemetry (src_key sys comp) (component_name comp)

abbrev pub key_of : Frame → EndpointKey
key_of fr = record { system_id = fr.system_id; component_id = fr.component_id }

abbrev pub approx_bytes : ℕ
approx_bytes = 12

module _ (fl : Float64) (float_text : ℕ → Bytes) (cfg : Config) where
  open fl use {F}

  unfoldable pub announce : LoopState F → Line → Bytes → LoopState F
  announce s line source =
      if not (get_or (lookup source s.announced) false) && not cfg.json_output
      then record s { announced = insert source true s.announced; printed = print line s.printed }
      else s

  unfoldable pub note_heartbeat : Tracker F → Option Identity → EndpointKey → ℕ → Tracker F
  note_heartbeat t none key now = t
  note_heartbeat t (some i) key now = record_heartbeat fl t key i now

  unfoldable pub log_line : LoopState F → Line → LoopState F
  log_line s line = if is_verbose cfg then record s { printed = print line s.printed } else s

  unfoldable pub on_frame : LoopState F → Frame → ℕ → ℕ → LoopState F
  unfolding announce note_heartbeat log_line
  on_frame s fr frame_time beat_time =
      let sys = fr.system_id in
      let comp = fr.component_id in
      let found = identity_of fr.message in
      let counted = record_frame fl s.tracker fr (frame_version fr) approx_bytes frame_time in
      let noted = record s {
        tracker = note_heartbeat counted found (key_of fr) beat_time;
        gimbal = (check_gimbal_message float_text fr.message sys comp s.gimbal).1;
      } in
      log_line (announce noted (announcement found sys comp) (src_key sys comp)) (frame_log fr)

  unfoldable pub on_event : LoopState F → Timed → LoopState F
  unfolding on_frame
  on_event s e = elim e.event [
    | channel_open ↦ log_line s opened
    | frame_received fr ↦ on_frame s fr e.frame_time e.beat_time
    | parse_error ↦ log_line (record s { tracker = record_parse_error s.tracker }) bad_frame
    | stream_requested ↦ log_line s requested
    | channel_close ↦ log_line s closed
  ]

  unfoldable pub event_loop : LoopState F → List Timed → LoopState F
  event_loop s [] = s
  event_loop s (e ∷ es) = event_loop (on_event s e) es

  unfoldable pub loop_start : ℕ → LoopState F
  loop_start now = record {
    tracker = new_tracker F now;
    gimbal = no_evidence;
    announced = [];
    printed = [];
  }
