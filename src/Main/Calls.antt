-- ===== src/Main/Calls.antt =====
-- What the events of cmd/mavlink-doctor/main.go stand for: calls of the tracker and received messages.
use mavlink_doctor.Common.{ℕ, ◌+◌, Option, none, some, List, [], ◌∷◌, ◌++◌}
use mavlink_doctor.Gomavlib.{
  Event, channel_open, frame_received, parse_error, stream_requested, channel_close,
}
use mavlink_doctor.Decoder.FrameInspector.{frame_version}
use mavlink_doctor.Decoder.Evidence.{Received}
use mavlink_doctor.Metrics.Types.{EndpointKey}
use mavlink_doctor.Metrics.Heartbeat.{Identity}
use mavlink_doctor.Metrics.Calls.{Call, frame, beat, bad_frame}
use mavlink_doctor.Main.EventLoop.{Timed, identity_of, key_of, approx_bytes}

abbrev pub heartbeat_calls : Option Identity → EndpointKey → ℕ → List (ℕ × Call)
heartbeat_calls none key now = []
heartbeat_calls (some i) key now = (now, beat key i) ∷ []

-- The tracker calls that one event stands for.
abbrev pub calls_of_event : Event → ℕ → ℕ → List (ℕ × Call)
calls_of_event channel_open now later = []
calls_of_event (frame_received fr) now later =
    (now, frame fr (frame_version fr) approx_bytes)
    ∷ heartbeat_calls (identity_of fr.message) (key_of fr) later
calls_of_event parse_error now later = (now, bad_frame) ∷ []
calls_of_event stream_requested now later = []
calls_of_event channel_close now later = []

unfoldable pub calls_of : List Timed → List (ℕ × Call)
calls_of [] = []
calls_of (e ∷ es) = calls_of_event e.event e.frame_time e.beat_time ++ calls_of es

abbrev pub received_by : Event → List Received
received_by channel_open = []
received_by (frame_received fr) =
    record { message = fr.message; system_id = fr.system_id; component_id = fr.component_id } ∷ []
received_by parse_error = []
received_by stream_requested = []
received_by channel_close = []

unfoldable pub received : List Timed → List Received
received [] = []
received (e ∷ es) = received_by e.event ++ received es

-- The frames and the parse errors among the events.
abbrev pub frame_count : List Timed → ℕ
frame_count [] = 0
frame_count (e ∷ es) = elim e.event [ frame_received fr ↦ 1 | _ ↦ 0 ] + frame_count es

abbrev pub error_count : List Timed → ℕ
error_count [] = 0
error_count (e ∷ es) = elim e.event [ parse_error ↦ 1 | _ ↦ 0 ] + error_count es
