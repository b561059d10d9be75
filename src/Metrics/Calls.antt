-- ===== src/Metrics/Calls.antt =====
-- A history of calls on one tracker (internal/metrics/tracker.go), each with the time at which it takes
-- the mutex. The mutex makes every interleaving of callers such a sequence.
use mavlink_doctor.Common.{ℕ, List, [], ◌∷◌, Bytes}
use mavlink_doctor.Gomavlib.{Frame}
use mavlink_doctor.Metrics.Float64.{Float64}
use mavlink_doctor.Metrics.Types.{EndpointKey}
use mavlink_doctor.Metrics.Tracker.{Tracker, record_parse_error, record_frame}
use mavlink_doctor.Metrics.Heartbeat.{Identity, record_heartbeat}

pub data Call : Type 0 where
  frame : Frame → (version : Bytes) (approx_bytes : ℕ) → Call
  beat : EndpointKey → Identity → Call
  bad_frame : Call

module _ (fl : Float64) where
  open fl use {F}

  unfoldable pub perform : Tracker F → ℕ × Call → Tracker F
  perform t (now, frame fr version n) = record_frame fl t fr version n now
  perform t (now, beat key i) = record_heartbeat fl t key i now
  perform t (now, bad_frame) = record_parse_error t

  unfoldable pub perform_all : Tracker F → List (ℕ × Call) → Tracker F
  perform_all t [] = t
  perform_all t (c ∷ cs) = perform_all (perform t c) cs
