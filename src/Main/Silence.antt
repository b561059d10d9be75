-- ===== src/Main/Silence.antt =====
-- The event loop of cmd/mavlink-doctor/main.go with JSON output.
use mavlink_doctor.Common.{ℕ, ◌≡◌, refl, ◌∙◌, true, List, [], ◌∷◌, Bytes, Bytes-Eq, arith}
use mavlink_doctor.Gomavlib.{
  Event, channel_open, frame_received, parse_error, stream_requested, channel_close,
}
use mavlink_doctor.Cli.Flags.{Config}
use mavlink_doctor.Metrics.Float64.{Float64}
use mavlink_doctor.Main.EventLoop.{
  LoopState, Timed, announce, log_line, on_frame, on_event, event_loop,
}

module _ (fl : Float64) (float_text : ℕ → Bytes) (cfg : Config) where
  open fl use {F}

  -- With JSON output an event prints nothing.
  on_event-silent :
      (s : LoopState F) (e : Event) (now later : ℕ)
      → cfg.json_output ≡ true
      → (on_event fl float_text cfg s
          (record { event = e; frame_time = now; beat_time = later })).printed
        ≡ s.printed
  unfolding on_event on_frame log_line announce
  on_event-silent s channel_open now later j = ground arith
  on_event-silent s (frame_received fr) now later j = ground arith
  on_event-silent s parse_error now later j = ground arith
  on_event-silent s stream_requested now later j = ground arith
  on_event-silent s channel_close now later j = ground arith

  -- With JSON output the loop prints nothing, whatever the events and the verbosity.
  pub event_loop_silent :
      (s : LoopState F) (es : List Timed)
      → cfg.json_output ≡ true
      → (event_loop fl float_text cfg s es).printed ≡ s.printed
  unfolding event_loop
  event_loop_silent s [] j = refl
  event_loop_silent s (e ∷ es) j =
      event_loop_silent (on_event fl float_text cfg s e) es j
      ∙ on_event-silent s e.event e.frame_time e.beat_time j
