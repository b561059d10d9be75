-- ===== src/Main/Totals.antt =====
-- The event loop of cmd/mavlink-doctor/main.go drives the tracker and the gimbal evidence.
use mavlink_doctor.Common.{
  ℕ, ◌+◌, ◌≡◌, refl, sym, ap, ◌∙◌, Option, none, some, List, [], ◌∷◌, ◌++◌, Bytes, arith, u64,
}
use mavlink_doctor.Gomavlib.{
  Frame, Event, channel_open, frame_received, parse_error, stream_requested, channel_close,
}
use mavlink_doctor.Cli.Flags.{Config}
use mavlink_doctor.Decoder.Gimbal.{GimbalEvidence, no_evidence, check_gimbal_message}
use mavlink_doctor.Decoder.Evidence.{Received, gather}
use mavlink_doctor.Metrics.Float64.{Float64}
use mavlink_doctor.Metrics.Types.{EndpointKey}
use mavlink_doctor.Metrics.Tracker.{Tracker, new_tracker}
use mavlink_doctor.Metrics.Heartbeat.{Identity}
use mavlink_doctor.Metrics.Calls.{Call, frame, beat, bad_frame, perform, perform_all}
use mavlink_doctor.Metrics.Accounting.{
  IsCounted, history-IsCounted, frame_calls, error_calls, totals-perform_all,
}
use mavlink_doctor.Main.EventLoop.{
  LoopState, Timed, identity_of, key_of, announce, note_heartbeat, log_line, on_frame, on_event,
  event_loop, loop_start, Line,
}
use mavlink_doctor.Main.Calls.{
  heartbeat_calls, calls_of_event, calls_of, received_by, received, frame_count, error_count,
}

module _ (fl : Float64) (float_text : ℕ → Bytes) (cfg : Config) where
  open fl use {F}

  abbrev loop : LoopState F → List Timed → LoopState F
  loop = event_loop fl float_text cfg

  abbrev react : LoopState F → Timed → LoopState F
  react = on_event fl float_text cfg

  perform_all-append :
      (t : Tracker F) (cs ds : List (ℕ × Call))
      → perform_all fl t (cs ++ ds) ≡ perform_all fl (perform_all fl t cs) ds
  unfolding perform_all
  perform_all-append t [] ds = refl
  perform_all-append t (c ∷ cs) ds = perform_all-append (perform fl t c) cs ds

  gather-append :
      (e : GimbalEvidence) (rs qs : List Received)
      → gather float_text e (rs ++ qs) ≡ gather float_text (gather float_text e rs) qs
  unfolding gather
  gather-append e [] qs = refl
  gather-append e (r ∷ rs) qs =
      gather-append (check_gimbal_message float_text r.message r.system_id r.component_id e).1 rs qs

  -- Printing leaves the tracker and the evidence alone.
  log_line_keeps :
      (s : LoopState F) (l : Line)
      → ((log_line fl float_text cfg s l).tracker ≡ s.tracker)
        × ((log_line fl float_text cfg s l).gimbal ≡ s.gimbal)
  unfolding log_line
  log_line_keeps s l = ground arith

  announce_keeps :
      (s : LoopState F) (l : Line) (source : Bytes)
      → ((announce fl float_text cfg s l source).tracker ≡ s.tracker)
        × ((announce fl float_text cfg s l source).gimbal ≡ s.gimbal)
  unfolding announce
  announce_keeps s l source = ground arith

  note_heartbeat_calls :
      (t : Tracker F) (found : Option Identity) (key : EndpointKey) (now : ℕ)
      → note_heartbeat fl float_text cfg t found key now
        ≡ perform_all fl t (heartbeat_calls found key now)
  unfolding note_heartbeat perform_all perform
  note_heartbeat_calls t none key now = refl
  note_heartbeat_calls t (some i) key now = refl

  on_frame_tracker :
      (s : LoopState F) (fr : Frame) (now later : ℕ)
      → (on_frame fl float_text cfg s fr now later).tracker
        ≡ perform_all fl s.tracker (calls_of_event (frame_received fr) now later)
  unfolding on_frame perform_all perform
  on_frame_tracker s fr now later =
      (log_line_keeps _ _).0
      ∙ (announce_keeps _ _ _).0
      ∙ note_heartbeat_calls _ (identity_of fr.message) (key_of fr) later

  on_event_tracker :
      (s : LoopState F) (e : Event) (now later : ℕ)
      → (react s (record { event = e; frame_time = now; beat_time = later })).tracker
        ≡ perform_all fl s.tracker (calls_of_event e now later)
  unfolding on_event perform_all perform
  on_event_tracker s channel_open now later = (log_line_keeps _ _).0
  on_event_tracker s (frame_received fr) now later = on_frame_tracker s fr now later
  on_event_tracker s parse_error now later = (log_line_keeps _ _).0
  on_event_tracker s stream_requested now later = (log_line_keeps _ _).0
  on_event_tracker s channel_close now later = (log_line_keeps _ _).0

  on_frame_gimbal :
      (s : LoopState F) (fr : Frame) (now later : ℕ)
      → (on_frame fl float_text cfg s fr now later).gimbal
        ≡ gather float_text s.gimbal (received_by (frame_received fr))
  unfolding on_frame gather
  on_frame_gimbal s fr now later = (log_line_keeps _ _).1 ∙ (announce_keeps _ _ _).1

  on_event_gimbal :
      (s : LoopState F) (e : Event) (now later : ℕ)
      → (react s (record { event = e; frame_time = now; beat_time = later })).gimbal
        ≡ gather float_text s.gimbal (received_by e)
  unfolding on_event gather
  on_event_gimbal s channel_open now later = (log_line_keeps _ _).1
  on_event_gimbal s (frame_received fr) now later = on_frame_gimbal s fr now later
  on_event_gimbal s parse_error now later = (log_line_keeps _ _).1
  on_event_gimbal s stream_requested now later = (log_line_keeps _ _).1
  on_event_gimbal s channel_close now later = (log_line_keeps _ _).1

  loop_tracker :
      (s : LoopState F) (es : List Timed)
      → (loop s es).tracker ≡ perform_all fl s.tracker (calls_of es)
  unfolding event_loop calls_of perform_all
  loop_tracker s [] = refl
  loop_tracker s (e ∷ es) =
      loop_tracker (react s e) es
      ∙ ap (λ t. perform_all fl t (calls_of es))
          (on_event_tracker s e.event e.frame_time e.beat_time)
      ∙ sym (
          perform_all-append s.tracker (calls_of_event e.event e.frame_time e.beat_time)
            (calls_of es))

  loop_gimbal :
      (s : LoopState F) (es : List Timed)
      → (loop s es).gimbal ≡ gather float_text s.gimbal (received es)
  unfolding event_loop received gather
  loop_gimbal s [] = refl
  loop_gimbal s (e ∷ es) =
      loop_gimbal (react s e) es
      ∙ ap (λ g. gather float_text g (received es))
          (on_event_gimbal s e.event e.frame_time e.beat_time)
      ∙ sym (gather-append s.gimbal (received_by e.event) (received es))

  frame_calls-append :
      (cs ds : List (ℕ × Call))
      → (frame_calls fl (cs ++ ds) ≡ frame_calls fl cs + frame_calls fl ds)
        × (error_calls fl (cs ++ ds) ≡ error_calls fl cs + error_calls fl ds)
  frame_calls-append [] ds = omega arith
  frame_calls-append ((now, frame fr version n) ∷ cs) ds = omega (arith, frame_calls-append cs ds)
  frame_calls-append ((now, beat key i) ∷ cs) ds = omega (arith, frame_calls-append cs ds)
  frame_calls-append ((now, bad_frame) ∷ cs) ds = omega (arith, frame_calls-append cs ds)

  counts_of_heartbeat :
      (found : Option Identity) (key : EndpointKey) (now : ℕ)
      → (frame_calls fl (heartbeat_calls found key now) ≡ 0)
        × (error_calls fl (heartbeat_calls found key now) ≡ 0)
  counts_of_heartbeat none key now = (refl, refl)
  counts_of_heartbeat (some i) key now = (refl, refl)

  counts_of_event :
      (e : Event) (now later : ℕ)
      → (frame_calls fl (calls_of_event e now later) ≡ elim e [ frame_received fr ↦ 1 | _ ↦ 0 ])
        × (error_calls fl (calls_of_event e now later) ≡ elim e [ parse_error ↦ 1 | _ ↦ 0 ])
  counts_of_event channel_open now later = (refl, refl)
  counts_of_event (frame_received fr) now later =
      omega (arith, counts_of_heartbeat (identity_of fr.message) (key_of fr) later)
  counts_of_event parse_error now later = (refl, refl)
  counts_of_event stream_requested now later = (refl, refl)
  counts_of_event channel_close now later = (refl, refl)

  counts_of_calls :
      (es : List Timed)
      → (frame_calls fl (calls_of es) ≡ frame_count es)
        × (error_calls fl (calls_of es) ≡ error_count es)
  unfolding calls_of
  counts_of_calls [] = (refl, refl)
  counts_of_calls (e ∷ es) = omega (
    arith,
    counts_of_calls es,
    counts_of_event e.event e.frame_time e.beat_time,
    frame_calls-append (calls_of_event e.event e.frame_time e.beat_time) (calls_of es),
  )

  -- After any events, the tracker of the loop is a new tracker after the calls that the frames and the
  -- parse errors among them stand for, in their order, and the gimbal evidence is what the messages of
  -- the frames show, one after the other.
  pub event_loop_refines :
      (start : ℕ) (es : List Timed)
      → ((loop (loop_start fl float_text cfg start) es).tracker
          ≡ perform_all fl (new_tracker F start) (calls_of es))
        × ((loop (loop_start fl float_text cfg start) es).gimbal
            ≡ gather float_text no_evidence (received es))
  unfolding loop_start
  event_loop_refines start es = (
    loop_tracker (loop_start fl float_text cfg start) es,
    loop_gimbal (loop_start fl float_text cfg start) es,
  )

  -- After any events, the total of frames is the number of frames among them and the total of parse
  -- errors the number of parse errors, each modulo 2^64, and the counters of the tracker agree with
  -- one another.
  pub event_loop_totals :
      (start : ℕ) (es : List Timed)
      → let t = (loop (loop_start fl float_text cfg start) es).tracker in
        (u64 t.total_frames ≡ u64 (frame_count es))
        × (u64 t.total_parse_errors ≡ u64 (error_count es))
        × IsCounted t
  unfolding new_tracker
  event_loop_totals start es =
      let (refined, _) = event_loop_refines start es in
      rw refined (
        omega
            (arith, totals-perform_all fl (new_tracker F start) (calls_of es), counts_of_calls es),
        omega
            (arith, totals-perform_all fl (new_tracker F start) (calls_of es), counts_of_calls es),
        history-IsCounted fl start (calls_of es),
      )
