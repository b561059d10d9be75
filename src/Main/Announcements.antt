-- ===== src/Main/Announcements.antt =====
-- Which sources the event loop of cmd/mavlink-doctor/main.go announces.
use mavlink_doctor.Common.{
  ℕ, ◌≡◌, refl, sym, ap, ◌∙◌, inl, inr, Bool, true, false, ◌||◌, Option, none, some, List, [], ◌∷◌,
  ◌++◌, Bytes, Bytes-Eq, ◌==◌, arith, any, append-nil, Bool-cases, eq_of_==,
}
use mavlink_doctor.Common.Assoc.{lookup, insert, get_or, lookup-insert}
use mavlink_doctor.Common.NoRepeats.{is_in, no_repeats, is_in-append, no_repeats-append}
use mavlink_doctor.Gomavlib.{
  Event, channel_open, frame_received, parse_error, stream_requested, channel_close,
}
use mavlink_doctor.Cli.Flags.{Config}
use mavlink_doctor.Metrics.Float64.{Float64}
use mavlink_doctor.Metrics.Heartbeat.{Identity}
use mavlink_doctor.Main.EventLoop.{
  LoopState, Timed, Line, opened, requested, closed, bad_frame, online, telemetry, frame_log,
  identity_of, announce, announcement, log_line, on_frame, on_event, event_loop, loop_start,
  src_key,
}

-- The sources that lines announce.
abbrev pub announced_in : List Line → List Bytes
announced_in [] = []
announced_in (opened ∷ ls) = announced_in ls
announced_in (requested ∷ ls) = announced_in ls
announced_in (closed ∷ ls) = announced_in ls
announced_in (bad_frame ∷ ls) = announced_in ls
announced_in (online source v s ∷ ls) = source ∷ announced_in ls
announced_in (telemetry source c ∷ ls) = source ∷ announced_in ls
announced_in (frame_log fr ∷ ls) = announced_in ls

announced_in-append :
    (ls ms : List Line) → announced_in (ls ++ ms) ≡ announced_in ls ++ announced_in ms
announced_in-append [] ms = refl
announced_in-append (opened ∷ ls) ms = announced_in-append ls ms
announced_in-append (requested ∷ ls) ms = announced_in-append ls ms
announced_in-append (closed ∷ ls) ms = announced_in-append ls ms
announced_in-append (bad_frame ∷ ls) ms = announced_in-append ls ms
announced_in-append (online source v s ∷ ls) ms = ap (◌∷◌ source) (announced_in-append ls ms)
announced_in-append (telemetry source c ∷ ls) ms = ap (◌∷◌ source) (announced_in-append ls ms)
announced_in-append (frame_log fr ∷ ls) ms = announced_in-append ls ms

-- The announced map and the printed lines agree.
record IsAnnounced {F : Type 0} (s : LoopState F) : Type 0 where
  once : no_repeats (announced_in s.printed) ≡ true
  agrees : (x : Bytes) → is_in x (announced_in s.printed) ≡ get_or (lookup x s.announced) false

-- The frames that an event brings from a source.
abbrev pub comes_from : Bytes → Event → Bool
comes_from x channel_open = false
comes_from x (frame_received fr) = src_key fr.system_id fr.component_id == x
comes_from x parse_error = false
comes_from x stream_requested = false
comes_from x channel_close = false

announcement_source :
    (found : Option Identity) (sys comp : ℕ)
    → announced_in (announcement found sys comp ∷ []) ≡ src_key sys comp ∷ []
unfolding announcement
announcement_source none sys comp = refl
announcement_source (some i) sys comp = refl

module _ (fl : Float64) (float_text : ℕ → Bytes) (cfg : Config) where
  open fl use {F}

  log_line-announced :
      (s : LoopState F) (l : Line)
      → announced_in (l ∷ []) ≡ []
      → (announced_in (log_line fl float_text cfg s l).printed ≡ announced_in s.printed)
        × ((log_line fl float_text cfg s l).announced ≡ s.announced)
  unfolding log_line
  log_line-announced s l h =
      ground (arith, announced_in-append s.printed (l ∷ []), append-nil (announced_in s.printed))

  extended-IsAnnounced :
      (s s' : LoopState F) (source : Bytes)
      → announced_in s'.printed ≡ announced_in s.printed ++ source ∷ []
      → s'.announced ≡ insert source true s.announced
      → is_in source (announced_in s.printed) ≡ false
      → IsAnnounced s
      → IsAnnounced s'
  extended-IsAnnounced s s' source p m new inv = record {
    once = rw p (no_repeats-append source (announced_in s.printed) new inv.once);
    agrees = λ x. ground (
      arith,
      p,
      m,
      is_in-append x (announced_in s.printed) (source ∷ []),
      lookup-insert source x true s.announced,
      inv.agrees x,
    );
  }

  -- What an announcement does where output is not JSON.
  announce_lem :
      (s : LoopState F) (l : Line) (source : Bytes)
      → cfg.json_output ≡ false
      → announced_in (l ∷ []) ≡ source ∷ []
      → IsAnnounced s
      → IsAnnounced (announce fl float_text cfg s l source)
        × ((x : Bytes)
            → is_in x (announced_in (announce fl float_text cfg s l source).printed)
              ≡ is_in x (announced_in s.printed) || source == x)
  unfolding announce
  announce_lem s l source j h inv =
      let printed =
        announced_in-append s.printed (l ∷ []) ∙ ap (λ t. announced_in s.printed ++ t) h in
      elim (Bool-cases (get_or (lookup source s.announced) false)) [
        | inl p ↦ rw p (
          inv,
          λ x. elim (Bool-cases (source == x)) [
            | inl q ↦ rw (q, sym (eq_of_== source x q), inv.agrees source, p)
            | inr q ↦ rw q (ground arith)
          ],
        )
        | inr p ↦
            rw (p, j)
              (
                extended-IsAnnounced s _ source printed refl (inv.agrees source ∙ p) inv,
                λ x. ground (arith, printed, is_in-append x (announced_in s.printed) (source ∷ [])),
              )
      ]

  transport-IsAnnounced :
      (s s' : LoopState F)
      → announced_in s'.printed ≡ announced_in s.printed
      → s'.announced ≡ s.announced
      → IsAnnounced s
      → IsAnnounced s'
  transport-IsAnnounced s s' p m inv = record {
    once = rw p inv.once;
    agrees = λ x. rw (p, m) (inv.agrees x);
  }

  -- What is kept and added by one event.
  abbrev Adds : LoopState F → Event → LoopState F → Type 0
  Adds s e s' =
      IsAnnounced s'
      × ((x : Bytes)
          → is_in x (announced_in s'.printed) ≡ is_in x (announced_in s.printed) || comes_from x e)

  log_line-Adds :
      (s s' : LoopState F) (l : Line) (e : Event)
      → announced_in (l ∷ []) ≡ []
      → Adds s e s'
      → Adds s e (log_line fl float_text cfg s' l)
  log_line-Adds s s' l e h (inv, added) =
      let (p, m) = log_line-announced s' l h in
      (transport-IsAnnounced s' _ p m inv, λ x. ap (is_in x) p ∙ added x)

  quiet :
      (s : LoopState F) (e : Event)
      → ((x : Bytes) → comes_from x e ≡ false)
      → IsAnnounced s
      → Adds s e s
  quiet s e h inv = (inv, λ x. ground (arith, h x))

  on_event-Adds :
      (s : LoopState F) (e : Event) (now later : ℕ)
      → cfg.json_output ≡ false
      → IsAnnounced s
      → Adds s e
          (on_event fl float_text cfg s (record { event = e; frame_time = now; beat_time = later }))
  unfolding on_event on_frame
  on_event-Adds s channel_open now later j inv =
      log_line-Adds s s opened channel_open refl (quiet s channel_open (λ x. refl) inv)
  on_event-Adds s (frame_received fr) now later j inv =
      log_line-Adds s _ (frame_log fr) (frame_received fr) refl (
        announce_lem _ _ (src_key fr.system_id fr.component_id) j
          (announcement_source (identity_of fr.message) fr.system_id fr.component_id)
          (transport-IsAnnounced s _ refl refl inv))
  on_event-Adds s parse_error now later j inv =
      log_line-Adds s _ bad_frame parse_error refl
        (transport-IsAnnounced s _ refl refl inv, λ x. ground arith)
  on_event-Adds s stream_requested now later j inv =
      log_line-Adds s s requested stream_requested refl (quiet s stream_requested (λ x. refl) inv)
  on_event-Adds s channel_close now later j inv =
      log_line-Adds s s closed channel_close refl (quiet s channel_close (λ x. refl) inv)

  loop_announces :
      (s : LoopState F) (es : List Timed)
      → cfg.json_output ≡ false
      → IsAnnounced s
      → let lines = (event_loop fl float_text cfg s es).printed in
        (no_repeats (announced_in lines) ≡ true)
        × ((x : Bytes)
            → is_in x (announced_in lines)
              ≡ is_in x (announced_in s.printed) || any (λ e. comes_from x e.event) es)
  unfolding event_loop
  loop_announces s [] j inv = (inv.once, λ x. ground arith)
  loop_announces s (e ∷ es) j inv =
      let (inv', added) = on_event-Adds s e.event e.frame_time e.beat_time j inv in
      let (once, all) = loop_announces (on_event fl float_text cfg s e) es j inv' in
      (once, λ x. ground (arith, all x, added x))

  -- Where output is not JSON, whatever the events: no source is announced twice, and a source, as
  -- "system/component", is announced exactly when one of the events is a frame from it.
  pub event_loop_announces :
      (start : ℕ) (es : List Timed)
      → cfg.json_output ≡ false
      → let lines =
          (event_loop fl float_text cfg (loop_start fl float_text cfg start) es).printed in
        (no_repeats (announced_in lines) ≡ true)
        × ((x : Bytes) → is_in x (announced_in lines) ≡ any (λ e. comes_from x e.event) es)
  unfolding loop_start lookup
  event_loop_announces start es j =
      loop_announces (loop_start fl float_text cfg start) es j
        (record { once = refl; agrees = λ x. refl })
