-- ===== src/Main/Program/Outcome.antt =====
-- How a run of cmd/mavlink-doctor/main.go ends: its exit code, and what it says last.
use mavlink_doctor.Common.{
  ℕ, ◌<◌, ◌^◌, Bool, true, false, not, none, List, [], ◌∷◌, ◌++◌, ◌≡◌, ◌≢◌, ◌⊎◌, inl, inr, refl, ap,
  ◌∙◌, Bytes, Bytes-Eq, codes, Result, ok, err, nat_eq, ltb, if◌then◌else◌, append_assoc,
}
use mavlink_doctor.Cli.Flags.{
  Config, FlagError, help_wanted, bad_syntax, undefined_flag, needs_argument, invalid_value,
  invalid_transport, invalid_mode, invalid_dialect, serial_is_client, address_required,
}
use mavlink_doctor.Cli.FlagSet.{parse_command_line}
use mavlink_doctor.Decoder.Gimbal.{GimbalEvidence}
use mavlink_doctor.Main.Calls.{frame_count}
use mavlink_doctor.Main.Setup.{Node, setup}
use mavlink_doctor.Metrics.Float64.{Float64}
use mavlink_doctor.Metrics.Snapshot.{snapshot}
use mavlink_doctor.Metrics.Tracker.{Tracker}
use mavlink_doctor.Metrics.Types.{GlobalMetrics}
use mavlink_doctor.Reporter.Result.{DiagnosticResult, build_result, traffic_status, raw_packets}
use mavlink_doctor.Reporter.Status.{counted_total, status_of_frames}
use mavlink_doctor.Reporter.Terminal.Telemetry.{mavlink_summary, final_recommendation}
use mavlink_doctor.Version.{Variables}
use mavlink_doctor.Main.Program.Machine.{if_true, if_false}
use mavlink_doctor.Main.World.{Output, text, banner, target_line, unless_json, World, Run, refuse}
use mavlink_doctor.Main.Program.{
  discovery_output, discover, test_loop, sniff, run_node, run_mavlink_test, mavlink_phase,
  export_phase, final_output, compile, run_config, run_parsed, main,
}

-- The arguments are refused, and not because the help was asked for.
abbrev pub IsRefused : Result FlagError Config → Type 0
IsRefused (err e) = e ≢ help_wanted
IsRefused (ok cfg) = ⊥

abbrev pub Ends : List Output → List Output → Type 0
Ends out last = (before : List Output) × (out ≡ before ++ last)

-- The two ways in which a run ends.
abbrev pub Exits : Result FlagError Config → Run → Type 0
Exits parsed r =
    ((r.exit_code ≡ 1) × IsRefused parsed × (r.complaints ≢ []) × (r.file ≡ none))
    ⊎ ((r.exit_code ≡ 0) × ¬ IsRefused parsed × (r.complaints ≡ []))

refuse-Exits : (e : FlagError) → Exits (err e) (refuse e)
unfolding refuse
refuse-Exits help_wanted = inr (refl, λ h. h refl, refl)
refuse-Exits (bad_syntax a) = inl (refl, λ h. cc, λ h. cc, refl)
refuse-Exits (undefined_flag n) = inl (refl, λ h. cc, λ h. cc, refl)
refuse-Exits (needs_argument n) = inl (refl, λ h. cc, λ h. cc, refl)
refuse-Exits (invalid_value x n) = inl (refl, λ h. cc, λ h. cc, refl)
refuse-Exits (invalid_transport g) = inl (refl, λ h. cc, λ h. cc, refl)
refuse-Exits (invalid_mode g) = inl (refl, λ h. cc, λ h. cc, refl)
refuse-Exits (invalid_dialect g) = inl (refl, λ h. cc, λ h. cc, refl)
refuse-Exits serial_is_client = inl (refl, λ h. cc, λ h. cc, refl)
refuse-Exits (address_required t) = inl (refl, λ h. cc, λ h. cc, refl)

either : (P : Run → Type 0) (b : Bool) (x y : Run) → P x → P y → P (if b then x else y)
either P true x y h k = h
either P false x y h k = k

regroup : (a b c d e f : List Output) → Ends (a ++ (b ++ (c ++ (d ++ (e ++ f))))) f
regroup a b c d e f = (a ++ (b ++ (c ++ (d ++ e))), simp append_assoc)

module _ (fl : Float64) (fixed : ℕ → fl.F → Bytes) (float_text : ℕ → Bytes) (v : Variables)
    (marshal : DiagnosticResult fl.F → Result Bytes Bytes) (w : World fl.F) where
  open fl use {F}

  run_parsed-Exits :
      (r : Result FlagError Config) → Exits r (run_parsed fl fixed float_text v marshal w r)
  unfolding run_parsed run_config
  run_parsed-Exits (err e) = refuse-Exits e
  run_parsed-Exits (ok cfg) =
      either (Exits (ok cfg)) cfg.show_version _ _ (inr (refl, λ h. h, refl))
        (inr (refl, λ h. h, refl))

  -- For every list of arguments, and whatever the system answers: the exit code is 1 when the arguments
  -- are refused, with a complaint and no report file, and 0 without a complaint when they are accepted or
  -- ask for help. No failure after the parsing, of a tool, the node or the report file, changes it.
  pub main-Exits :
      (args : List Bytes)
      → Exits (parse_command_line args) (main fl fixed float_text v marshal w args)
  unfolding main
  main-Exits args = run_parsed-Exits (parse_command_line args)

  module _ (cfg : Config) (node : Node) (tested : cfg.skip_gomavlib ≡ false)
      (ready : setup cfg ≡ ok node) (started : w.node_error ≡ none) where
    phase_loop : (mavlink_phase fl fixed float_text v marshal w cfg).0 ≡ (
      (test_loop fl fixed float_text v marshal w cfg).tracker,
      (test_loop fl fixed float_text v marshal w cfg).gimbal,
    )
    unfolding mavlink_phase run_mavlink_test run_node
    phase_loop =
        ap (λ (x : (Tracker F × GimbalEvidence) × List Output). x.0)
          (if_true (not cfg.skip_gomavlib) _ _ (ap not tested))
        ∙ ap (λ r. (run_mavlink_test fl fixed float_text v marshal w cfg r).0) ready
        ∙ ap (λ e. (run_node fl fixed float_text v marshal w cfg e).0) started

    final_frames :
        (res : DiagnosticResult F) (metrics : GlobalMetrics F) (gimbal : GimbalEvidence) (n : ℕ)
        → cfg.json_output ≡ false
        → metrics.total_frames ≡ n
        → final_output fl fixed float_text v marshal w cfg res metrics gimbal
          ≡ text (mavlink_summary fixed metrics gimbal cfg.export_report cfg.verbose)
            ∷ (if nat_eq n 0 then text (final_recommendation cfg.port) ∷ [] else [])
    unfolding final_output
    final_frames res metrics gimbal n j e =
        if_false cfg.json_output _ _ j
        ∙ ap
            (λ k.
              text (mavlink_summary fixed metrics gimbal cfg.export_report cfg.verbose)
              ∷ (if nat_eq k 0 then text (final_recommendation cfg.port) ∷ [] else []))
            e

    run_config-Ends :
        let ((tracker, gimbal), _) = mavlink_phase fl fixed float_text v marshal w cfg in
        let res = compile fl fixed float_text v marshal w cfg in
        Ends (run_config fl fixed float_text v marshal w cfg).output (
          final_output fl fixed float_text v marshal w cfg
            (export_phase fl fixed float_text v marshal w cfg res).1
            (snapshot fl tracker w.snapshot_time)
            gimbal)
    unfolding run_config
    run_config-Ends =
        let ((tracker, gimbal), test_output) = mavlink_phase fl fixed float_text v marshal w cfg in
        let disc = discover fl fixed float_text v marshal w cfg in
        let (file, result, export_output) =
          export_phase fl fixed float_text v marshal w cfg
            (compile fl fixed float_text v marshal w cfg) in
        regroup (unless_json cfg (text (banner v) ∷ text (target_line cfg) ∷ []))
          (discovery_output fl fixed float_text v marshal w cfg disc)
          ((sniff fl fixed float_text v marshal w cfg).1) test_output export_output
          (final_output fl fixed float_text v marshal w cfg result
            (snapshot fl tracker w.snapshot_time) gimbal)

    accepted :
        (args : List Bytes)
        → parse_command_line args ≡ ok cfg
        → cfg.show_version ≡ false
        → main fl fixed float_text v marshal w args ≡ run_config fl fixed float_text v marshal w cfg
    unfolding main run_parsed
    accepted args p version =
        ap (run_parsed fl fixed float_text v marshal w) p ∙ if_false cfg.show_version _ _ version

    -- A run without JSON output whose node starts, and which receives fewer than 2^64 frames: what it
    -- prints last is the summary of the metrics, and then, exactly when none of the events was a frame,
    -- the troubleshooting advice for the port; and the status of its report is MAVLINK_CONNECTED exactly
    -- when one was, so the advice never contradicts the report.
    pub advice_without_frames :
        (args : List Bytes)
        → parse_command_line args ≡ ok cfg
        → cfg.show_version ≡ false
        → cfg.json_output ≡ false
        → frame_count w.events < 2 ^ 64
        → let s = test_loop fl fixed float_text v marshal w cfg in
          let metrics = snapshot fl s.tracker w.snapshot_time in
          let raw = (sniff fl fixed float_text v marshal w cfg).0 in
          Ends (main fl fixed float_text v marshal w args).output (
            text (mavlink_summary fixed metrics s.gimbal cfg.export_report cfg.verbose)
            ∷ (if nat_eq (frame_count w.events) 0
                then text (final_recommendation cfg.port) ∷ []
                else []))
          × ((compile fl fixed float_text v marshal w cfg).status ≡ (
              if ltb 0 (frame_count w.events)
              then codes "MAVLINK_CONNECTED"
              else if ltb 0 (raw_packets raw)
              then codes "PACKETS_WITHOUT_MAVLINK"
              else codes "NO_TRAFFIC"))
    unfolding compile build_result snapshot
    advice_without_frames args p version j bound =
        let s = test_loop fl fixed float_text v marshal w cfg in
        let res = compile fl fixed float_text v marshal w cfg in
        let report = (export_phase fl fixed float_text v marshal w cfg res).1 in
        let raw = (sniff fl fixed float_text v marshal w cfg).0 in
        let (before, e) = run_config-Ends in
        let frames = counted_total fl float_text cfg w.tracker_time w.events bound in
        let global = λ (t : Tracker F). snapshot fl t w.snapshot_time in
        (
          (
            before,
            ap (λ r. r.output) (accepted args p version)
                ∙ e
                ∙ ap
                    (λ (p : Tracker F × GimbalEvidence).
                      before
                      ++ final_output fl fixed float_text v marshal w cfg report (global p.0) p.1)
                    phase_loop
                ∙ ap (λ x. before ++ x)
                    (final_frames report (global s.tracker) s.gimbal (frame_count w.events) j
                      frames),
          ),
          ap (λ (p : Tracker F × GimbalEvidence). traffic_status raw (global p.0)) phase_loop
              ∙ status_of_frames raw (global s.tracker) (frame_count w.events) frames,
        )
