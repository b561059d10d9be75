-- ===== src/Main/Program.antt =====
-- cmd/mavlink-doctor/main.go: `main`, from the arguments to the exit. All that the program learns from
-- outside, in the order in which it asks, is one argument, the `World`.
pub mod Modes
pub mod Phases
pub mod Outcome
pub mod Machine
pub mod Conflicts
pub mod Subnets
use mavlink_doctor.Common.{
  ℕ, Bool, true, false, not, ◌&&◌, ◌||◌, Option, none, some, List, [], ◌∷◌, ◌++◌, map, Bytes,
  Bytes-Eq, ◌==◌, codes, nat_eq, Result, ok, err, if◌then◌else◌,
}
use mavlink_doctor.Common.Int.{ℤ}
use mavlink_doctor.Common.Decimal.{sprint}
use mavlink_doctor.Common.Format.{duration_text}
use mavlink_doctor.Cli.Flags.{
  Config, FlagError, help_wanted, bad_syntax, undefined_flag, needs_argument, invalid_value,
  invalid_transport, invalid_mode, invalid_dialect, serial_is_client, address_required,
}
use mavlink_doctor.Cli.FlagSet.{parse_command_line}
use mavlink_doctor.Decoder.Gimbal.{GimbalEvidence, no_evidence}
use mavlink_doctor.Discovery.Types.{
  SocketInfo, InterfaceInfo, RouteResult, PortStatus, DiscoveryReport,
}
use mavlink_doctor.Discovery.Interfaces.{Interface, scan_interfaces}
use mavlink_doctor.Discovery.Ports.{check_port}
use mavlink_doctor.Discovery.Probe.{probe_subnet}
use mavlink_doctor.Discovery.Routing.{ToolFailure, Ping, check_routing}
use mavlink_doctor.Discovery.Serial.{serial_candidates}
use mavlink_doctor.Discovery.Sockets.{Platform, scan_udp_sockets}
use mavlink_doctor.Main.EventLoop.{Line, Timed, LoopState, event_loop, loop_start}
use mavlink_doctor.Main.World.{
  Output, text, json, usage, packet_line, live_line, setup_failed, World, Run, takes_udp,
  runs_sniffer, prints_usage, refuse, unless_json, banner, target_line,
}
use mavlink_doctor.Main.Setup.{Node, SetupError, setup, has_address, select_transport, select_mode}
use mavlink_doctor.Metrics.Float64.{Float64}
use mavlink_doctor.Metrics.Snapshot.{snapshot}
use mavlink_doctor.Metrics.Tracker.{Tracker, new_tracker}
use mavlink_doctor.Metrics.Types.{GlobalMetrics}
use mavlink_doctor.Reporter.Export.{Exported, export_support_report, printed_json}
use mavlink_doctor.Reporter.Result.{DiagnosticResult, build_result}
use mavlink_doctor.Reporter.Terminal.{fail_line}
use mavlink_doctor.Reporter.Terminal.Environment.{discovery_summary, raw_packet_summary, live_start}
use mavlink_doctor.Reporter.Terminal.Telemetry.{mavlink_summary, final_recommendation}
use mavlink_doctor.Transport.RawListener.{PacketSummary, Observation, Reads, listen_raw_udp}
use mavlink_doctor.Version.{Variables, version_text, short_text}

abbrev or_empty : {E A : Type 0} → Result E (List A) → List A
or_empty (ok xs) = xs
or_empty (err e) = []

module _ (fl : Float64) (fixed : ℕ → fl.F → Bytes) (float_text : ℕ → Bytes) (v : Variables)
    (marshal : DiagnosticResult fl.F → Result Bytes Bytes) (w : World fl.F) where
  open fl use {F}

  -- The discovery phase.
  unfoldable pub discover : Config → DiscoveryReport
  discover cfg =
      let sockets = or_empty (scan_udp_sockets w.platform w.socket_tool w.netstat) in
      record {
        timestamp = w.discovery_time;
        os = w.os;
        arch = w.arch;
        interfaces = or_empty (scan_interfaces w.interfaces);
        udp_sockets = sockets;
        port_status =
            if takes_udp cfg
            then some (check_port cfg.port sockets w.bind_error w.ephemeral)
            else none;
        route =
            if has_address cfg
            then check_routing w.platform cfg.address w.route_tool w.ping
            else none;
        serial_candidates = serial_candidates w.platform w.glob w.powershell;
        subnet_probe =
            if not (cfg.probe_subnet == [])
            then or_empty
                (probe_subnet w.dial cfg.port w.probe_history (w.parse_cidr cfg.probe_subnet) 254)
            else [];
      }

  abbrev pub discovery_output : Config → DiscoveryReport → List Output
  discovery_output cfg disc = unless_json cfg (
      text (
        discovery_summary disc.interfaces disc.port_status disc.serial_candidates disc.route
          cfg.verbose)
      ∷ [])

  -- The sniffer, with what its callback and its summary print.
  unfoldable pub sniff : Config → Option PacketSummary × List Output
  sniff cfg =
      let (summary, _, seen) =
        listen_raw_udp w.parse_ip w.listen_udp cfg.listen_duration cfg.listen_address cfg.port in
      if runs_sniffer cfg
      then (
        some summary,
        (if cfg.verbose && not cfg.json_output then map packet_line seen else [])
            ++ unless_json cfg (text (raw_packet_summary summary cfg.verbose) ∷ []),
      )
      else (none, [])

  -- `runMavlinkTest`: the tracker and the evidence after it, and what it prints.
  abbrev pub test_loop : Config → LoopState F
  test_loop cfg =
      event_loop fl float_text cfg (loop_start fl float_text cfg w.tracker_time) w.events

  abbrev pub untouched : Tracker F × GimbalEvidence
  untouched = (new_tracker F w.tracker_time, no_evidence)

  unfoldable pub run_node : Config → Option Bytes → (Tracker F × GimbalEvidence) × List Output
  run_node cfg (some e) = (
    untouched,
    unless_json cfg (text (fail_line (codes "gomavlib node initialization failed: " ++ e)) ∷ []),
  )
  run_node cfg none =
      let s = test_loop cfg in
      (
        (s.tracker, s.gimbal),
        unless_json cfg
              (text (live_start (select_transport cfg) (select_mode cfg) cfg.port cfg.address) ∷ [])
            ++ map live_line s.printed,
      )

  unfoldable pub run_mavlink_test :
      Config → Result SetupError Node → (Tracker F × GimbalEvidence) × List Output
  unfolding run_node
  run_mavlink_test cfg (err e) = (untouched, unless_json cfg (setup_failed e ∷ []))
  run_mavlink_test cfg (ok node) = run_node cfg w.node_error

  unfoldable pub mavlink_phase : Config → (Tracker F × GimbalEvidence) × List Output
  unfolding run_mavlink_test
  mavlink_phase cfg =
      let tested = run_mavlink_test cfg (setup cfg) in
      if not cfg.skip_gomavlib then tested else (untouched, [])

  -- The export of the report, if one is wanted: the file, the caller's report, and the error's line.
  unfoldable pub export_phase :
      Config → DiagnosticResult F → Option (Bytes × Bytes) × DiagnosticResult F × List Output
  export_phase cfg result =
      let done =
        export_support_report marshal w.write_error cfg.export_report result cfg.redact_report in
      if not (cfg.export_report == [])
      then (
        elim (done.file) [ none ↦ none | some data' ↦ some (cfg.export_report, data') ],
        done.report,
        elim (done.error) [
          | none ↦ []
          | some e ↦
              unless_json cfg (text (fail_line (codes "Failed to export report: " ++ e)) ∷ [])
        ],
      )
      else (none, result, [])

  abbrev pub json_of : Option Bytes → List Output
  json_of none = []
  json_of (some bytes) = json bytes ∷ []

  unfoldable pub final_output :
      Config → DiagnosticResult F → GlobalMetrics F → GimbalEvidence → List Output
  final_output cfg result metrics gimbal =
      if cfg.json_output
      then json_of (printed_json marshal result)
      else text (mavlink_summary fixed metrics gimbal cfg.export_report cfg.verbose)
        ∷ (if nat_eq metrics.total_frames 0 then text (final_recommendation cfg.port) ∷ [] else [])

  -- The result that the phases compile.
  unfoldable pub compile : Config → DiagnosticResult F
  unfolding discover sniff mavlink_phase
  compile cfg =
      let ((tracker, gimbal), _) = mavlink_phase cfg in
      build_result (short_text v) (discover cfg) (sniff cfg).0 (snapshot fl tracker w.snapshot_time)
        gimbal

  unfoldable pub run_config : Config → Run
  unfolding compile export_phase final_output
  run_config cfg =
      let disc = discover cfg in
      let ((tracker, gimbal), test_output) = mavlink_phase cfg in
      let (file, result, export_output) = export_phase cfg (compile cfg) in
      record {
        exit_code = 0;
        output =
            unless_json cfg (text (banner v) ∷ text (target_line cfg) ∷ [])
            ++ (discovery_output cfg disc
                ++ ((sniff cfg).1
                    ++ (test_output
                        ++ (export_output
                            ++ final_output cfg result (snapshot fl tracker w.snapshot_time)
                                gimbal))));
        complaints = [];
        file = file;
      }

  unfoldable pub run_parsed : Result FlagError Config → Run
  unfolding refuse run_config
  run_parsed (err e) = refuse e
  run_parsed (ok cfg) =
      if cfg.show_version
      then record {
        exit_code = 0;
        output = text (version_text v ++ 10 ∷ []) ∷ [];
        complaints = [];
        file = none;
      }
      else run_config cfg

  -- `main` on the program's arguments.
  unfoldable pub main : List Bytes → Run
  unfolding run_parsed
  main args = run_parsed (parse_command_line args)
