-- ===== src/Tests/RunTests.antt =====
-- cmd/mavlink-doctor/main.go from the arguments to the exit, at concrete inputs.
use mavlink_doctor.Common.{
  ℕ, ◌∷◌, ◌++◌, ◌≡◌, refl, true, false, not, ◌&&◌, ◌||◌, Bytes, Bytes-Eq, ◌==◌, codes, bytes_eq,
  none, some, List, [], Result, ok, err, arith, nat_eq, ltb, if◌then◌else◌,
}
use mavlink_doctor.Common.Ascii.{trim_space, trim_left, trim_right, to_lower}
use mavlink_doctor.Cli.Flags.{
  Config, default_flags, parse_flags, check_parsed, check_flags, resolve, resolve_duration,
  resolve_report,
}
use mavlink_doctor.Cli.FlagSet.{
  parse, parse_loop, classify, read_name, split_value, parse_argument, declared, set_flag, round_of,
  parse_command_line,
}
use mavlink_doctor.Cli.Validity.{IsValid}
use mavlink_doctor.Decoder.Dialects.{common, get_dialect}
use mavlink_doctor.Discovery.Sockets.{linux}
use mavlink_doctor.Main.World.{World, text, json, takes_udp}
use mavlink_doctor.Main.Program.{main, compile, test_loop, sniff}
use mavlink_doctor.Main.Program.Machine.{final_report, final_file, machine_output}
use mavlink_doctor.Main.Program.Outcome.{Exits, Ends, main-Exits, advice_without_frames}
use mavlink_doctor.Main.Program.Phases.{Listens, Connects, test_endpoint}
use mavlink_doctor.Main.Calls.{frame_count}
use mavlink_doctor.Main.Setup.{
  Node, select_transport, select_mode, endpoint_options, setup_endpoint, setup_dialect, setup,
  node_of, has_address,
}
use mavlink_doctor.Metrics.Snapshot.{snapshot}
use mavlink_doctor.Reporter.Result.{DiagnosticResult, raw_packets}
use mavlink_doctor.Reporter.Terminal.Telemetry.{mavlink_summary, final_recommendation}
use mavlink_doctor.Tests.Data.{fractions, events, no_text}
use mavlink_doctor.Transport.Endpoints.{create_endpoint, join_host_port, create_udp}
use mavlink_doctor.Transport.RawListener.{timed_out}
use mavlink_doctor.Version.{Variables, default_variables}

abbrev pub variables : Variables
variables = default_variables (codes "go1.24")

abbrev pub fixed : ℕ → ℕ × ℕ → Bytes
fixed digits x = codes "1.0"

abbrev pub marshal : DiagnosticResult (ℕ × ℕ) → Result Bytes Bytes
marshal report = ok report.status

abbrev pub world : World (ℕ × ℕ)
world = record {
  platform = linux;
  os = codes "linux";
  arch = codes "amd64";
  discovery_time = 0;
  interfaces = err (codes "no interfaces");
  socket_tool = err (codes "no ss");
  netstat = err (codes "no netstat");
  route_tool = λ host. err (record { error = codes "no ip"; output = [] });
  ping = λ host. record { responded = false; output = []; duration = 0 };
  bind_error = none;
  ephemeral = none;
  glob = λ pattern. [];
  powershell = err [];
  parse_cidr = λ text. none;
  dial = λ address. false;
  probe_history = [];
  parse_ip = λ a. none;
  listen_udp = λ a p. ok timed_out;
  tracker_time = 0;
  node_error = none;
  events = events;
  snapshot_time = 5_000_000_000;
  write_error = none;
}

abbrev json_arguments : List Bytes
json_arguments = codes "-json" ∷ codes "-redact" ∷ []

abbrev json_config : Config
json_config = resolve (record default_flags { json = true; redact = true })

json_parsed : parse_command_line json_arguments ≡ ok json_config
unfolding parse_command_line parse_flags check_parsed check_flags parse parse_loop classify
    read_name split_value parse_argument declared set_flag round_of codes bytes_eq trim_space
    trim_left trim_right to_lower default_flags
json_parsed = refl

json_config_json : json_config.json_output ≡ true
unfolding resolve
json_config_json = refl

json_config_version : json_config.show_version ≡ false
unfolding resolve default_flags
json_config_version = refl

machine_output_example :
    let report = final_report fractions fixed no_text variables marshal world json_config in
    let r = main fractions fixed no_text variables marshal world json_arguments in
    (r.output ≡ json (report.status ++ 10 ∷ []) ∷ [])
    × (r.exit_code ≡ 0)
    × (r.file
        ≡ final_file fractions fixed no_text variables marshal world json_config report.status)
machine_output_example =
    machine_output fractions fixed no_text variables marshal world json_arguments json_config
      ((final_report fractions fixed no_text variables marshal world json_config).status)
      json_parsed json_config_json json_config_version refl

main-Exits_example :
    Exits
      (parse_command_line json_arguments)
      (main fractions fixed no_text variables marshal world json_arguments)
main-Exits_example = main-Exits fractions fixed no_text variables marshal world json_arguments

abbrev standard : Config
standard = resolve default_flags

no_arguments : parse_command_line [] ≡ ok standard
unfolding parse_command_line parse_flags check_parsed check_flags parse parse_loop codes bytes_eq
    trim_space trim_left trim_right to_lower default_flags
no_arguments = refl

standard_tested : standard.skip_gomavlib ≡ false
unfolding resolve default_flags
standard_tested = refl

standard_version : standard.show_version ≡ false
unfolding resolve default_flags
standard_version = refl

standard_text : standard.json_output ≡ false
unfolding resolve default_flags
standard_text = refl

abbrev standard_node : Node
standard_node = node_of standard (create_udp (endpoint_options standard)) (some common)

standard_ready : setup standard ≡ ok standard_node
unfolding setup setup_endpoint setup_dialect create_endpoint get_dialect select_mode
    select_transport endpoint_options resolve default_flags codes bytes_eq trim_space trim_left
    trim_right to_lower
standard_ready = refl

advice_without_frames_example :
    let s = test_loop fractions fixed no_text variables marshal world standard in
    let metrics = snapshot fractions s.tracker world.snapshot_time in
    let raw = (sniff fractions fixed no_text variables marshal world standard).0 in
    Ends (main fractions fixed no_text variables marshal world []).output (
      text (mavlink_summary fixed metrics s.gimbal standard.export_report standard.verbose)
      ∷ (if nat_eq (frame_count events) 0
          then text (final_recommendation standard.port) ∷ []
          else []))
    × ((compile fractions fixed no_text variables marshal world standard).status ≡ (
        if ltb 0 (frame_count events)
        then codes "MAVLINK_CONNECTED"
        else if ltb 0 (raw_packets raw)
        then codes "PACKETS_WITHOUT_MAVLINK"
        else codes "NO_TRAFFIC"))
advice_without_frames_example =
    advice_without_frames fractions fixed no_text variables marshal world standard standard_node
      standard_tested standard_ready refl [] no_arguments standard_version standard_text
      (omega arith)

standard-IsValid : IsValid standard
unfolding resolve resolve_duration resolve_report default_flags trim_space trim_left trim_right
    to_lower codes bytes_eq
standard-IsValid = (refl, refl, refl, refl, refl, refl, refl)

standard_udp : takes_udp standard ≡ true
unfolding resolve default_flags trim_space trim_left trim_right to_lower codes bytes_eq
standard_udp = refl

test_endpoint_example :
    (n : Node) × (setup standard ≡ ok n)
    × (if has_address standard
          && (standard.transport == codes "auto" || not (standard.mode == codes "server"))
        then Connects standard.address n.endpoint
        else Listens (join_host_port standard.listen_address standard.port) n.endpoint)
test_endpoint_example = test_endpoint standard standard-IsValid standard_udp
