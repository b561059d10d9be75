-- ===== src/Lib.antt =====
-- mavlink-doctor: models of the diagnostics tool for MAVLink links, and what holds of them.
--
-- The program runs in phases: it parses the command line (internal/cli), inspects the host
-- (internal/discovery), sniffs raw UDP packets (internal/transport/raw_listener.go), runs a MAVLink
-- node on one endpoint for some seconds and feeds its events to the metrics tracker and the gimbal
-- detection (cmd/mavlink-doctor/main.go, internal/metrics, internal/decoder), and reports
-- (internal/reporter). The node itself is github.com/bluenviron/gomavlib/v4, which is not modelled:
-- its events and frames are values (Gomavlib).
--
-- Files and code:
--   Common and its children: tests on numbers, lists, strings, wrap-around (u8, u64), integers, maps;
--     Ascii and Fields: what the program uses of packages strings and unicode, HostPort: SplitHostPort of
--     package net, Format: the paddings and numbers of package fmt.
--   Metrics/Types, Tracker, Heartbeat, Snapshot: internal/metrics. NewTracker is `new_tracker`,
--     RecordFrame `record_frame`, RecordHeartbeat `record_heartbeat`, RecordParseError
--     `record_parse_error`, Snapshot `snapshot`, MessageStats `message_stats`. Calls has a history of
--     these calls; the mutex of the tracker makes every interleaving of callers such a history, and
--     the time that each call reads from the clock is an argument. Metrics/Float64 stands for float64.
--   Decoder/Enums, Dialects, FrameInspector, Gimbal: internal/decoder, a file each.
--     CheckGimbalMessage is `check_gimbal_message`, FindMagicOffset `find_magic_offset`.
--   Discovery/Types, Ports, Subnet: internal/discovery/discovery.go, port_check.go and the address
--     generation of subnet_probe.go (generateIPs is `generate_ips`, CheckPort `check_port`).
--   Discovery/Sockets, Routing, Serial, Interfaces: sockets_*.go, routing_*.go, serial_*.go of all
--     platforms and net_interfaces.go. ScanUDPSockets is `scan_udp_sockets`, CheckRouting
--     `check_routing`, SerialCandidates `serial_candidates`, ScanInterfaces `scan_interfaces`. What a
--     tool prints, or its failure, is an argument; the platform, which the build chooses, is another.
--   Discovery/Probe: the concurrent probes of ProbeSubnet, as actions on one state (`step`, `run`);
--     `probe_subnet` is ProbeSubnet for a given order of these actions. A dial succeeds or not; no answer
--     of a host is waited for.
--   Transport/UdpStream: internal/transport/udp_stream_server.go. The goroutines (read loop, readers,
--     Accept, the two Close methods) are actions on one state; io.Pipe, which has no buffer, is a
--     pending write that readers take piece by piece. `run` is any interleaving of the actions.
--   Transport/RawListener, Endpoints: raw_listener.go, endpoint.go, udp_stream_client.go,
--     pcap_helper.go of internal/transport.
--   Cli/Flags: ParseFlags of internal/cli/flags.go (`parse_flags`), with fs.Parse as an argument.
--   Cli/FlagSet, Values: what fs.Parse of package flag makes of the arguments (`parse`), and the
--     numbers, Booleans and cases of packages strconv and strings; `parse_command_line` is ParseFlags with it.
--   Main/World, Program: main of cmd/mavlink-doctor/main.go (`main`): from the arguments to the exit code, the
--     standard output and the report file. It composes the models above in the order of the code:
--     `discover`, `sniff`, `mavlink_phase`, `compile`, `export_phase`, `final_output`. What the
--     system answers is one argument, the `World`.
--   Main/Setup, EventLoop: runMavlinkTest of cmd/mavlink-doctor/main.go, up to the node (`setup`) and
--     its event loop (`event_loop`).
--   Reporter/Result: BuildResult of internal/reporter/json.go (`build_result`).
--   Reporter/Redact, Export: maskIP, redactResult and ExportSupportReport of
--     internal/reporter/support_report.go, and PrintJSON of json.go. The masking writes through the
--     slices of the caller's report, so `export_support_report` returns that report as well.
--   Reporter/Terminal: internal/reporter/terminal.go, as the bytes that each function prints:
--     PrintDiscoverySummary is `discovery_summary`, PrintRawPacketSummary `raw_packet_summary`,
--     PrintMAVLinkSummary `mavlink_summary`, PrintFinalRecommendation `final_recommendation`.
--   Simulator: internal/simulator/mock_server.go. RunMockSender is `run_mock_sender`: its error, or the
--     messages that it hands to its node; the chunk goroutine is `send_chunks`, from the writes of the node to
--     datagrams. Simulator/EndToEnd feeds these to the stream server.
--   Version: internal/version/version.go (`initialise` is its init function).
--   Tests: the theorems at concrete inputs.
--
-- Conventions: a Go string is the list of its bytes; times are nanoseconds of the monotonic clock;
-- uint64 counters wrap (`u64`); a map is an association list, whose order says nothing; a value with
-- an error is a `Result`.
--
-- Parameters: float64 arithmetic and its texts, the JSON encoder (`marshal`), and in `World` the answers
-- of the system: tools, file system, interfaces, opening a socket and the results of reads from it, the node's
-- events, the clock, and the order in which the goroutines of ProbeSubnet act.
--
-- Bounds: `generate_ips` runs on fuel, one step for each address that can pass before the limit is
-- reached, and its theorem says that this fuel gives a list. The digits of a number are computed on
-- fuel `n + 1`, which is more than the number of digits of n. The loop over the arguments runs on
-- fuel, one for each argument, which is enough since each round takes one or more. The chunks of a write are cut on
-- fuel, its length, since each chunk takes a byte or more. All else is structural recursion.
--
-- Not modelled: running the tools, sockets and clocks of the operating system; package gomavlib, with
-- the encoding and decoding of messages; the JSON text of the report; space and case outside ASCII; the
-- times of day in the printed lines, which are values (`packet_line`, `live_line`) in the output; the
-- usage text; in the simulator, how its pipes are closed at the end; in the stream server,
-- writing to a connection, which sends a datagram and leaves the state as it is, and addresses.
pub mod Common
pub mod Gomavlib
pub mod Metrics
pub mod Decoder
pub mod Discovery
pub mod Transport
pub mod Cli
pub mod Main
pub mod Reporter
pub mod Simulator
pub mod Version
pub mod Tests
