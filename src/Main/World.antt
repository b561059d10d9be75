-- ===== src/Main/World.antt =====
-- cmd/mavlink-doctor/main.go: what `main` learns from outside, what it leaves behind, and its texts.
use mavlink_doctor.Common.{
  ℕ, Bool, true, false, not, ◌&&◌, ◌||◌, Option, none, List, [], ◌∷◌, ◌++◌, Bytes, Bytes-Eq, ◌==◌,
  codes, Result, if◌then◌else◌,
}
use mavlink_doctor.Common.Int.{ℤ}
use mavlink_doctor.Common.Decimal.{sprint}
use mavlink_doctor.Common.Format.{duration_text}
use mavlink_doctor.Cli.Flags.{
  Config, FlagError, help_wanted, bad_syntax, undefined_flag, needs_argument, invalid_value,
  invalid_transport, invalid_mode, invalid_dialect, serial_is_client, address_required,
}
use mavlink_doctor.Discovery.Interfaces.{Interface}
use mavlink_doctor.Discovery.Probe.{Action}
use mavlink_doctor.Discovery.Subnet.{IpNet}
use mavlink_doctor.Discovery.Routing.{ToolFailure, Ping}
use mavlink_doctor.Discovery.Sockets.{Platform}
use mavlink_doctor.Main.EventLoop.{Line, Timed}
use mavlink_doctor.Main.Setup.{SetupError, has_address}
use mavlink_doctor.Transport.RawListener.{Observation, Reads}
use mavlink_doctor.Version.{Variables, short_text}

-- What stands on the standard output: texts as they are, and lines that carry the clock's text, which
-- the model leaves out.
pub data Output : Type 0 where
  text : Bytes → Output
  json : Bytes → Output
  usage : Output
  packet_line : Observation → Output
  live_line : Line → Output
  setup_failed : SetupError → Output

pub record World (F : Type 0) : Type 0 where
  pub platform : Platform
  pub os : Bytes
  pub arch : Bytes
  pub discovery_time : ℕ
  pub interfaces : Result Bytes (List Interface)
  pub socket_tool : Result Bytes Bytes
  pub netstat : Result Bytes Bytes
  pub route_tool : Bytes → Result ToolFailure Bytes
  pub ping : Bytes → Ping
  -- The error of the test bind, and the address of the bind to port 0.
  pub bind_error : Option Bytes
  pub ephemeral : Option Bytes
  pub glob : Bytes → List Bytes
  pub powershell : Result Bytes Bytes
  -- For ProbeSubnet: `ParseCIDR`, whether an address can be dialled, and the order in which the probes
  -- are launched and end.
  pub parse_cidr : Bytes → Option IpNet
  pub dial : Bytes → Bool
  pub probe_history : List Action
  -- For ListenRawUDP: `net.ParseIP`, and `net.ListenUDP` with what is then read.
  pub parse_ip : Bytes → Option Bytes
  pub listen_udp : Option Bytes → ℤ → Result Bytes Reads
  pub tracker_time : ℕ
  -- The error of `node.Initialize`, and the events of the node.
  pub node_error : Option Bytes
  pub events : List Timed
  pub snapshot_time : ℕ
  pub write_error : Option Bytes

-- How the process ends. On the error output stands the error, which package flag has printed before
-- where it comes from the parsing.
pub record Run : Type 0 where
  pub exit_code : ℕ
  pub output : List Output
  pub complaints : List FlagError
  pub file : Option (Bytes × Bytes)

abbrev pub takes_udp : Config → Bool
takes_udp cfg = cfg.transport == codes "auto" || cfg.transport == codes "udp"

abbrev pub runs_sniffer : Config → Bool
runs_sniffer cfg = takes_udp cfg && not (has_address cfg)

-- Package flag prints the usage for the errors that it finds, `ParseFlags` for the word "help".
abbrev pub prints_usage : FlagError → Bool
prints_usage help_wanted = true
prints_usage (bad_syntax argument) = true
prints_usage (undefined_flag name) = true
prints_usage (needs_argument name) = true
prints_usage (invalid_value value name) = true
prints_usage (invalid_transport given) = false
prints_usage (invalid_mode given) = false
prints_usage (invalid_dialect given) = false
prints_usage serial_is_client = false
prints_usage (address_required transport) = false

abbrev usage_of : FlagError → List Output
usage_of e = if prints_usage e then usage ∷ [] else []

unfoldable pub refuse : FlagError → Run
refuse help_wanted = record { exit_code = 0; output = usage ∷ []; complaints = []; file = none }
refuse e = record {
  exit_code = 1;
  output = usage_of e;
  complaints = if prints_usage e then e ∷ e ∷ [] else e ∷ [];
  file = none;
}

-- Output that a JSON run leaves out.
abbrev pub unless_json : Config → List Output → List Output
unless_json cfg out = if not cfg.json_output then out else []

unfoldable pub banner : Variables → Bytes
banner v =
    codes "============================================================\n "
    ++ (short_text v
        ++ codes
            "\n Hardware-Agnostic MAVLink Diagnostics & Metrics Engine\n============================================================\n")

abbrev place_of : Config → Bytes
place_of cfg =
    if has_address cfg then cfg.address else cfg.listen_address ++ (codes ":" ++ sprint cfg.port)

unfoldable pub target_line : Config → Bytes
target_line cfg =
    codes "Target: "
    ++ (cfg.transport
        ++ (codes " "
            ++ (cfg.mode
                ++ (codes " "
                    ++ (place_of cfg
                        ++ (codes " | Dialect: "
                            ++ (cfg.dialect
                                ++ (codes " | Duration: "
                                    ++ (duration_text cfg.listen_duration ++ codes "\n")))))))))
