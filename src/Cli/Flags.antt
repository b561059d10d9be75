-- ===== src/Cli/Flags.antt =====
-- internal/cli/flags.go: the checks and the resolution of the options. What `flag.FlagSet.Parse` makes
-- of the arguments is a function of the caller. Strings are ASCII, as far as case and space go.
use mavlink_doctor.Common.{
  ℕ, suc, ◌*◌, ◌%◌, ◌-◌, ◌^◌, Bool, true, false, not, ◌&&◌, ◌||◌, List, [], ◌∷◌, Bytes, Bytes-Eq,
  ◌==◌, codes, ltb, Result, ok, err, if◌then◌else◌,
}
use mavlink_doctor.Common.Int.{ℤ, pos, negsuc}
use mavlink_doctor.Common.Ascii.{to_lower, trim_space}

-- The values of the flags, as given or by default.
pub record Flags : Type 0 where
  pub listen : ℤ
  pub listen_address : Bytes
  pub port : ℤ
  pub transport : Bytes
  pub mode : Bytes
  pub address : Bytes
  pub serial : Bytes
  pub baud : ℤ
  pub dialect : Bytes
  pub gcs_heartbeat : Bool
  pub request_streams : Bool
  pub stream_server : Bool
  pub no_gomavlib : Bool
  pub version : Bool
  pub json : Bool
  pub verbose : Bool
  pub report : Bytes
  pub redact : Bool
  pub probe_subnet : Bytes

unfoldable pub default_flags : Flags
default_flags = record {
  listen = pos 10;
  listen_address = codes "0.0.0.0";
  port = pos 19856;
  transport = codes "auto";
  mode = codes "auto";
  address = codes "";
  serial = codes "";
  baud = pos 57600;
  dialect = codes "common";
  gcs_heartbeat = true;
  request_streams = false;
  stream_server = true;
  no_gomavlib = false;
  version = false;
  json = false;
  verbose = false;
  report = codes "mavlink-doctor-report.json";
  redact = false;
  probe_subnet = codes "";
}

pub record Config : Type 0 where
  pub listen_duration : ℕ
  pub listen_address : Bytes
  pub port : ℤ
  pub transport : Bytes
  pub mode : Bytes
  pub address : Bytes
  pub serial_device : Bytes
  pub baud : ℤ
  pub dialect : Bytes
  pub gcs_heartbeat : Bool
  pub request_streams : Bool
  pub stream_server : Bool
  pub skip_gomavlib : Bool
  pub show_version : Bool
  pub json_output : Bool
  pub verbose : Bool
  pub export_report : Bytes
  pub redact_report : Bool
  pub probe_subnet : Bytes

-- `&Config{ShowVersion: true}`
abbrev pub version_config : Config
version_config = record {
  listen_duration = 0;
  listen_address = [];
  port = pos 0;
  transport = [];
  mode = [];
  address = [];
  serial_device = [];
  baud = pos 0;
  dialect = [];
  gcs_heartbeat = false;
  request_streams = false;
  stream_server = false;
  skip_gomavlib = false;
  show_version = true;
  json_output = false;
  verbose = false;
  export_report = [];
  redact_report = false;
  probe_subnet = [];
}

pub data FlagError : Type 0 where
  help_wanted : FlagError
  bad_syntax : (argument : Bytes) → FlagError
  undefined_flag needs_argument : (name : Bytes) → FlagError
  invalid_value : (value name : Bytes) → FlagError
  invalid_transport invalid_mode invalid_dialect : (given : Bytes) → FlagError
  serial_is_client : FlagError
  address_required : (transport : Bytes) → FlagError

abbrev pub normal : Bytes → Bytes
normal s = to_lower (trim_space s)

abbrev pub is_transport : Bytes → Bool
is_transport t =
    t == codes "auto"
    || t == codes "udp"
    || t == codes "tcp"
    || t == codes "serial"
    || t == codes "broadcast"

abbrev pub is_mode : Bytes → Bool
is_mode m = m == codes "auto" || m == codes "server" || m == codes "client"

abbrev pub is_dialect : Bytes → Bool
is_dialect d =
    d == codes "common"
    || d == codes "ardupilotmega"
    || d == codes "standard"
    || d == codes "all"
    || d == codes "raw"

-- `time.Duration(n) * time.Second` as its residue modulo 2^64; from 2^63 on it is negative.
abbrev pub nanoseconds : ℤ → ℕ
nanoseconds (pos n) = (n * 1000000000) % (2 ^ 64)
nanoseconds (negsuc n) = (2 ^ 64 - (suc n * 1000000000) % (2 ^ 64)) % (2 ^ 64)

abbrev pub is_positive_duration : ℕ → Bool
is_positive_duration d = ltb 0 d && ltb d (2 ^ 63)

unfoldable pub resolve_duration : ℤ → ℕ
resolve_duration n = if is_positive_duration (nanoseconds n) then nanoseconds n else 10 * 1000000000

abbrev pub is_disabled : Bytes → Bool
is_disabled s =
    to_lower s == codes "none" || to_lower s == codes "off" || to_lower s == codes "false"

unfoldable pub resolve_report : Bytes → Bytes
resolve_report s = if is_disabled (trim_space s) then [] else trim_space s

unfoldable pub resolve : Flags → Config
unfolding resolve_duration resolve_report trim_space to_lower
resolve f = record {
  listen_duration = resolve_duration f.listen;
  listen_address = f.listen_address;
  port = f.port;
  transport = normal f.transport;
  mode = normal f.mode;
  address = trim_space f.address;
  serial_device = trim_space f.serial;
  baud = f.baud;
  dialect = normal f.dialect;
  gcs_heartbeat = f.gcs_heartbeat;
  request_streams = f.request_streams;
  stream_server = f.stream_server;
  skip_gomavlib = f.no_gomavlib;
  show_version = f.version;
  json_output = f.json;
  verbose = f.verbose;
  export_report = resolve_report f.report;
  redact_report = f.redact;
  probe_subnet = trim_space f.probe_subnet;
}

abbrev pub wants_address : Bytes → Bytes → Bytes → Bool
wants_address t m address =
    (t == codes "tcp" || t == codes "udp") && m == codes "client" && address == []

-- The checks that follow `fs.Parse`, in their order.
unfoldable pub check_flags : Flags → Result FlagError Config
unfolding resolve
check_flags f =
    if f.version
    then ok version_config
    else if not (is_transport (normal f.transport))
    then err (invalid_transport f.transport)
    else if not (is_mode (normal f.mode))
    then err (invalid_mode f.mode)
    else if normal f.transport == codes "serial" && normal f.mode == codes "server"
    then err serial_is_client
    else if wants_address (normal f.transport) (normal f.mode) (trim_space f.address)
    then err (address_required (normal f.transport))
    else if not (is_dialect (normal f.dialect))
    then err (invalid_dialect f.dialect)
    else ok (resolve f)

unfoldable pub check_parsed : Result FlagError Flags → Result FlagError Config
unfolding check_flags
check_parsed (err e) = err e
check_parsed (ok f) = check_flags f

-- `ParseFlags`; `parse` stands for `fs.Parse` with the flags' values after it.
unfoldable pub parse_flags :
    (List Bytes → Result FlagError Flags) → List Bytes → Result FlagError Config
unfolding check_parsed
parse_flags parse [] = check_parsed (parse [])
parse_flags parse (a ∷ rest) =
    if a == codes "help"
    then err help_wanted
    else if a == codes "version"
    then ok version_config
    else check_parsed (parse (a ∷ rest))
