-- ===== src/Main/Setup.antt =====
-- cmd/mavlink-doctor/main.go, `runMavlinkTest` up to the start of the node: which endpoint a
-- configuration selects. `node.Initialize` is gomavlib's; what it is given is the result here.
use mavlink_doctor.Common.{
  ℕ, Bool, not, Option, [], Bytes, Bytes-Eq, ◌==◌, codes, Result, ok, err, if◌then◌else◌,
}
use mavlink_doctor.Cli.Flags.{Config}
use mavlink_doctor.Decoder.Dialects.{Dialect, DialectError, get_dialect}
use mavlink_doctor.Transport.Endpoints.{EndpointOptions, Endpoint, EndpointError, create_endpoint}

abbrev pub has_address : Config → Bool
has_address cfg = not (cfg.address == [])

abbrev pub mode_of_address : Config → Bytes
mode_of_address cfg = if has_address cfg then codes "client" else codes "server"

unfoldable pub select_transport : Config → Bytes
select_transport cfg = if cfg.transport == codes "auto" then codes "udp" else cfg.transport

-- The mode after the first `if`, and after the second.
abbrev pub first_mode : Config → Bytes
first_mode cfg = if cfg.transport == codes "auto" then mode_of_address cfg else cfg.mode

unfoldable pub select_mode : Config → Bytes
select_mode cfg = if first_mode cfg == codes "auto" then mode_of_address cfg else first_mode cfg

unfoldable pub endpoint_options : Config → EndpointOptions
unfolding select_transport select_mode
endpoint_options cfg = record {
  transport = select_transport cfg;
  mode = select_mode cfg;
  listen_address = cfg.listen_address;
  port = cfg.port;
  address = cfg.address;
  serial_device = cfg.serial_device;
  baud = cfg.baud;
  stream_server = cfg.stream_server;
}

-- The fields of `gomavlib.Node`.
pub record Node : Type 0 where
  pub endpoint : Endpoint
  pub dialect : Option Dialect
  pub out_system_id : ℕ
  pub out_component_id : ℕ
  pub heartbeat_disable : Bool
  pub heartbeat_period : ℕ
  pub stream_request_enable : Bool
  pub stream_request_frequency : ℕ

pub data SetupError : Type 0 where
  no_endpoint : (transport mode : Bytes) → EndpointError → SetupError
  no_dialect : DialectError → SetupError

abbrev pub node_of : Config → Endpoint → Option Dialect → Node
node_of cfg endpoint dialect = record {
  endpoint = endpoint;
  dialect = dialect;
  out_system_id = 255;
  out_component_id = 190;
  heartbeat_disable = not cfg.gcs_heartbeat;
  heartbeat_period = 1000000000;
  stream_request_enable = cfg.request_streams;
  stream_request_frequency = 4;
}

unfoldable pub setup_dialect :
    Config → Endpoint → Result DialectError (Option Dialect) → Result SetupError Node
setup_dialect cfg endpoint (err e) = err (no_dialect e)
setup_dialect cfg endpoint (ok dialect) = ok (node_of cfg endpoint dialect)

unfoldable pub setup_endpoint : Config → Result EndpointError Endpoint → Result SetupError Node
unfolding setup_dialect
setup_endpoint cfg (err e) = err (no_endpoint (select_transport cfg) (select_mode cfg) e)
setup_endpoint cfg (ok endpoint) = setup_dialect cfg endpoint (get_dialect cfg.dialect)

unfoldable pub setup : Config → Result SetupError Node
unfolding setup_endpoint endpoint_options
setup cfg = setup_endpoint cfg (create_endpoint (endpoint_options cfg))
