-- ===== src/Transport/Endpoints.antt =====
-- internal/transport/endpoint.go, udp_stream_client.go and pcap_helper.go. The endpoint values are
-- gomavlib's; of the two custom endpoints the model keeps the address in their closures, the label and
-- the datagram flag. A port is an `int`.
use mavlink_doctor.Common.{
  Bool, false, not, ◌&&◌, [], ◌++◌, Bytes, Bytes-Eq, ◌==◌, codes, nat_eq, any, Result, ok, err,
  if◌then◌else◌,
}
use mavlink_doctor.Common.Int.{ℤ}
use mavlink_doctor.Common.Decimal.{sprint}

pub record EndpointOptions : Type 0 where
  pub transport : Bytes
  pub mode : Bytes
  pub listen_address : Bytes
  pub port : ℤ
  pub address : Bytes
  pub serial_device : Bytes
  pub baud : ℤ
  pub stream_server : Bool

pub data Endpoint : Type 0 where
  custom_server : (listen_address label : Bytes) (is_datagram : Bool) → Endpoint
  custom_client : (connect_address label : Bytes) (is_datagram : Bool) → Endpoint
  udp_server : (address : Bytes) → Endpoint
  tcp_server : (address : Bytes) → Endpoint
  tcp_client : (address : Bytes) → Endpoint
  serial : (device : Bytes) (baud : ℤ) → Endpoint
  udp_broadcast : (broadcast_address local_address : Bytes) → Endpoint

pub data EndpointError : Type 0 where
  serial_requires_client serial_device_missing : EndpointError
  unsupported_transport : Bytes → EndpointError

-- `net.JoinHostPort(host, fmt.Sprint(port))`
unfoldable pub join_host_port : Bytes → ℤ → Bytes
join_host_port host port =
    if any (λ c. nat_eq c b':') host
    then codes "[" ++ host ++ codes "]:" ++ sprint port
    else host ++ codes ":" ++ sprint port

unfoldable pub new_udp_stream_server : Bytes → ℤ → Endpoint
new_udp_stream_server listen_address port =
    let addr = join_host_port listen_address port in
    custom_server addr (codes "udp-stream-server:" ++ addr) false

unfoldable pub new_udp_stream_client : Bytes → Endpoint
new_udp_stream_client address = custom_client address (codes "udp-stream:" ++ address) false

abbrev pub local_address : EndpointOptions → Bytes
local_address opts = join_host_port opts.listen_address opts.port

-- The cases of the switch on the transport.
unfoldable pub create_udp : EndpointOptions → Endpoint
unfolding new_udp_stream_server new_udp_stream_client
create_udp opts =
    if opts.mode == codes "server"
    then if opts.stream_server
      then new_udp_stream_server opts.listen_address opts.port
      else udp_server (local_address opts)
    else new_udp_stream_client opts.address

unfoldable pub create_tcp : EndpointOptions → Endpoint
create_tcp opts =
    if opts.mode == codes "server" then tcp_server (local_address opts) else tcp_client opts.address

unfoldable pub create_serial : EndpointOptions → Result EndpointError Endpoint
create_serial opts =
    if not (opts.mode == codes "client") && not (opts.mode == codes "auto")
    then err serial_requires_client
    else if opts.serial_device == []
    then err serial_device_missing
    else ok (serial opts.serial_device opts.baud)

unfoldable pub create_endpoint : EndpointOptions → Result EndpointError Endpoint
unfolding create_udp create_tcp create_serial
create_endpoint opts =
    if opts.transport == codes "udp"
    then ok (create_udp opts)
    else if opts.transport == codes "tcp"
    then ok (create_tcp opts)
    else if opts.transport == codes "serial"
    then create_serial opts
    else if opts.transport == codes "broadcast"
    then ok (udp_broadcast opts.address (local_address opts))
    else err (unsupported_transport opts.transport)

unfoldable pub format_tcpdump_command : ℤ → Bytes → Bytes
format_tcpdump_command port iface =
    let name = if iface == [] then codes "any" else iface in
    codes "sudo tcpdump -ni " ++ name ++ codes " udp port " ++ sprint port ++ codes " -vv -X"

unfoldable pub format_tshark_command : ℤ → Bytes
format_tshark_command port =
    codes "tshark -f \"udp port "
    ++ sprint port
    ++ codes "\" -d udp.port=="
    ++ sprint port
    ++ codes ",mavlink_proto -O mavlink_proto"
