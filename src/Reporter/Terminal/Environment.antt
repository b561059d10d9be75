-- ===== src/Reporter/Terminal/Environment.antt =====
-- internal/reporter/terminal.go: the summaries of the discovery and of the raw packets, and the start
-- of the live test.
use mavlink_doctor.Common.{
  ℕ, ◌*◌, ◌/◌, Bool, not, Option, none, some, List, [], ◌∷◌, ◌++◌, map, Bytes, Bytes-Eq, ◌==◌,
  codes, nat_eq, ltb, if◌then◌else◌,
}
use mavlink_doctor.Common.Int.{ℤ}
use mavlink_doctor.Common.Decimal.{decimal, sprint}
use mavlink_doctor.Common.Fields.{join}
use mavlink_doctor.Common.Format.{utf8, pad, bracketed, duration_text, round_millisecond}
use mavlink_doctor.Discovery.Types.{InterfaceInfo, PortStatus, RouteResult, SocketInfo}
use mavlink_doctor.Transport.RawListener.{PacketSummary}
use mavlink_doctor.Reporter.Terminal.{line, warn_sign, info_sign}

-- `fmt.Sprintf("%s (%s)", ip, iface.Name)` for each bind candidate.
abbrev pub candidates_of : Bytes → List Bytes → List Bytes
candidates_of name ips = map (λ ip. ip ++ (codes " (" ++ (name ++ codes ")"))) ips

unfoldable pub local_ips : List InterfaceInfo → List Bytes
local_ips [] = []
local_ips (iface ∷ ifaces) = candidates_of iface.name iface.ipv4_bind ++ local_ips ifaces

unfoldable pub candidates_line : List Bytes → Bytes
candidates_line [] = codes "  " ++ (warn_sign ++ codes "  Local IP Candidates : None found\n")
candidates_line (ip ∷ ips) =
    utf8 "  ✅ Local IP Candidates : " ++ line (join (codes ", ") (ip ∷ ips))

unfoldable pub conflict_lines : List SocketInfo → Bytes
conflict_lines [] = []
conflict_lines (s ∷ ss) = codes "       Conflicting: " ++ (line s.raw ++ conflict_lines ss)

unfoldable pub port_lines : Option PortStatus → Bytes
unfolding conflict_lines
port_lines none = []
port_lines (some p) =
    if p.available
    then utf8 "  ✅ Port UDP "
      ++ (pad 10 (sprint p.port) ++ codes " : Available (No socket conflicts)\n")
    else utf8 "  ❌ Port UDP "
      ++ (pad 10 (sprint p.port)
          ++ (codes " : Conflict (In use by another process)\n" ++ conflict_lines p.bound_sockets))

unfoldable pub way_lines : RouteResult → Bytes
way_lines r =
    if r.is_direct
    then utf8 "  ✅ Route to "
      ++ (r.target_host ++ (codes " : Direct link via " ++ line r.interface))
    else if not (r.gateway == [])
    then codes "  "
      ++ (info_sign ++ codes "  Route to ")
      ++ (r.target_host
          ++ (codes " : Gateway "
              ++ (r.gateway ++ (codes " (dev " ++ (r.interface ++ codes ")\n")))))
    else []

unfoldable pub ping_lines : RouteResult → Bytes
ping_lines r =
    if r.ping_responded
    then utf8 "  ✅ Ping to "
      ++ (r.target_host
          ++ (codes "  : Responded in "
              ++ line (duration_text (round_millisecond r.ping_duration))))
    else []

unfoldable pub route_lines : Option RouteResult → Bytes
unfolding way_lines ping_lines
route_lines none = []
route_lines (some r) = way_lines r ++ ping_lines r

unfoldable pub serial_line : List Bytes → Bytes
serial_line [] = codes "  " ++ (info_sign ++ codes "  Serial Ports        : None detected\n")
serial_line (p ∷ ps) = utf8 "  ✅ Serial Ports        : " ++ line (join (codes ", ") (p ∷ ps))

unfoldable pub interface_lines : List InterfaceInfo → Bytes
interface_lines [] = []
interface_lines (i ∷ is) =
    codes "Interface: "
    ++ (i.name
        ++ (codes " (MTU: "
            ++ (decimal i.mtu
                ++ (codes ", Flags: "
                    ++ (i.flags
                        ++ (codes ", Addrs: "
                            ++ (bracketed i.addresses ++ (codes ")\n" ++ interface_lines is))))))))

abbrev pub socket_rows : List SocketInfo → Bytes
socket_rows [] = []
socket_rows (s ∷ ss) = codes "  " ++ (line s.raw ++ socket_rows ss)

abbrev pub bound_lines : List SocketInfo → Bytes
bound_lines [] = []
bound_lines (s ∷ ss) = codes "Active UDP Sockets:\n" ++ socket_rows (s ∷ ss)

abbrev pub bound_of : Option PortStatus → List SocketInfo
bound_of none = []
bound_of (some p) = p.bound_sockets

abbrev verbose_lines : List InterfaceInfo → Option PortStatus → Bytes
verbose_lines ifaces port_status =
    codes "\n--- Verbose Interface & Socket Details ---\n"
    ++ (interface_lines ifaces ++ bound_lines (bound_of port_status))

-- `PrintDiscoverySummary`
unfoldable pub discovery_summary :
    List InterfaceInfo → Option PortStatus → List Bytes → Option RouteResult → Bool → Bytes
unfolding candidates_line local_ips port_lines serial_line route_lines interface_lines
discovery_summary ifaces port_status serial_candidates route verbose =
    codes "\n[1/3] Environment & Discovery\n"
    ++ (candidates_line (local_ips ifaces)
        ++ (port_lines port_status
            ++ (route_lines route
                ++ (serial_line serial_candidates
                    ++ (if verbose then verbose_lines ifaces port_status else [])))))

-- The share of the packets that look like MAVLink, in percent.
unfoldable pub framing_pct : PacketSummary → ℕ
framing_pct s = if ltb 0 s.total_packets then s.mavlink_like * 100 / s.total_packets else 0

unfoldable pub packet_lines : PacketSummary → Bytes
unfolding framing_pct
packet_lines s =
    (utf8 "  ✅ Inbound Traffic    : "
      ++ (decimal s.total_packets
          ++ (codes " UDP datagrams ("
              ++ (decimal s.total_bytes
                  ++ (codes " bytes) from " ++ line (join (codes ", ") s.unique_senders))))))
    ++ (if ltb 0 s.mavlink_like
        then utf8 "  ✅ MAVLink Framing    : "
          ++ (decimal (framing_pct s) ++ codes "% of packets match MAVLink v1/v2 magic bytes\n")
        else codes "  "
          ++ (warn_sign
              ++ codes
                  "  MAVLink Framing    : Packets arrived without leading 0xFE/0xFD magic (chunked stream)\n"))

-- `PrintRawPacketSummary`
unfoldable pub raw_packet_summary : PacketSummary → Bool → Bytes
unfolding packet_lines
raw_packet_summary s verbose =
    codes "\n[2/3] Raw Packet Sniffer\n"
    ++ (if nat_eq s.total_packets 0
        then utf8 "  ❌ Inbound Traffic    : 0 UDP packets on port "
          ++ (sprint s.port
              ++ (codes " ("
                  ++ (duration_text s.duration
                      ++ codes
                          " window)\n     Possible causes: target host not sending to this IP/port, or firewall drop.\n")))
        else packet_lines s
          ++ (if verbose
              then codes "Sample packet sizes: " ++ line (bracketed (map decimal s.packet_sizes))
              else []))

-- `PrintLiveStart`
unfoldable pub live_start : Bytes → Bytes → ℤ → Bytes → Bytes
live_start transport mode port address =
    codes "\n[3/3] Live Telemetry Monitor\n"
    ++ (if not (address == [])
        then codes "  Connecting to "
          ++ (transport ++ (codes " " ++ (mode ++ (codes " at " ++ (address ++ codes "...\n")))))
        else codes "  Listening on "
          ++ (transport
              ++ (codes " " ++ (mode ++ (codes " 0.0.0.0:" ++ (sprint port ++ codes "...\n"))))))
