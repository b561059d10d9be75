-- ===== src/Tests/TransportTests.antt =====
-- internal/transport at concrete inputs.
use mavlink_doctor.Common.{
  some, Option, Result, err, ◌≡◌, refl, Bytes, codes, bytes_eq, Bytes-Eq, none, List, [], ◌∷◌, true,
  false, ok, length, ◌||◌, ◌≤◌,
}
use mavlink_doctor.Common.Assoc.{lookup, insert}
use mavlink_doctor.Common.Int.{ℤ, pos}
use mavlink_doctor.Transport.UdpStream.{
  Listener, new_listener, closed_conn, is_accepted, Action, datagram, read, accept, close_conn,
  step, run, read_loop_round, open_client, begin_write, take_bytes, close_client, accept_next,
}
use mavlink_doctor.Transport.UdpStream.Streams.{stream}
use mavlink_doctor.Transport.UdpStream.Reassembly.{taken_all, reassembled}
use mavlink_doctor.Transport.UdpStream.Starvation.{
  waits_for, releases_any, datagrams_taken, one_reader_blocks, closed_lost,
}
use mavlink_doctor.Transport.UdpStream.Acceptance.{is_known, is_offered, every_connection_offered}
use mavlink_doctor.Transport.RawListener.{Reads, packet, timed_out, listen_raw_udp}
use mavlink_doctor.Transport.RawListener.Summary.{packets, Describes, listen_raw_udp_summary}

abbrev drone : Bytes
drone = 1 ∷ []

abbrev other : Bytes
other = 2 ∷ []

-- Two datagrams of one frame, read in pieces, with another sender in between.
abbrev session : List Action
session =
    datagram drone (0xFD ∷ 9 ∷ 0 ∷ [])
    ∷ accept
    ∷ read drone 2
    ∷ read drone 8
    ∷ datagram other (0xFE ∷ [])
    ∷ accept
    ∷ read other 4
    ∷ datagram drone (7 ∷ 8 ∷ [])
    ∷ read drone 1
    ∷ []

drone_open : closed_conn (lookup drone (run new_listener session).clients) ≡ false
unfolding run step new_listener lookup insert read_loop_round open_client begin_write take_bytes
    accept_next bytes_eq
drone_open = refl

session_taken : taken_all new_listener drone session ≡ 0xFD ∷ 9 ∷ 0 ∷ 7 ∷ 8 ∷ []
unfolding run step new_listener lookup insert read_loop_round open_client begin_write take_bytes
    accept_next bytes_eq taken_all
session_taken = refl

reassembled_example : stream (run new_listener session) drone ≡ taken_all new_listener drone session
reassembled_example = reassembled session drone drone_open

-- The connection is closed by its user; the drone goes on sending.
abbrev closed_session : List Action
closed_session = datagram drone (1 ∷ []) ∷ accept ∷ read drone 4 ∷ close_conn drone ∷ []

drone_closed : closed_conn (lookup drone (run new_listener closed_session).clients) ≡ true
unfolding run step new_listener lookup insert read_loop_round open_client begin_write take_bytes
    accept_next close_client bytes_eq
drone_closed = refl

closed_lost_example :
    step
      (run (run new_listener closed_session) (datagram other (5 ∷ []) ∷ []))
      (datagram drone (2 ∷ []))
    ≡ run (run new_listener closed_session) (datagram other (5 ∷ []) ∷ [])
closed_lost_example =
    closed_lost (run new_listener closed_session) (datagram other (5 ∷ []) ∷ []) drone (2 ∷ [])
      drone_closed

-- A datagram is partly read, and then the reader stops.
abbrev half_read : Listener
half_read = run new_listener (datagram drone (1 ∷ 2 ∷ 3 ∷ []) ∷ accept ∷ read drone 1 ∷ [])

abbrev later : List Action
later = datagram other (3 ∷ []) ∷ accept ∷ datagram drone (4 ∷ []) ∷ read other 9 ∷ []

half_read_waits : waits_for half_read drone ≡ true
unfolding run step new_listener lookup insert read_loop_round open_client begin_write take_bytes
    accept_next bytes_eq
half_read_waits = refl

later_reads_nothing : releases_any drone later ≡ false
unfolding bytes_eq
later_reads_nothing = refl

one_reader_blocks_example :
    (datagrams_taken half_read later ≡ 0) × (waits_for (run half_read later) drone ≡ true)
one_reader_blocks_example =
    one_reader_blocks half_read drone later half_read_waits later_reads_nothing

every_connection_offered_example :
    ((k : Bytes)
      → is_accepted (run new_listener session) k || is_offered (run new_listener session) k
        ≡ is_known (run new_listener session) k)
    × (length (run new_listener session).accept_chan ≤ 1)
every_connection_offered_example = every_connection_offered session

abbrev sniffed : Reads
sniffed = packet (codes "10.0.0.2:14550") (0xFD ∷ 1 ∷ []) (
    packet (codes "10.0.0.3:5000") (0x41 ∷ [])
      (packet (codes "10.0.0.2:14550") (0xFE ∷ 2 ∷ 3 ∷ []) timed_out))

-- The address is a host name, so the socket listens on every address.
abbrev no_ip : Bytes → Option Bytes
no_ip address = none

abbrev opens : Option Bytes → ℤ → Result Bytes Reads
opens (some ip) port = err (codes "unexpected")
opens none port = ok sniffed

listen_raw_udp_summary_example :
    Describes (listen_raw_udp no_ip opens 1000 (codes "drone") (pos 14550)).0 (packets sniffed)
    × ((listen_raw_udp no_ip opens 1000 (codes "drone") (pos 14550)).1 ≡ none)
listen_raw_udp_summary_example =
    listen_raw_udp_summary no_ip opens 1000 (pos 14550) (codes "drone") sniffed refl
