-- ===== src/Transport/RawListener.antt =====
-- internal/transport/raw_listener.go: the raw UDP sniffer. What the socket returns, up to the error
-- that ends the loop, is an argument, and so are opening the socket and the reading of its address.
pub mod Summary
use mavlink_doctor.Common.{
  ℕ, ◌+◌, Bool, not, Option, none, some, List, [], ◌∷◌, ◌++◌, Bytes, Bytes-Eq, ◌==◌, codes, length,
  take, any, ltb, Result, ok, err, if◌then◌else◌,
}
use mavlink_doctor.Common.Int.{ℤ}
use mavlink_doctor.Common.Hex.{encode_to_string}
use mavlink_doctor.Decoder.FrameInspector.{looks_like_mavlink}

pub record PacketSummary : Type 0 where
  pub listen_address : Bytes
  pub port : ℤ
  pub duration : ℕ
  pub total_packets : ℕ
  pub total_bytes : ℕ
  pub mavlink_like : ℕ
  pub unique_senders : List Bytes
  pub packet_sizes : List ℕ
  pub error_message : Bytes

-- The results of `ReadFromUDP` in order: datagrams, then the deadline or another error.
pub data Reads : Type 0 where
  timed_out : Reads
  failed : (message : Bytes) → Reads
  packet : (remote payload : Bytes) → Reads → Reads

-- The arguments of the callback, less the time.
pub record Observation : Type 0 where
  pub remote : Bytes
  pub size : ℕ
  pub hex_preview : Bytes
  pub is_mavlink : Bool

abbrev pub preview_limit : ℕ
preview_limit = 24

unfoldable pub preview : Bytes → Bytes
preview payload =
    encode_to_string (take preview_limit payload)
    ++ (if ltb preview_limit (length payload) then codes "..." else [])

unfoldable pub observe : Bytes → Bytes → Observation
unfolding preview
observe remote payload = record {
  remote = remote;
  size = length payload;
  hex_preview = preview payload;
  is_mavlink = looks_like_mavlink payload;
}

abbrev pub contains_sender : Bytes → List Bytes → Bool
contains_sender sender senders = any (λ s. s == sender) senders

-- The senders map holds what `UniqueSenders` holds.
unfoldable pub add_sender : Bytes → List Bytes → List Bytes
add_sender sender senders =
    if contains_sender sender senders then senders else senders ++ sender ∷ []

abbrev pub add_size : ℕ → List ℕ → List ℕ
add_size n sizes = if ltb (length sizes) 10 then sizes ++ n ∷ [] else sizes

-- What one datagram changes in the summary.
unfoldable pub record_packet : PacketSummary → Bytes → Bytes → PacketSummary
unfolding add_sender
record_packet s remote payload = record s {
  total_packets = s.total_packets + 1;
  total_bytes = s.total_bytes + length payload;
  packet_sizes = add_size (length payload) s.packet_sizes;
  unique_senders = add_sender remote s.unique_senders;
  mavlink_like = s.mavlink_like + (if looks_like_mavlink payload then 1 else 0);
}

-- The loop, with the calls of the callback in order.
unfoldable pub read_packets : PacketSummary → Reads → PacketSummary × List Observation
unfolding record_packet observe
read_packets s timed_out = (s, [])
read_packets s (failed message) = (record s { error_message = message }, [])
read_packets s (packet remote payload rest) =
    let (final, seen) = read_packets (record_packet s remote payload) rest in
    (final, observe remote payload ∷ seen)

abbrev pub new_summary : ℕ → Bytes → ℤ → PacketSummary
new_summary duration listen_address port = record {
  listen_address = listen_address;
  port = port;
  duration = duration;
  total_packets = 0;
  total_bytes = 0;
  mavlink_like = 0;
  unique_senders = [];
  packet_sizes = [];
  error_message = [];
}

-- After `net.ListenUDP`, which gives `ok` with what will be read from the socket, or its error. A failed
-- listen returns the summary next to the error.
unfoldable pub read_socket :
    PacketSummary → Result Bytes Reads → PacketSummary × Option Bytes × List Observation
unfolding read_packets
read_socket s (err message) = (record s { error_message = message }, some message, [])
read_socket s (ok reads) = let (final, seen) = read_packets s reads in (final, none, seen)

-- `net.ParseIP` gives the address or none, for which `net.ListenUDP` takes every address.
unfoldable pub listen_raw_udp :
    (parse_ip : Bytes → Option Bytes) (listen_udp : Option Bytes → ℤ → Result Bytes Reads)
    → ℕ
    → Bytes
    → ℤ
    → PacketSummary × Option Bytes × List Observation
unfolding read_socket
listen_raw_udp parse_ip listen_udp duration listen_address port =
    read_socket (new_summary duration listen_address port)
      (listen_udp (parse_ip listen_address) port)
