-- ===== src/Tests/HostTests.antt =====
-- The tools' outputs of internal/discovery at concrete inputs.
use mavlink_doctor.Common.{
  has_prefix, ◌∷◌, ◌++◌, ◌≡◌, refl, ap, map, true, false, not, Bytes, codes, bytes_eq, some, List,
  [], Result, ok, err, arith, ◌&&◌, ℕ, Bool, nat_eq, ◌≢◌, ◌==◌, Bytes-Eq, ==_refl, sym, ◌∙◌,
}
use mavlink_doctor.Common.Int.{pos}
use mavlink_doctor.Common.Decimal.{sprint, decimal, digits}
use mavlink_doctor.Common.NoRepeats.{is_in, no_repeats}
use mavlink_doctor.Discovery.Ports.{port_text}
use mavlink_doctor.Discovery.Sockets.{
  linux, darwin, other_os, scan_udp_sockets, sockets_darwin, collect_sockets, socket_darwin,
  output_lines,
}
use mavlink_doctor.Discovery.Sockets.Listing.{line_of, listing}
use mavlink_doctor.Discovery.Sockets.Scan.{Listed, IsListed, rows, socket_of, scan_listing}
use mavlink_doctor.Discovery.Routing.{
  ToolFailure, Ping, check_routing, inspect_route, route_linux, scan_fields, target_of,
}
use mavlink_doctor.Discovery.Routing.Targets.{Targets, check_routing_target}
use mavlink_doctor.Discovery.Routing.Gateways.{IsPlain, IsRoute, Reads, hop, check_routing_reads}
use mavlink_doctor.Common.Fields.{
  contains_text, fields_from, split_at, fields, spread, IsSpread, Without,
}
use mavlink_doctor.Common.HostPort.{IsHostText}
use mavlink_doctor.Common.Ascii.{trim_space, trim_left, trim_right, is_space, IsWord}
use mavlink_doctor.Common.HostPort.{split_host_port}
use mavlink_doctor.Tests.Data.{every, fails_on}
use mavlink_doctor.Transport.Endpoints.{join_host_port}
use mavlink_doctor.Discovery.Serial.{
  serial_candidates, add_patterns, add_matches, base_name, split_base, is_bluetooth, patterns_linux,
  patterns_darwin,
}
use mavlink_doctor.Discovery.Serial.Devices.{is_match, serial_candidates_matches}
use mavlink_doctor.Discovery.Interfaces.{
  Interface, extract_ip, ip_net, other_addr, addrs_of, interface_info,
}
use mavlink_doctor.Discovery.Interfaces.Candidates.{hidden, v4_addresses, redacted_candidates}
use mavlink_doctor.Reporter.Redact.{redact_interface}

abbrev pub is_word : Bytes → Bool
is_word [] = false
is_word (c ∷ cs) = every (λ x. not (is_space x)) (c ∷ cs)

pub is_word-IsWord : (w : Bytes) → is_word w ≡ true → IsWord w
is_word-IsWord [] h = cc
is_word-IsWord (c ∷ cs) h = fails_on is_space (c ∷ cs) h

-- Words with a space before each.
abbrev pub spaced_words : List Bytes → List (ℕ × Bytes × Bytes)
spaced_words [] = []
spaced_words (w ∷ ws) = (32, [], w) ∷ spaced_words ws

abbrev pub are_words : List Bytes → Bool
are_words [] = true
are_words (w ∷ ws) = is_word w && are_words ws

pub spaced_words-IsSpread : (ws : List Bytes) → are_words ws ≡ true → IsSpread (spaced_words ws)
spaced_words-IsSpread [] h = tt
spaced_words-IsSpread (w ∷ ws) h =
    (refl, tt, is_word-IsWord w (ground arith), spaced_words-IsSpread ws (ground arith))

abbrev no_tool : Result Bytes Bytes
no_tool = err []

abbrev cells : List Bytes
cells = codes "0" ∷ codes "0" ∷ codes "0.0.0.0:14550" ∷ codes "0.0.0.0:*" ∷ codes "qgc" ∷ []

abbrev pub listed : Listed
listed = record {
  row = record { first = codes "UNCONN"; others = spaced_words cells };
  state = codes "UNCONN";
  recv_q = codes "0";
  send_q = codes "0";
  local_address = codes "0.0.0.0:14550";
  peer_address = codes "0.0.0.0:*";
  process = codes "qgc" ∷ [];
}

pub listed-IsListed : IsListed listed
unfolding codes
listed-IsListed = record {
  well_formed = record {
    first_word = is_word-IsWord (codes "UNCONN") refl;
    spaced = spaced_words-IsSpread cells refl;
    one_line = fails_on (λ c. nat_eq c 10) (line_of listed.row) refl;
  };
  columns = refl;
}

scan_listing_example :
    (scan_udp_sockets linux (ok (listing (rows (listed ∷ [])))) no_tool
      ≡ ok (socket_of listed ∷ []))
    × (scan_udp_sockets linux (err (codes "not found")) (ok (listing (rows (listed ∷ []))))
        ≡ ok (socket_of listed ∷ []))
scan_listing_example = scan_listing (listed ∷ []) no_tool (codes "not found") (listed-IsListed, tt)

pub listed_address : listed.local_address ≡ codes "0.0.0.0" ++ port_text (pos 14550)
unfolding codes decimal digits port_text sprint
listed_address = refl

abbrev no_answer : Bytes → Ping
no_answer host = record { responded = false; output = []; duration = 0 }

abbrev answers : Bytes → Bytes → Result ToolFailure Bytes
answers output host = ok output

loopback_text : IsHostText (codes "::1")
unfolding codes
loopback_text = record {
  no_opening = fails_on (λ c. nat_eq c b'[') (codes "::1") refl;
  no_closing = fails_on (λ c. nat_eq c b']') (codes "::1") refl;
}

linux_known : linux ≢ other_os
linux_known e = cc

name_given : codes "drone" ≢ []
unfolding codes
name_given e = cc

name_plain : Without b':' (codes "drone")
unfolding codes
name_plain = fails_on (λ c. nat_eq c b':') (codes "drone") refl

check_routing_target_example :
    Targets
      (codes "::1")
      (sprint (pos 14550))
      (check_routing linux (join_host_port (codes "::1") (pos 14550)) (answers []) no_answer)
    × Targets (codes "drone") [] (check_routing linux (codes "drone") (answers []) no_answer)
check_routing_target_example =
    check_routing_target linux (answers []) no_answer (codes "::1") (codes "drone") (pos 14550)
      linux_known loopback_text name_given name_plain

abbrev after_target : List (ℕ × Bytes × Bytes)
after_target = spaced_words (codes "dev" ∷ codes "eth0" ∷ codes "src" ∷ codes "10.0.0.2" ∷ [])

apart : (v w : Bytes) → (v == w) ≡ false → v ≢ w
apart v w h e = absurd (no (sym h ∙ ap (λ x. v == x) (sym e) ∙ ==_refl v))
  where
    no : ¬ (false ≡ true)
    no h = cc

unlike-IsPlain : (w : Bytes) → (codes "dev" == w) ≡ false → (codes "via" == w) ≡ false → IsPlain w
unlike-IsPlain w h k = (apart (codes "dev") w h, apart (codes "via") w k)

way-IsRoute :
    IsRoute (codes "10.0.0.9") (codes "eth0") (codes "src" ∷ codes "10.0.0.2" ∷ []) after_target
unfolding codes bytes_eq
way-IsRoute = record {
  target_word = is_word-IsWord (codes "10.0.0.9") refl;
  target_plain = unlike-IsPlain (codes "10.0.0.9") refl refl;
  spaced =
      spaced_words-IsSpread (codes "dev" ∷ codes "eth0" ∷ codes "src" ∷ codes "10.0.0.2" ∷ []) refl;
  words = refl;
  dev_plain = unlike-IsPlain (codes "eth0") refl refl;
  rest_plain =
      (unlike-IsPlain (codes "src") refl refl, (unlike-IsPlain (codes "10.0.0.2") refl refl, tt));
}

gateway-IsWord : IsWord (codes "10.0.0.1")
unfolding codes
gateway-IsWord = is_word-IsWord (codes "10.0.0.1") refl

gateway-IsPlain : IsPlain (codes "10.0.0.1")
unfolding codes bytes_eq
gateway-IsPlain = unlike-IsPlain (codes "10.0.0.1") refl refl

abbrev direct_line : Bytes
direct_line = codes "10.0.0.9" ++ spread after_target

-- A tab and a space before "via", a space and a tab after it.
abbrev via_line : Bytes
via_line =
    codes "10.0.0.9"
    ++ spread (
        hop (codes "10.0.0.9") (codes "eth0") (codes "src" ∷ codes "10.0.0.2" ∷ []) after_target
          way-IsRoute (9 ∷ []) (9 ∷ []) (codes "10.0.0.1"))

-- With a tab directly before "via", the route is called direct although it names a gateway.
abbrev tab_line : Bytes
tab_line = codes "10.0.0.9\tvia 10.0.0.1 dev eth0"

tab_direct :
    Reads
      (codes "eth0")
      (codes "10.0.0.1")
      true
      (check_routing linux (codes "drone") (answers tab_line) no_answer)
unfolding check_routing route_linux scan_fields contains_text has_prefix fields fields_from
    trim_space trim_left trim_right target_of split_host_port inspect_route codes bytes_eq
tab_direct = (refl, refl, refl)

check_routing_reads_example :
    Reads
      (codes "eth0")
      []
      true
      (check_routing linux (codes "drone") (answers (direct_line ++ 10 ∷ [])) no_answer)
    × Reads
        (codes "eth0")
        (codes "10.0.0.1")
        false
        (check_routing linux (codes "drone") (answers (via_line ++ 10 ∷ [])) no_answer)
check_routing_reads_example =
    check_routing_reads (codes "10.0.0.9") (codes "eth0") (codes "src" ∷ codes "10.0.0.2" ∷ [])
      after_target way-IsRoute (codes "drone") (9 ∷ []) (9 ∷ []) (codes "10.0.0.1") (10 ∷ [])
      (answers (direct_line ++ 10 ∷ [])) (answers (via_line ++ 10 ∷ [])) no_answer name_given
      (refl, tt) (refl, tt) gateway-IsWord gateway-IsPlain (refl, tt) refl refl

-- Every pattern matches the same two paths, one of them Bluetooth's.
abbrev devices : Bytes → List Bytes
devices pattern = codes "/dev/cu.usbmodem1" ∷ codes "/dev/cu.Bluetooth-Incoming-Port" ∷ []

serial_candidates_matches_example :
    (no_repeats (serial_candidates linux devices no_tool) ≡ true)
    × (no_repeats (serial_candidates darwin devices no_tool) ≡ true)
    × (is_in (codes "/dev/cu.usbmodem1") (serial_candidates linux devices no_tool)
        ≡ is_match devices patterns_linux (codes "/dev/cu.usbmodem1"))
    × (is_in (codes "/dev/cu.usbmodem1") (serial_candidates darwin devices no_tool) ≡ (
        not (is_bluetooth (codes "/dev/cu.usbmodem1"))
        && is_match devices patterns_darwin (codes "/dev/cu.usbmodem1")))
serial_candidates_matches_example =
    serial_candidates_matches devices no_tool (codes "/dev/cu.usbmodem1")

bluetooth_left_out : serial_candidates darwin devices no_tool ≡ codes "/dev/cu.usbmodem1" ∷ []
unfolding serial_candidates add_patterns add_matches base_name split_base codes bytes_eq
bluetooth_left_out = refl

abbrev ethernet : Interface
ethernet = record {
  name = codes "eth0";
  index = 2;
  mtu = 1500;
  flags = codes "up|broadcast";
  addrs =
      some
        (ip_net (codes "192.168.1.42/24") (192 ∷ 168 ∷ 1 ∷ 42 ∷ []) ∷ other_addr (codes "x") ∷ []);
}

redacted_candidates_example :
    (redact_interface (interface_info ethernet)).ipv4_bind
    ≡ map hidden (v4_addresses (addrs_of ethernet.addrs))
unfolding extract_ip
redacted_candidates_example =
    redacted_candidates ethernet
      ((omega arith, (omega arith, (omega arith, (omega arith, tt)))), (tt, tt))

-- The second heading of netstat on macOS becomes a socket.
macos_headings :
    map
      (λ s. s.local_addr)
      (sockets_darwin
        (codes "Active Internet connections" ++ 10 ∷ codes "Proto Recv-Q Send-Q  Local Address"))
    ≡ codes "Local" ∷ []
unfolding sockets_darwin collect_sockets socket_darwin output_lines split_at trim_space trim_left
    trim_right fields has_prefix codes bytes_eq
macos_headings = refl
