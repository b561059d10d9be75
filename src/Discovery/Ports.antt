-- ===== src/Discovery/Ports.antt =====
-- internal/discovery/port_check.go: is a local UDP port free, and who holds it. What the system
-- answers to the two test binds is an argument.
pub mod Search
pub mod Conflicts
use mavlink_doctor.Common.{
  Bool, true, false, ◌&&◌, ◌||◌, Option, none, some, List, [], ◌∷◌, ◌++◌, Bytes, Bytes-Eq, ◌==◌,
  codes, leb, length, take, drop, ◌-◌, if◌then◌else◌,
}
use mavlink_doctor.Common.Decimal.{sprint}
use mavlink_doctor.Common.Int.{ℤ}
use mavlink_doctor.Discovery.Types.{SocketInfo, PortStatus}

-- The loop over the start index, as a recursion on the rest of the text from there.
unfoldable pub find_substr : Bytes → Bytes → Bool
find_substr [] substr = substr == []
find_substr (c ∷ cs) substr =
    if leb (length substr) (length (c ∷ cs))
    then (if take (length substr) (c ∷ cs) == substr then true else find_substr cs substr)
    else false

unfoldable pub strings_contains_port : Bytes → Bytes → Bool
unfolding find_substr
strings_contains_port str port =
    leb (length port) (length str)
    && (str == port || (drop (length str - length port) str == port || find_substr str port))

-- The sockets that name the port, and whether there is none.
unfoldable pub bound_to : Bytes → List SocketInfo → List SocketInfo
bound_to port [] = []
bound_to port (s ∷ ss) =
    let rest = bound_to port ss in
    if strings_contains_port s.local_addr port || strings_contains_port s.raw port
    then s ∷ rest
    else rest

abbrev pub is_empty : List SocketInfo → Bool
is_empty [] = true
is_empty (s ∷ ss) = false

abbrev is_nil : Option Bytes → Bool
is_nil none = true
is_nil (some e) = false

abbrev text_or_empty : Option Bytes → Bytes
text_or_empty none = []
text_or_empty (some e) = e

unfoldable pub port_text : ℤ → Bytes
port_text port = b':' ∷ sprint port

-- `bind_error` is the error of the test bind, if any; `ephemeral` is the local address of the bind to
-- port 0, if it succeeds.
unfoldable pub check_port : ℤ → List SocketInfo → Option Bytes → Option Bytes → PortStatus
check_port port sockets bind_error ephemeral =
    let bound = bound_to (port_text port) sockets in
    record {
      port = port;
      protocol = codes "UDP";
      available = is_empty bound && is_nil bind_error;
      bound_sockets = bound;
      bind_test_ok = is_nil bind_error;
      bind_error = text_or_empty bind_error;
      ephemeral_test = text_or_empty ephemeral;
    }
