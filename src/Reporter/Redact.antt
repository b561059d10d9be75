-- ===== src/Reporter/Redact.antt =====
-- internal/reporter/support_report.go: the masking of IPv4 addresses in a report. The report is a
-- value here; Export has what the caller's report becomes, whose slices the code writes into.
pub mod Numbers
pub mod Addresses
pub mod Pieces
use mavlink_doctor.Common.{
  ℕ, zero, suc, ◌+◌, ◌-◌, ◌*◌, Bool, true, false, not, ◌&&◌, ◌||◌, Option, none, some, List, [],
  ◌∷◌, ◌++◌, map, Bytes, codes, nat_eq, leb, ltb, length, ◌>>=◌, if◌then◌else◌,
}
use mavlink_doctor.Common.Decimal.{decimal}
use mavlink_doctor.Discovery.Types.{InterfaceInfo, SocketInfo, RouteResult, DiscoveryReport}
use mavlink_doctor.Transport.RawListener.{PacketSummary}
use mavlink_doctor.Reporter.Result.{DiagnosticResult}

-- `\d` and `\w` of the regular expression.
abbrev pub is_digit : ℕ → Bool
is_digit c = leb 48 c && leb c 57

abbrev pub is_word : ℕ → Bool
is_word c = is_digit c || (leb 65 c && leb c 90) || (leb 97 c && leb c 122) || nat_eq c 95

-- At most `n` digits, and the text after them.
unfoldable pub take_digits : ℕ → Bytes → Bytes × Bytes
take_digits zero s = ([], s)
take_digits (suc n) [] = ([], [])
take_digits (suc n) (c ∷ s) =
    let (ds, rest) = take_digits n s in if is_digit c then (c ∷ ds, rest) else ([], c ∷ s)

abbrev pub is_nil : Bytes → Bool
is_nil [] = true
is_nil (b ∷ bs) = false

-- `\d{1,3}`. What follows in the expression is no digit, so fewer digits than these never match.
unfoldable pub match_number : Bytes → Option (Bytes × Bytes)
unfolding take_digits
match_number s = let (ds, rest) = take_digits 3 s in if is_nil ds then none else some (ds, rest)

abbrev pub match_dot : Bytes → Option Bytes
match_dot [] = none
match_dot (c ∷ s) = if nat_eq c b'.' then some s else none

-- `\d{1,3}\.`
unfoldable pub match_group : Bytes → Option (Bytes × Bytes)
unfolding match_number
match_group s = do (ds, rest) ← match_number s; after ← match_dot rest; some (ds, after)

-- `\b` after a digit.
abbrev pub ends_word : Bytes → Bool
ends_word [] = true
ends_word (c ∷ s) = not (is_word c)

pub record Quad : Type 0 where
  pub first : Bytes
  pub second : Bytes
  pub third : Bytes
  pub fourth : Bytes

-- The expression from the start of a text.
unfoldable pub match_quad : Bytes → Option Quad
unfolding match_group match_number
match_quad s = do
  (a, s1) ← match_group s
  (b, s2) ← match_group s1
  (c, s3) ← match_group s2
  (d, rest) ← match_number s3
  if ends_word rest then some record { first = a; second = b; third = c; fourth = d } else none

unfoldable pub quad_text : Quad → Bytes
quad_text q =
    q.first ++ (codes "." ++ (q.second ++ (codes "." ++ (q.third ++ (codes "." ++ q.fourth)))))

unfoldable pub number_of : ℕ → Bytes → ℕ
number_of acc [] = acc
number_of acc (c ∷ cs) = number_of (acc * 10 + (c - 48)) cs

abbrev pub has_leading_zero : Bytes → Bool
has_leading_zero [] = false
has_leading_zero (c ∷ []) = false
has_leading_zero (c ∷ d ∷ cs) = nat_eq c 48

-- `net.ParseIP` on four numbers of at most three digits: a number above 255, or one with a leading
-- zero, makes no address.
abbrev pub is_octet : Bytes → Bool
is_octet ds = leb (number_of 0 ds) 255 && not (has_leading_zero ds)

abbrev pub is_address : Quad → Bool
is_address q = is_octet q.first && is_octet q.second && is_octet q.third && is_octet q.fourth

-- The function that `maskIP` gives to `ReplaceAllStringFunc`. Addresses of four numbers are IPv4, so
-- its last case is never reached.
unfoldable pub mask_quad : Quad → Bytes
unfolding quad_text number_of
mask_quad q =
    if not (is_address q) || nat_eq (number_of 0 q.first) 127
    then quad_text q
    else decimal (number_of 0 q.first)
      ++ codes "."
      ++ decimal (number_of 0 q.second)
      ++ codes ".xxx.xxx"

abbrev pub match_at : Bool → Bytes → Option Quad
match_at after_word s = if after_word then none else match_quad s

-- What stands in the result for the text from a character on, and how many characters that match
-- still covers.
unfoldable pub replacement : Option Quad → ℕ → Bytes
unfolding mask_quad
replacement none c = c ∷ []
replacement (some q) c = mask_quad q

unfoldable pub covered : Option Quad → ℕ
unfolding quad_text
covered none = 0
covered (some q) = length (quad_text q) - 1

-- The search for matches from left to right; `skip` characters belong to the last match. A match
-- begins with a digit, so `\b` before it says that no word character precedes.
unfoldable pub mask_from : Bool → ℕ → Bytes → Bytes
mask_from after_word skip [] = []
mask_from after_word (suc skip) (c ∷ s) = mask_from (is_word c) skip s
mask_from after_word zero (c ∷ s) =
    let found = match_at after_word (c ∷ s) in
    replacement found c ++ mask_from (is_word c) (covered found) s

unfoldable pub mask_ip : Bytes → Bytes
unfolding mask_from
mask_ip s = mask_from false 0 s

unfoldable pub redact_interface : InterfaceInfo → InterfaceInfo
redact_interface i = record i {
  addresses = map mask_ip i.addresses;
  ipv4_bind = map mask_ip i.ipv4_bind;
}

unfoldable pub redact_socket : SocketInfo → SocketInfo
redact_socket s = record s {
  local_addr = mask_ip s.local_addr;
  foreign_addr = mask_ip s.foreign_addr;
  raw = mask_ip s.raw;
}

unfoldable pub redact_route : Option RouteResult → Option RouteResult
redact_route none = none
redact_route (some r) = some (record r {
  target_host = mask_ip r.target_host;
  gateway = mask_ip r.gateway;
  route_output = mask_ip r.route_output;
  ping_output = mask_ip r.ping_output;
})

unfoldable pub redact_raw : Option PacketSummary → Option PacketSummary
redact_raw none = none
redact_raw (some s) = some (record s {
  listen_address = mask_ip s.listen_address;
  unique_senders = map mask_ip s.unique_senders;
})

unfoldable pub redact_result : {F : Type 0} → DiagnosticResult F → DiagnosticResult F
unfolding redact_interface redact_socket redact_route redact_raw
redact_result res = record res {
  discovery = record (res.discovery) {
    interfaces = map redact_interface res.discovery.interfaces;
    udp_sockets = map redact_socket res.discovery.udp_sockets;
    route = redact_route res.discovery.route;
  };
  raw_packet_test = redact_raw res.raw_packet_test;
}
