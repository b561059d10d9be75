-- ===== src/Discovery/Routing/Targets.antt =====
-- The host and the port that `CheckRouting` takes from the remote address.
use mavlink_doctor.Common.{
  ℕ, true, false, not, none, some, List, [], ◌∷◌, ◌++◌, ◌≡◌, ◌≢◌, refl, ap, ◌∙◌, Bytes, Bytes-Eq,
  codes, nat_eq, any, All, Bool-cases, inl, inr, nat_eq_iff, subst, suc, Result, ok, err, arith,
  Option, ==_false, append_assoc,
}
use mavlink_doctor.Common.Int.{ℤ, pos, negsuc}
use mavlink_doctor.Common.Decimal.{decimal, sprint, IsDigit, All-decimal}
use mavlink_doctor.Common.Ascii.{trim_space}
use mavlink_doctor.Common.Fields.{Without, fields, contains_text}
use mavlink_doctor.Common.HostPort.{
  split_host_port, IsHostText, IsPortText, split_plain_host, split_bracketed_host, break_last-none,
}
use mavlink_doctor.Discovery.Types.{RouteResult}
use mavlink_doctor.Discovery.Sockets.{Platform, linux, darwin, windows, other_os, output_lines}
use mavlink_doctor.Discovery.Routing.{
  ToolFailure, Ping, target_of, fresh_route, inspect_route, check_routing, scan_fields, scan_lines,
  route_linux, route_darwin, with_ping, note_field, note_line,
}
use mavlink_doctor.Transport.Endpoints.{join_host_port}

-- A decimal text has no byte that is no digit.
pub digits-Without : (c : ℕ) (s : Bytes) → ¬ IsDigit c → All IsDigit s → Without c s
digits-Without c [] h d = tt
digits-Without c (x ∷ xs) h d = (
  elim (Bool-cases (nat_eq x c)) [
    | inl e ↦ absurd (h (subst IsDigit ((nat_eq_iff x c).0 e) d.0))
    | inr e ↦ e
  ],
  digits-Without c xs h d.1,
)

decimal-IsPortText : (n : ℕ) → IsPortText (decimal n)
decimal-IsPortText n = record {
  no_colon = digits-Without b':' (decimal n) (λ d. absurd (omega arith)) (All-decimal n);
  no_opening = digits-Without b'[' (decimal n) (λ d. absurd (omega arith)) (All-decimal n);
  no_closing = digits-Without b']' (decimal n) (λ d. absurd (omega arith)) (All-decimal n);
}

sprint-IsPortText : (port : ℤ) → IsPortText (sprint port)
unfolding sprint
sprint-IsPortText (pos n) = decimal-IsPortText n
sprint-IsPortText (negsuc n) =
    let d = decimal-IsPortText (suc n) in
    record {
      no_colon = (refl, d.no_colon);
      no_opening = (refl, d.no_opening);
      no_closing = (refl, d.no_closing);
    }

any_colon : (host : Bytes) → any (λ c. nat_eq c b':') host ≡ false → Without b':' host
any_colon [] h = tt
any_colon (c ∷ cs) h = (ground arith, any_colon cs (ground arith))

join_bracketed :
    (host : Bytes) (port : ℤ)
    → any (λ c. nat_eq c b':') host ≡ true
    → join_host_port host port ≡ b'[' ∷ (host ++ b']' ∷ b':' ∷ sprint port)
unfolding join_host_port codes
join_bracketed host port e =
    rw e (ap (◌∷◌ b'[') (append_assoc host (b']' ∷ b':' ∷ []) (sprint port)))

pub join_plain :
    (host : Bytes) (port : ℤ)
    → any (λ c. nat_eq c b':') host ≡ false
    → join_host_port host port ≡ host ++ b':' ∷ sprint port
unfolding join_host_port codes
join_plain host port e = rw e (append_assoc host (b':' ∷ []) (sprint port))

-- The host and the port that `net.JoinHostPort` joins are found again.
target_of-join :
    (host : Bytes) (port : ℤ)
    → IsHostText host
    → target_of (join_host_port host port) ≡ (host, sprint port)
unfolding target_of
target_of-join host port h =
    let p = sprint-IsPortText port in
    elim (Bool-cases (any (λ c. nat_eq c b':') host)) [
      | inl colons ↦
          rw (join_bracketed host port colons) (rw (split_bracketed_host host (sprint port) h p))
      | inr plain ↦
          rw (join_plain host port plain)
            (rw (split_plain_host host (sprint port) h p (any_colon host plain)))
    ]

join-ne-nil : (host : Bytes) (port : ℤ) → join_host_port host port ≢ []
unfolding join_host_port codes
join-ne-nil [] port e = cc
join-ne-nil (c ∷ cs) port e = ground arith

target_of-plain : (host : Bytes) → Without b':' host → target_of host ≡ (host, [])
unfolding target_of split_host_port
target_of-plain host plain = rw (break_last-none b':' host plain)

-- A route that names the target of another.
abbrev SameTarget : RouteResult → RouteResult → Type 0
SameTarget r q = (q.target_host ≡ r.target_host) × (q.target_port ≡ r.target_port)

note_field-target : (r : RouteResult) (word next : Bytes) → SameTarget r (note_field r word next)
note_field-target r word next = ground arith

scan_fields-target : (r : RouteResult) (words : List Bytes) → SameTarget r (scan_fields r words)
unfolding scan_fields
scan_fields-target r [] = (refl, refl)
scan_fields-target r (w ∷ []) = (refl, refl)
scan_fields-target r (w ∷ v ∷ ws) =
    let (a, b) = scan_fields-target (note_field r w v) (v ∷ ws) in
    let (c, d) = note_field-target r w v in (a ∙ c, b ∙ d)

note_line-target : (r : RouteResult) (line : Bytes) → SameTarget r (note_line r line)
note_line-target r line = ground arith

scan_lines-target : (r : RouteResult) (lines : List Bytes) → SameTarget r (scan_lines r lines)
unfolding scan_lines
scan_lines-target r [] = (refl, refl)
scan_lines-target r (l ∷ ls) =
    let (a, b) = scan_lines-target (note_line r (trim_space l)) ls in
    let (c, d) = note_line-target r (trim_space l) in (a ∙ c, b ∙ d)

route_linux-target : (r : RouteResult) (output : Bytes) → SameTarget r (route_linux r output)
unfolding route_linux
route_linux-target r output =
    let text = trim_space output in
    scan_fields-target
      (record r { route_output = text; is_direct = not (contains_text (codes " via ") text) })
      (fields text)

route_darwin-target : (r : RouteResult) (output : Bytes) → SameTarget r (route_darwin r output)
unfolding route_darwin
route_darwin-target r output =
    scan_lines-target (record r { route_output = trim_space output }) (output_lines output)

-- The result is a route to the host and the port.
abbrev pub Targets : Bytes → Bytes → Option RouteResult → Type 0
Targets host port none = ⊥
Targets host port (some q) = (q.target_host ≡ host) × (q.target_port ≡ port)

-- The route of an inspection, on every system that the program knows.
abbrev Found : RouteResult → Option RouteResult → Type 0
Found r o = Targets r.target_host r.target_port o

inspect_route-target :
    (platform : Platform) (r : RouteResult) (tool : Result ToolFailure Bytes)
    → platform ≢ other_os
    → Found r (inspect_route platform r tool)
unfolding inspect_route
inspect_route-target linux r (ok output) h = route_linux-target r output
inspect_route-target darwin r (ok output) h = route_darwin-target r output
inspect_route-target windows r (ok output) h = (refl, refl)
inspect_route-target linux r (err f) h = (refl, refl)
inspect_route-target darwin r (err f) h = (refl, refl)
inspect_route-target windows r (err f) h = (refl, refl)
inspect_route-target other_os r tool h = absurd (h refl)

check_routing-Found :
    (platform : Platform) (address : Bytes) (tool : Bytes → Result ToolFailure Bytes)
    (ping : Bytes → Ping)
    → platform ≢ other_os
    → address ≢ []
    → Found (fresh_route (target_of address)) (check_routing platform address tool ping)
unfolding check_routing
check_routing-Found platform address tool ping known given =
    let r = fresh_route (target_of address) in
    let host = (target_of address).0 in
    let found = inspect_route-target platform r (tool host) known in
    rw (==_false address [] given)
      (pinged r (inspect_route platform r (tool host)) (ping host) found)
  where
    pinged :
        (r : RouteResult) (o : Option RouteResult) (p : Ping)
        → Found r o
        → Found r (elim o [ none ↦ none | some q ↦ some (with_ping p q) ])
    pinged r none p f = f
    pinged r (some q) p f = f

-- On Linux, macOS and Windows, whatever the tools answer: the route to an address that is a host, with
-- no bracket in it, and a port joined as `net.JoinHostPort` joins them, IPv6 hosts included, names this
-- host and this port; the route to an address with no colon names it as the host, and no port.
pub check_routing_target :
    (platform : Platform) (tool : Bytes → Result ToolFailure Bytes) (ping : Bytes → Ping)
    (host alone : Bytes) (port : ℤ)
    → platform ≢ other_os
    → IsHostText host
    → alone ≢ []
    → Without b':' alone
    → Targets host (sprint port) (check_routing platform (join_host_port host port) tool ping)
      × Targets alone [] (check_routing platform alone tool ping)
check_routing_target platform tool ping host alone port known h given plain = (
  subst (λ t. Found (fresh_route t) (check_routing platform (join_host_port host port) tool ping))
      (target_of-join host port h)
      (check_routing-Found platform (join_host_port host port) tool ping known
        (join-ne-nil host port)),
  subst (λ t. Found (fresh_route t) (check_routing platform alone tool ping))
      (target_of-plain alone plain) (check_routing-Found platform alone tool ping known given),
)
