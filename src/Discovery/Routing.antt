-- ===== src/Discovery/Routing.antt =====
-- internal/discovery/routing_linux.go, routing_darwin.go, routing_windows.go, routing_other.go: the
-- route to the remote address. What the route tool and `ping` give is an argument.
pub mod Targets
pub mod Between
pub mod Gateways
use mavlink_doctor.Common.{
  ℕ, Bool, true, false, not, Option, none, some, List, [], ◌∷◌, ◌++◌, Bytes, Bytes-Eq, ◌==◌, codes,
  has_prefix, length, drop, Result, ok, err, if◌then◌else◌,
}
use mavlink_doctor.Common.Ascii.{trim_space}
use mavlink_doctor.Common.Fields.{fields, split_at, contains_text}
use mavlink_doctor.Common.HostPort.{split_host_port}
use mavlink_doctor.Discovery.Types.{RouteResult}
use mavlink_doctor.Discovery.Sockets.{Platform, linux, darwin, windows, other_os, output_lines}

-- A failed tool: its error's text and what it printed.
pub record ToolFailure : Type 0 where
  pub error : Bytes
  pub output : Bytes

-- The outcome of `ping`.
pub record Ping : Type 0 where
  pub responded : Bool
  pub output : Bytes
  pub duration : ℕ

-- The host and the port of the target: an address that does not split is a host.
abbrev split_target : Bytes → Option (Bytes × Bytes) → Bytes × Bytes
split_target address none = (address, [])
split_target address (some (host, port)) = (host, port)

unfoldable pub target_of : Bytes → Bytes × Bytes
target_of address = split_target address (split_host_port address)

-- `&RouteResult{TargetHost: host, TargetPort: port}`
abbrev pub fresh_route : Bytes × Bytes → RouteResult
fresh_route (host, port) = record {
  target_host = host;
  target_port = port;
  interface = [];
  gateway = [];
  is_direct = false;
  route_output = [];
  ping_responded = false;
  ping_output = [];
  ping_duration = 0;
}

-- Linux: the words that follow "dev" and "via".
abbrev pub note_field : RouteResult → Bytes → Bytes → RouteResult
note_field r word next =
    let with_dev = if word == codes "dev" then record r { interface = next } else r in
    if word == codes "via" then record with_dev { gateway = next } else with_dev

unfoldable pub scan_fields : RouteResult → List Bytes → RouteResult
scan_fields r [] = r
scan_fields r (word ∷ []) = r
scan_fields r (word ∷ next ∷ words) = scan_fields (note_field r word next) (next ∷ words)

unfoldable pub route_linux : RouteResult → Bytes → RouteResult
unfolding scan_fields
route_linux r output =
    let text = trim_space output in
    scan_fields
      (record r { route_output = text; is_direct = not (contains_text (codes " via ") text) })
      (fields text)

-- macOS: the lines that begin with "interface:" and "gateway:".
abbrev pub after_label : Bytes → Bytes → Bytes
after_label label line = trim_space (drop (length label) line)

abbrev pub note_line : RouteResult → Bytes → RouteResult
note_line r line =
    let with_interface =
      if has_prefix (codes "interface:") line
      then record r { interface = after_label (codes "interface:") line }
      else r in
    if has_prefix (codes "gateway:") line
    then record with_interface { gateway = after_label (codes "gateway:") line }
    else with_interface

unfoldable pub scan_lines : RouteResult → List Bytes → RouteResult
scan_lines r [] = r
scan_lines r (line ∷ lines) = scan_lines (note_line r (trim_space line)) lines

unfoldable pub route_darwin : RouteResult → Bytes → RouteResult
unfolding scan_lines
route_darwin r output =
    let scanned =
      scan_lines (record r { route_output = trim_space output }) (output_lines output) in
    record scanned { is_direct = scanned.gateway == [] }

unfoldable pub route_windows : RouteResult → Bytes → RouteResult
route_windows r output =
    let text = trim_space output in
    record r { route_output = text; is_direct = not (contains_text (codes "0.0.0.0") text) }

abbrev pub tool_error : Bytes → ToolFailure → Bytes
tool_error name f =
    name ++ codes " error: " ++ f.error ++ codes " (" ++ trim_space f.output ++ codes ")"

abbrev pub with_route :
    (RouteResult → Bytes → RouteResult)
    → Bytes
    → RouteResult
    → Result ToolFailure Bytes
    → RouteResult
with_route parse name r (ok output) = parse r output
with_route parse name r (err f) = record r { route_output = tool_error name f }

abbrev pub with_ping : Ping → RouteResult → RouteResult
with_ping p r = record r {
  ping_responded = p.responded;
  ping_output = trim_space p.output;
  ping_duration = p.duration;
}

unfoldable pub inspect_route :
    Platform → RouteResult → Result ToolFailure Bytes → Option RouteResult
unfolding route_linux route_darwin route_windows
inspect_route linux r tool = some (with_route route_linux (codes "ip route get") r tool)
inspect_route darwin r tool = some (with_route route_darwin (codes "route -n get") r tool)
inspect_route windows r tool = some (with_route route_windows (codes "route print") r tool)
inspect_route other_os r tool = none

-- `CheckRouting`; the tools are run for the host of the address.
unfoldable pub check_routing :
    Platform → Bytes → (Bytes → Result ToolFailure Bytes) → (Bytes → Ping) → Option RouteResult
unfolding inspect_route target_of
check_routing platform address route_tool ping =
    let host = (target_of address).0 in
    if address == []
    then none
    else elim (inspect_route platform (fresh_route (target_of address)) (route_tool host)) [
      | none ↦ none
      | some r ↦ some (with_ping (ping host) r)
    ]
