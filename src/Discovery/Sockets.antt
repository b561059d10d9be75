-- ===== src/Discovery/Sockets.antt =====
-- internal/discovery/sockets_linux.go, sockets_darwin.go, sockets_windows.go: the sockets that the
-- system's tools list. Running a tool gives its output or its error, which are arguments.
pub mod Listing
pub mod Scan
pub mod Lsof
use mavlink_doctor.Common.{
  ℕ, not, ◌||◌, Option, none, some, List, [], ◌∷◌, Bytes, Bytes-Eq, ◌==◌, codes, has_prefix, length,
  drop, leb, Result, ok, err, if◌then◌else◌,
}
use mavlink_doctor.Common.Ascii.{trim_space, to_upper}
use mavlink_doctor.Common.Fields.{split_at, fields, join}
use mavlink_doctor.Discovery.Types.{SocketInfo}

-- `strings.Split(strings.TrimSpace(output), "\n")`
unfoldable pub output_lines : Bytes → List Bytes
output_lines output = split_at 10 (trim_space output)

-- The field at an index, or the empty text that the fresh record has, where there are too few.
abbrev pub field_or_empty : ℕ → List Bytes → Bytes
field_or_empty i fs = elim (drop i fs) [ [] ↦ [] | w ∷ ws ↦ w ]

-- The `continue` of the loops: a line that gives no socket.
unfoldable pub collect_sockets : (Bytes → Option SocketInfo) → List Bytes → List SocketInfo
collect_sockets parse [] = []
collect_sockets parse (line ∷ lines) =
    let rest = collect_sockets parse lines in
    elim (parse (trim_space line)) [ none ↦ rest | some s ↦ s ∷ rest ]

-- The columns of `ss` and of Linux's `netstat`.
abbrev pub columns_linux : Bytes → List Bytes → SocketInfo
columns_linux line fs = record {
  protocol = codes "UDP";
  local_addr = field_or_empty 3 fs;
  foreign_addr = field_or_empty 4 fs;
  pid = [];
  process = join (codes " ") (drop 5 fs);
  raw = line;
}

unfoldable pub socket_linux : Bytes → Option SocketInfo
socket_linux line = if line == [] then none else some (columns_linux line (fields line))

unfoldable pub sockets_linux : Bytes → List SocketInfo
unfolding collect_sockets
sockets_linux output = collect_sockets socket_linux (output_lines output)

-- `lsof` has nine columns and more, macOS's `netstat` fewer.
abbrev pub columns_darwin : Bytes → List Bytes → SocketInfo
columns_darwin line fs =
    if leb 9 (length fs)
    then record {
      protocol = codes "UDP";
      local_addr = field_or_empty 8 fs;
      foreign_addr = [];
      pid = field_or_empty 1 fs;
      process = field_or_empty 0 fs;
      raw = line;
    }
    else record {
      protocol = codes "UDP";
      local_addr = field_or_empty 3 fs;
      foreign_addr = [];
      pid = [];
      process = [];
      raw = line;
    }

unfoldable pub socket_darwin : Bytes → Option SocketInfo
socket_darwin line = if line == [] then none else some (columns_darwin line (fields line))

abbrev pub skip_header : List Bytes → List Bytes
skip_header [] = []
skip_header (line ∷ lines) =
    if has_prefix (codes "COMMAND") line || has_prefix (codes "Active") line
    then lines
    else line ∷ lines

unfoldable pub sockets_darwin : Bytes → List SocketInfo
unfolding collect_sockets
sockets_darwin output = collect_sockets socket_darwin (skip_header (output_lines output))

abbrev pub last_field : List Bytes → Bytes
last_field [] = []
last_field (w ∷ []) = w
last_field (w ∷ v ∷ ws) = last_field (v ∷ ws)

abbrev pub columns_windows : Bytes → List Bytes → SocketInfo
columns_windows line fs = record {
  protocol = codes "UDP";
  local_addr = field_or_empty 1 fs;
  foreign_addr = field_or_empty 2 fs;
  pid = if leb 4 (length fs) then last_field fs else [];
  process = [];
  raw = line;
}

unfoldable pub socket_windows : Bytes → Option SocketInfo
socket_windows line =
    if not (has_prefix (codes "UDP") (to_upper line))
    then none
    else some (columns_windows line (fields line))

unfoldable pub sockets_windows : Bytes → List SocketInfo
unfolding collect_sockets
sockets_windows output = collect_sockets socket_windows (output_lines output)

pub data Platform : Type 0 where
  linux darwin windows other_os : Platform

-- A tool that fails is replaced by `netstat`, whose failure is the result.
abbrev pub with_fallback : {E A B : Type 0} → (A → B) → Result E A → Result E A → Result E B
with_fallback parse (ok output) fallback = ok (parse output)
with_fallback parse (err e) (ok output) = ok (parse output)
with_fallback parse (err e) (err f) = err f

-- `ScanUDPSockets`: `tool` is the outcome of `ss`, `lsof` or Windows's `netstat`, `netstat` that of
-- the second command.
unfoldable pub scan_udp_sockets :
    {E : Type 0} → Platform → Result E Bytes → Result E Bytes → Result E (List SocketInfo)
unfolding sockets_linux sockets_darwin sockets_windows
scan_udp_sockets linux tool netstat = with_fallback sockets_linux tool netstat
scan_udp_sockets darwin tool netstat = with_fallback sockets_darwin tool netstat
scan_udp_sockets windows tool netstat = with_fallback sockets_windows tool tool
scan_udp_sockets other_os tool netstat = ok []
