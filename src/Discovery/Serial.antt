-- ===== src/Discovery/Serial.antt =====
-- internal/discovery/serial_linux.go, serial_darwin.go, serial_windows.go, serial_other.go: serial
-- devices that may carry MAVLink. `filepath.Glob` is a function of the pattern, and the outcome of
-- PowerShell an argument.
pub mod Devices
use mavlink_doctor.Common.{
  ℕ, suc, zero, ◌+◌, Bool, true, false, not, ◌&&◌, ◌||◌, Option, none, some, List, [], ◌∷◌, ◌++◌,
  Bytes, Bytes-Eq, ◌==◌, codes, nat_eq, take, Result, ok, err, if◌then◌else◌,
}
use mavlink_doctor.Common.Ascii.{trim_space}
use mavlink_doctor.Common.Decimal.{decimal}
use mavlink_doctor.Common.NoRepeats.{is_in}
use mavlink_doctor.Discovery.Sockets.{Platform, linux, darwin, windows, other_os, output_lines}

abbrev pub patterns_linux : List Bytes
patterns_linux =
    codes "/dev/ttyUSB*"
    ∷ codes "/dev/ttyACM*"
    ∷ codes "/dev/serial/by-id/*"
    ∷ codes "/dev/serial/by-path/*"
    ∷ []

abbrev pub patterns_darwin : List Bytes
patterns_darwin = codes "/dev/cu.*" ∷ codes "/dev/tty.*" ∷ []

-- What follows the last slash: `filepath.Base` of a path that ends with none.
abbrev after_slash : ℕ → Bytes → Bool × Bytes → Bool × Bytes
after_slash c cs (true, base) = (true, base)
after_slash c cs (false, base) = if nat_eq c b'/' then (true, cs) else (false, c ∷ cs)

unfoldable pub split_base : Bytes → Bool × Bytes
split_base [] = (false, [])
split_base (c ∷ cs) = after_slash c cs (split_base cs)

unfoldable pub base_name : Bytes → Bytes
unfolding split_base
base_name path = (split_base path).1

abbrev pub is_bluetooth : Bytes → Bool
is_bluetooth path = base_name path == codes "cu.Bluetooth-Incoming-Port"

-- The inner loop: the matches that are not seen yet are appended. `seen` holds what the result holds.
unfoldable pub add_matches : (Bytes → Bool) → List Bytes → List Bytes → List Bytes
add_matches skip found [] = found
add_matches skip found (m ∷ ms) =
    add_matches skip (if skip m || is_in m found then found else found ++ m ∷ []) ms

unfoldable pub add_patterns :
    (Bytes → Bool) → (Bytes → List Bytes) → List Bytes → List Bytes → List Bytes
unfolding add_matches
add_patterns skip glob found [] = found
add_patterns skip glob found (p ∷ ps) = add_patterns skip glob (add_matches skip found (glob p)) ps

unfoldable pub port_names : List Bytes → List Bytes
port_names [] = []
port_names (l ∷ ls) =
    let rest = port_names ls in if trim_space l == [] then rest else trim_space l ∷ rest

-- "COM1" to "COM32", of which four are kept.
abbrev com_ports : ℕ → ℕ → List Bytes
com_ports zero i = []
com_ports (suc n) i = (codes "COM" ++ decimal i) ∷ com_ports n (i + 1)

unfoldable pub fallback_ports : List Bytes
unfolding decimal
fallback_ports = take 4 (com_ports 32 1)

abbrev or_fallback : List Bytes → List Bytes
or_fallback [] = fallback_ports
or_fallback (p ∷ ps) = p ∷ ps

unfoldable pub serial_windows : Result Bytes Bytes → List Bytes
unfolding port_names fallback_ports
serial_windows (ok output) = or_fallback (port_names (output_lines output))
serial_windows (err e) = fallback_ports

-- `SerialCandidates`
unfoldable pub serial_candidates : Platform → (Bytes → List Bytes) → Result Bytes Bytes → List Bytes
unfolding add_patterns serial_windows
serial_candidates linux glob powershell = add_patterns (λ m. false) glob [] patterns_linux
serial_candidates darwin glob powershell = add_patterns is_bluetooth glob [] patterns_darwin
serial_candidates windows glob powershell = serial_windows powershell
serial_candidates other_os glob powershell = []
