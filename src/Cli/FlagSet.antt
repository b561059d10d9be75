-- ===== src/Cli/FlagSet.antt =====
-- `flag.FlagSet.Parse` over the flags that internal/cli/flags.go declares.
pub mod Forms
pub mod RoundTrip
use mavlink_doctor.Common.{
  ℕ, zero, suc, Bool, true, false, not, ◌&&◌, ◌||◌, Option, none, some, List, [], ◌∷◌, ◌++◌, Bytes,
  Bytes-Eq, ◌==◌, codes, nat_eq, length, Result, ok, err, if◌then◌else◌,
}
use mavlink_doctor.Common.Int.{ℤ}
use mavlink_doctor.Cli.Flags.{
  Flags, default_flags, Config, FlagError, help_wanted, bad_syntax, undefined_flag, needs_argument,
  invalid_value, parse_flags,
}
use mavlink_doctor.Cli.Values.{parse_bool, parse_int}

-- A declared flag: how its value is stored.
pub data Setter : Type 0 where
  bool_flag : (Bool → Flags → Flags) → Setter
  int_flag : (ℤ → Flags → Flags) → Setter
  string_flag : (Bytes → Flags → Flags) → Setter

-- The declarations of `ParseFlags`, by name.
unfoldable pub declared : Bytes → Option Setter
declared name =
    if name == codes "listen"
    then some (int_flag (λ v f. record f { listen = v }))
    else if name == codes "listen-address"
    then some (string_flag (λ v f. record f { listen_address = v }))
    else if name == codes "port"
    then some (int_flag (λ v f. record f { port = v }))
    else if name == codes "transport"
    then some (string_flag (λ v f. record f { transport = v }))
    else if name == codes "mode"
    then some (string_flag (λ v f. record f { mode = v }))
    else if name == codes "address"
    then some (string_flag (λ v f. record f { address = v }))
    else if name == codes "serial"
    then some (string_flag (λ v f. record f { serial = v }))
    else if name == codes "baud"
    then some (int_flag (λ v f. record f { baud = v }))
    else if name == codes "dialect"
    then some (string_flag (λ v f. record f { dialect = v }))
    else if name == codes "gcs-heartbeat"
    then some (bool_flag (λ v f. record f { gcs_heartbeat = v }))
    else if name == codes "request-streams"
    then some (bool_flag (λ v f. record f { request_streams = v }))
    else if name == codes "stream-server"
    then some (bool_flag (λ v f. record f { stream_server = v }))
    else if name == codes "no-gomavlib"
    then some (bool_flag (λ v f. record f { no_gomavlib = v }))
    else if name == codes "version"
    then some (bool_flag (λ v f. record f { version = v }))
    else if name == codes "json"
    then some (bool_flag (λ v f. record f { json = v }))
    else if name == codes "v" || name == codes "verbose"
    then some (bool_flag (λ v f. record f { verbose = v }))
    else if name == codes "report" || name == codes "export-report"
    then some (string_flag (λ v f. record f { report = v }))
    else if name == codes "redact"
    then some (bool_flag (λ v f. record f { redact = v }))
    else if name == codes "probe-subnet"
    then some (string_flag (λ v f. record f { probe_subnet = v }))
    else none

-- What an argument is: the end of the flags, a flag with its name and the value after `=`, or neither.
pub data Argument : Type 0 where
  no_flag terminator malformed : Argument
  named : (name : Bytes) (value : Option Bytes) → Argument

-- The name up to the first `=`, which is not looked for in the name's first character.
unfoldable pub split_value : Bytes → Bytes × Option Bytes
split_value [] = ([], none)
split_value (c ∷ s) =
    let (name, value) = split_value s in if nat_eq c b'=' then ([], some s) else (c ∷ name, value)

unfoldable pub read_name : Bytes → Argument
unfolding split_value
read_name [] = malformed
read_name (c ∷ s) =
    let (name, value) = split_value s in
    if nat_eq c b'-' || nat_eq c b'=' then malformed else named (c ∷ name) value

unfoldable pub classify : Bytes → Argument
unfolding read_name
classify [] = no_flag
classify (c ∷ []) = no_flag
classify (c ∷ d ∷ []) =
    if not (nat_eq c b'-')
    then no_flag
    else if nat_eq d b'-'
    then terminator
    else read_name (d ∷ [])
classify (c ∷ d ∷ e ∷ s) =
    if not (nat_eq c b'-')
    then no_flag
    else if nat_eq d b'-'
    then read_name (e ∷ s)
    else read_name (d ∷ e ∷ s)

-- The flag's value set, with the arguments that remain.
abbrev pub Parsed : Type 0
Parsed = Result FlagError (Flags × List Bytes)

unfoldable pub store_bool : (Bool → Flags → Flags) → Bytes → Bytes → Flags → List Bytes → Parsed
store_bool set name value f rest = elim (parse_bool value) [
  | none ↦ err (invalid_value value name)
  | some b ↦ ok (set b f, rest)
]

unfoldable pub store_int : (ℤ → Flags → Flags) → Bytes → Bytes → Flags → List Bytes → Parsed
store_int set name value f rest = elim (parse_int value) [
  | none ↦ err (invalid_value value name)
  | some n ↦ ok (set n f, rest)
]

-- A flag that needs a value takes the next argument where none stands after `=`.
unfoldable pub set_flag : Option Setter → Bytes → Option Bytes → Flags → List Bytes → Parsed
unfolding store_bool store_int
set_flag none name value f rest =
    if name == codes "help" || name == codes "h" then err help_wanted else err (undefined_flag name)
set_flag (some (bool_flag set)) name none f rest = ok (set true f, rest)
set_flag (some (bool_flag set)) name (some v) f rest = store_bool set name v f rest
set_flag (some (int_flag set)) name (some v) f rest = store_int set name v f rest
set_flag (some (int_flag set)) name none f [] = err (needs_argument name)
set_flag (some (int_flag set)) name none f (v ∷ rest) = store_int set name v f rest
set_flag (some (string_flag set)) name (some v) f rest = ok (set v f, rest)
set_flag (some (string_flag set)) name none f [] = err (needs_argument name)
set_flag (some (string_flag set)) name none f (v ∷ rest) = ok (set v f, rest)

-- The outcome of `parseOne`: the flags end, an error, or a flag with the arguments that remain.
pub data Round : Type 0 where
  finished : Round
  failed : FlagError → Round
  more : Flags → (left : List Bytes) → Round

unfoldable pub round_of : Parsed → Round
round_of (err e) = failed e
round_of (ok (g, left)) = more g left

unfoldable pub parse_argument : Argument → Flags → Bytes → List Bytes → Round
unfolding declared set_flag round_of
parse_argument no_flag f a rest = finished
parse_argument terminator f a rest = finished
parse_argument malformed f a rest = failed (bad_syntax a)
parse_argument (named name value) f a rest = round_of (set_flag (declared name) name value f rest)

-- The loop of `Parse`. Each round takes an argument, so as much fuel as there are arguments is enough;
-- `none` means that the fuel has run out.
unfoldable pub parse_loop : ℕ → Flags → List Bytes → Option (Result FlagError Flags)
parse_loop fuel f [] = some (ok f)
parse_loop zero f (a ∷ rest) = none
parse_loop (suc fuel) f (a ∷ rest) = elim (parse_argument (classify a) f a rest) [
  | finished ↦ some (ok f)
  | failed e ↦ some (err e)
  | more g left ↦ parse_loop fuel g left
]

-- `fs.Parse` with the values of the flags after it. The first case never comes, as the fuel is enough.
unfoldable pub parse : List Bytes → Result FlagError Flags
unfolding parse_loop
parse args = elim (parse_loop (length args) default_flags args) [
  | none ↦ err (bad_syntax [])
  | some r ↦ r
]

-- `ParseFlags` on the arguments of the program.
unfoldable pub parse_command_line : List Bytes → Result FlagError Config
unfolding parse
parse_command_line args = parse_flags parse args
