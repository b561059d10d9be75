-- ===== src/Cli/FlagSet/RoundTrip.antt =====
-- The flags that internal/cli/flags.go declares, written as arguments and read back by `ParseFlags`.
use mavlink_doctor.Common.{
  ℕ, suc, ◌≡◌, refl, ap, ◌∙◌, Bool, true, false, Option, none, some, List, [], ◌∷◌, ◌++◌, Bytes,
  Bytes-Eq, codes, bytes_eq, All, map, length, Result, ok, err, if◌then◌else◌,
}
use mavlink_doctor.Common.Int.{ℤ}
use mavlink_doctor.Cli.Flags.{
  Flags, default_flags, FlagError, bad_syntax, check_flags, check_parsed, parse_flags,
}
use mavlink_doctor.Cli.Values.{parse_bool, parse_int}
use mavlink_doctor.Cli.FlagSet.{
  Setter, bool_flag, int_flag, string_flag, declared, store_bool, store_int, set_flag, round_of,
  parse_loop, parse, parse_command_line,
}
use mavlink_doctor.Cli.FlagSet.Forms.{is_name, classify-name, named_round, next_round}

-- A flag with its value: a text, a Boolean, or a text that is read as an integer.
pub data Setting : Type 0 where
  text_setting : (name : Bytes) (set : Bytes → Flags → Flags) (value : Bytes) → Setting
  bool_setting : (name : Bytes) (set : Bool → Flags → Flags) (value : Bool) → Setting
  int_setting : (name : Bytes) (set : ℤ → Flags → Flags) (value : ℤ) (written : Bytes) → Setting

abbrev pub bool_text : Bool → Bytes
bool_text true = codes "true"
bool_text false = codes "false"

-- `-name=value`
abbrev pub joined : Bytes → Bytes → Bytes
joined name value = b'-' ∷ (name ++ b'=' ∷ value)

abbrev pub written_as : Setting → Bytes
written_as (text_setting name set value) = joined name value
written_as (bool_setting name set value) = joined name (bool_text value)
written_as (int_setting name set value written) = joined name written

abbrev apply : Setting → Flags → Flags
apply (text_setting name set value) f = set value f
apply (bool_setting name set value) f = set value f
apply (int_setting name set value written) f = set value f

abbrev apply_all : List Setting → Flags → Flags
apply_all [] f = f
apply_all (s ∷ ss) f = apply_all ss (apply s f)

-- The program declares the flag, with this variable.
abbrev IsDeclared : Setting → Type 0
IsDeclared (text_setting name set value) =
    (is_name name ≡ true) × (declared name ≡ some (string_flag set))
IsDeclared (bool_setting name set value) =
    (is_name name ≡ true) × (declared name ≡ some (bool_flag set))
IsDeclared (int_setting name set value written) =
    (is_name name ≡ true) × (declared name ≡ some (int_flag set)) × (parse_int written ≡ some value)

joined_round :
    (fuel : ℕ) (f : Flags) (name value : Bytes) (rest : List Bytes) (o : Option Setter)
    → is_name name ≡ true
    → declared name ≡ o
    → parse_loop (suc fuel) f (joined name value ∷ rest)
      ≡ next_round fuel f (round_of (set_flag o name (some value) f rest))
joined_round fuel f name value rest o n d =
    named_round fuel f (joined name value) name (some value) rest (classify-name name value n).1
    ∙ ap (λ x. next_round fuel f (round_of (set_flag x name (some value) f rest))) d

parse_bool_text : (b : Bool) → parse_bool (bool_text b) ≡ some b
unfolding parse_bool codes bytes_eq
parse_bool_text true = refl
parse_bool_text false = refl

read_bool :
    (name : Bytes) (set : Bool → Flags → Flags) (b : Bool) (f : Flags) (rest : List Bytes)
    → store_bool set name (bool_text b) f rest ≡ ok (set b f, rest)
unfolding store_bool
read_bool name set b f rest = rw (store_bool, parse_bool_text b) refl

read_int :
    (name : Bytes) (set : ℤ → Flags → Flags) (value : ℤ) (written : Bytes) (f : Flags)
    (rest : List Bytes)
    → parse_int written ≡ some value
    → store_int set name written f rest ≡ ok (set value f, rest)
unfolding store_int
read_int name set value written f rest p = rw (store_int, p) refl

setting_round :
    (fuel : ℕ) (f : Flags) (s : Setting) (rest : List Bytes)
    → IsDeclared s
    → parse_loop (suc fuel) f (written_as s ∷ rest) ≡ parse_loop fuel (apply s f) rest
unfolding set_flag round_of
setting_round fuel f (text_setting name set value) rest (n, d) =
    joined_round fuel f name value rest (some (string_flag set)) n d
setting_round fuel f (bool_setting name set value) rest (n, d) =
    joined_round fuel f name (bool_text value) rest (some (bool_flag set)) n d
    ∙ ap (λ r. next_round fuel f (round_of r)) (read_bool name set value f rest)
setting_round fuel f (int_setting name set value written) rest (n, d, p) =
    joined_round fuel f name written rest (some (int_flag set)) n d
    ∙ ap (λ r. next_round fuel f (round_of r)) (read_int name set value written f rest p)

parse_loop-settings :
    (f : Flags) (ss : List Setting)
    → All IsDeclared ss
    → parse_loop (length ss) f (map written_as ss) ≡ some (ok (apply_all ss f))
unfolding parse_loop
parse_loop-settings f [] h = refl
parse_loop-settings f (s ∷ ss) h =
    setting_round (length ss) f s (map written_as ss) h.0 ∙ parse_loop-settings (apply s f) ss h.1

-- The two names of a flag that has an alias.
abbrev pub verbose_name : Bool → Bytes
verbose_name long = if long then codes "verbose" else codes "v"

abbrev pub report_name : Bool → Bytes
report_name long = if long then codes "export-report" else codes "report"

-- All flags with the values of `f`. The integers are written in any way that strconv reads.
abbrev pub settings : Flags → (verbose export : Bool) → (listen port baud : Bytes) → List Setting
settings f verbose export listen port baud =
    int_setting (codes "listen") (λ v g. record g { listen = v }) f.listen listen
    ∷ text_setting (codes "listen-address") (λ v g. record g { listen_address = v })
        f.listen_address
    ∷ int_setting (codes "port") (λ v g. record g { port = v }) f.port port
    ∷ text_setting (codes "transport") (λ v g. record g { transport = v }) f.transport
    ∷ text_setting (codes "mode") (λ v g. record g { mode = v }) f.mode
    ∷ text_setting (codes "address") (λ v g. record g { address = v }) f.address
    ∷ text_setting (codes "serial") (λ v g. record g { serial = v }) f.serial
    ∷ int_setting (codes "baud") (λ v g. record g { baud = v }) f.baud baud
    ∷ text_setting (codes "dialect") (λ v g. record g { dialect = v }) f.dialect
    ∷ bool_setting (codes "gcs-heartbeat") (λ v g. record g { gcs_heartbeat = v }) f.gcs_heartbeat
    ∷ bool_setting (codes "request-streams") (λ v g. record g { request_streams = v })
        f.request_streams
    ∷ bool_setting (codes "stream-server") (λ v g. record g { stream_server = v }) f.stream_server
    ∷ bool_setting (codes "no-gomavlib") (λ v g. record g { no_gomavlib = v }) f.no_gomavlib
    ∷ bool_setting (codes "version") (λ v g. record g { version = v }) f.version
    ∷ bool_setting (codes "json") (λ v g. record g { json = v }) f.json
    ∷ bool_setting (verbose_name verbose) (λ v g. record g { verbose = v }) f.verbose
    ∷ text_setting (report_name export) (λ v g. record g { report = v }) f.report
    ∷ bool_setting (codes "redact") (λ v g. record g { redact = v }) f.redact
    ∷ text_setting (codes "probe-subnet") (λ v g. record g { probe_subnet = v }) f.probe_subnet
    ∷ []

abbrev pub arguments_of : Flags → (verbose export : Bool) → (listen port baud : Bytes) → List Bytes
arguments_of f verbose export listen port baud =
    map written_as (settings f verbose export listen port baud)

verbose_declared :
    (b : Bool)
    → (is_name (verbose_name b) ≡ true)
      × (declared (verbose_name b) ≡ some (bool_flag (λ v g. record g { verbose = v })))
unfolding declared codes bytes_eq
verbose_declared true = (refl, refl)
verbose_declared false = (refl, refl)

report_declared :
    (b : Bool)
    → (is_name (report_name b) ≡ true)
      × (declared (report_name b) ≡ some (string_flag (λ v g. record g { report = v })))
unfolding declared codes bytes_eq
report_declared true = (refl, refl)
report_declared false = (refl, refl)

settings-IsDeclared :
    (f : Flags) (verbose export : Bool) (listen port baud : Bytes)
    → parse_int listen ≡ some f.listen
    → parse_int port ≡ some f.port
    → parse_int baud ≡ some f.baud
    → All IsDeclared (settings f verbose export listen port baud)
unfolding declared codes bytes_eq
settings-IsDeclared f verbose export listen port baud l p b = (
  (refl, refl, l),
  (
    (refl, refl),
    (
      (refl, refl, p),
      (
        (refl, refl),
        (
          (refl, refl),
          (
            (refl, refl),
            (
              (refl, refl),
              (
                (refl, refl, b),
                (
                  (refl, refl),
                  (
                    (refl, refl),
                    (
                      (refl, refl),
                      (
                        (refl, refl),
                        (
                          (refl, refl),
                          (
                            (refl, refl),
                            (
                              (refl, refl),
                              (
                                verbose_declared verbose,
                                (report_declared export, ((refl, refl), ((refl, refl), tt))),
                              ),
                            ),
                          ),
                        ),
                      ),
                    ),
                  ),
                ),
              ),
            ),
          ),
        ),
      ),
    ),
  ),
)

parse-arguments :
    (f : Flags) (verbose export : Bool) (listen port baud : Bytes)
    → parse_int listen ≡ some f.listen
    → parse_int port ≡ some f.port
    → parse_int baud ≡ some f.baud
    → parse (arguments_of f verbose export listen port baud) ≡ ok f
unfolding parse
parse-arguments f verbose export listen port baud l p b =
    ap (λ (o : Option (Result FlagError Flags)). elim o [ none ↦ err (bad_syntax []) | some r ↦ r ])
      (parse_loop-settings default_flags (settings f verbose export listen port baud)
        (settings-IsDeclared f verbose export listen port baud l p b))

-- For all values of the flags, written one after the other as `-name=value`, with either name of the two
-- flags that have two, and with any texts that strconv reads as the three integers: the parser of
-- `ParseFlags` stores every value in its own variable, in place of the default, and the outcome of
-- `ParseFlags` is that of its checks on these values.
pub flags_read_back :
    (f : Flags) (verbose export : Bool) (listen port baud : Bytes)
    → parse_int listen ≡ some f.listen
    → parse_int port ≡ some f.port
    → parse_int baud ≡ some f.baud
    → (parse (arguments_of f verbose export listen port baud) ≡ ok f)
      × (parse_command_line (arguments_of f verbose export listen port baud) ≡ check_flags f)
unfolding parse_command_line parse_flags check_parsed codes bytes_eq
flags_read_back f verbose export listen port baud l p b =
    let read = parse-arguments f verbose export listen port baud l p b in
    (read, ap check_parsed read)
