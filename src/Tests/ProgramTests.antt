-- ===== src/Tests/ProgramTests.antt =====
-- internal/cli, internal/reporter and cmd/mavlink-doctor at concrete inputs.
use mavlink_doctor.Common.Int.{pos}
use mavlink_doctor.Common.{
  nat_eq, ◌∷◌, some, ℕ, ◌≡◌, ◌⊎◌, refl, true, false, not, Bytes, codes, bytes_eq, Bytes-Eq, List,
  [], arith, any, Result, ok,
}
use mavlink_doctor.Common.NoRepeats.{is_in, no_repeats}
use mavlink_doctor.Cli.Flags.{
  Flags, default_flags, Config, version_config, FlagError, check_flags, check_parsed, parse_flags,
  resolve, resolve_duration, resolve_report,
}
use mavlink_doctor.Common.Ascii.{trim_space, trim_left, trim_right, to_lower}
use mavlink_doctor.Cli.Values.{parse_int, parse_positive, parse_uint, split_base, digits_value}
use mavlink_doctor.Cli.FlagSet.{
  parse, parse_command_line, parse_loop, classify, read_name, split_value, parse_argument, declared,
  set_flag, round_of, store_int,
}
use mavlink_doctor.Cli.FlagSet.RoundTrip.{arguments_of, flags_read_back}
use mavlink_doctor.Cli.Validity.{IsValid, parse_flags-IsValid}
use mavlink_doctor.Decoder.Gimbal.{no_evidence}
use mavlink_doctor.Decoder.Evidence.{gather}
use mavlink_doctor.Metrics.Tracker.{new_tracker}
use mavlink_doctor.Metrics.Calls.{perform_all}
use mavlink_doctor.Main.Setup.{setup}
use mavlink_doctor.Main.Readiness.{succeeds, serial_fails, setup_ready}
use mavlink_doctor.Main.EventLoop.{LoopState, event_loop, loop_start}
use mavlink_doctor.Main.Totals.{event_loop_refines}
use mavlink_doctor.Main.Calls.{calls_of, received}
use mavlink_doctor.Main.Announcements.{announced_in, comes_from, event_loop_announces}
use mavlink_doctor.Reporter.Redact.{
  mask_ip, mask_from, replacement, covered, mask_quad, quad_text, number_of, match_quad,
  match_group, match_number, take_digits,
}
use mavlink_doctor.Reporter.Redact.Pieces.{Piece, IsText, text_of, hidden_of, mask_ip-text}
use mavlink_doctor.Common.Decimal.{decimal, digits}
use mavlink_doctor.Tests.Data.{fails_on, fractions, events, no_text}

abbrev standard : Config
standard = resolve default_flags

-- `fs.Parse` without flags leaves every default.
abbrev parse_nothing : List Bytes → Result FlagError Flags
parse_nothing args = ok default_flags

no_arguments : parse_flags parse_nothing [] ≡ ok standard
unfolding parse_flags check_parsed check_flags default_flags trim_space trim_left trim_right
    to_lower codes bytes_eq
no_arguments = refl

parse_flags-IsValid_example : (standard ≡ version_config) ⊎ IsValid standard
parse_flags-IsValid_example = parse_flags-IsValid parse_nothing [] standard no_arguments

-- The README's serial command: the mode stays automatic, and no address is given.
abbrev serial_config : Config
serial_config =
    resolve (record default_flags { transport = codes "serial"; serial = codes "/dev/ttyUSB0" })

serial_config-IsValid : IsValid serial_config
unfolding resolve resolve_duration resolve_report default_flags trim_space trim_left trim_right
    to_lower codes bytes_eq
serial_config-IsValid = (refl, refl, refl, refl, refl, refl, refl)

setup_ready_example : succeeds (setup serial_config) ≡ not (serial_fails serial_config)
setup_ready_example = setup_ready serial_config serial_config-IsValid

-- The command fails.
serial_command_fails : serial_fails serial_config ≡ true
unfolding resolve default_flags trim_space trim_left trim_right to_lower codes bytes_eq
serial_command_fails = refl

abbrev loop : Config → LoopState (ℕ × ℕ)
loop cfg = event_loop fractions no_text cfg (loop_start fractions no_text cfg 0) events

event_loop_refines_example :
    ((loop standard).tracker ≡ perform_all fractions (new_tracker (ℕ × ℕ) 0) (calls_of events))
    × ((loop standard).gimbal ≡ gather no_text no_evidence (received events))
event_loop_refines_example = event_loop_refines fractions no_text standard 0 events

not_json : standard.json_output ≡ false
unfolding resolve default_flags
not_json = refl

event_loop_announces_example :
    (no_repeats (announced_in (loop standard).printed) ≡ true)
    × ((x : Bytes)
        → is_in x (announced_in (loop standard).printed) ≡ any (λ e. comes_from x e.event) events)
event_loop_announces_example = event_loop_announces fractions no_text standard 0 events not_json

mask_ip_run : mask_ip (codes "10.1.2.3:14 v1.2.3.4") ≡ codes "10.1.xxx.xxx:14 v1.2.3.4"
unfolding mask_ip mask_from replacement covered mask_quad quad_text number_of match_quad match_group
    match_number take_digits codes decimal digits
mask_ip_run = refl

-- An address behind a number above 255 and a dot stays.
masked_late : mask_ip (codes "999.10.1.2.3") ≡ codes "999.10.1.2.3"
unfolding mask_ip mask_from replacement covered mask_quad quad_text number_of match_quad match_group
    match_number take_digits codes decimal digits
masked_late = refl

-- "inet 192.168.1.42/24 brd 192.168.1.255 lo 127.0.0.1/8"
abbrev pieces : List Piece
pieces =
    record { gap = codes "inet "; a = 192; b = 168; c = 1; d = 42 }
    ∷ record { gap = codes "/24 brd "; a = 192; b = 168; c = 1; d = 255 }
    ∷ record { gap = codes " lo "; a = 127; b = 0; c = 0; d = 1 }
    ∷ []

pieces-IsText : IsText false pieces (codes "/8")
unfolding codes
pieces-IsText =
    let dotless = fails_on (λ c. nat_eq c b'.') in
    (
      tt,
      dotless (codes "inet ") refl,
      refl,
      omega arith,
      omega arith,
      omega arith,
      omega arith,
      (
        refl,
        dotless (codes "/24 brd ") refl,
        refl,
        omega arith,
        omega arith,
        omega arith,
        omega arith,
        (
          refl,
          dotless (codes " lo ") refl,
          refl,
          omega arith,
          omega arith,
          omega arith,
          omega arith,
          (refl, dotless (codes "/8") refl),
        ),
      ),
    )

mask_ip-text_example : mask_ip (text_of pieces (codes "/8")) ≡ hidden_of pieces (codes "/8")
mask_ip-text_example = mask_ip-text pieces (codes "/8") pieces-IsText

abbrev arguments : List Bytes
arguments = codes "-port=0x10" ∷ codes "--json" ∷ codes "-mode" ∷ codes "Server" ∷ codes "rest" ∷ []

parse_run :
    parse arguments
    ≡ ok (record default_flags { port = pos 16; json = true; mode = codes "Server" })
unfolding parse parse_loop classify read_name split_value parse_argument declared set_flag round_of
    store_int parse_int parse_positive parse_uint split_base digits_value codes bytes_eq
parse_run = refl

-- Values of the flags that differ from the defaults.
abbrev chosen : Flags
chosen = record default_flags {
  listen = pos 10;
  listen_address = codes "drone";
  port = pos 16;
  transport = codes "udp";
  mode = codes "Server";
  address = codes "a=b";
  baud = pos 9600;
  json = true;
  verbose = true;
  report = codes "-out";
}

ten_read : parse_int (codes "10") ≡ some chosen.listen
unfolding parse_int parse_positive parse_uint split_base digits_value codes bytes_eq
ten_read = refl

sixteen_read : parse_int (codes "0x10") ≡ some chosen.port
unfolding parse_int parse_positive parse_uint split_base digits_value codes bytes_eq
sixteen_read = refl

baud_read : parse_int (codes "9600") ≡ some chosen.baud
unfolding parse_int parse_positive parse_uint split_base digits_value codes bytes_eq
baud_read = refl

abbrev written : List Bytes
written = arguments_of chosen true false (codes "10") (codes "0x10") (codes "9600")

flags_read_back_example :
    (parse written ≡ ok chosen) × (parse_command_line written ≡ check_flags chosen)
flags_read_back_example =
    flags_read_back chosen true false (codes "10") (codes "0x10") (codes "9600") ten_read
      sixteen_read baud_read
