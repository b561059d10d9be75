-- ===== src/Decoder/Dialects.antt =====
-- internal/decoder/dialects.go. The dialect values are gomavlib's; the model names them.
use mavlink_doctor.Common.{
  Option, none, some, Bytes, Bytes-Eq, ◌==◌, codes, Result, ok, err, if◌then◌else◌,
}

pub data Dialect : Type 0 where
  common ardupilotmega standard all_dialects : Dialect

pub data DialectError : Type 0 where
  unknown_dialect : Bytes → DialectError

-- `raw` is no dialect, and no error.
unfoldable pub get_dialect : Bytes → Result DialectError (Option Dialect)
get_dialect name =
    if name == codes "common"
    then ok (some common)
    else if name == codes "ardupilotmega"
    then ok (some ardupilotmega)
    else if name == codes "standard"
    then ok (some standard)
    else if name == codes "all"
    then ok (some all_dialects)
    else if name == codes "raw"
    then ok none
    else err (unknown_dialect name)
