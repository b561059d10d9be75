-- ===== src/Reporter/Export.antt =====
-- internal/reporter/support_report.go, `ExportSupportReport`, and `PrintJSON` of json.go. The slices and
-- pointers of the report that `redactResult` writes through are those of the caller, so the caller's
-- report is masked as well. `marshal` is `json.MarshalIndent` with two spaces.
use mavlink_doctor.Common.{
  Bool, Option, none, some, ◌∷◌, [], ◌++◌, ◌≡◌, Bytes, codes, Result, ok, err, if◌then◌else◌,
}
use mavlink_doctor.Reporter.Result.{DiagnosticResult}
use mavlink_doctor.Reporter.Redact.{redact_result}

-- What the call leaves: the file's bytes if it is written, the error's text if there is one, and the
-- caller's report.
pub record Exported (F : Type 0) : Type 0 where
  pub file : Option Bytes
  pub error : Option Bytes
  pub report : DiagnosticResult F

module _ {F : Type 0} (marshal : DiagnosticResult F → Result Bytes Bytes) where
  abbrev write_data : Option Bytes → Bytes → DiagnosticResult F → Result Bytes Bytes → Exported F
  write_data write_error path report (err e) = record {
    file = none;
    error = some (codes "failed to marshal support report: " ++ e);
    report = report;
  }
  write_data none path report (ok written) = record {
    file = some written;
    error = none;
    report = report;
  }
  write_data (some e) path report (ok written) = record {
    file = none;
    error = some (codes "failed to write support report to " ++ (path ++ (codes ": " ++ e)));
    report = report;
  }

  -- `write_error` is the error of `os.WriteFile`, if any.
  unfoldable pub export_support_report :
      Option Bytes → Bytes → DiagnosticResult F → Bool → Exported F
  export_support_report write_error path res redact =
      let report = if redact then redact_result res else res in
      write_data write_error path report (marshal report)

  -- What `PrintJSON` writes: the encoder adds a newline, and writes nothing where it fails.
  unfoldable pub printed_json : DiagnosticResult F → Option Bytes
  printed_json res = elim (marshal res) [ err e ↦ none | ok text ↦ some (text ++ 10 ∷ []) ]

  pub printed_json_lem :
      (res : DiagnosticResult F) (bytes : Bytes)
      → marshal res ≡ ok bytes
      → printed_json res ≡ some (bytes ++ 10 ∷ [])
  unfolding printed_json
  printed_json_lem res bytes m = rw (m, printed_json)

  abbrev pub file_unless : Option Bytes → Bytes → Option Bytes
  file_unless none bytes = some bytes
  file_unless (some e) bytes = none

  -- Where the report can be written as JSON, the file holds it if nothing fails, and the caller is left
  -- with the same report.
  pub exported :
      (write_error : Option Bytes) (path : Bytes) (res : DiagnosticResult F) (redact : Bool)
      (bytes : Bytes)
      → marshal (if redact then redact_result res else res) ≡ ok bytes
      → ((export_support_report write_error path res redact).file ≡ file_unless write_error bytes)
        × ((export_support_report write_error path res redact).report
            ≡ (if redact then redact_result res else res))
  unfolding export_support_report
  exported none path res redact bytes m = (rw m, rw m)
  exported (some e) path res redact bytes m = (rw m, rw m)
