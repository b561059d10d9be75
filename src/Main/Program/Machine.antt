-- ===== src/Main/Program/Machine.antt =====
-- A run with JSON output (cmd/mavlink-doctor/main.go with internal/reporter/json.go and
-- support_report.go).
use mavlink_doctor.Common.{
  ℕ, Bool, true, false, not, Option, none, some, List, [], ◌∷◌, ◌++◌, map, ◌≡◌, refl, ap, ◌∙◌,
  Bytes, Bytes-Eq, ◌==◌, Result, ok, err, arith, Bool-cases, inl, inr, if◌then◌else◌,
}
use mavlink_doctor.Cli.Flags.{Config}
use mavlink_doctor.Cli.FlagSet.{parse_command_line}
use mavlink_doctor.Decoder.Gimbal.{GimbalEvidence}
use mavlink_doctor.Main.Silence.{event_loop_silent}
use mavlink_doctor.Main.EventLoop.{loop_start}
use mavlink_doctor.Main.Setup.{Node, SetupError, setup}
use mavlink_doctor.Metrics.Float64.{Float64}
use mavlink_doctor.Metrics.Snapshot.{snapshot}
use mavlink_doctor.Metrics.Types.{GlobalMetrics}
use mavlink_doctor.Reporter.Export.{exported, file_unless, printed_json_lem}
use mavlink_doctor.Reporter.Redact.{redact_result}
use mavlink_doctor.Reporter.Result.{DiagnosticResult}
use mavlink_doctor.Version.{Variables}
use mavlink_doctor.Main.World.{Output, json, live_line, World, unless_json}
use mavlink_doctor.Main.Program.{
  sniff, run_node, run_mavlink_test, mavlink_phase, export_phase, final_output, json_of, compile,
  run_config, run_parsed, main,
}

pub if_true : {A : Type 0} (b : Bool) (x y : A) → b ≡ true → (if b then x else y) ≡ x
if_true b x y e = rw e

pub if_false : {A : Type 0} (b : Bool) (x y : A) → b ≡ false → (if b then x else y) ≡ y
if_false b x y e = rw e

nothing_unless_json :
    (cfg : Config) (out : List Output) → cfg.json_output ≡ true → unless_json cfg out ≡ []
nothing_unless_json cfg out j = if_false (not cfg.json_output) out [] (ap not j)

-- A part that prints nothing.
skip : {xs ys zs : List Output} → xs ≡ [] → ys ≡ zs → xs ++ ys ≡ zs
skip {ys = ys} p q = ap (λ x. x ++ ys) p ∙ q

module _ (fl : Float64) (fixed : ℕ → fl.F → Bytes) (float_text : ℕ → Bytes) (v : Variables)
    (marshal : DiagnosticResult fl.F → Result Bytes Bytes) (w : World fl.F) where
  open fl use {F}

  abbrev pub wants_file : Config → Bool
  wants_file cfg = not (cfg.export_report == [])

  -- The report that the file and the standard output show.
  abbrev pub final_of : Config → DiagnosticResult F → DiagnosticResult F
  final_of cfg res =
      if wants_file cfg then (if cfg.redact_report then redact_result res else res) else res

  abbrev pub final_report : Config → DiagnosticResult F
  final_report cfg = final_of cfg (compile fl fixed float_text v marshal w cfg)

  abbrev pub named_file : Bytes → Option Bytes → Option (Bytes × Bytes)
  named_file path none = none
  named_file path (some bytes) = some (path, bytes)

  -- The file of a run whose report is written as these bytes.
  abbrev pub final_file : Config → Bytes → Option (Bytes × Bytes)
  final_file cfg bytes =
      if wants_file cfg
      then named_file cfg.export_report (file_unless marshal w.write_error bytes)
      else none

  -- A part of the report that masking leaves as it is.
  pub final_of_keeps :
      {B : Type 0} (part : DiagnosticResult F → B) (cfg : Config) (res : DiagnosticResult F)
      → part (redact_result res) ≡ part res
      → part (final_of cfg res) ≡ part res
  final_of_keeps part cfg res kept = elim (Bool-cases (wants_file cfg)) [
    | inl wanted ↦ elim (Bool-cases cfg.redact_report) [
      | inl masked ↦ rw (wanted, masked) kept
      | inr plain ↦ rw (wanted, plain) refl
    ]
    | inr unwanted ↦ rw unwanted refl
  ]

  module _ (cfg : Config) (j : cfg.json_output ≡ true) where
    sniff_silent : (sniff fl fixed float_text v marshal w cfg).1 ≡ []
    unfolding sniff
    sniff_silent = ground arith

    node_silent : (o : Option Bytes) → (run_node fl fixed float_text v marshal w cfg o).1 ≡ []
    unfolding run_node loop_start
    node_silent (some e) = nothing_unless_json cfg _ j
    node_silent none = skip (nothing_unless_json cfg _ j) (
        ap (map live_line) (
          event_loop_silent fl float_text cfg (loop_start fl float_text cfg w.tracker_time) w.events
            j))

    test_silent :
        (r : Result SetupError Node)
        → (run_mavlink_test fl fixed float_text v marshal w cfg r).1 ≡ []
    unfolding run_mavlink_test
    test_silent (err e) = nothing_unless_json cfg _ j
    test_silent (ok node) = node_silent w.node_error

    phase_silent : (mavlink_phase fl fixed float_text v marshal w cfg).1 ≡ []
    unfolding mavlink_phase
    phase_silent = elim (Bool-cases (not cfg.skip_gomavlib)) [
      | inl tested ↦ rw tested (test_silent (setup cfg))
      | inr skipped ↦ rw skipped refl
    ]

    error_silent :
        (o : Option Bytes) (line : Bytes → List Output)
        → elim o [ none ↦ [] | some e ↦ unless_json cfg (line e) ] ≡ []
    error_silent none line = refl
    error_silent (some e) line = nothing_unless_json cfg (line e) j

    named_file_lem :
        (o : Option Bytes)
        → elim o [ none ↦ none | some bytes ↦ some (cfg.export_report, bytes) ]
          ≡ named_file cfg.export_report o
    named_file_lem none = refl
    named_file_lem (some bytes) = refl

    -- The export, where the report can be written as JSON.
    export_file :
        (res : DiagnosticResult F) (bytes : Bytes)
        → marshal (final_of cfg res) ≡ ok bytes
        → let (file, report, out) = export_phase fl fixed float_text v marshal w cfg res in
          (file ≡ final_file cfg bytes) × (report ≡ final_of cfg res) × (out ≡ [])
    unfolding export_phase
    export_file res bytes m = elim (Bool-cases (wants_file cfg)) [
      | inl wanted ↦
          let (file, report) =
            exported marshal w.write_error cfg.export_report res cfg.redact_report bytes
              (rw wanted at m) in
          rw wanted
            (named_file_lem _ ∙ ap (named_file cfg.export_report) file, report, error_silent _ _)
      | inr unwanted ↦ rw unwanted (refl, refl, refl)
    ]

    final_json :
        (res : DiagnosticResult F) (metrics : GlobalMetrics F) (gimbal : GimbalEvidence)
        (bytes : Bytes)
        → marshal res ≡ ok bytes
        → final_output fl fixed float_text v marshal w cfg res metrics gimbal
          ≡ json (bytes ++ 10 ∷ []) ∷ []
    unfolding final_output
    final_json res metrics gimbal bytes m =
        if_true cfg.json_output _ _ j
        ∙ ap (json_of fl fixed float_text v marshal w) (printed_json_lem marshal res bytes m)

    run_machine :
        (bytes : Bytes)
        → marshal (final_report cfg) ≡ ok bytes
        → let r = run_config fl fixed float_text v marshal w cfg in
          (r.output ≡ json (bytes ++ 10 ∷ []) ∷ []) × (r.file ≡ final_file cfg bytes)
    unfolding run_config
    run_machine bytes m =
        let (file, report, out) =
          export_file (compile fl fixed float_text v marshal w cfg) bytes m in
        let ((tracker, gimbal), _) = mavlink_phase fl fixed float_text v marshal w cfg in
        let metrics = snapshot fl tracker w.snapshot_time in
        (
          skip (nothing_unless_json cfg _ j) (
              skip (nothing_unless_json cfg _ j) (
                skip sniff_silent (
                  skip phase_silent (
                    skip out (
                      ap (λ r. final_output fl fixed float_text v marshal w cfg r metrics gimbal)
                        report
                      ∙ final_json (final_report cfg) metrics gimbal bytes m))))),
          file,
        )

    accepted :
        cfg.show_version ≡ false
        → run_parsed fl fixed float_text v marshal w (ok cfg)
          ≡ run_config fl fixed float_text v marshal w cfg
    unfolding run_parsed
    accepted version = if_false cfg.show_version _ _ version

  -- With JSON output, for every list of arguments that is accepted and asks for no version, and whatever
  -- the tools, the sniffer, the node and the disk answer: if the report can be encoded, the standard
  -- output is that one document and a newline, and nothing else; the exit code is 0; and the same
  -- document, byte for byte, is in the report file if one is wanted and can be written. So -redact masks
  -- the standard output as well when a file is wanted, and does not when none is.
  pub machine_output :
      (args : List Bytes) (cfg : Config) (bytes : Bytes)
      → parse_command_line args ≡ ok cfg
      → cfg.json_output ≡ true
      → cfg.show_version ≡ false
      → marshal (final_report cfg) ≡ ok bytes
      → let r = main fl fixed float_text v marshal w args in
        (r.output ≡ json (bytes ++ 10 ∷ []) ∷ [])
        × (r.exit_code ≡ 0)
        × (r.file ≡ final_file cfg bytes)
  unfolding main run_config
  machine_output args cfg bytes p j version m =
      let (out, file) = run_machine cfg j bytes m in
      let run = ap (run_parsed fl fixed float_text v marshal w) p ∙ accepted cfg j version in
      (ap (λ r. r.output) run ∙ out, ap (λ r. r.exit_code) run, ap (λ r. r.file) run ∙ file)
