-- ===== src/Reporter/Terminal/Telemetry.antt =====
-- internal/reporter/terminal.go: the summary of the MAVLink test and the closing advice.
use mavlink_doctor.Common.{
  ℕ, Bool, not, Option, none, some, List, [], ◌∷◌, ◌++◌, Bytes, Bytes-Eq, ◌==◌, codes, nat_eq, ltb,
  length, if◌then◌else◌,
}
use mavlink_doctor.Common.Assoc.{Assoc}
use mavlink_doctor.Common.Int.{ℤ}
use mavlink_doctor.Common.Decimal.{decimal, sprint}
use mavlink_doctor.Common.Fields.{join}
use mavlink_doctor.Common.Format.{utf8, pad, replicate}
use mavlink_doctor.Decoder.Gimbal.{GimbalEvidence}
use mavlink_doctor.Metrics.Types.{HeartbeatStats, SourceMetrics, GlobalMetrics}
use mavlink_doctor.Transport.Endpoints.{format_tcpdump_command}
use mavlink_doctor.Reporter.Terminal.{line, section, ok_line, warn_line, fail_line, info_line}
use mavlink_doctor.Reporter.Terminal.Names.{
  short_component_name, short_type_string, short_status_string,
}

-- The cells of a row that depend on the heartbeat.
pub record Cells : Type 0 where
  pub type : Bytes
  pub heartbeat_rate : Bytes
  pub status : Bytes

abbrev pub source_text : ℕ → ℕ → Bytes
source_text sys comp = decimal sys ++ (codes " / " ++ decimal comp)

-- The five columns before the status, with a space after each.
unfoldable pub columns : Bytes → Bytes → Bytes → Bytes → Bytes → Bytes
columns source component type rate heartbeat_rate =
    pad 10 source
    ++ (32
        ∷ (pad 16 component
            ++ (32
                ∷ (pad 24 type
                    ++ (32 ∷ (pad 10 rate ++ (32 ∷ (pad 10 heartbeat_rate ++ 32 ∷ []))))))))

-- The heading, without its last column.
abbrev pub heading : Bytes
heading =
    columns (codes "SOURCE") (codes "COMPONENT") (codes "TYPE / AUTOPILOT") (codes "MSG RATE")
      (codes "HB RATE")

unfoldable pub header : Bytes
unfolding columns replicate
header = heading ++ (codes "STATUS\n" ++ line (replicate 80 b'-'))

abbrev seen_of : Option (List Bytes) → List Bytes
seen_of none = []
seen_of (some seen) = seen

abbrev gimbal_lines : GimbalEvidence → Bytes
gimbal_lines g =
    if g.observed
    then ok_line (
        codes "Gimbal Payload : Confirmed ("
        ++ (join (codes ", ") (seen_of g.messages_seen) ++ codes ")"))
      ++ (if not (g.details == []) then info_line g.details else [])
    else info_line (codes "Gimbal Payload : Not observed in this window (unproven)")

abbrev saved_line : Bytes → Bytes
saved_line report_file =
    if not (report_file == [])
    then utf8 "\n📁 Detailed diagnostic report saved to: " ++ line report_file
    else []

abbrev exported_line : Bytes → Bytes
exported_line report_file =
    if not (report_file == [])
    then utf8 "\n📁 Full diagnostic report exported to: " ++ line report_file
    else []

unfoldable pub no_frames : Bytes → Bytes
no_frames report_file =
    fail_line (codes "No MAVLink frames were decoded during the test window.")
    ++ (info_line (
          codes
            "Check dialect compatibility (-dialect common/ardupilotmega/all) and transport settings.")
        ++ saved_line report_file)

-- `fixed n x` is `%.nf` of a float64.
module _ {F : Type 0} (fixed : ℕ → F → Bytes) where
  unfoldable pub cells_of : SourceMetrics F → Option (HeartbeatStats F) → Cells
  unfolding short_type_string short_status_string
  cells_of s none = record {
    type = codes "Telemetry";
    heartbeat_rate = codes "n/a";
    status = codes "Active (loss: " ++ (fixed 1 s.packet_loss_pct ++ codes "%)");
  }
  cells_of s (some hb) = record {
    type = short_type_string hb.vehicle_type;
    heartbeat_rate = fixed 2 hb.rate_hz ++ codes " Hz";
    status =
        (if hb.is_healthy then codes "Healthy (" else codes "Unstable (")
        ++ (short_status_string hb.system_status ++ codes ")");
  }

  -- A row up to its status.
  unfoldable pub row_columns : SourceMetrics F → Bytes
  unfolding columns cells_of
  row_columns s =
      let cells = cells_of s s.heartbeat_stats in
      columns (source_text s.system_id s.component_id) (short_component_name s.component_id)
        cells.type (fixed 1 s.msg_rate_hz ++ codes " Hz") cells.heartbeat_rate

  unfoldable pub source_row : SourceMetrics F → Bytes
  unfolding row_columns
  source_row s = row_columns s ++ line (cells_of s s.heartbeat_stats).status

  unfoldable pub source_rows : Assoc Bytes (SourceMetrics F) → Bytes
  unfolding source_row
  source_rows [] = []
  source_rows ((key, s) ∷ rest) = source_row s ++ source_rows rest

  abbrev decoded_line : GlobalMetrics F → Bytes
  decoded_line g = ok_line (
      codes "Decoded "
      ++ (decimal g.total_frames
          ++ (codes " frames across "
              ++ (decimal (length g.sources)
                  ++ (codes " source(s) in "
                      ++ (fixed 1 g.duration_seconds
                          ++ (codes "s ("
                              ++ (fixed 1 g.overall_msg_rate_hz
                                  ++ (codes " msgs/s | "
                                      ++ (fixed 1 g.overall_throughput_bps
                                          ++ codes " B/s)"))))))))))

  abbrev error_line : GlobalMetrics F → Bytes
  error_line g =
      if ltb 0 g.total_parse_errors
      then warn_line (
          codes "Parse errors: "
          ++ (decimal g.total_parse_errors ++ codes " frame(s) failed CRC or framing check"))
      else []

  unfoldable pub telemetry_table : GlobalMetrics F → GimbalEvidence → Bytes → Bool → Bytes
  unfolding source_rows header
  telemetry_table g gimbal report_file verbose =
      decoded_line g
      ++ (error_line g
          ++ (line []
              ++ (header
                  ++ (source_rows g.sources
                      ++ (line []
                          ++ (gimbal_lines gimbal
                              ++ (exported_line report_file
                                  ++ (if not verbose
                                      then utf8
                                          "💡 Tip: Use -v / -verbose for full frame stream and raw socket dump.\n"
                                      else []))))))))

  -- `PrintMAVLinkSummary`
  unfoldable pub mavlink_summary : GlobalMetrics F → GimbalEvidence → Bytes → Bool → Bytes
  unfolding no_frames telemetry_table
  mavlink_summary g gimbal report_file verbose =
      section (codes "TELEMETRY HEALTH & METRICS")
      ++ (if nat_eq g.total_frames 0
          then no_frames report_file
          else telemetry_table g gimbal report_file verbose)

-- `PrintFinalRecommendation`
unfoldable pub final_recommendation : ℤ → Bytes
unfolding utf8 format_tcpdump_command sprint
final_recommendation port =
    utf8
      "\nTroubleshooting Quick Reference:\n  • Air Unit sends to PC  : mavlink-doctor -transport udp -mode server -port "
    ++ (sprint port
        ++ (utf8
              " -stream-server=true\n  • Connect to Air Unit   : mavlink-doctor -transport udp -mode client -address <device-ip>:<device-port>\n  • Serial / USB-TTL Radio: mavlink-doctor -transport serial -serial /dev/ttyUSB0 -baud 57600\n  • Packet capture check  : "
            ++ line (format_tcpdump_command port [])))
