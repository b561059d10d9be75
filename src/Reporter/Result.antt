-- ===== src/Reporter/Result.antt =====
-- internal/reporter/json.go: the diagnostic result that the subsystems' reports are compiled into.
use mavlink_doctor.Common.{
  ℕ, Bool, false, Option, none, some, List, [], ◌∷◌, ◌++◌, Bytes, codes, ltb, any, if◌then◌else◌,
}
use mavlink_doctor.Common.Decimal.{decimal}
use mavlink_doctor.Decoder.Gimbal.{GimbalEvidence}
use mavlink_doctor.Discovery.Types.{DiscoveryReport}
use mavlink_doctor.Metrics.Types.{SourceMetrics, GlobalMetrics}
use mavlink_doctor.Transport.RawListener.{PacketSummary}

pub record DiagnosticResult (F : Type 0) : Type 0 where
  pub tool_version : Bytes
  pub discovery : DiscoveryReport
  pub raw_packet_test : Option PacketSummary
  pub metrics : GlobalMetrics F
  pub gimbal_evidence : GimbalEvidence
  pub status : Bytes
  pub summary_notes : List Bytes

abbrev pub is_healthy : {F : Type 0} → SourceMetrics F → Bool
is_healthy s = elim s.heartbeat_stats [ none ↦ false | some h ↦ h.is_healthy ]

abbrev pub any_healthy : {F : Type 0} → GlobalMetrics F → Bool
any_healthy global = any (λ e. is_healthy e.1) global.sources

abbrev pub raw_packets : Option PacketSummary → ℕ
raw_packets none = 0
raw_packets (some s) = s.total_packets

unfoldable pub traffic_status : {F : Type 0} → Option PacketSummary → GlobalMetrics F → Bytes
traffic_status raw global =
    if ltb 0 global.total_frames
    then codes "MAVLINK_CONNECTED"
    else if ltb 0 (raw_packets raw)
    then codes "PACKETS_WITHOUT_MAVLINK"
    else codes "NO_TRAFFIC"

abbrev pub heartbeat_note : {F : Type 0} → GlobalMetrics F → Bytes
heartbeat_note global =
    if any_healthy global
    then codes "Periodic healthy heartbeat observed from vehicle/autopilot"
    else codes "Heartbeat not yet established or unstable"

unfoldable pub traffic_notes : {F : Type 0} → Option PacketSummary → GlobalMetrics F → List Bytes
traffic_notes raw global =
    if ltb 0 global.total_frames
    then (codes "Successfully received " ++ decimal global.total_frames ++ codes " MAVLink frames")
      ∷ heartbeat_note global
      ∷ []
    else if ltb 0 (raw_packets raw)
    then (codes "Received "
        ++ decimal (raw_packets raw)
        ++ codes " UDP packets but no valid MAVLink frames decoded")
      ∷ []
    else codes "No UDP packets or MAVLink frames received during diagnostic window" ∷ []

abbrev pub gimbal_notes : GimbalEvidence → List Bytes
gimbal_notes gimbal =
    if gimbal.observed then (codes "Gimbal detected: " ++ gimbal.gimbal_type) ∷ [] else []

-- `version` is the text of `version.Short`.
unfoldable pub build_result :
    {F : Type 0}
    → Bytes
    → DiscoveryReport
    → Option PacketSummary
    → GlobalMetrics F
    → GimbalEvidence
    → DiagnosticResult F
unfolding traffic_status traffic_notes
build_result version disc raw global gimbal = record {
  tool_version = version;
  discovery = disc;
  raw_packet_test = raw;
  metrics = global;
  gimbal_evidence = gimbal;
  status = traffic_status raw global;
  summary_notes = traffic_notes raw global ++ gimbal_notes gimbal;
}
