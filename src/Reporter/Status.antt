-- ===== src/Reporter/Status.antt =====
-- What the overall status of a run says (internal/reporter/json.go with cmd/mavlink-doctor/main.go).
use mavlink_doctor.Common.{
  ℕ, ◌≡◌, ◌∙◌, ◌<◌, ◌^◌, ◌+◌, Option, List, ◌++◌, Bytes, codes, ltb, arith, length, length-append,
  if◌then◌else◌,
}
use mavlink_doctor.Cli.Flags.{Config}
use mavlink_doctor.Decoder.Gimbal.{GimbalEvidence}
use mavlink_doctor.Discovery.Types.{DiscoveryReport}
use mavlink_doctor.Metrics.Float64.{Float64}
use mavlink_doctor.Metrics.Snapshot.{snapshot}
use mavlink_doctor.Metrics.Types.{GlobalMetrics}
use mavlink_doctor.Main.EventLoop.{Timed, event_loop, loop_start}
use mavlink_doctor.Main.Totals.{event_loop_totals}
use mavlink_doctor.Main.Calls.{frame_count}
use mavlink_doctor.Transport.RawListener.{PacketSummary}
use mavlink_doctor.Reporter.Result.{
  raw_packets, traffic_status, traffic_notes, gimbal_notes, build_result,
}

pub status_of_frames :
    {F : Type 0} (raw : Option PacketSummary) (global : GlobalMetrics F) (n : ℕ)
    → global.total_frames ≡ n
    → traffic_status raw global ≡ (
        if ltb 0 n
        then codes "MAVLINK_CONNECTED"
        else if ltb 0 (raw_packets raw)
        then codes "PACKETS_WITHOUT_MAVLINK"
        else codes "NO_TRAFFIC")
unfolding traffic_status
status_of_frames raw global n p = rw p

notes_of_frames :
    {F : Type 0} (raw : Option PacketSummary) (global : GlobalMetrics F) (gimbal : GimbalEvidence)
    (n : ℕ)
    → global.total_frames ≡ n
    → length (traffic_notes raw global ++ gimbal_notes gimbal)
      ≡ (if ltb 0 n then 2 else 1) + (if gimbal.observed then 1 else 0)
unfolding traffic_notes
notes_of_frames raw global gimbal n p =
    length-append (traffic_notes raw global) (gimbal_notes gimbal) ∙ ground arith

module _ (fl : Float64) (float_text : ℕ → Bytes) (cfg : Config) where
  open fl use {F}

  pub counted_total :
      (start : ℕ) (es : List Timed)
      → frame_count es < 2 ^ 64
      → (event_loop fl float_text cfg (loop_start fl float_text cfg start) es).tracker.total_frames
        ≡ frame_count es
  counted_total start es h =
      let (frames, _, counted) = event_loop_totals fl float_text cfg start es in
      omega (arith, frames, counted.frames, h)

  -- The result of a run: after fewer than 2^64 frames, the status is MAVLINK_CONNECTED when any event
  -- was a frame; else PACKETS_WITHOUT_MAVLINK when the sniffer read a packet; else NO_TRAFFIC. The notes
  -- are two with frames and one without, and one more when a gimbal was observed.
  pub run_status :
      (version : Bytes) (disc : DiscoveryReport) (raw : Option PacketSummary) (start now : ℕ)
      (es : List Timed)
      → frame_count es < 2 ^ 64
      → let s = event_loop fl float_text cfg (loop_start fl float_text cfg start) es in
        let result = build_result version disc raw (snapshot fl s.tracker now) s.gimbal in
        (result.status ≡ (
          if ltb 0 (frame_count es)
          then codes "MAVLINK_CONNECTED"
          else if ltb 0 (raw_packets raw)
          then codes "PACKETS_WITHOUT_MAVLINK"
          else codes "NO_TRAFFIC"))
        × (length result.summary_notes
            ≡ (if ltb 0 (frame_count es) then 2 else 1) + (if s.gimbal.observed then 1 else 0))
  unfolding build_result traffic_status traffic_notes snapshot
  run_status version disc raw start now es h =
      let s = event_loop fl float_text cfg (loop_start fl float_text cfg start) es in
      let global = snapshot fl s.tracker now in
      let frames = counted_total start es h in
      (
        status_of_frames raw global (frame_count es) frames,
        notes_of_frames raw global s.gimbal (frame_count es) frames,
      )
