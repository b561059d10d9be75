-- ===== src/Metrics/Loss.antt =====
-- The packet loss percentage (internal/metrics/tracker.go, `sm.PacketLossPct`).
use mavlink_doctor.Common.{ℕ, ◌+◌, ◌≤◌, ◌<◌, ◌≡◌, true, Bytes, arith}
use mavlink_doctor.Gomavlib.{Frame}
use mavlink_doctor.Metrics.Float64.{Float64}
use mavlink_doctor.Metrics.Types.{SourceMetrics, EndpointKey-Eq}
use mavlink_doctor.Metrics.Tracker.{
  Tracker, source_of, loss_pct, update_loss, update_rates, note_arrival, track_sequence,
  track_jitter, track_drops, count_frame, update_source, record_frame,
}
use mavlink_doctor.Metrics.Sequence.{key_of, source_of-record_frame}

-- Correct rounding keeps the order: a quotient of a smaller by a larger whole number stays between 0
-- and 1, and 100 times such a number stays between 0 and 100.
pub record IsMonotone (fl : Float64) : Type 0 where
  pub unit_quotient :
      (a b : ℕ)
      → a ≤ b
      → 0 < b
      → (fl.le (fl.ratio 0 1) (fl.div (fl.of_nat a) (fl.of_nat b)) ≡ true)
        × (fl.le (fl.div (fl.of_nat a) (fl.of_nat b)) (fl.ratio 1 1) ≡ true)
  pub hundredfold :
      (x : fl.F)
      → fl.le (fl.ratio 0 1) x ≡ true
      → fl.le x (fl.ratio 1 1) ≡ true
      → (fl.le (fl.ratio 0 1) (fl.mul x (fl.ratio 100 1)) ≡ true)
        × (fl.le (fl.mul x (fl.ratio 100 1)) (fl.ratio 100 1) ≡ true)

module _ (fl : Float64) where
  open fl use {F, ratio, le}

  abbrev pub IsPercentage : F → Type 0
  IsPercentage x = (le (ratio 0 1) x ≡ true) × (le x (ratio 100 1) ≡ true)

  loss_pct-IsPercentage : (d e : ℕ) → IsMonotone fl → d ≤ e → 0 < e → IsPercentage (loss_pct fl d e)
  unfolding loss_pct
  loss_pct-IsPercentage d e m h k = let (lo, hi) = m.unit_quotient d e h k in m.hundredfold _ lo hi

  -- After the steps of one frame the percentage is the one of the counters after the frame.
  loss-update_source :
      (t : Tracker F) (sm : SourceMetrics F) (fr : Frame) (n now : ℕ)
      → let q = update_source fl t sm fr n now in
        0 < q.total_frames
        → q.total_frames + q.dropped_frames < 18446744073709551616
        → q.packet_loss_pct ≡ loss_pct fl q.dropped_frames (q.total_frames + q.dropped_frames)
  unfolding update_source update_rates update_loss note_arrival track_sequence track_jitter
      track_drops count_frame
  loss-update_source t sm fr n now h k = ground arith

  -- Under monotone float64 arithmetic the loss percentage of a source is between 0 and 100 after each
  -- frame, as long as its received and dropped frames, a positive number together with the frame just
  -- counted, stay below 2^64: it is the share of the dropped frames in both.
  pub record_frame_loss :
      (t : Tracker F) (fr : Frame) (version : Bytes) (n now later : ℕ)
      → IsMonotone fl
      → let q = source_of fl (record_frame fl t fr version n now) (key_of fr) later in
        0 < q.total_frames
        → q.total_frames + q.dropped_frames < 18446744073709551616
        → (q.packet_loss_pct ≡ loss_pct fl q.dropped_frames (q.total_frames + q.dropped_frames))
          × IsPercentage q.packet_loss_pct
  record_frame_loss t fr version n now later m h k =
      let sm = source_of fl t (key_of fr) now in
      let q = update_source fl t sm fr n now in
      let e = source_of-record_frame fl t fr version n now later in
      let exact = loss-update_source t sm fr n now (rw e at h) (rw e at k) in
      rw e (
        exact,
        rw exact (
            loss_pct-IsPercentage q.dropped_frames (q.total_frames + q.dropped_frames) m
              (omega arith) (omega (arith, (rw e at h)))),
      )
