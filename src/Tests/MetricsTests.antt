-- ===== src/Tests/MetricsTests.antt =====
-- internal/metrics at concrete inputs.
use mavlink_doctor.Common.{
  ℕ, ◌+◌, ◌-◌, ◌%◌, ◌<◌, ◌≡◌, refl, arith, Bytes, codes, List, [], ◌∷◌, some, none, true, u64,
  Bytes-Eq, ℕ-Eq,
}
use mavlink_doctor.Common.Int.{quot_ℤ, rem_ℤ}
use mavlink_doctor.Common.Assoc.{lookup, insert}
use mavlink_doctor.Metrics.Types.{HeartbeatStats, EndpointKey, EndpointKey-Eq}
use mavlink_doctor.Metrics.Tracker.{
  Tracker, new_tracker, record_frame, source_of, fresh_source, update_source, count_frame,
  track_sequence, note_arrival, update_loss, update_rates, seconds,
}
use mavlink_doctor.Metrics.Heartbeat.{
  record_heartbeat, next_heartbeat, first_heartbeat, note_interval, judge, is_healthy_rate,
}
use mavlink_doctor.Metrics.Calls.{Call, perform, perform_all}
use mavlink_doctor.Metrics.Snapshot.{snapshot, message_stats, key_text}
use mavlink_doctor.Metrics.Accounting.{IsCounted, history-IsCounted}
use mavlink_doctor.Metrics.Sequence.{HasLast, interleaved_drops}
use mavlink_doctor.Metrics.Stream.{Sent}
use mavlink_doctor.Metrics.Copies.{snapshot_copies}
use mavlink_doctor.Metrics.Heartbeats.{
  count_of_stats, stats_of, history_heartbeats, history_verdict,
}
use mavlink_doctor.Metrics.Loss.{IsMonotone}
use mavlink_doctor.Tests.Data.{fractions, copter, attitude, frame_of, vehicle, who, history}

abbrev version : Bytes
version = codes "MAVLink 2"

abbrev empty : Tracker (ℕ × ℕ)
empty = new_tracker (ℕ × ℕ) 0

history-IsCounted_example : IsCounted (perform_all fractions (new_tracker (ℕ × ℕ) 0) history)
history-IsCounted_example = history-IsCounted fractions 0 history

abbrev stream : List Sent
stream =
    record { component_id = 1; message = copter; lost = 0; arrival = 10 }
    ∷ record { component_id = 100; message = attitude; lost = 3; arrival = 20 }
    ∷ record { component_id = 1; message = copter; lost = 2; arrival = 30 }
    ∷ []

abbrev one_frame : Tracker (ℕ × ℕ)
one_frame = record_frame fractions empty (frame_of 1 1 254 copter) version 12 10

-- The camera numbers its frames on its own: after its frame 0, the vehicle's next frame has number 255.
abbrev two_senders : Tracker (ℕ × ℕ)
two_senders = record_frame fractions one_frame (frame_of 1 100 0 attitude) version 12 20

two_senders-HasLast : HasLast two_senders 1 0
unfolding record_frame new_tracker lookup insert
two_senders-HasLast = (refl, refl, omega arith)

snapshot_copies_example :
    let t = perform_all fractions (new_tracker (ℕ × ℕ) 0) history in
    ((k : EndpointKey) → lookup (key_text k) (snapshot fractions t 9).sources ≡ lookup k t.sources)
    × ((m : Bytes) → lookup m (snapshot fractions t 9).message_counts ≡ lookup m t.message_counts)
    × ((m : Bytes) → lookup m (message_stats t) ≡ lookup m t.message_counts)
    × ((v : Bytes) → lookup v (snapshot fractions t 9).version_counts ≡ lookup v t.version_counts)
snapshot_copies_example = snapshot_copies fractions 0 9 history

history_heartbeats_example :
    u64 (
      count_of_stats
        (stats_of fractions (perform_all fractions (new_tracker (ℕ × ℕ) 0) history) vehicle))
    ≡ u64 2
history_heartbeats_example = history_heartbeats fractions 0 history vehicle

fractions-IsMonotone : IsMonotone fractions
fractions-IsMonotone = record {
  unit_quotient = λ a b h p. (ground arith, ground arith);
  hundredfold = λ x lo hi. (ground arith, ground arith);
}

vehicle_last : (source_of fractions two_senders vehicle 30).last_seq ≡ 254
unfolding source_of record_frame new_tracker lookup insert fresh_source update_source update_rates
    update_loss note_arrival track_sequence count_frame seconds quot_ℤ rem_ℤ
vehicle_last = refl

interleaved_drops_example :
    (u64
        (source_of fractions
          (record_frame fractions two_senders (frame_of 1 1 255 copter) version 12 30)
          vehicle
          40).dropped_frames
      ≡ u64 (
          (source_of fractions two_senders vehicle 30).dropped_frames
          + ((source_of fractions two_senders vehicle 30).last_seq + 256 - 0) % 256))
    × (0 < ((source_of fractions two_senders vehicle 30).last_seq + 256 - 0) % 256)
interleaved_drops_example =
    interleaved_drops fractions two_senders (frame_of 1 1 255 copter) version 12 30 40 0
      two_senders-HasLast (omega (arith, vehicle_last)) (λ p. omega (arith, p, vehicle_last))
      (omega (arith, vehicle_last))

-- The heartbeat statistics after two heartbeats a second apart.
abbrev beaten : HeartbeatStats (ℕ × ℕ)
beaten =
    next_heartbeat fractions (some (next_heartbeat fractions none who 1_000_000_000)) who
      2_000_000_000

abbrev heartbeats : List (ℕ × Call)
heartbeats = (1_000_000_000, Call.beat vehicle who) ∷ (2_000_000_000, Call.beat vehicle who) ∷ []

after_heartbeats :
    stats_of fractions (perform_all fractions (new_tracker (ℕ × ℕ) 0) heartbeats) vehicle
    ≡ some beaten
unfolding perform_all perform record_heartbeat source_of new_tracker lookup insert fresh_source
after_heartbeats = refl

beaten_healthy : beaten.is_healthy ≡ true
unfolding next_heartbeat first_heartbeat note_interval judge is_healthy_rate seconds quot_ℤ rem_ℤ
beaten_healthy = refl

history_verdict_example :
    (fractions.le (fractions.ratio 200 1) beaten.avg_interval_ms ≡ true)
    × (fractions.le beaten.avg_interval_ms (fractions.ratio 2500 1) ≡ true)
history_verdict_example =
    history_verdict fractions 0 heartbeats vehicle beaten after_heartbeats beaten_healthy
