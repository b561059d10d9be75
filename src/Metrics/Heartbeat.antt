-- ===== src/Metrics/Heartbeat.antt =====
-- internal/metrics/tracker.go, `RecordHeartbeat`: the heartbeat statistics of one source.
use mavlink_doctor.Common.{
  ℕ, ◌+◌, ◌-◌, Bool, false, ◌&&◌, Option, none, some, Bytes, if◌then◌else◌, ltb, leb, u64,
}
use mavlink_doctor.Common.Assoc.{insert}
use mavlink_doctor.Common.Int.{sub_ℕ}
use mavlink_doctor.Metrics.Float64.{Float64}
use mavlink_doctor.Metrics.Types.{EndpointKey, HeartbeatStats, EndpointKey-Eq}
use mavlink_doctor.Metrics.Tracker.{Tracker, seconds, microseconds, source_of}

-- The three texts that a heartbeat carries.
pub record Identity : Type 0 where
  pub autopilot : Bytes
  pub vehicle : Bytes
  pub state : Bytes

module _ (fl : Float64) where
  open fl use {F, of_nat, of_int, ratio, mul, div, lt, le}

  unfoldable pub first_heartbeat : Identity → ℕ → HeartbeatStats F
  first_heartbeat i now = record {
    count = 1;
    first_arrival = now;
    last_arrival = now;
    min_interval_ms = ratio 999999 1;
    max_interval_ms = ratio 0 1;
    avg_interval_ms = ratio 0 1;
    jitter_ms = ratio 0 1;
    rate_hz = ratio 0 1;
    is_healthy = false;
    autopilot = i.autopilot;
    vehicle_type = i.vehicle;
    system_status = i.state;
  }

  -- The count and the smallest and largest interval so far.
  unfoldable pub note_interval : HeartbeatStats F → Identity → ℕ → HeartbeatStats F
  note_interval hb i now =
      let interval = div (of_int (microseconds fl (sub_ℕ now hb.last_arrival))) (ratio 1000 1) in
      record hb {
        count = u64 (hb.count + 1);
        autopilot = i.autopilot;
        vehicle_type = i.vehicle;
        system_status = i.state;
        last_arrival = now;
        min_interval_ms = if lt interval hb.min_interval_ms then interval else hb.min_interval_ms;
        max_interval_ms = if lt hb.max_interval_ms interval then interval else hb.max_interval_ms;
      }

  unfoldable pub is_healthy_rate : ℕ → F → Bool
  is_healthy_rate count avg = leb 2 count && (le (ratio 200 1) avg && le avg (ratio 2500 1))

  -- The average, the rate and the verdict. After `note_interval` the count is 1 or more, or 0 where
  -- it has wrapped, and then the guard fails.
  unfoldable pub judge : HeartbeatStats F → ℕ → HeartbeatStats F
  judge hb now =
      let spent = seconds fl (sub_ℕ now hb.first_arrival) in
      let avg = div (mul spent (ratio 1000 1)) (of_nat (hb.count - 1)) in
      if lt (ratio 0 1) spent && ltb 1 hb.count
      then record hb {
        avg_interval_ms = avg;
        rate_hz = div (of_nat (hb.count - 1)) spent;
        is_healthy = is_healthy_rate hb.count avg;
      }
      else hb

  unfoldable pub next_heartbeat : Option (HeartbeatStats F) → Identity → ℕ → HeartbeatStats F
  unfolding first_heartbeat
  next_heartbeat none i now = first_heartbeat i now
  next_heartbeat (some hb) i now = judge (note_interval hb i now) now

  unfoldable pub record_heartbeat : Tracker F → EndpointKey → Identity → ℕ → Tracker F
  record_heartbeat t key i now =
      let sm = source_of fl t key now in
      record t {
        sources =
            insert key
              (record sm { heartbeat_stats = some (next_heartbeat sm.heartbeat_stats i now) })
              t.sources;
      }
