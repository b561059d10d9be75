-- ===== src/Metrics/Types.antt =====
-- internal/metrics/types.go. Times are monotonic clock readings in nanoseconds, as `time.Time.Sub`
-- reads them; the float64 fields are of the type `F`.
use mavlink_doctor.Common.{ℕ, Bool, true, ◌&&◌, ◌≡◌, ◌↔◌, Option, Bytes, Eq, nat_eq, arith}
use mavlink_doctor.Common.Assoc.{Assoc}
use mavlink_doctor.Common.Int.{ℤ}

pub record EndpointKey : Type 0 where
  pub system_id : ℕ
  pub component_id : ℕ

abbrev pub key_eq : EndpointKey → EndpointKey → Bool
key_eq a b = nat_eq a.system_id b.system_id && nat_eq a.component_id b.component_id

pub key_eq_iff : (a b : EndpointKey) → (key_eq a b ≡ true) ↔ (a ≡ b)
key_eq_iff a b = (λ h. ground arith, λ h. ground arith)

instance abbrev pub EndpointKey-Eq : Eq EndpointKey
EndpointKey-Eq = record { equal = key_eq; equal_iff = key_eq_iff }

pub record HeartbeatStats (F : Type 0) : Type 0 where
  pub count : ℕ
  pub first_arrival : ℕ
  pub last_arrival : ℕ
  pub min_interval_ms : F
  pub max_interval_ms : F
  pub avg_interval_ms : F
  pub jitter_ms : F
  pub rate_hz : F
  pub is_healthy : Bool
  pub autopilot : Bytes
  pub vehicle_type : Bytes
  pub system_status : Bytes

pub record SourceMetrics (F : Type 0) : Type 0 where
  pub system_id : ℕ
  pub component_id : ℕ
  pub first_seen : ℕ
  pub last_seen : ℕ
  pub total_frames : ℕ
  pub total_bytes : ℕ
  pub dropped_frames : ℕ
  pub packet_loss_pct : F
  pub msg_rate_hz : F
  pub data_rate_bytes_sec : F
  pub jitter_ms : F
  pub last_seq : ℕ
  pub has_last_seq : Bool
  pub last_arrival_time : ℕ
  pub last_interval : ℤ
  pub heartbeat_stats : Option (HeartbeatStats F)

pub record GlobalMetrics (F : Type 0) : Type 0 where
  pub start_time : ℕ
  pub duration_seconds : F
  pub total_frames : ℕ
  pub total_bytes : ℕ
  pub total_parse_errors : ℕ
  pub version_counts : Assoc Bytes ℕ
  pub message_counts : Assoc Bytes ℕ
  pub sources : Assoc Bytes (SourceMetrics F)
  pub overall_throughput_bps : F
  pub overall_msg_rate_hz : F
