-- ===== src/Metrics/Tracker.antt =====
-- internal/metrics/tracker.go: the tracker and its operations. Each runs under the tracker's mutex,
-- so it is one step of the state; the time that `time.Now` returns is an argument.
use mavlink_doctor.Common.{
  ℕ, ◌+◌, ◌-◌, ◌%◌, Bool, true, false, none, [], Bytes, codes, if◌then◌else◌, nat_eq, ltb, u8, u64,
  ℕ-Eq, Bytes-Eq,
}
use mavlink_doctor.Common.Assoc.{Assoc, lookup, insert, get_or}
use mavlink_doctor.Common.Int.{ℤ, pos, ◌-ℤ◌, sub_ℕ, quot_ℤ, rem_ℤ, is_positive}
use mavlink_doctor.Gomavlib.{
  Message, heartbeat, gimbal_device_attitude_status, gimbal_device_information,
  gimbal_manager_status, gimbal_manager_information, mount_orientation, other, Frame,
}
use mavlink_doctor.Metrics.Float64.{Float64}
use mavlink_doctor.Metrics.Types.{EndpointKey, SourceMetrics, EndpointKey-Eq}

pub record Tracker (F : Type 0) : Type 0 where
  pub start_time : ℕ
  pub total_frames : ℕ
  pub total_bytes : ℕ
  pub total_parse_errors : ℕ
  pub version_counts : Assoc Bytes ℕ
  pub message_counts : Assoc Bytes ℕ
  pub sources : Assoc EndpointKey (SourceMetrics F)
  pub sys_last_seq : Assoc ℕ ℕ
  pub sys_has_seq : Assoc ℕ Bool

unfoldable pub new_tracker : (F : Type 0) → ℕ → Tracker F
new_tracker F now = record {
  start_time = now;
  total_frames = 0;
  total_bytes = 0;
  total_parse_errors = 0;
  version_counts = [];
  message_counts = [];
  sources = [];
  sys_last_seq = [];
  sys_has_seq = [];
}

unfoldable pub record_parse_error : {F : Type 0} → Tracker F → Tracker F
record_parse_error t = record t { total_parse_errors = u64 (t.total_parse_errors + 1) }

-- `fmt.Sprintf("%T", msg)`. The packages are those of gomavlib's dialects, of which common's heartbeat is an
-- alias of minimal's; no theorem depends on the texts.
unfoldable pub type_name : Message → Bytes
type_name (heartbeat _ _ _) = codes "*minimal.MessageHeartbeat"
type_name (gimbal_device_attitude_status _ _) = codes "*common.MessageGimbalDeviceAttitudeStatus"
type_name (gimbal_device_information _ _ _) = codes "*common.MessageGimbalDeviceInformation"
type_name (gimbal_manager_status _) = codes "*common.MessageGimbalManagerStatus"
type_name (gimbal_manager_information _) = codes "*common.MessageGimbalManagerInformation"
type_name (mount_orientation _ _ _) = codes "*common.MessageMountOrientation"
type_name (other name) = name

-- `counts[k]++` on a map of uint64.
unfoldable pub bump : Bytes → Assoc Bytes ℕ → Assoc Bytes ℕ
bump k counts = insert k (u64 (get_or (lookup k counts) 0 + 1)) counts

unfoldable pub expected_seq : ℕ → ℕ
expected_seq last = u8 ((last + 1) % 256)

unfoldable pub sequence_gap : ℕ → ℕ → ℕ
sequence_gap last current = (256 + current - last - 1) % 256

abbrev pub millisecond : ℕ
millisecond = 1_000_000

abbrev pub second : ℕ
second = 1_000_000_000

module _ (fl : Float64) where
  open fl use {F, of_nat, of_int, ratio, add, mul, div, abs, lt, le, is_zero}

  -- `time.Duration.Seconds` and `Microseconds`.
  unfoldable pub seconds : ℤ → F
  seconds d = add (of_int (quot_ℤ d second)) (div (of_int (rem_ℤ d second)) (ratio second 1))

  unfoldable pub microseconds : ℤ → ℤ
  microseconds d = quot_ℤ d 1000

  unfoldable pub fresh_source : EndpointKey → ℕ → SourceMetrics F
  fresh_source key now = record {
    system_id = key.system_id;
    component_id = key.component_id;
    first_seen = now;
    last_seen = now;
    total_frames = 0;
    total_bytes = 0;
    dropped_frames = 0;
    packet_loss_pct = ratio 0 1;
    msg_rate_hz = ratio 0 1;
    data_rate_bytes_sec = ratio 0 1;
    jitter_ms = ratio 0 1;
    last_seq = 0;
    has_last_seq = false;
    last_arrival_time = now;
    last_interval = pos 0;
    heartbeat_stats = none;
  }

  -- `sm, exists := t.sources[key]`, with the entry made when it is missing.
  unfoldable pub source_of : Tracker F → EndpointKey → ℕ → SourceMetrics F
  source_of t key now = get_or (lookup key t.sources) (fresh_source key now)

  unfoldable pub count_frame : SourceMetrics F → ℕ → ℕ → SourceMetrics F
  count_frame sm approx_bytes now = record sm {
    total_frames = u64 (sm.total_frames + 1);
    total_bytes = u64 (sm.total_bytes + approx_bytes);
    last_seen = now;
  }

  unfoldable pub track_drops : SourceMetrics F → ℕ → ℕ → SourceMetrics F
  track_drops sm last current =
      if nat_eq current (expected_seq last)
      then sm
      else record sm { dropped_frames = u64 (sm.dropped_frames + sequence_gap last current) }

  unfoldable pub next_jitter : F → F → F
  next_jitter jitter diff =
      if is_zero jitter then diff else add (mul (ratio 8 10) jitter) (mul (ratio 2 10) diff)

  unfoldable pub track_jitter : SourceMetrics F → ℕ → SourceMetrics F
  track_jitter sm now =
      let interval = sub_ℕ now sm.last_arrival_time in
      let diff = abs (div (of_int (interval -ℤ sm.last_interval)) (of_int (pos millisecond))) in
      let jitter =
        if is_positive sm.last_interval then next_jitter sm.jitter_ms diff else sm.jitter_ms in
      record sm { jitter_ms = jitter; last_interval = interval }

  -- The block under `if t.sysHasSeq[sysID]`.
  unfoldable pub track_sequence : Tracker F → SourceMetrics F → Frame → ℕ → SourceMetrics F
  track_sequence t sm fr now =
      if get_or (lookup fr.system_id t.sys_has_seq) false
      then track_jitter
          (track_drops sm (get_or (lookup fr.system_id t.sys_last_seq) 0) fr.sequence_number) now
      else sm

  unfoldable pub note_arrival : SourceMetrics F → ℕ → ℕ → SourceMetrics F
  note_arrival sm current now = record sm {
    last_seq = current;
    has_last_seq = true;
    last_arrival_time = now;
  }

  unfoldable pub loss_pct : ℕ → ℕ → F
  loss_pct dropped expected = mul (div (of_nat dropped) (of_nat expected)) (ratio 100 1)

  unfoldable pub update_loss : SourceMetrics F → SourceMetrics F
  update_loss sm =
      let expected = u64 (sm.total_frames + sm.dropped_frames) in
      if ltb 0 expected
      then record sm { packet_loss_pct = loss_pct sm.dropped_frames expected }
      else sm

  unfoldable pub update_rates : SourceMetrics F → ℕ → SourceMetrics F
  update_rates sm now =
      let elapsed = seconds (sub_ℕ now sm.first_seen) in
      if lt (ratio 5 100) elapsed
      then record sm {
        msg_rate_hz = div (of_nat sm.total_frames) elapsed;
        data_rate_bytes_sec = div (of_nat sm.total_bytes) elapsed;
      }
      else sm

  -- What `RecordFrame` does to the record of the frame's source.
  unfoldable pub update_source : Tracker F → SourceMetrics F → Frame → ℕ → ℕ → SourceMetrics F
  update_source t sm fr approx_bytes now =
      let tracked = track_sequence t (count_frame sm approx_bytes now) fr now in
      update_rates (update_loss (note_arrival tracked fr.sequence_number now)) now

  -- `approx_bytes` is an `int` that callers keep at 0 or more.
  unfoldable pub record_frame : Tracker F → Frame → Bytes → ℕ → ℕ → Tracker F
  record_frame t fr version approx_bytes now =
      let key : EndpointKey = record { system_id = fr.system_id; component_id = fr.component_id } in
      let sm = update_source t (source_of t key now) fr approx_bytes now in
      record t {
        total_frames = u64 (t.total_frames + 1);
        total_bytes = u64 (t.total_bytes + approx_bytes);
        version_counts = bump version t.version_counts;
        message_counts = bump (type_name fr.message) t.message_counts;
        sources = insert key sm t.sources;
        sys_last_seq = insert fr.system_id fr.sequence_number t.sys_last_seq;
        sys_has_seq = insert fr.system_id true t.sys_has_seq;
      }
