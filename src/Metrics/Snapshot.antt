-- ===== src/Metrics/Snapshot.antt =====
-- internal/metrics/tracker.go, `Snapshot` and `MessageStats`: copies of the state. Go iterates over a
-- map in any order, and the copies are maps again, so the order of the list is that of the source.
use mavlink_doctor.Common.{ℕ, ◌∷◌, [], ◌++◌, Bytes, Bytes-Eq, if◌then◌else◌}
use mavlink_doctor.Common.Assoc.{Assoc, insert}
use mavlink_doctor.Common.Decimal.{decimal}
use mavlink_doctor.Common.Int.{sub_ℕ}
use mavlink_doctor.Metrics.Float64.{Float64}
use mavlink_doctor.Metrics.Types.{EndpointKey, SourceMetrics, GlobalMetrics}
use mavlink_doctor.Metrics.Tracker.{Tracker, seconds}

-- `fmt.Sprintf("%d/%d", k.SystemID, k.ComponentID)`
unfoldable pub key_text : EndpointKey → Bytes
key_text k = decimal k.system_id ++ (b'/' ∷ decimal k.component_id)

-- `for k, v := range counts { copy[k] = v }`
unfoldable pub copy_counts : Assoc Bytes ℕ → Assoc Bytes ℕ → Assoc Bytes ℕ
copy_counts copied [] = copied
copy_counts copied ((k, v) ∷ m) = copy_counts (insert k v copied) m

unfoldable pub copy_sources :
    {F : Type 0}
    → Assoc Bytes (SourceMetrics F)
    → Assoc EndpointKey (SourceMetrics F)
    → Assoc Bytes (SourceMetrics F)
copy_sources copied [] = copied
copy_sources copied ((k, v) ∷ m) = copy_sources (insert (key_text k) v copied) m

unfoldable pub message_stats : {F : Type 0} → Tracker F → Assoc Bytes ℕ
message_stats t = copy_counts [] t.message_counts

module _ (fl : Float64) where
  open fl use {F, of_nat, ratio, div, lt}

  unfoldable pub rate_over : F → ℕ → F
  rate_over elapsed n = if lt (ratio 5 100) elapsed then div (of_nat n) elapsed else ratio 0 1

  unfoldable pub snapshot : Tracker F → ℕ → GlobalMetrics F
  snapshot t now =
      let elapsed = seconds fl (sub_ℕ now t.start_time) in
      record {
        start_time = t.start_time;
        duration_seconds = elapsed;
        total_frames = t.total_frames;
        total_bytes = t.total_bytes;
        total_parse_errors = t.total_parse_errors;
        version_counts = copy_counts [] t.version_counts;
        message_counts = copy_counts [] t.message_counts;
        sources = copy_sources [] t.sources;
        overall_throughput_bps = rate_over elapsed t.total_bytes;
        overall_msg_rate_hz = rate_over elapsed t.total_frames;
      }
