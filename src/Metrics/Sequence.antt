-- ===== src/Metrics/Sequence.antt =====
-- Sequence gaps (internal/metrics/tracker.go, the block under `if t.sysHasSeq[sysID]`).
use mavlink_doctor.Common.{ℕ, ◌+◌, ◌-◌, ◌%◌, ◌<◌, ◌≡◌, ◌≢◌, some, true, Bytes, ℕ-Eq, arith, u64}
use mavlink_doctor.Common.Assoc.{lookup, lookup-insert_self}
use mavlink_doctor.Gomavlib.{Frame}
use mavlink_doctor.Metrics.Float64.{Float64}
use mavlink_doctor.Metrics.Types.{EndpointKey, SourceMetrics, EndpointKey-Eq}
use mavlink_doctor.Metrics.Tracker.{
  Tracker, expected_seq, sequence_gap, source_of, count_frame, track_drops, track_jitter,
  track_sequence, note_arrival, update_loss, update_rates, update_source, record_frame,
}

-- When the sender has sent `lost` frames in between, numbered modulo 256, the gap is `lost` modulo
-- 256.
sequence_gap_lost :
    (last lost : ℕ) → last < 256 → sequence_gap last ((last + lost + 1) % 256) ≡ lost % 256
unfolding sequence_gap
sequence_gap_lost last lost h = omega arith

expected_seq_lost :
    (last lost : ℕ) → last < 256 → (last + lost + 1) % 256 ≡ expected_seq last → lost % 256 ≡ 0
unfolding expected_seq
expected_seq_lost last lost h p = omega arith

-- The last sequence number of a system, as the tracker keeps it.
abbrev pub HasLast : {F : Type 0} → Tracker F → ℕ → ℕ → Type 0
HasLast t sys last =
    (lookup sys t.sys_has_seq ≡ some true) × (lookup sys t.sys_last_seq ≡ some last) × (last < 256)

abbrev pub key_of : Frame → EndpointKey
key_of fr = record { system_id = fr.system_id; component_id = fr.component_id }

module _ (fl : Float64) where
  open fl use {F}

  pub dropped-update_source :
      (t : Tracker F) (sm : SourceMetrics F) (fr : Frame) (n now last : ℕ)
      → HasLast t fr.system_id last
      → (update_source fl t sm fr n now).dropped_frames
        ≡ (track_drops fl sm last fr.sequence_number).dropped_frames
  unfolding update_source update_rates update_loss note_arrival track_sequence track_jitter
      track_drops count_frame
  dropped-update_source t sm fr n now last h = ground arith

  pub dropped-track_drops :
      (sm : SourceMetrics F) (last lost current : ℕ)
      → last < 256
      → current ≡ (last + lost + 1) % 256
      → u64 (track_drops fl sm last current).dropped_frames ≡ u64 (sm.dropped_frames + lost % 256)
  unfolding track_drops
  dropped-track_drops sm last lost current h p =
      ground (arith, expected_seq_lost last lost, sequence_gap_lost last lost)

  pub source_of-record_frame :
      (t : Tracker F) (fr : Frame) (version : Bytes) (n now later : ℕ)
      → source_of fl (record_frame fl t fr version n now) (key_of fr) later
        ≡ update_source fl t (source_of fl t (key_of fr) now) fr n now
  unfolding source_of record_frame
  source_of-record_frame t fr version n now later = rw (
      lookup-insert_self (key_of fr) (update_source fl t (source_of fl t (key_of fr) now) fr n now)
        t.sources)

  pub record_frame-HasLast :
      (t : Tracker F) (fr : Frame) (version : Bytes) (n now : ℕ)
      → fr.sequence_number < 256
      → HasLast (record_frame fl t fr version n now) fr.system_id fr.sequence_number
  unfolding record_frame
  record_frame-HasLast t fr version n now h = (
    lookup-insert_self fr.system_id true t.sys_has_seq,
    lookup-insert_self fr.system_id fr.sequence_number t.sys_last_seq,
    h,
  )

  -- The tracker has the last sequence number `last` of the frame's system, and the sender sent
  -- `lost` frames in between, numbered modulo 256. Then the frame adds `lost` modulo 256 to the
  -- dropped frames of its source (modulo 2^64), and its own number is the last one afterwards.
  pub record_frame_drops :
      (t : Tracker F) (fr : Frame) (version : Bytes) (n now later last lost : ℕ)
      → HasLast t fr.system_id last
      → fr.sequence_number ≡ (last + lost + 1) % 256
      → (u64 (source_of fl (record_frame fl t fr version n now) (key_of fr) later).dropped_frames
          ≡ u64 ((source_of fl t (key_of fr) now).dropped_frames + lost % 256))
        × HasLast (record_frame fl t fr version n now) fr.system_id fr.sequence_number
  record_frame_drops t fr version n now later last lost h p =
      let sm = source_of fl t (key_of fr) now in
      (
        rw
            (
              source_of-record_frame t fr version n now later,
              dropped-update_source t sm fr n now last h,
            )
            (dropped-track_drops sm last lost fr.sequence_number h.2 p),
        record_frame-HasLast t fr version n now (omega arith),
      )

  -- Two components of one system that number their frames each on its own: a frame that follows the
  -- last one of its own component, while another component was last heard with another number, is
  -- charged with the distance of the two numbers, which is not 0.
  pub interleaved_drops :
      (t : Tracker F) (fr : Frame) (version : Bytes) (n now later last : ℕ)
      → HasLast t fr.system_id last
      → let sm = source_of fl t (key_of fr) now in
        sm.last_seq < 256
        → sm.last_seq ≢ last
        → fr.sequence_number ≡ (sm.last_seq + 1) % 256
        → (u64 (source_of fl (record_frame fl t fr version n now) (key_of fr) later).dropped_frames
            ≡ u64 (sm.dropped_frames + (sm.last_seq + 256 - last) % 256))
          × (0 < (sm.last_seq + 256 - last) % 256)
  interleaved_drops t fr version n now later last h b d p =
      let own : ℕ = (source_of fl t (key_of fr) now).last_seq in
      (
        (record_frame_drops t fr version n now later last (own + 256 - last) h (omega arith)).0,
        omega arith,
      )
