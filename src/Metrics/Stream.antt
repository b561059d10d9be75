-- ===== src/Metrics/Stream.antt =====
-- The dropped frames over a whole stream of one system (internal/metrics/tracker.go).
use mavlink_doctor.Common.{ℕ, ◌+◌, ◌%◌, ◌≡◌, refl, List, [], ◌∷◌, Bytes, ℕ-Eq, arith, u64, total}
use mavlink_doctor.Common.Assoc.{insert}
use mavlink_doctor.Gomavlib.{Frame, Message, v2_frame}
use mavlink_doctor.Metrics.Float64.{Float64}
use mavlink_doctor.Metrics.Types.{EndpointKey, SourceMetrics, EndpointKey-Eq}
use mavlink_doctor.Metrics.Tracker.{Tracker, source_of, fresh_source, update_source, record_frame}
use mavlink_doctor.Metrics.Accounting.{total-insert_add}
use mavlink_doctor.Metrics.Sequence.{
  HasLast, key_of, dropped-update_source, dropped-track_drops, record_frame-HasLast,
}

-- A frame that a system sends from one of its components, with the number of frames that the link
-- loses just before it.
pub record Sent : Type 0 where
  pub component_id : ℕ
  pub message : Message
  pub lost : ℕ
  pub arrival : ℕ

-- The components of a system share one counter, which goes up by one with each frame sent.
abbrev pub frame_after : ℕ → ℕ → Sent → Frame
frame_after sys last s = record {
  kind = v2_frame;
  message = s.message;
  system_id = sys;
  component_id = s.component_id;
  sequence_number = (last + s.lost + 1) % 256;
}

abbrev pub dropped_of : {F : Type 0} → EndpointKey × SourceMetrics F → ℕ
dropped_of e = e.1.dropped_frames

abbrev pub lost_of : Sent → ℕ
lost_of s = s.lost % 256

module _ (fl : Float64) (version : Bytes) (n sys : ℕ) where
  open fl use {F}

  -- The tracker after a stream of frames that follow the number `last`.
  pub receive : Tracker F → ℕ → List Sent → Tracker F
  receive t last [] = t
  receive t last (s ∷ ss) =
      receive (record_frame fl t (frame_after sys last s) version n s.arrival)
        ((last + s.lost + 1) % 256) ss

  dropped-insert_source :
      (t : Tracker F) (key : EndpointKey) (sm : SourceMetrics F) (k now : ℕ)
      → u64 sm.dropped_frames ≡ u64 ((source_of fl t key now).dropped_frames + k)
      → u64 (total dropped_of (insert key sm t.sources)) ≡ u64 (total dropped_of t.sources + k)
  unfolding source_of fresh_source
  dropped-insert_source t key sm k now p =
      total-insert_add dropped_of key sm (fresh_source fl key now) k t.sources refl p

  dropped-record_frame :
      (t : Tracker F) (last : ℕ) (s : Sent)
      → HasLast t sys last
      → u64 (
          total dropped_of (record_frame fl t (frame_after sys last s) version n s.arrival).sources)
        ≡ u64 (total dropped_of t.sources + lost_of s)
  unfolding record_frame
  dropped-record_frame t last s h =
      let fr = frame_after sys last s in
      let sm = source_of fl t (key_of fr) s.arrival in
      dropped-insert_source t (key_of fr) (update_source fl t sm fr n s.arrival) (lost_of s)
        s.arrival
        (rw (dropped-update_source fl t sm fr n s.arrival last h)
          (dropped-track_drops fl sm last s.lost fr.sequence_number h.2 refl))

  -- Every frame of a system that is received after the first adds to the dropped frames, summed over
  -- all sources, the number of frames lost before it, modulo 256, whichever components send them.
  pub dropped-receive :
      (t : Tracker F) (last : ℕ) (ss : List Sent)
      → HasLast t sys last
      → u64 (total dropped_of (receive t last ss).sources)
        ≡ u64 (total dropped_of t.sources + total lost_of ss)
  unfolding receive
  dropped-receive t last [] h = omega arith
  dropped-receive t last (s ∷ ss) h =
      let fr = frame_after sys last s in
      let t' = record_frame fl t fr version n s.arrival in
      omega (
        arith,
        dropped-record_frame t last s h,
        dropped-receive t' ((last + s.lost + 1) % 256) ss
            (record_frame-HasLast fl t fr version n s.arrival (omega arith)),
      )
