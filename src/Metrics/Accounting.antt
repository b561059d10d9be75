-- ===== src/Metrics/Accounting.antt =====
-- The counters of the tracker (internal/metrics/tracker.go) agree with one another.
use mavlink_doctor.Common.{
  ℕ, suc, ◌+◌, ◌≡◌, refl, [], ◌∷◌, List, inl, inr, Bytes, Bytes-Eq, arith, Option-cases, u64, total,
  Eq,
}
use mavlink_doctor.Common.Assoc.{Assoc, lookup, insert, get_or, total-insert_new, total-insert_old}
use mavlink_doctor.Gomavlib.{Frame}
use mavlink_doctor.Metrics.Float64.{Float64}
use mavlink_doctor.Metrics.Types.{EndpointKey, SourceMetrics, EndpointKey-Eq}
use mavlink_doctor.Metrics.Tracker.{
  Tracker, new_tracker, record_parse_error, type_name, bump, source_of, fresh_source, count_frame,
  track_drops, track_jitter, track_sequence, note_arrival, update_loss, update_rates, update_source,
  record_frame,
}
use mavlink_doctor.Metrics.Heartbeat.{Identity, record_heartbeat}
use mavlink_doctor.Metrics.Calls.{Call, frame, beat, bad_frame, perform, perform_all}

abbrev pub count_of : Bytes × ℕ → ℕ
count_of e = e.1

abbrev pub frames_of : {F : Type 0} → EndpointKey × SourceMetrics F → ℕ
frames_of e = e.1.total_frames

abbrev pub bytes_of : {F : Type 0} → EndpointKey × SourceMetrics F → ℕ
bytes_of e = e.1.total_bytes

-- The totals are the sums over the sources, the versions and the message types, modulo 2^64.
pub record IsCounted {F : Type 0} (t : Tracker F) : Type 0 where
  pub frames : t.total_frames ≡ u64 (total frames_of t.sources)
  pub bytes : t.total_bytes ≡ u64 (total bytes_of t.sources)
  pub versions : t.total_frames ≡ u64 (total count_of t.version_counts)
  pub messages : t.total_frames ≡ u64 (total count_of t.message_counts)

-- An entry that is replaced by one that counts `n` more adds `n` to the sum.
pub total-insert_add {ℓ} :
    {K : Type 0} {V : Type ℓ} ⦃e : Eq K⦄ (f : K × V → ℕ) (k : K) (v d : V) (n : ℕ) (m : Assoc K V)
    → f (k, d) ≡ 0
    → u64 (f (k, v)) ≡ u64 (f (k, get_or (lookup k m) d) + n)
    → u64 (total f (insert k v m)) ≡ u64 (total f m + n)
total-insert_add f k v d n m h p = elim (Option-cases (lookup k m)) [
  | inl e ↦ omega (arith, total-insert_new f k v m e, rw e at p)
  | inr (w, e) ↦ omega (arith, total-insert_old f k v w m e, rw e at p)
]

total-insert_keep {ℓ} :
    {K : Type 0} {V : Type ℓ} ⦃e : Eq K⦄ (f : K × V → ℕ) (k : K) (v d : V) (m : Assoc K V)
    → f (k, d) ≡ 0
    → f (k, v) ≡ f (k, get_or (lookup k m) d)
    → total f (insert k v m) ≡ total f m
total-insert_keep f k v d m h p = elim (Option-cases (lookup k m)) [
  | inl e ↦ omega (arith, total-insert_new f k v m e, rw e at p)
  | inr (w, e) ↦ omega (arith, total-insert_old f k v w m e, rw e at p)
]

total-bump :
    (k : Bytes) (m : Assoc Bytes ℕ) → u64 (total count_of (bump k m)) ≡ u64 (total count_of m + 1)
unfolding bump
total-bump k m = total-insert_add count_of k _ 0 1 m refl (omega arith)

module _ (fl : Float64) where
  open fl use {F}

  -- The steps after the count leave the counters of a source alone.
  frames-update_source :
      (t : Tracker F) (sm : SourceMetrics F) (fr : Frame) (n now : ℕ)
      → (update_source fl t sm fr n now).total_frames ≡ u64 (sm.total_frames + 1)
  unfolding update_source update_rates update_loss note_arrival track_sequence track_jitter
      track_drops count_frame
  frames-update_source t sm fr n now = ground arith

  bytes-update_source :
      (t : Tracker F) (sm : SourceMetrics F) (fr : Frame) (n now : ℕ)
      → (update_source fl t sm fr n now).total_bytes ≡ u64 (sm.total_bytes + n)
  unfolding update_source update_rates update_loss note_arrival track_sequence track_jitter
      track_drops count_frame
  bytes-update_source t sm fr n now = ground arith

  pub new_tracker-IsCounted : (now : ℕ) → IsCounted (new_tracker F now)
  unfolding new_tracker
  new_tracker-IsCounted now = omega arith

  pub record_parse_error-IsCounted :
      (t : Tracker F) → IsCounted t → IsCounted (record_parse_error t)
  unfolding record_parse_error
  record_parse_error-IsCounted t h = record {
    frames = h.frames;
    bytes = h.bytes;
    versions = h.versions;
    messages = h.messages;
  }

  -- A source that counts `n` more frames or bytes adds `n` to the sum over the sources.
  frames-insert_source :
      (t : Tracker F) (key : EndpointKey) (sm : SourceMetrics F) (n now : ℕ)
      → sm.total_frames ≡ u64 ((source_of fl t key now).total_frames + n)
      → u64 (total frames_of (insert key sm t.sources)) ≡ u64 (total frames_of t.sources + n)
  unfolding source_of fresh_source
  frames-insert_source t key sm n now p =
      total-insert_add frames_of key sm (fresh_source fl key now) n t.sources refl (omega arith)

  bytes-insert_source :
      (t : Tracker F) (key : EndpointKey) (sm : SourceMetrics F) (n now : ℕ)
      → sm.total_bytes ≡ u64 ((source_of fl t key now).total_bytes + n)
      → u64 (total bytes_of (insert key sm t.sources)) ≡ u64 (total bytes_of t.sources + n)
  unfolding source_of fresh_source
  bytes-insert_source t key sm n now p =
      total-insert_add bytes_of key sm (fresh_source fl key now) n t.sources refl (omega arith)

  pub record_frame-IsCounted :
      (t : Tracker F) (fr : Frame) (version : Bytes) (n now : ℕ)
      → IsCounted t
      → IsCounted (record_frame fl t fr version n now)
  unfolding record_frame
  record_frame-IsCounted t fr version n now h =
      let key : EndpointKey = record { system_id = fr.system_id; component_id = fr.component_id } in
      let sm = source_of fl t key now in
      let sm' = update_source fl t sm fr n now in
      record {
        frames = omega (
          arith,
          frames-insert_source t key sm' 1 now (frames-update_source t sm fr n now),
          h.frames,
        );
        bytes = omega (
          arith,
          bytes-insert_source t key sm' n now (bytes-update_source t sm fr n now),
          h.bytes,
        );
        versions = omega (arith, total-bump version t.version_counts, h.versions);
        messages = omega (arith, total-bump (type_name fr.message) t.message_counts, h.messages);
      }

  pub record_heartbeat-IsCounted :
      (t : Tracker F) (key : EndpointKey) (i : Identity) (now : ℕ)
      → IsCounted t
      → IsCounted (record_heartbeat fl t key i now)
  unfolding record_heartbeat source_of fresh_source
  record_heartbeat-IsCounted t key i now h = record {
    frames = omega (
      arith,
      total-insert_keep frames_of key _ (fresh_source fl key now) t.sources refl refl,
      h.frames,
    );
    bytes = omega (
      arith,
      total-insert_keep bytes_of key _ (fresh_source fl key now) t.sources refl refl,
      h.bytes,
    );
    versions = h.versions;
    messages = h.messages;
  }

  perform-IsCounted : (t : Tracker F) (c : ℕ × Call) → IsCounted t → IsCounted (perform fl t c)
  unfolding perform
  perform-IsCounted t (now, frame fr version n) h = record_frame-IsCounted t fr version n now h
  perform-IsCounted t (now, beat key i) h = record_heartbeat-IsCounted t key i now h
  perform-IsCounted t (now, bad_frame) h = record_parse_error-IsCounted t h

  perform_all-IsCounted :
      (t : Tracker F) (cs : List (ℕ × Call)) → IsCounted t → IsCounted (perform_all fl t cs)
  unfolding perform_all
  perform_all-IsCounted t [] h = h
  perform_all-IsCounted t (c ∷ cs) h =
      perform_all-IsCounted (perform fl t c) cs (perform-IsCounted t c h)

  -- After any history of calls on a new tracker, the total of frames is the sum of the frames of the
  -- sources, of the version counts and of the message counts, and the total of bytes is the sum of
  -- the bytes of the sources, each modulo 2^64.
  pub history-IsCounted :
      (start : ℕ) (cs : List (ℕ × Call)) → IsCounted (perform_all fl (new_tracker F start) cs)
  history-IsCounted start cs = perform_all-IsCounted _ cs (new_tracker-IsCounted start)

  -- How many calls of each kind a history makes.
  abbrev pub frame_calls : List (ℕ × Call) → ℕ
  frame_calls [] = 0
  frame_calls ((now, frame fr version n) ∷ cs) = suc (frame_calls cs)
  frame_calls ((now, beat key i) ∷ cs) = frame_calls cs
  frame_calls ((now, bad_frame) ∷ cs) = frame_calls cs

  abbrev pub error_calls : List (ℕ × Call) → ℕ
  error_calls [] = 0
  error_calls ((now, frame fr version n) ∷ cs) = error_calls cs
  error_calls ((now, beat key i) ∷ cs) = error_calls cs
  error_calls ((now, bad_frame) ∷ cs) = suc (error_calls cs)

  pub totals-perform_all :
      (t : Tracker F) (cs : List (ℕ × Call))
      → (u64 (perform_all fl t cs).total_frames ≡ u64 (t.total_frames + frame_calls cs))
        × (u64 (perform_all fl t cs).total_parse_errors
            ≡ u64 (t.total_parse_errors + error_calls cs))
  unfolding perform_all perform record_frame record_heartbeat record_parse_error
  totals-perform_all t [] = omega arith
  totals-perform_all t ((now, frame fr version n) ∷ cs) =
      omega (arith, totals-perform_all (record_frame fl t fr version n now) cs)
  totals-perform_all t ((now, beat key i) ∷ cs) =
      omega (arith, totals-perform_all (record_heartbeat fl t key i now) cs)
  totals-perform_all t ((now, bad_frame) ∷ cs) =
      omega (arith, totals-perform_all (record_parse_error t) cs)
