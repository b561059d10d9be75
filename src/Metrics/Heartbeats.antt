-- ===== src/Metrics/Heartbeats.antt =====
-- Heartbeat counts and verdicts over a history (internal/metrics/tracker.go, `RecordHeartbeat`).
use mavlink_doctor.Common.{
  ℕ, ◌+◌, ◌≡◌, refl, sym, subst, inl, inr, List, [], ◌∷◌, Option, none, some, true, Bytes, arith,
  u64, ◌==◌, if◌then◌else◌, Bool-cases, eq_of_==, ap, ◌∙◌,
}
use mavlink_doctor.Common.Assoc.{lookup, lookup-insert}
use mavlink_doctor.Gomavlib.{Frame}
use mavlink_doctor.Metrics.Float64.{Float64}
use mavlink_doctor.Metrics.Types.{EndpointKey, HeartbeatStats, SourceMetrics, EndpointKey-Eq}
use mavlink_doctor.Metrics.Tracker.{
  Tracker, new_tracker, record_parse_error, source_of, fresh_source, count_frame, track_drops,
  track_jitter, track_sequence, note_arrival, update_loss, update_rates, update_source,
  record_frame,
}
use mavlink_doctor.Metrics.Heartbeat.{
  Identity, note_interval, is_healthy_rate, judge, next_heartbeat, record_heartbeat,
}
use mavlink_doctor.Metrics.Calls.{Call, frame, beat, bad_frame, perform, perform_all}

abbrev pub count_of_stats : {F : Type 0} → Option (HeartbeatStats F) → ℕ
count_of_stats none = 0
count_of_stats (some hb) = hb.count

-- How many heartbeats of a source a history records.
abbrev pub beats : EndpointKey → List (ℕ × Call) → ℕ
beats k [] = 0
beats k ((now, frame fr version n) ∷ cs) = beats k cs
beats k ((now, beat key i) ∷ cs) = (if key == k then 1 else 0) + beats k cs
beats k ((now, bad_frame) ∷ cs) = beats k cs

abbrev pub entry_stats : {F : Type 0} → Option (SourceMetrics F) → Option (HeartbeatStats F)
entry_stats none = none
entry_stats (some sm) = sm.heartbeat_stats

module _ (fl : Float64) where
  open fl use {F, ratio, le}

  -- The heartbeat statistics of a source, where it has an entry.
  abbrev pub stats_of : Tracker F → EndpointKey → Option (HeartbeatStats F)
  stats_of t k = entry_stats (lookup k t.sources)

  stats-source_of :
      (t : Tracker F) (k : EndpointKey) (now : ℕ)
      → (source_of fl t k now).heartbeat_stats ≡ stats_of t k
  unfolding source_of fresh_source
  stats-source_of t k now = ground arith

  stats-update_source :
      (t : Tracker F) (sm : SourceMetrics F) (fr : Frame) (n now : ℕ)
      → (update_source fl t sm fr n now).heartbeat_stats ≡ sm.heartbeat_stats
  unfolding update_source update_rates update_loss note_arrival track_sequence track_jitter
      track_drops count_frame
  stats-update_source t sm fr n now = ground arith

  count-next_heartbeat :
      (o : Option (HeartbeatStats F)) (i : Identity) (now : ℕ)
      → u64 (next_heartbeat fl o i now).count ≡ u64 (count_of_stats o + 1)
  unfolding next_heartbeat judge note_interval
  count-next_heartbeat none i now = refl
  count-next_heartbeat (some hb) i now = ground arith

  -- What each call does to the statistics of the source `k`.
  stats-record_frame :
      (t : Tracker F) (fr : Frame) (version : Bytes) (n now : ℕ) (k : EndpointKey)
      → stats_of (record_frame fl t fr version n now) k ≡ stats_of t k
  unfolding record_frame
  stats-record_frame t fr version n now k =
      let key : EndpointKey = record { system_id = fr.system_id; component_id = fr.component_id } in
      let sm = update_source fl t (source_of fl t key now) fr n now in
      rw (lookup-insert key k sm t.sources) (elim (Bool-cases (key == k)) [
        | inl p ↦ rw p (
            stats-update_source t (source_of fl t key now) fr n now
            ∙ stats-source_of t key now
            ∙ ap (stats_of t) (eq_of_== key k p))
        | inr q ↦ rw q
      ])

  stats-record_heartbeat :
      (t : Tracker F) (key : EndpointKey) (i : Identity) (now : ℕ) (k : EndpointKey)
      → stats_of (record_heartbeat fl t key i now) k
        ≡ (if key == k then some (next_heartbeat fl (stats_of t k) i now) else stats_of t k)
  unfolding record_heartbeat
  stats-record_heartbeat t key i now k =
      let sm = source_of fl t key now in
      rw (lookup-insert key k _ t.sources) (elim (Bool-cases (key == k)) [
        | inl p ↦ rw p (
            ap (λ o. some (next_heartbeat fl o i now))
              (stats-source_of t key now ∙ ap (stats_of t) (eq_of_== key k p)))
        | inr q ↦ rw q
      ])

  count-perform_all :
      (t : Tracker F) (cs : List (ℕ × Call)) (k : EndpointKey)
      → u64 (count_of_stats (stats_of (perform_all fl t cs) k))
        ≡ u64 (count_of_stats (stats_of t k) + beats k cs)
  unfolding perform_all perform record_parse_error
  count-perform_all t [] k = omega arith
  count-perform_all t ((now, frame fr version n) ∷ cs) k = omega (
    arith,
    count-perform_all (record_frame fl t fr version n now) cs k,
    ap count_of_stats (stats-record_frame t fr version n now k),
  )
  count-perform_all t ((now, beat key i) ∷ cs) k =
      let ih = count-perform_all (record_heartbeat fl t key i now) cs k in
      let one = ap count_of_stats (stats-record_heartbeat t key i now k) in
      elim (Bool-cases (key == k)) [
        | inl p ↦ rw p (omega (arith, ih, rw p at one, count-next_heartbeat (stats_of t k) i now))
        | inr q ↦ rw q (omega (arith, ih, rw q at one))
      ]
  count-perform_all t ((now, bad_frame) ∷ cs) k = count-perform_all (record_parse_error t) cs k

  -- After any history of calls on a new tracker, the heartbeat count of each source is the number of
  -- heartbeats that the history records for it, modulo 2^64, and 0 for a source with no statistics.
  pub history_heartbeats :
      (start : ℕ) (cs : List (ℕ × Call)) (k : EndpointKey)
      → u64 (count_of_stats (stats_of (perform_all fl (new_tracker F start) cs) k))
        ≡ u64 (beats k cs)
  unfolding new_tracker lookup
  history_heartbeats start cs k = omega (arith, count-perform_all (new_tracker F start) cs k)

  -- A healthy verdict goes with an average interval of 200 ms to 2500 ms.
  abbrev pub IsJudged : Option (HeartbeatStats F) → Type 0
  IsJudged none = Unit
  IsJudged (some hb) =
      hb.is_healthy ≡ true
      → (le (ratio 200 1) hb.avg_interval_ms ≡ true) × (le hb.avg_interval_ms (ratio 2500 1) ≡ true)

  next_heartbeat-IsJudged :
      (o : Option (HeartbeatStats F)) (i : Identity) (now : ℕ)
      → IsJudged o
      → IsJudged (some (next_heartbeat fl o i now))
  unfolding next_heartbeat judge note_interval is_healthy_rate
  next_heartbeat-IsJudged none i now h = λ p. cc
  next_heartbeat-IsJudged (some hb) i now h = λ p. ground (arith, h)

  perform-IsJudged :
      (t : Tracker F) (c : ℕ × Call) (k : EndpointKey)
      → IsJudged (stats_of t k)
      → IsJudged (stats_of (perform fl t c) k)
  unfolding perform record_parse_error
  perform-IsJudged t (now, frame fr version n) k h =
      subst IsJudged (sym (stats-record_frame t fr version n now k)) h
  perform-IsJudged t (now, beat key i) k h =
      subst IsJudged (sym (stats-record_heartbeat t key i now k)) (elim (Bool-cases (key == k)) [
        | inl p ↦ rw p (next_heartbeat-IsJudged (stats_of t k) i now h)
        | inr q ↦ rw q h
      ])
  perform-IsJudged t (now, bad_frame) k h = h

  perform_all-IsJudged :
      (t : Tracker F) (cs : List (ℕ × Call)) (k : EndpointKey)
      → IsJudged (stats_of t k)
      → IsJudged (stats_of (perform_all fl t cs) k)
  unfolding perform_all
  perform_all-IsJudged t [] k h = h
  perform_all-IsJudged t (c ∷ cs) k h =
      perform_all-IsJudged (perform fl t c) cs k (perform-IsJudged t c k h)

  -- After any history of calls on a new tracker, a source whose heartbeat is marked healthy has an
  -- average heartbeat interval from 200 ms to 2500 ms in its statistics: the verdict is not stale.
  pub history_verdict :
      (start : ℕ) (cs : List (ℕ × Call)) (k : EndpointKey) (hb : HeartbeatStats F)
      → stats_of (perform_all fl (new_tracker F start) cs) k ≡ some hb
      → hb.is_healthy ≡ true
      → (le (ratio 200 1) hb.avg_interval_ms ≡ true) × (le hb.avg_interval_ms (ratio 2500 1) ≡ true)
  unfolding new_tracker lookup
  history_verdict start cs k hb e =
      subst IsJudged e (perform_all-IsJudged (new_tracker F start) cs k tt)
