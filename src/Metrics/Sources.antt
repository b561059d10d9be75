-- ===== src/Metrics/Sources.antt =====
-- The table of sources (internal/metrics/tracker.go): which entry an operation touches.
use mavlink_doctor.Common.{
  ℕ, ◌≡◌, refl, inl, inr, List, [], ◌∷◌, Bytes-Eq, arith, Option-cases, All, ap,
}
use mavlink_doctor.Common.Assoc.{
  lookup, Distinct, insert-Distinct, All-insert, All-lookup, lookup-insert_ne,
}
use mavlink_doctor.Gomavlib.{Frame}
use mavlink_doctor.Metrics.Float64.{Float64}
use mavlink_doctor.Metrics.Types.{EndpointKey, SourceMetrics, EndpointKey-Eq}
use mavlink_doctor.Metrics.Tracker.{
  Tracker, new_tracker, record_parse_error, source_of, fresh_source, count_frame, track_drops,
  track_jitter, track_sequence, note_arrival, update_loss, update_rates, update_source,
  record_frame, bump, type_name,
}
use mavlink_doctor.Metrics.Heartbeat.{record_heartbeat}
use mavlink_doctor.Metrics.Calls.{Call, frame, beat, bad_frame, perform, perform_all}

-- An entry carries the identifiers of its key.
abbrev pub IsLabelled : {F : Type 0} → EndpointKey × SourceMetrics F → Type 0
IsLabelled e = (e.1.system_id ≡ e.0.system_id) × (e.1.component_id ≡ e.0.component_id)

pub record IsTable {F : Type 0} (t : Tracker F) : Type 0 where
  pub distinct : Distinct t.sources
  pub labelled : All IsLabelled t.sources
  pub versions : Distinct t.version_counts
  pub messages : Distinct t.message_counts

-- The source that a call is about, where it is about one.
abbrev pub Concerns : Call → EndpointKey → Type 0
Concerns (frame fr version n) k = (fr.system_id ≡ k.system_id) × (fr.component_id ≡ k.component_id)
Concerns (beat key i) k = key ≡ k
Concerns bad_frame k = ⊥

module _ (fl : Float64) where
  open fl use {F}

  source_of-IsLabelled :
      (t : Tracker F) (key : EndpointKey) (now : ℕ)
      → All IsLabelled t.sources
      → IsLabelled (key, source_of fl t key now)
  unfolding source_of fresh_source
  source_of-IsLabelled t key now h = elim (Option-cases (lookup key t.sources)) [
    | inl e ↦ rw e (refl, refl)
    | inr (sm, e) ↦ rw e (All-lookup IsLabelled key t.sources h e)
  ]

  labels-update_source :
      (t : Tracker F) (sm : SourceMetrics F) (fr : Frame) (n now : ℕ)
      → ((update_source fl t sm fr n now).system_id ≡ sm.system_id)
        × ((update_source fl t sm fr n now).component_id ≡ sm.component_id)
  unfolding update_source update_rates update_loss note_arrival track_sequence track_jitter
      track_drops count_frame
  labels-update_source t sm fr n now = ground arith

  perform-IsTable : (t : Tracker F) (c : ℕ × Call) → IsTable t → IsTable (perform fl t c)
  unfolding perform record_frame record_heartbeat record_parse_error bump
  perform-IsTable t (now, frame fr version n) h =
      let key : EndpointKey = record { system_id = fr.system_id; component_id = fr.component_id } in
      let sm = source_of fl t key now in
      record {
        distinct = insert-Distinct key (update_source fl t sm fr n now) t.sources h.distinct;
        labelled = All-insert IsLabelled key (update_source fl t sm fr n now) t.sources h.labelled (
            ground (
              arith,
              labels-update_source t sm fr n now,
              source_of-IsLabelled t key now h.labelled,
            ));
        versions = insert-Distinct version _ t.version_counts h.versions;
        messages = insert-Distinct (type_name fr.message) _ t.message_counts h.messages;
      }
  perform-IsTable t (now, beat key i) h = record {
    distinct = insert-Distinct key _ t.sources h.distinct;
    labelled =
        All-insert IsLabelled key _ t.sources h.labelled
          (source_of-IsLabelled t key now h.labelled);
    versions = h.versions;
    messages = h.messages;
  }
  perform-IsTable t (now, bad_frame) h = record {
    distinct = h.distinct;
    labelled = h.labelled;
    versions = h.versions;
    messages = h.messages;
  }

  pub perform_all-IsTable :
      (t : Tracker F) (cs : List (ℕ × Call)) → IsTable t → IsTable (perform_all fl t cs)
  unfolding perform_all
  perform_all-IsTable t [] h = h
  perform_all-IsTable t (c ∷ cs) h = perform_all-IsTable (perform fl t c) cs (perform-IsTable t c h)

  -- After any history of calls on a new tracker, no source, version or message type has two entries,
  -- and each entry of a source carries the system and the component of its key.
  pub history-IsTable :
      (start : ℕ) (cs : List (ℕ × Call)) → IsTable (perform_all fl (new_tracker F start) cs)
  unfolding new_tracker
  history-IsTable start cs =
      perform_all-IsTable _ cs
        (record { distinct = tt; labelled = tt; versions = tt; messages = tt })

  -- A call leaves the entry of every source that it is not about as it was, and makes none.
  pub lookup-perform_other :
      (t : Tracker F) (now : ℕ) (c : Call) (k : EndpointKey)
      → ¬ Concerns c k
      → lookup k (perform fl t (now, c)).sources ≡ lookup k t.sources
  unfolding perform record_frame record_heartbeat record_parse_error
  lookup-perform_other t now (frame fr version n) k h =
      lookup-insert_ne (record { system_id = fr.system_id; component_id = fr.component_id }) k _
        t.sources
        (λ p.
          h (ap (λ (j : EndpointKey). j.system_id) p, ap (λ (j : EndpointKey). j.component_id) p))
  lookup-perform_other t now (beat key i) k h = lookup-insert_ne key k _ t.sources h
  lookup-perform_other t now bad_frame k h = refl
