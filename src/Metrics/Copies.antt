-- ===== src/Metrics/Copies.antt =====
-- What `Snapshot` and `MessageStats` of internal/metrics/tracker.go give back of the tracker's maps.
use mavlink_doctor.Common.{
  ℕ, ◌≡◌, refl, sym, ◌∙◌, inl, inr, Option, List, [], ◌∷◌, ◌++◌, none, some, Bytes, Bytes-Eq, ◌==◌,
  eq_of_==, ne_of_==, arith, Bool-cases, All,
}
use mavlink_doctor.Common.Assoc.{
  Assoc, lookup, insert, Distinct, lookup-insert_self, lookup-insert_ne,
}
use mavlink_doctor.Common.Decimal.{decimal, decimal-injective, IsDigit, All-decimal}
use mavlink_doctor.Metrics.Float64.{Float64}
use mavlink_doctor.Metrics.Types.{EndpointKey, SourceMetrics, EndpointKey-Eq}
use mavlink_doctor.Metrics.Tracker.{new_tracker}
use mavlink_doctor.Metrics.Snapshot.{key_text, copy_counts, copy_sources, message_stats, snapshot}
use mavlink_doctor.Metrics.Calls.{Call, perform_all}
use mavlink_doctor.Metrics.Sources.{history-IsTable}

-- Two digit strings before the first slash are equal.
slash_injective :
    (xs ys us vs : Bytes)
    → All IsDigit xs
    → All IsDigit ys
    → xs ++ (b'/' ∷ us) ≡ ys ++ (b'/' ∷ vs)
    → (xs ≡ ys) × (us ≡ vs)
slash_injective [] [] us vs h k p = (refl, cc)
slash_injective [] (y ∷ ys) us vs h k p = absurd (ground arith)
slash_injective (x ∷ xs) [] us vs h k p = absurd (ground arith)
slash_injective (x ∷ xs) (y ∷ ys) us vs h k p =
    let (q, r) = slash_injective xs ys us vs h.1 k.1 (cc) in (ground arith, r)

pub key_text-injective : (a b : EndpointKey) → key_text a ≡ key_text b → a ≡ b
unfolding key_text
key_text-injective a b p =
    let (q, r) =
      slash_injective (decimal a.system_id) (decimal b.system_id) (decimal a.component_id)
        (decimal b.component_id) (All-decimal a.system_id) (All-decimal b.system_id) p in
    ground (
      arith,
      decimal-injective a.system_id b.system_id q,
      decimal-injective a.component_id b.component_id r,
    )

-- The value under a key, or else what was there.
abbrev pub or_else {ℓ} : {V : Type ℓ} → Option V → Option V → Option V
or_else none d = d
or_else (some v) d = some v

or_else-none {ℓ} : {V : Type ℓ} (o : Option V) → or_else o none ≡ o
or_else-none none = refl
or_else-none (some v) = refl

lookup-copy_counts :
    (copied m : Assoc Bytes ℕ) (k : Bytes)
    → Distinct m
    → lookup k (copy_counts copied m) ≡ or_else (lookup k m) (lookup k copied)
unfolding copy_counts lookup
lookup-copy_counts copied [] k d = refl
lookup-copy_counts copied ((j, v) ∷ m) k d = elim (Bool-cases (j == k)) [
  | inl p ↦
      lookup-copy_counts (insert j v copied) m k d.1
      ∙ rw (p, sym (eq_of_== j k p), d.0) (lookup-insert_self j v copied)
  | inr q ↦
      lookup-copy_counts (insert j v copied) m k d.1
      ∙ rw (q, lookup-insert_ne j k v copied (ne_of_== j k q))
]

module _ {F : Type 0} where
  lookup-copy_sources :
      (copied : Assoc Bytes (SourceMetrics F)) (m : Assoc EndpointKey (SourceMetrics F))
      (k : EndpointKey)
      → Distinct m
      → lookup (key_text k) (copy_sources copied m)
        ≡ or_else (lookup k m) (lookup (key_text k) copied)
  unfolding copy_sources lookup
  lookup-copy_sources copied [] k d = refl
  lookup-copy_sources copied ((j, v) ∷ m) k d = elim (Bool-cases (j == k)) [
    | inl p ↦
        lookup-copy_sources (insert (key_text j) v copied) m k d.1
        ∙ rw (p, sym (eq_of_== j k p), d.0) (lookup-insert_self (key_text j) v copied)
    | inr q ↦
        lookup-copy_sources (insert (key_text j) v copied) m k d.1
        ∙ rw (
          q,
          lookup-insert_ne (key_text j) (key_text k) v copied
              (λ r. ne_of_== j k q (key_text-injective j k r)),
        )
  ]

-- The copies that `Snapshot` and `MessageStats` give out after any history hold what the tracker
-- holds: the source `k` stands under the text of its two numbers, which no other source has, and
-- every message and version count stands under its own name.
pub snapshot_copies :
    (fl : Float64) (start now : ℕ) (cs : List (ℕ × Call))
    → let t = perform_all fl (new_tracker fl.F start) cs in
      ((k : EndpointKey) → lookup (key_text k) (snapshot fl t now).sources ≡ lookup k t.sources)
      × ((m : Bytes) → lookup m (snapshot fl t now).message_counts ≡ lookup m t.message_counts)
      × ((m : Bytes) → lookup m (message_stats t) ≡ lookup m t.message_counts)
      × ((v : Bytes) → lookup v (snapshot fl t now).version_counts ≡ lookup v t.version_counts)
unfolding snapshot message_stats lookup
snapshot_copies fl start now cs =
    let t = perform_all fl (new_tracker fl.F start) cs in
    let h = history-IsTable fl start cs in
    (
      λ k. lookup-copy_sources [] t.sources k h.distinct ∙ or_else-none _,
      λ m. lookup-copy_counts [] t.message_counts m h.messages ∙ or_else-none _,
      λ m. lookup-copy_counts [] t.message_counts m h.messages ∙ or_else-none _,
      λ v. lookup-copy_counts [] t.version_counts v h.versions ∙ or_else-none _,
    )
