-- ===== src/Common/Assoc.antt =====
-- A Go map as an association list with distinct keys: a write replaces the entry or appends one.
use mavlink_doctor.Common.Tests.{
  Eq, ◌==◌, if◌then◌else◌, Bool-cases, eq_of_==, ==_refl, ==_false, ne_of_==,
}
use mavlink_doctor.Common.Lists.{total, All}
use Prim.Native.Nat.{ℕ, ◌+◌}
use mathlib.Core.Path.{◌≡◌, refl, sym, subst, ◌∙◌}
use mathlib.Core.Logic.{◌≢◌, inl, inr}
use mathlib.Core.Option.{Option, none, some}
use mathlib.Core.List.{List, [], ◌∷◌}
use native.Mathlib.Omega.{arith}

abbrev pub Assoc {ℓ κ} : Type ℓ → Type κ → Type (ℓ ⊔ κ)
Assoc K V = List (K × V)

abbrev pub get_or {ℓ} : {V : Type ℓ} → Option V → V → V
get_or none d = d
get_or (some v) d = v

some_injective {ℓ} : {A : Type ℓ} {v w : A} → some v ≡ some w → v ≡ w
some_injective h = cc

entry_path {ℓ κ} :
    {K : Type ℓ} {V : Type κ} (f : K × V → ℕ) {j k : K} {v w : V}
    → j ≡ k
    → v ≡ w
    → f (j, v) ≡ f (k, w)
entry_path f p q = cc

module _ {ℓ κ} {K : Type ℓ} {V : Type κ} ⦃e : Eq K⦄ where
  unfoldable pub lookup : K → Assoc K V → Option V
  lookup k [] = none
  lookup k ((j, v) ∷ m) = if j == k then some v else lookup k m

  unfoldable pub insert : K → V → Assoc K V → Assoc K V
  insert k v [] = (k, v) ∷ []
  insert k v ((j, w) ∷ m) = if j == k then (k, v) ∷ m else (j, w) ∷ insert k v m

  pub lookup-insert_self : (k : K) (v : V) (m : Assoc K V) → lookup k (insert k v m) ≡ some v
  unfolding lookup insert
  lookup-insert_self k v [] = rw (==_refl k)
  lookup-insert_self k v ((j, w) ∷ m) = elim (Bool-cases (j == k)) [
    | inl p ↦ rw (p, ==_refl k)
    | inr q ↦ rw (q, q) (lookup-insert_self k v m)
  ]

  pub lookup-insert_ne :
      (k j : K) (v : V) (m : Assoc K V) → k ≢ j → lookup j (insert k v m) ≡ lookup j m
  unfolding lookup insert
  lookup-insert_ne k j v [] h = rw (==_false k j h)
  lookup-insert_ne k j v ((i, w) ∷ m) h = elim (Bool-cases (i == k)) [
    | inl p ↦ rw (p, ==_false k j h, eq_of_== i k p, ==_false k j h)
    | inr q ↦ elim (Bool-cases (i == j)) [
      | inl r ↦ rw (q, r)
      | inr s ↦ rw (q, s) (lookup-insert_ne k j v m h)
    ]
  ]

  pub lookup-insert :
      (k j : K) (v : V) (m : Assoc K V)
      → lookup j (insert k v m) ≡ (if k == j then some v else lookup j m)
  lookup-insert k j v m = elim (Bool-cases (k == j)) [
    | inl p ↦ rw (p, sym (eq_of_== k j p)) (lookup-insert_self k v m)
    | inr q ↦ rw q (lookup-insert_ne k j v m (ne_of_== k j q))
  ]

  -- What an insertion does to a sum over the entries.
  pub total-insert_new :
      (f : K × V → ℕ) (k : K) (v : V) (m : Assoc K V)
      → lookup k m ≡ none
      → total f (insert k v m) ≡ total f m + f (k, v)
  unfolding lookup insert
  total-insert_new f k v [] h = omega arith
  total-insert_new f k v ((j, w) ∷ m) h = elim (Bool-cases (j == k)) [
    | inl p ↦ cc (rw p at h)
    | inr q ↦ rw q (omega (arith, total-insert_new f k v m (rw q at h)))
  ]

  pub total-insert_old :
      (f : K × V → ℕ) (k : K) (v w : V) (m : Assoc K V)
      → lookup k m ≡ some w
      → total f (insert k v m) + f (k, w) ≡ total f m + f (k, v)
  unfolding lookup insert
  total-insert_old f k v w [] h = cc
  total-insert_old f k v w ((j, x) ∷ m) h = elim (Bool-cases (j == k)) [
    | inl p ↦ rw p (omega (arith, entry_path f (eq_of_== j k p) (some_injective (rw p at h))))
    | inr q ↦ rw q (omega (arith, total-insert_old f k v w m (rw q at h)))
  ]

  -- No key stands twice.
  abbrev pub Distinct : Assoc K V → Type κ
  Distinct [] = Unit
  Distinct ((k, v) ∷ m) = (lookup k m ≡ none) × Distinct m

  pub insert-Distinct : (k : K) (v : V) (m : Assoc K V) → Distinct m → Distinct (insert k v m)
  unfolding lookup insert
  insert-Distinct k v [] h = (refl, tt)
  insert-Distinct k v ((j, w) ∷ m) h = elim (Bool-cases (j == k)) [
    | inl p ↦ rw p (rw (eq_of_== j k p) at h)
    | inr q ↦
        rw q
          (lookup-insert_ne k j v m (λ r. ne_of_== j k q (sym r)) ∙ h.0, insert-Distinct k v m h.1)
  ]

  pub All-insert {μ} :
      (P : K × V → Type μ) (k : K) (v : V) (m : Assoc K V)
      → All P m
      → P (k, v)
      → All P (insert k v m)
  unfolding insert
  All-insert P k v [] h hv = (hv, tt)
  All-insert P k v ((j, w) ∷ m) h hv = elim (Bool-cases (j == k)) [
    | inl p ↦ rw p (hv, h.1)
    | inr q ↦ rw q (h.0, All-insert P k v m h.1 hv)
  ]

  pub All-lookup {μ} :
      (P : K × V → Type μ) (k : K) {v : V} (m : Assoc K V)
      → All P m
      → lookup k m ≡ some v
      → P (k, v)
  unfolding lookup
  All-lookup P k [] h e = cc
  All-lookup P k {v} ((j, w) ∷ m) h e = elim (Bool-cases (j == k)) [
    | inl p ↦
        subst (λ i. P (i, v)) (eq_of_== j k p)
          (subst (λ x. P (j, x)) (some_injective (rw p at e)) h.0)
    | inr q ↦ All-lookup P k m h.1 (rw q at e)
  ]
