-- ===== src/Discovery/Serial/Devices.antt =====
-- Which devices `SerialCandidates` lists.
use mavlink_doctor.Common.{
  Bool, true, false, not, ◌&&◌, ◌||◌, List, [], ◌∷◌, ◌++◌, ◌≡◌, refl, Bytes, Bytes-Eq, ◌==◌, any,
  arith, Result, Bool-cases, inl, inr, if◌then◌else◌, eq_of_==, subst, ==_refl,
}
use mavlink_doctor.Common.NoRepeats.{is_in, no_repeats, no_repeats-append, is_in-append}
use mavlink_doctor.Discovery.Sockets.{linux, darwin}
use mavlink_doctor.Discovery.Serial.{
  patterns_linux, patterns_darwin, is_bluetooth, add_matches, add_patterns, serial_candidates,
}

-- The device is a match of a pattern.
abbrev pub is_match : (Bytes → List Bytes) → List Bytes → Bytes → Bool
is_match glob patterns m = any (λ p. is_in m (glob p)) patterns

module _ (skip : Bytes → Bool) where
  abbrev extend : List Bytes → Bytes → List Bytes
  extend found m = if skip m || is_in m found then found else found ++ m ∷ []

  extend-no_repeats :
      (found : List Bytes) (m : Bytes)
      → no_repeats found ≡ true
      → no_repeats (extend found m) ≡ true
  extend-no_repeats found m h = elim (Bool-cases (skip m || is_in m found)) [
    | inl known ↦ rw known h
    | inr new ↦ rw new (no_repeats-append m found (ground arith) h)
  ]

  extend_self :
      (found : List Bytes) (m : Bytes) → is_in m (extend found m) ≡ (is_in m found || not (skip m))
  extend_self found m = elim (Bool-cases (skip m || is_in m found)) [
    | inl known ↦ rw known (ground arith)
    | inr new ↦ rw new (ground (arith, is_in-append m found (m ∷ []), ==_refl m))
  ]

  extend-other :
      (found : List Bytes) (x m : Bytes)
      → (m == x) ≡ false
      → is_in x (extend found m) ≡ is_in x found
  extend-other found x m e = elim (Bool-cases (skip m || is_in m found)) [
    | inl known ↦ rw known
    | inr new ↦ rw new (ground (arith, is_in-append x found (m ∷ [])))
  ]

  extend-is_in :
      (found : List Bytes) (x m : Bytes)
      → is_in x (extend found m) ≡ (is_in x found || (not (skip x) && (m == x)))
  extend-is_in found x m = elim (Bool-cases (m == x)) [
    | inl same ↦
        subst (λ y. is_in y (extend found m) ≡ (is_in y found || (not (skip y) && (m == y))))
          (eq_of_== m x same) (ground (arith, extend_self found m, ==_refl m))
    | inr other ↦ ground (arith, extend-other found x m other)
  ]

  add_matches-no_repeats :
      (found ms : List Bytes)
      → no_repeats found ≡ true
      → no_repeats (add_matches skip found ms) ≡ true
  unfolding add_matches
  add_matches-no_repeats found [] h = h
  add_matches-no_repeats found (m ∷ ms) h =
      add_matches-no_repeats (extend found m) ms (extend-no_repeats found m h)

  add_matches-is_in :
      (x : Bytes) (found ms : List Bytes)
      → is_in x (add_matches skip found ms) ≡ (is_in x found || (not (skip x) && is_in x ms))
  unfolding add_matches
  add_matches-is_in x found [] = ground arith
  add_matches-is_in x found (m ∷ ms) =
      ground (arith, add_matches-is_in x (extend found m) ms, extend-is_in found x m)

  module _ (glob : Bytes → List Bytes) where
    add_patterns-no_repeats :
        (found ps : List Bytes)
        → no_repeats found ≡ true
        → no_repeats (add_patterns skip glob found ps) ≡ true
    unfolding add_patterns
    add_patterns-no_repeats found [] h = h
    add_patterns-no_repeats found (p ∷ ps) h =
        add_patterns-no_repeats (add_matches skip found (glob p)) ps
          (add_matches-no_repeats found (glob p) h)

    add_patterns-is_in :
        (x : Bytes) (found ps : List Bytes)
        → is_in x (add_patterns skip glob found ps)
          ≡ (is_in x found || (not (skip x) && is_match glob ps x))
    unfolding add_patterns
    add_patterns-is_in x found [] = ground arith
    add_patterns-is_in x found (p ∷ ps) = ground (
      arith,
      add_patterns-is_in x (add_matches skip found (glob p)) ps,
      add_matches-is_in x found (glob p),
    )

-- On Linux and macOS, whatever the file system holds: no device is listed twice, and a path is listed
-- exactly when it matches one of the system's patterns and, on macOS, is not the Bluetooth port.
pub serial_candidates_matches :
    (glob : Bytes → List Bytes) (powershell : Result Bytes Bytes) (path : Bytes)
    → (no_repeats (serial_candidates linux glob powershell) ≡ true)
      × (no_repeats (serial_candidates darwin glob powershell) ≡ true)
      × (is_in path (serial_candidates linux glob powershell) ≡ is_match glob patterns_linux path)
      × (is_in path (serial_candidates darwin glob powershell)
          ≡ (not (is_bluetooth path) && is_match glob patterns_darwin path))
unfolding serial_candidates
serial_candidates_matches glob powershell path = (
  add_patterns-no_repeats (λ m. false) glob [] patterns_linux refl,
  add_patterns-no_repeats is_bluetooth glob [] patterns_darwin refl,
  add_patterns-is_in (λ m. false) glob path [] patterns_linux,
  add_patterns-is_in is_bluetooth glob path [] patterns_darwin,
)
