-- ===== src/Discovery/Probe/Complete.antt =====
-- What the probes of internal/discovery/subnet_probe.go have found when all have ended.
use mavlink_doctor.Common.{
  ℕ, zero, suc, ◌+◌, ◌*◌, ◌≡◌, refl, ap, ◌∙◌, ◌<◌, inl, inr, Bool, Option, none, some, List, [],
  ◌∷◌, ◌++◌, Bytes, Bytes-Eq, ◌==◌, arith, length, total, Option-cases, if◌then◌else◌,
}
use mavlink_doctor.Common.Int.{ℤ}
use mavlink_doctor.Discovery.Probe.{
  Probe, target, reached, Action, launch, finish, remove_at, launch_next, end_probe, scan, step,
  run,
}

pub total-append :
    (f : Bytes → ℕ) (xs ys : List Bytes) → total f (xs ++ ys) ≡ total f xs + total f ys
total-append f [] ys = omega arith
total-append f (x ∷ xs) ys = omega (arith, total-append f xs ys)

total-remove_at :
    (f : Bytes → ℕ) (i : ℕ) (xs : List Bytes) (y : Bytes) (ys : List Bytes)
    → remove_at i xs ≡ some (y, ys)
    → total f xs ≡ f y + total f ys
unfolding remove_at
total-remove_at f i [] y ys e = absurd (cc e)
total-remove_at f zero (x ∷ xs) y ys e = ground arith
total-remove_at f (suc i) (x ∷ xs) y ys e = elim (Option-cases (remove_at i xs)) [
  | inl n ↦ absurd (ground arith)
  | inr ((z, zs), n) ↦ ground (arith, total-remove_at f i xs z zs n)
]

abbrev pub is_text : Bytes → Bytes → ℕ
is_text x found = if found == x then 1 else 0

unfoldable pub remaining : Probe → ℕ
remaining p = 2 * length p.waiting + length p.running

no_length : (xs : List Bytes) → length xs ≡ 0 → xs ≡ []
no_length [] h = refl
no_length (x ∷ xs) h = absurd (omega arith)

module _ (dial : Bytes → Bool) (port : ℤ) where
  abbrev succeeds_as : Bytes → Option Bytes → ℕ
  succeeds_as x none = 0
  succeeds_as x (some address) = if dial address then is_text x address else 0

  -- 1 when the dial of the address succeeds under the text `x`.
  abbrev pub dialled : Bytes → Bytes → ℕ
  dialled x ip = succeeds_as x (target port ip)

  reached-total :
      (x : Bytes) (o : Option Bytes) → total (is_text x) (reached dial o) ≡ succeeds_as x o
  unfolding reached
  reached-total x none = refl
  reached-total x (some address) = ground arith

  -- How often `x` is found, or will be.
  abbrev in_total : Bytes → Probe → ℕ
  in_total x p =
      total (dialled x) p.waiting + (total (dialled x) p.running + total (is_text x) p.found)

  launch_next-total :
      (x : Bytes) (ips : List Bytes) (p : Probe)
      → p.waiting ≡ ips
      → in_total x (launch_next ips p) ≡ in_total x p
  unfolding launch_next
  launch_next-total x [] p e = refl
  launch_next-total x (ip ∷ rest) p e =
      ground (arith, e, total-append (dialled x) p.running (ip ∷ []))

  end_probe-total :
      (x : Bytes) (i : ℕ) (p : Probe)
      → in_total x (end_probe dial port (remove_at i p.running) p) ≡ in_total x p
  unfolding end_probe
  end_probe-total x i p = elim (Option-cases (remove_at i p.running)) [
    | inl e ↦ rw e
    | inr ((ip, rest), e) ↦ rw e (
        omega (
          arith,
          total-remove_at (dialled x) i p.running ip rest e,
          total-append (is_text x) p.found (reached dial (target port ip)),
          reached-total x (target port ip),
        ))
  ]

  step-total : (x : Bytes) (p : Probe) (a : Action) → in_total x (step dial port p a) ≡ in_total x p
  unfolding step
  step-total x p launch = launch_next-total x p.waiting p refl
  step-total x p (finish i) = end_probe-total x i p

  run-total :
      (x : Bytes) (p : Probe) (history : List Action)
      → in_total x (run dial port p history) ≡ in_total x p
  unfolding run
  run-total x p [] = refl
  run-total x p (a ∷ rest) = run-total x (step dial port p a) rest ∙ step-total x p a

  -- A scan of the addresses `ips` in any interleaving: once no address waits and no probe runs, a text
  -- stands in the list of found addresses as often as it is the text of an address whose dial succeeds.
  pub found_complete :
      (ips : List Bytes) (history : List Action) (x : Bytes)
      → (run dial port (scan ips) history).waiting ≡ []
      → (run dial port (scan ips) history).running ≡ []
      → total (is_text x) (run dial port (scan ips) history).found ≡ total (dialled x) ips
  unfolding scan
  found_complete ips history x w r =
      omega
        (arith, run-total x (scan ips) history, ap (total (dialled x)) w, ap (total (dialled x)) r)

  -- As long as an address waits or a probe runs, some action brings the scan one step nearer to its
  -- end: two steps are left for each waiting address and one for each running probe.
  pub probe_progress :
      (p : Probe)
      → 0 < remaining p
      → (a : Action) × (remaining (step dial port p a) + 1 ≡ remaining p)
  unfolding step remaining launch_next end_probe remove_at
  probe_progress p h = go p.waiting p.running refl refl
    where
      go :
          (w r : List Bytes)
          → p.waiting ≡ w
          → p.running ≡ r
          → (a : Action) × (remaining (step dial port p a) + 1 ≡ remaining p)
      go w (ip ∷ rest) ew er = (finish 0, ground (arith, ew, er))
      go (ip ∷ rest) [] ew er = (launch, ground (arith, ew, er))
      go [] [] ew er = absurd (omega (arith, h, ap length ew, ap length er))

  nothing_left : (p : Probe) → remaining p ≡ 0 → (p.waiting ≡ []) × (p.running ≡ [])
  unfolding remaining
  nothing_left p h = (no_length p.waiting (omega arith), no_length p.running (omega arith))

  ends_after :
      (n : ℕ) (p : Probe)
      → remaining p ≡ n
      → (rest : List Action) × (length rest ≡ n)
        × ((run dial port p rest).waiting ≡ [])
        × ((run dial port p rest).running ≡ [])
  unfolding run
  ends_after zero p h = let (waiting, running) = nothing_left p h in ([], refl, waiting, running)
  ends_after (suc n) p h =
      let (a, e) = probe_progress p (omega arith) in
      let (rest, l, waiting, running) = ends_after n (step dial port p a) (omega arith) in
      (a ∷ rest, omega arith, waiting, running)

  -- A scan never gets stuck: after any actions, some further actions end it, and they are two for each
  -- address that still waits and one for each probe that runs.
  pub probe_ends :
      (ips : List Bytes) (history : List Action)
      → let p = run dial port (scan ips) history in
        (rest : List Action) × (length rest ≡ remaining p)
        × ((run dial port p rest).waiting ≡ [])
        × ((run dial port p rest).running ≡ [])
  probe_ends ips history =
      let p = run dial port (scan ips) history in ends_after (remaining p) p refl
