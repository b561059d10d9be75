-- ===== src/Discovery/Probe/Limit.antt =====
-- At most twenty probes of internal/discovery/subnet_probe.go run at a time.
use mavlink_doctor.Common.{
  ℕ, zero, suc, ◌≡◌, ◌≤◌, inl, inr, Bool, some, List, [], ◌∷◌, Bytes, arith, length, length-append,
  Option-cases,
}
use mavlink_doctor.Common.Int.{ℤ}
use mavlink_doctor.Discovery.Probe.{
  Probe, Action, launch, finish, remove_at, launch_next, end_probe, step, run,
}

pub length-remove_at :
    (i : ℕ) (xs : List Bytes) (y : Bytes) (ys : List Bytes)
    → remove_at i xs ≡ some (y, ys)
    → length xs ≡ suc (length ys)
unfolding remove_at
length-remove_at i [] y ys e = absurd (cc e)
length-remove_at zero (x ∷ xs) y ys e = ground arith
length-remove_at (suc i) (x ∷ xs) y ys e = elim (Option-cases (remove_at i xs)) [
  | inl n ↦ absurd (ground arith)
  | inr ((z, zs), n) ↦ ground (arith, length-remove_at i xs z zs n)
]

length-launch_next :
    (ips : List Bytes) (p : Probe) → length p.running ≤ 20 → length (launch_next ips p).running ≤ 20
unfolding launch_next
length-launch_next [] p h = h
length-launch_next (ip ∷ rest) p h = ground (arith, length-append p.running (ip ∷ []))

module _ (dial : Bytes → Bool) (port : ℤ) where
  length-step :
      (p : Probe) (a : Action) → length p.running ≤ 20 → length (step dial port p a).running ≤ 20
  unfolding step end_probe
  length-step p launch h = length-launch_next p.waiting p h
  length-step p (finish i) h = elim (Option-cases (remove_at i p.running)) [
    | inl e ↦ rw e h
    | inr ((y, ys), e) ↦ rw e (omega (arith, h, length-remove_at i p.running y ys e))
  ]

  -- In every interleaving of the loop and the probes, from a state with at most twenty running probes,
  -- no more than twenty run at a time.
  pub at_most_twenty :
      (p : Probe) (history : List Action)
      → length p.running ≤ 20
      → length (run dial port p history).running ≤ 20
  unfolding run
  at_most_twenty p [] h = h
  at_most_twenty p (a ∷ rest) h = at_most_twenty (step dial port p a) rest (length-step p a h)
