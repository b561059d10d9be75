-- ===== src/Discovery/Ports/Conflicts.antt =====
-- What `CheckPort` of internal/discovery/port_check.go reports.
use mavlink_doctor.Common.{
  ℕ, ◌+◌, ◌*◌, ◌<◌, ◌≡◌, refl, ap, ◌∙◌, ◌⊎◌, inl, inr, ◌↔◌, Bool, true, false, ◌||◌, none, some,
  Option, List, [], ◌∷◌, ◌++◌, Bytes, arith, Bool-cases, All,
}
use mavlink_doctor.Common.Decimal.{decimal-extend, sprint}
use mavlink_doctor.Common.Int.{ℤ, pos}
use mavlink_doctor.Discovery.Types.{SocketInfo}
use mavlink_doctor.Discovery.Ports.{
  strings_contains_port, bound_to, is_empty, port_text, check_port,
}
use mavlink_doctor.Discovery.Ports.Search.{Occurs, strings_contains_port-Occurs}

-- The socket names the port in its local address or in its raw line.
abbrev pub Names : Bytes → SocketInfo → Type 0
Names port s = Occurs s.local_addr port ⊎ Occurs s.raw port

abbrev names : Bytes → SocketInfo → Bool
names port s = strings_contains_port s.local_addr port || strings_contains_port s.raw port

names-Names : (port : Bytes) (s : SocketInfo) → (names port s ≡ true) ↔ Names port s
names-Names port s = (sound, complete)
  where
    sound : names port s ≡ true → Names port s
    sound h = elim (Bool-cases (strings_contains_port s.local_addr port)) [
      | inl p ↦ inl ((strings_contains_port-Occurs s.local_addr port).0 p)
      | inr q ↦ inr ((strings_contains_port-Occurs s.raw port).0 (ground arith))
    ]

    complete : Names port s → names port s ≡ true
    complete (inl o) = let p = (strings_contains_port-Occurs s.local_addr port).1 o in ground arith
    complete (inr o) = let p = (strings_contains_port-Occurs s.raw port).1 o in ground arith

bound_to_none :
    (port : Bytes) (ss : List SocketInfo)
    → (is_empty (bound_to port ss) ≡ true) ↔ All (λ s. ¬ Names port s) ss
unfolding bound_to
bound_to_none port [] = (λ _. tt, λ _. refl)
bound_to_none port (s ∷ ss) = elim (Bool-cases (names port s)) [
  | inl p ↦ rw p (λ h. cc, λ h. absurd (h.0 ((names-Names port s).0 p)))
  | inr q ↦ rw q (
    λ h. (λ n. cc ((names-Names port s).1 n), (bound_to_none port ss).0 h),
    λ h. (bound_to_none port ss).1 h.1,
  )
]

-- The port is reported as available exactly when the test bind succeeds and no socket of the list has
-- the text `:port` in its local address or its raw line.
pub check_port_available :
    (port : ℤ) (sockets : List SocketInfo) (bind_error ephemeral : Option Bytes)
    → ((check_port port sockets bind_error ephemeral).available ≡ true)
      ↔ ((bind_error ≡ none) × All (λ s. ¬ Names (port_text port) s) sockets)
unfolding check_port
check_port_available port ss none eph =
    let spec = bound_to_none (port_text port) ss in
    (λ h. (refl, spec.0 (ground arith)), λ h. let k = spec.1 h.1 in ground arith)
check_port_available port ss (some e) eph = (λ h. absurd (ground arith), λ h. absurd (ground arith))

pub member_conflict :
    (port : Bytes) (before after : List SocketInfo) (s : SocketInfo)
    → Names port s
    → is_empty (bound_to port (before ++ s ∷ after)) ≡ false
unfolding bound_to
member_conflict port [] after s n = let p = (names-Names port s).1 n in ground arith
member_conflict port (b ∷ before) after s n = ground (arith, member_conflict port before after s n)

-- The socket is one of the list.
abbrev pub Lists : SocketInfo → List SocketInfo → Type 0
Lists s ss = (before : List SocketInfo) × (after : List SocketInfo) × (ss ≡ before ++ s ∷ after)

-- A socket of the list that names the port is among those that are reported for it.
pub bound_to-Lists :
    (port : Bytes) (before after : List SocketInfo) (s : SocketInfo)
    → Names port s
    → Lists s (bound_to port (before ++ s ∷ after))
unfolding bound_to
bound_to-Lists port [] after s n = ([], bound_to port after, rw ((names-Names port s).1 n) refl)
bound_to-Lists port (b ∷ before) after s n =
    let (xs, ys, e) = bound_to-Lists port before after s n in
    elim (Bool-cases (names port b)) [
      | inl p ↦ (b ∷ xs, ys, rw p (ap (◌∷◌ b) e))
      | inr q ↦ (xs, ys, rw q e)
    ]

-- A socket on another port whose number continues the digits of this one: the port `p` is reported as
-- not available because a socket is bound to `p * 10 + d`, although the test bind succeeds.
pub longer_port_conflict :
    (port d : ℕ) (before after : List SocketInfo) (s : SocketInfo) (host : Bytes)
    → 0 < port
    → d < 10
    → s.local_addr ≡ host ++ port_text (pos (port * 10 + d))
    → (check_port (pos port) (before ++ s ∷ after) none none).available ≡ false
unfolding check_port port_text sprint
longer_port_conflict port d before after s host h k e =
    let names : Names (port_text (pos port)) s =
      inl (host, (48 + d) ∷ [], e ∙ ap (λ x. host ++ (b':' ∷ x)) (decimal-extend port d h k)) in
    let p = member_conflict (port_text (pos port)) before after s names in ground arith
