-- ===== src/Transport/UdpStream/Cases.antt =====
-- The outcomes of each action of internal/transport/udp_stream_server.go, for proofs about all of them.
use mavlink_doctor.Common.{
  ℕ, ◌≡◌, refl, ap, ◌∙◌, ◌⊎◌, subst, inl, inr, Bool, true, false, Option, none, some, List, [], ◌∷◌,
  ◌++◌, Bytes, Bytes-Eq, ◌==◌, arith, take, drop, Bool-cases, Option-cases, eq_of_==, if◌then◌else◌,
}
use mavlink_doctor.Common.Assoc.{lookup, insert}
use mavlink_doctor.Transport.UdpStream.{
  VirtualConn, Listener, new_conn, offer, is_idle, open_client, begin_write, read_loop_round,
  is_empty, take_bytes, abort_write, close_client, close_listener, accept_next, Action, datagram,
  read, accept, close_conn, close, is_accepted, step,
}

-- What stays to be written after a read of `n` bytes.
abbrev pub rest_of : Bytes → ℕ → Bytes → Option (Bytes × Bytes)
rest_of key n pending = if is_empty (drop n pending) then none else some (key, drop n pending)

-- The loop takes a datagram from the socket in this action.
abbrev pub takes_datagram : Listener → Action → Bool
takes_datagram l (datagram key payload) = is_idle l
takes_datagram l (read key n) = false
takes_datagram l accept = false
takes_datagram l (close_conn key) = false
takes_datagram l close = false

-- The effective outcomes of an action, and no effect.
pub data Outcome (l : Listener) : Action → Listener → Type 0 where
  unchanged : {a : Action} → takes_datagram l a ≡ false → Outcome l a l
  opened :
      (key payload : Bytes)
      → is_idle l ≡ true
      → lookup key l.clients ≡ none
      → Outcome l (datagram key payload) (record l {
        clients = insert key new_conn l.clients;
        accept_chan = offer l.accept_chan key;
        writing = some (key, payload);
      })
  continued :
      (key payload : Bytes) (c : VirtualConn)
      → is_idle l ≡ true
      → lookup key l.clients ≡ some c
      → c.is_closed ≡ false
      → Outcome l (datagram key payload) (record l { writing = some (key, payload) })
  lost :
      (key payload : Bytes) (c : VirtualConn)
      → is_idle l ≡ true
      → lookup key l.clients ≡ some c
      → c.is_closed ≡ true
      → Outcome l (datagram key payload) l
  delivered :
      (key pending : Bytes) (n : ℕ) (c : VirtualConn)
      → l.writing ≡ some (key, pending)
      → is_accepted l key ≡ true
      → lookup key l.clients ≡ some c
      → c.is_closed ≡ false
      → Outcome l (read key n) (record l {
        clients = insert key (record c { received = c.received ++ take n pending }) l.clients;
        writing = rest_of key n pending;
      })
  accepted_next :
      (key : Bytes) (queue : List Bytes)
      → l.accept_chan ≡ key ∷ queue
      → Outcome l accept (record l { accept_chan = queue; accepted = l.accepted ++ key ∷ [] })
  conn_closed :
      (key : Bytes) (c : VirtualConn)
      → is_accepted l key ≡ true
      → lookup key l.clients ≡ some c
      → Outcome l (close_conn key) (record l {
        clients = insert key (record c { is_closed = true }) l.clients;
        writing = abort_write key l.writing;
      })
  all_closed : Outcome l close (close_listener l)

List-cases : (xs : List Bytes) → (xs ≡ []) ⊎ ((x : Bytes) × (ys : List Bytes) × (xs ≡ x ∷ ys))
List-cases [] = inl refl
List-cases (x ∷ xs) = inr (x, xs, refl)

pub writing_of_idle : (l : Listener) → is_idle l ≡ true → l.writing ≡ none
writing_of_idle l h = ground arith

round-Outcome :
    (l : Listener) (key payload : Bytes)
    → is_idle l ≡ true
    → Outcome l (datagram key payload) (read_loop_round l key payload)
unfolding read_loop_round
round-Outcome l key payload w = elim (Option-cases (lookup key l.clients)) [
  | inl e ↦
      subst (Outcome l (datagram key payload)) (rw (read_loop_round, e, open_client, begin_write))
        (opened key payload w e)
  | inr (c, e) ↦ elim (Bool-cases c.is_closed) [
    | inl p ↦
        subst (Outcome l (datagram key payload))
          (rw (read_loop_round, e, open_client, begin_write, p)) (lost key payload c w e p)
    | inr q ↦
        subst (Outcome l (datagram key payload))
          (rw (read_loop_round, e, open_client, begin_write, q)) (continued key payload c w e q)
  ]
]

take-Outcome :
    (l : Listener) (key : Bytes) (n : ℕ) (c : VirtualConn)
    → is_accepted l key ≡ true
    → lookup key l.clients ≡ some c
    → c.is_closed ≡ false
    → Outcome l (read key n) (take_bytes (some c) l.writing l key n)
unfolding take_bytes
take-Outcome l key n c acc e o = elim (Option-cases l.writing) [
  | inl w ↦ subst (Outcome l (read key n)) (rw (w, take_bytes)) (unchanged refl)
  | inr ((k, pending), w) ↦ elim (Bool-cases (k == key)) [
    | inl p ↦
        subst (Outcome l (read key n)) (rw (w, take_bytes, p, eq_of_== k key p))
          (delivered key pending n c (w ∙ ap (λ x. some (x, pending)) (eq_of_== k key p)) acc e o)
    | inr q ↦ subst (Outcome l (read key n)) (rw (w, take_bytes, q)) (unchanged refl)
  ]
]

-- Every step has one of the outcomes.
pub step-Outcome : (l : Listener) (a : Action) → Outcome l a (step l a)
unfolding step
step-Outcome l (datagram key payload) = elim (Bool-cases (is_idle l)) [
  | inl p ↦ subst (Outcome l (datagram key payload)) (rw p) (round-Outcome l key payload p)
  | inr q ↦ subst (Outcome l (datagram key payload)) (rw q) (unchanged q)
]
step-Outcome l (read key n) = elim (Bool-cases (is_accepted l key)) [
  | inr q ↦ subst (Outcome l (read key n)) (rw q) (unchanged refl)
  | inl p ↦ elim (Option-cases (lookup key l.clients)) [
    | inl e ↦ subst (Outcome l (read key n)) (rw (p, e)) (unchanged refl)
    | inr (c, e) ↦ elim (Bool-cases c.is_closed) [
      | inl r ↦ subst (Outcome l (read key n)) (rw (p, e, r)) (unchanged refl)
      | inr r ↦ subst (Outcome l (read key n)) (rw (p, e, r)) (take-Outcome l key n c p e r)
    ]
  ]
]
step-Outcome l accept = elim (List-cases l.accept_chan) [
  | inl e ↦ subst (Outcome l accept) (rw (e, accept_next)) (unchanged refl)
  | inr (key, queue, e) ↦ subst (Outcome l accept) (rw (e, accept_next)) (accepted_next key queue e)
]
step-Outcome l (close_conn key) = elim (Bool-cases (is_accepted l key)) [
  | inr q ↦ subst (Outcome l (close_conn key)) (rw q) (unchanged refl)
  | inl p ↦ elim (Option-cases (lookup key l.clients)) [
    | inl e ↦ subst (Outcome l (close_conn key)) (rw (p, e, close_client)) (unchanged refl)
    | inr (c, e) ↦
        subst (Outcome l (close_conn key)) (rw (p, e, close_client)) (conn_closed key c p e)
  ]
]
step-Outcome l close = all_closed
