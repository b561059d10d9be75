-- ===== src/Transport/UdpStream/Streams.antt =====
-- The stream of a remote address (internal/transport/udp_stream_server.go): what has been read from its
-- connection and what waits in the pipe, and how the actions change it.
use mavlink_doctor.Common.{
  ℕ, ◌≡◌, refl, sym, ap, ◌∙◌, subst, inl, inr, true, false, ◌&&◌, Option, none, some, [], ◌∷◌, ◌++◌,
  Bytes, Bytes-Eq, ◌==◌, arith, take, drop, take-append-drop, append-nil, append_assoc, Bool-cases,
  eq_of_==, if◌then◌else◌,
}
use mavlink_doctor.Common.Assoc.{Assoc, lookup, insert, lookup-insert}
use mavlink_doctor.Transport.UdpStream.{
  VirtualConn, Listener, new_conn, is_idle, closed_conn, is_empty, abort_write, close_all,
  close_listener, Action, datagram, read, accept, close_conn, close,
}
use mavlink_doctor.Transport.UdpStream.Cases.{writing_of_idle, rest_of}

abbrev pub received_of : Option VirtualConn → Bytes
received_of none = []
received_of (some c) = c.received

abbrev pub pending_of : Bytes → Option (Bytes × Bytes) → Bytes
pending_of key none = []
pending_of key (some (k, bytes)) = if k == key then bytes else []

-- What the readers of a remote address have read, and what they can still read.
abbrev pub stream : Listener → Bytes → Bytes
stream l key = received_of (lookup key l.clients) ++ pending_of key l.writing

-- The bytes of a remote address that the loop takes from the socket in one action.
abbrev pub taken : Listener → Bytes → Action → Bytes
taken l key (datagram k payload) = if is_idle l && k == key then payload else []
taken l key (read k n) = []
taken l key accept = []
taken l key (close_conn k) = []
taken l key close = []

-- The loop waits only for a connection that it has and that is not closed.
abbrev pub IsOpenAt : Option VirtualConn → Type 0
IsOpenAt none = ⊥
IsOpenAt (some c) = c.is_closed ≡ false

abbrev pub WritesOpen : Assoc Bytes VirtualConn → Option (Bytes × Bytes) → Type 0
WritesOpen m none = Unit
WritesOpen m (some (k, bytes)) = IsOpenAt (lookup k m)

abbrev pub IsWaiting : Listener → Type 0
IsWaiting l = WritesOpen l.clients l.writing

pub same :
    (k key : Bytes) (m : Assoc Bytes VirtualConn) → (k == key) ≡ true → lookup key m ≡ lookup k m
same k key m p = ap (λ x. lookup x m) (sym (eq_of_== k key p))

pub stream-opened :
    (l : Listener) (key k payload : Bytes) (l' : Listener)
    → is_idle l ≡ true
    → lookup k l.clients ≡ none
    → l'.clients ≡ insert k new_conn l.clients
    → l'.writing ≡ some (k, payload)
    → stream l' key ≡ stream l key ++ (if k == key then payload else [])
stream-opened l key k payload l' i e c w = elim (Bool-cases (k == key)) [
  | inl p ↦
      ground (
        arith,
        c,
        lookup-insert k key new_conn l.clients,
        writing_of_idle l i,
        same k key l.clients,
      )
  | inr q ↦ ground (
    arith,
    c,
    lookup-insert k key new_conn l.clients,
    writing_of_idle l i,
    append-nil (received_of (lookup key l.clients)),
  )
]

pub stream-continued :
    (l : Listener) (key k payload : Bytes) (l' : Listener)
    → is_idle l ≡ true
    → l'.clients ≡ l.clients
    → l'.writing ≡ some (k, payload)
    → stream l' key ≡ stream l key ++ (if k == key then payload else [])
stream-continued l key k payload l' i c w =
    ground (arith, c, writing_of_idle l i, append-nil (received_of (lookup key l.clients)))

empty_nil : (xs : Bytes) → is_empty xs ≡ true → xs ≡ []
empty_nil [] h = refl
empty_nil (x ∷ xs) h = cc

pending_rest :
    (key k pending : Bytes) (n : ℕ)
    → pending_of key (rest_of k n pending) ≡ (if k == key then drop n pending else [])
pending_rest key k pending n = elim (Bool-cases (is_empty (drop n pending))) [
  | inl p ↦ rw p (ground (arith, empty_nil (drop n pending) p))
  | inr q ↦ rw q
]

pub stream-delivered :
    (l : Listener) (key k pending : Bytes) (n : ℕ) (c : VirtualConn) (l' : Listener)
    → l.writing ≡ some (k, pending)
    → lookup k l.clients ≡ some c
    → l'.clients ≡ insert k (record c { received = c.received ++ take n pending }) l.clients
    → l'.writing ≡ rest_of k n pending
    → stream l' key ≡ stream l key
stream-delivered l key k pending n c l' w e m v =
    let stored =
      lookup-insert k key (record c { received = c.received ++ take n pending }) l.clients in
    let left = pending_rest key k pending n in
    elim (Bool-cases (k == key)) [
      | inl p ↦ ground (
        arith,
        m,
        v,
        stored,
        left,
        same k key l.clients,
        append_assoc c.received (take n pending) (drop n pending),
        take-append-drop n pending,
      )
      | inr q ↦ ground (arith, m, v, stored, left)
    ]

pending_abort :
    (key k : Bytes) (w : Option (Bytes × Bytes))
    → (k == key) ≡ false
    → pending_of key (abort_write k w) ≡ pending_of key w
pending_abort key k none q = refl
pending_abort key k (some (j, bytes)) q = elim (Bool-cases (j == k)) [
  | inl p ↦ rw (p, eq_of_== j k p, q)
  | inr r ↦ rw r
]

pub stream-conn_closed :
    (l : Listener) (key k : Bytes) (c : VirtualConn) (l' : Listener)
    → l'.clients ≡ insert k (record c { is_closed = true }) l.clients
    → l'.writing ≡ abort_write k l.writing
    → closed_conn (lookup key l'.clients) ≡ false
    → stream l' key ≡ stream l key
stream-conn_closed l key k c l' m v o =
    let stored = lookup-insert k key (record c { is_closed = true }) l.clients in
    elim (Bool-cases (k == key)) [
      | inl p ↦ absurd (ground (arith, m, stored))
      | inr q ↦ ground (arith, m, v, stored, pending_abort key k l.writing q)
    ]

lookup-close_all :
    (key : Bytes) (m : Assoc Bytes VirtualConn)
    → closed_conn (lookup key (close_all m)) ≡ false
    → (lookup key m ≡ none) × (lookup key (close_all m) ≡ none)
unfolding close_all lookup
lookup-close_all key [] o = (refl, refl)
lookup-close_all key ((k, c) ∷ m) o = ground (arith, lookup-close_all key m)

pending_unknown :
    (key : Bytes) (m : Assoc Bytes VirtualConn) (w : Option (Bytes × Bytes))
    → lookup key m ≡ none
    → WritesOpen m w
    → pending_of key w ≡ []
pending_unknown key m none e h = refl
pending_unknown key m (some (k, bytes)) e h = elim (Bool-cases (k == key)) [
  | inl p ↦ absurd (subst IsOpenAt (sym (same k key m p) ∙ e) h)
  | inr q ↦ rw q
]

pub stream-all_closed :
    (l : Listener) (key : Bytes)
    → IsWaiting l
    → closed_conn (lookup key (close_listener l).clients) ≡ false
    → stream (close_listener l) key ≡ stream l key
unfolding close_listener
stream-all_closed l key h o =
    let (before, after) = lookup-close_all key l.clients o in
    ground (arith, before, after, pending_unknown key l.clients l.writing before h)
