-- ===== src/Transport/UdpStream/Starvation.antt =====
-- What the listener of internal/transport/udp_stream_server.go waits for and what it loses: a write
-- that nobody reads, and the datagrams of a closed connection.
use mavlink_doctor.Common.{
  ℕ, ◌≡◌, refl, ◌+◌, inl, inr, Bool, true, false, ◌||◌, none, some, List, [], ◌∷◌, Bytes, Bytes-Eq,
  ◌==◌, arith, Bool-cases, Option-cases, eq_of_==, if◌then◌else◌,
}
use mavlink_doctor.Common.Assoc.{lookup}
use mavlink_doctor.Transport.UdpStream.{
  Listener, is_idle, closed_conn, read_loop_round, open_client, begin_write, abort_write, Action,
  datagram, read, accept, close_conn, close, step, run,
}
use mavlink_doctor.Transport.UdpStream.Cases.{
  Outcome, unchanged, opened, continued, lost, delivered, accepted_next, conn_closed, all_closed,
  step-Outcome, takes_datagram,
}
use mavlink_doctor.Transport.UdpStream.Closing.{run-closed}

-- The loop waits in a write to this remote address's connection.
abbrev pub waits_for : Listener → Bytes → Bool
waits_for l key = elim l.writing [ none ↦ false | some (k, pending) ↦ k == key ]

-- The action reads from the connection, or closes it or the listener.
abbrev pub releases : Bytes → Action → Bool
releases key (datagram k payload) = false
releases key (read k n) = k == key
releases key accept = false
releases key (close_conn k) = k == key
releases key close = true

abbrev pub releases_any : Bytes → List Action → Bool
releases_any key [] = false
releases_any key (a ∷ rest) = releases key a || releases_any key rest

-- The datagrams that the loop takes from the socket in a history.
unfoldable pub datagrams_taken : Listener → List Action → ℕ
datagrams_taken l [] = 0
datagrams_taken l (a ∷ rest) =
    let later = datagrams_taken (step l a) rest in if takes_datagram l a then 1 + later else later

pub waiting_not_idle : (l : Listener) (key : Bytes) → waits_for l key ≡ true → is_idle l ≡ false
waiting_not_idle l key h = ground arith

pub writes_to :
    (l : Listener) (k key pending : Bytes)
    → waits_for l key ≡ true
    → l.writing ≡ some (k, pending)
    → k ≡ key
writes_to l k key pending h w = eq_of_== k key (ground arith)

pub waits_for-abort :
    (l : Listener) (k key : Bytes)
    → (k == key) ≡ false
    → waits_for l key ≡ true
    → waits_for (record l { writing = abort_write k l.writing }) key ≡ true
waits_for-abort l k key q h = elim (Option-cases l.writing) [
  | inl w ↦ absurd (ground arith)
  | inr ((j, pending), w) ↦ elim (Bool-cases (j == k)) [
    | inl p ↦ absurd (ground (arith, eq_of_== j k p, writes_to l j key pending h w))
    | inr r ↦ rw (w, r) (ground (arith, w, h))
  ]
]

Outcome-waits :
    {l l' : Listener} {a : Action} (key : Bytes)
    → Outcome l a l'
    → waits_for l key ≡ true
    → releases key a ≡ false
    → (waits_for l' key ≡ true) × (takes_datagram l a ≡ false)
Outcome-waits key (unchanged t) h n = (h, t)
Outcome-waits {l} key (opened k payload i e) h n = absurd (cc (waiting_not_idle l key h))
Outcome-waits {l} key (continued k payload c i e p) h n = absurd (cc (waiting_not_idle l key h))
Outcome-waits {l} key (lost k payload c i e p) h n = absurd (cc (waiting_not_idle l key h))
Outcome-waits {l} key (delivered k pending m c v acc e p) h n = absurd (ground arith)
Outcome-waits key (accepted_next k queue e) h n = (h, refl)
Outcome-waits {l} key (conn_closed k c acc e) h n = (waits_for-abort l k key n h, refl)
Outcome-waits {l} key all_closed h n = absurd (ground arith)

-- The loop waits in a write to one remote address. As long as nobody reads from its connection or
-- closes it or the listener, the loop takes no datagram of any address from the socket, and it still
-- waits: one reader that stops holds up every sender.
pub one_reader_blocks :
    (l : Listener) (key : Bytes) (history : List Action)
    → waits_for l key ≡ true
    → releases_any key history ≡ false
    → (datagrams_taken l history ≡ 0) × (waits_for (run l history) key ≡ true)
unfolding run datagrams_taken
one_reader_blocks l key [] h n = (refl, h)
one_reader_blocks l key (a ∷ rest) h n =
    let (h', t) = Outcome-waits key (step-Outcome l a) h (ground arith) in
    let (none_taken, later) = one_reader_blocks (step l a) key rest h' (ground arith) in
    (ground (arith, t, none_taken), later)

-- The entry of a closed connection stays in the table: in every later state, a datagram of its remote
-- address that the loop takes from the socket changes nothing, so the address never connects again.
pub closed_lost :
    (l : Listener) (history : List Action) (key payload : Bytes)
    → closed_conn (lookup key l.clients) ≡ true
    → step (run l history) (datagram key payload) ≡ run l history
unfolding step read_loop_round open_client begin_write
closed_lost l history key payload h =
    let later = run-closed l history key h in
    elim (Option-cases (lookup key (run l history).clients)) [
      | inl e ↦ absurd (ground (arith, later))
      | inr (c, e) ↦ rw e (ground (arith, later))
    ]
