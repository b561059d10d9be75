-- ===== src/Transport/UdpStream/Reassembly.antt =====
-- The stream that each remote address sends arrives whole and in order
-- (internal/transport/udp_stream_server.go).
use mavlink_doctor.Common.{
  ◌≡◌, refl, sym, ap, ◌∙◌, subst, inl, inr, false, none, List, [], ◌∷◌, ◌++◌, Bytes, Bytes-Eq, ◌==◌,
  arith, drop, append-nil, append_assoc, Bool-cases, Option-cases, ne_of_==,
}
use mavlink_doctor.Common.Assoc.{lookup, lookup-insert_self, lookup-insert_ne}
use mavlink_doctor.Transport.UdpStream.{
  Listener, new_listener, new_conn, closed_conn, is_empty, abort_write, close_listener, Action,
  datagram, read, accept, close_conn, close, step, run,
}
use mavlink_doctor.Transport.UdpStream.Cases.{
  Outcome, unchanged, opened, continued, lost, delivered, accepted_next, conn_closed, all_closed,
  step-Outcome, takes_datagram,
}
use mavlink_doctor.Transport.UdpStream.Streams.{
  stream, taken, IsWaiting, WritesOpen, same, stream-opened, stream-continued, stream-delivered,
  stream-conn_closed, stream-all_closed,
}
use mavlink_doctor.Transport.UdpStream.Closing.{stays_open}

unfoldable pub taken_all : Listener → Bytes → List Action → Bytes
taken_all l key [] = []
taken_all l key (a ∷ rest) = taken l key a ++ taken_all (step l a) key rest

closed_writing : (l : Listener) → none ≡ (close_listener l).writing
unfolding close_listener
closed_writing l = refl

taken_none :
    (l : Listener) (key : Bytes) (a : Action) → takes_datagram l a ≡ false → taken l key a ≡ []
taken_none l key (datagram k payload) t = rw t
taken_none l key (read k n) t = refl
taken_none l key accept t = refl
taken_none l key (close_conn k) t = refl
taken_none l key close t = refl

Outcome-IsWaiting : {l l' : Listener} {a : Action} → Outcome l a l' → IsWaiting l → IsWaiting l'
Outcome-IsWaiting (unchanged t) h = h
Outcome-IsWaiting {l} (opened key payload i e) h = rw (lookup-insert_self key new_conn l.clients)
Outcome-IsWaiting (continued key payload c i e o) h = rw e o
Outcome-IsWaiting (lost key payload c i e o) h = h
Outcome-IsWaiting {l} (delivered key pending n c w acc e o) h =
    elim (Bool-cases (is_empty (drop n pending))) [
      | inl p ↦ rw p tt
      | inr q ↦ rw (q, lookup-insert_self key _ l.clients) o
    ]
Outcome-IsWaiting (accepted_next key queue e) h = h
Outcome-IsWaiting {l} (conn_closed key c acc e) h = elim (Option-cases l.writing) [
  | inl w ↦ subst (WritesOpen _) (ap (abort_write key) (sym w)) tt
  | inr ((k, pending), w) ↦
      subst (WritesOpen _) (ap (abort_write key) (sym w)) (elim (Bool-cases (k == key)) [
        | inl p ↦ rw p tt
        | inr q ↦
            rw (q, lookup-insert_ne key k _ l.clients (λ r. ne_of_== k key q (sym r)))
              (subst (WritesOpen l.clients) w h)
      ])
]
Outcome-IsWaiting {l} all_closed h =
    subst (WritesOpen (close_listener l).clients) (closed_writing l) tt

-- One action adds to the stream of an address exactly what the loop takes from the socket for it.
Outcome-stream :
    {l l' : Listener} {a : Action} (key : Bytes)
    → Outcome l a l'
    → IsWaiting l
    → closed_conn (lookup key l'.clients) ≡ false
    → stream l' key ≡ stream l key ++ taken l key a
Outcome-stream {l} {a = a} key (unchanged t) h o =
    sym (ap (λ x. stream l key ++ x) (taken_none l key a t) ∙ append-nil (stream l key))
Outcome-stream {l} {l'} key (opened k payload i e) h o =
    rw i (stream-opened l key k payload l' i e refl refl)
Outcome-stream {l} {l'} key (continued k payload c i e p) h o =
    rw i (stream-continued l key k payload l' i refl refl)
Outcome-stream {l} key (lost k payload c i e p) h o = elim (Bool-cases (k == key)) [
  | inl q ↦ absurd (ground (arith, same k key l.clients q))
  | inr q ↦ rw (i, q, append-nil (stream l key))
]
Outcome-stream {l} {l'} key (delivered k pending n c w acc e p) h o =
    stream-delivered l key k pending n c l' w e refl refl ∙ sym (append-nil (stream l key))
Outcome-stream {l} key (accepted_next k queue e) h o = sym (append-nil (stream l key))
Outcome-stream {l} {l'} key (conn_closed k c acc e) h o =
    stream-conn_closed l key k c l' refl refl o ∙ sym (append-nil (stream l key))
Outcome-stream {l} key all_closed h o =
    stream-all_closed l key h o ∙ sym (append-nil (stream l key))

-- After a history, an address whose connection is not closed.
run-stream :
    (l : Listener) (as' : List Action) (key : Bytes)
    → IsWaiting l
    → closed_conn (lookup key (run l as').clients) ≡ false
    → stream (run l as') key ≡ stream l key ++ taken_all l key as'
unfolding run taken_all
run-stream l [] key h o = sym (append-nil (stream l key))
run-stream l (a ∷ rest) key h o =
    let out = step-Outcome l a in
    let open_now = stays_open (step l a) rest key o in
    run-stream (step l a) rest key (Outcome-IsWaiting out h) o
    ∙ ap (λ x. x ++ taken_all (step l a) key rest) (Outcome-stream key out h open_now)
    ∙ append_assoc (stream l key) (taken l key a) (taken_all (step l a) key rest)

-- For every history of a new listener and every remote address whose connection is not closed at its
-- end: what the readers of the address have read, followed by what still waits in the pipe, is what
-- the read loop has taken from the socket for that address, all of it and in its order.
pub reassembled :
    (history : List Action) (key : Bytes)
    → closed_conn (lookup key (run new_listener history).clients) ≡ false
    → stream (run new_listener history) key ≡ taken_all new_listener key history
unfolding new_listener lookup
reassembled history key o = run-stream new_listener history key tt o
