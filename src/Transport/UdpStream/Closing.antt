-- ===== src/Transport/UdpStream/Closing.antt =====
-- A connection of internal/transport/udp_stream_server.go that is closed stays closed.
use mavlink_doctor.Common.{
  ◌≡◌, refl, inl, inr, true, false, List, [], ◌∷◌, Bytes, Bytes-Eq, ◌==◌, arith, Bool-cases,
}
use mavlink_doctor.Common.Assoc.{Assoc, lookup, insert, lookup-insert}
use mavlink_doctor.Transport.UdpStream.{
  VirtualConn, Listener, new_conn, closed_conn, close_all, close_listener, Action, step, run,
}
use mavlink_doctor.Transport.UdpStream.Cases.{
  Outcome, unchanged, opened, continued, lost, delivered, accepted_next, conn_closed, all_closed,
  step-Outcome,
}
use mavlink_doctor.Transport.UdpStream.Streams.{same}

close_all-closed :
    (key : Bytes) (m : Assoc Bytes VirtualConn)
    → closed_conn (lookup key m) ≡ true
    → closed_conn (lookup key (close_all m)) ≡ true
unfolding close_all lookup
close_all-closed key [] h = h
close_all-closed key ((k, c) ∷ m) h = ground (arith, close_all-closed key m)

insert-closed :
    (k key : Bytes) (c : VirtualConn) (m : Assoc Bytes VirtualConn)
    → closed_conn (lookup key m) ≡ true
    → ((k == key) ≡ true → c.is_closed ≡ true)
    → closed_conn (lookup key (insert k c m)) ≡ true
insert-closed k key c m h t = elim (Bool-cases (k == key)) [
  | inl p ↦ ground (arith, lookup-insert k key c m, t p)
  | inr q ↦ ground (arith, lookup-insert k key c m)
]

close_listener-closed :
    (l : Listener) (key : Bytes)
    → closed_conn (lookup key l.clients) ≡ true
    → closed_conn (lookup key (close_listener l).clients) ≡ true
unfolding close_listener
close_listener-closed l key h = close_all-closed key l.clients h

-- A connection that is closed stays closed.
pub Outcome-closed :
    {l l' : Listener} {a : Action} (key : Bytes)
    → Outcome l a l'
    → closed_conn (lookup key l.clients) ≡ true
    → closed_conn (lookup key l'.clients) ≡ true
Outcome-closed key (unchanged t) h = h
Outcome-closed {l} key (opened k payload i e) h =
    insert-closed k key new_conn l.clients h (λ p. absurd (ground (arith, same k key l.clients p)))
Outcome-closed key (continued k payload c i e p) h = h
Outcome-closed key (lost k payload c i e p) h = h
Outcome-closed {l} key (delivered k pending n c w acc e p) h =
    insert-closed k key _ l.clients h (λ q. absurd (ground (arith, same k key l.clients q)))
Outcome-closed key (accepted_next k queue e) h = h
Outcome-closed {l} key (conn_closed k c acc e) h = insert-closed k key _ l.clients h (λ p. refl)
Outcome-closed {l} key all_closed h = close_listener-closed l key h

pub run-closed :
    (l : Listener) (as' : List Action) (key : Bytes)
    → closed_conn (lookup key l.clients) ≡ true
    → closed_conn (lookup key (run l as').clients) ≡ true
unfolding run
run-closed l [] key h = h
run-closed l (a ∷ rest) key h =
    run-closed (step l a) rest key (Outcome-closed key (step-Outcome l a) h)

pub stays_open :
    (l : Listener) (as' : List Action) (key : Bytes)
    → closed_conn (lookup key (run l as').clients) ≡ false
    → closed_conn (lookup key l.clients) ≡ false
stays_open l as' key o = elim (Bool-cases (closed_conn (lookup key l.clients))) [
  | inl p ↦ cc (run-closed l as' key p)
  | inr q ↦ q
]
