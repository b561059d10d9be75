-- ===== src/Transport/UdpStream/Acceptance.antt =====
-- Every connection of internal/transport/udp_stream_server.go reaches `Accept`: the bounded channel
-- never overflows, since the read loop waits for a reader after each new connection.
use mavlink_doctor.Common.{
  ◌≤◌, ◌≡◌, refl, sym, ap, ◌∙◌, ◌⊎◌, inl, inr, Bool, true, false, ◌||◌, none, some, List, [], ◌∷◌,
  Bytes, Bytes-Eq, ◌==◌, arith, length, Bool-cases, ==_refl, ==_false, eq_of_==,
}
use mavlink_doctor.Common.Assoc.{Assoc, lookup, insert, lookup-insert}
use mavlink_doctor.Common.NoRepeats.{is_in, is_in-append}
use mavlink_doctor.Transport.UdpStream.{
  VirtualConn, Listener, new_listener, new_conn, offer, is_idle, abort_write, close_all,
  close_listener, Action, is_accepted, step, run,
}
use mavlink_doctor.Transport.UdpStream.Cases.{
  Outcome, unchanged, opened, continued, lost, delivered, accepted_next, conn_closed, all_closed,
  step-Outcome,
}
use mavlink_doctor.Transport.UdpStream.Starvation.{
  waits_for, waiting_not_idle, writes_to, waits_for-abort,
}

abbrev pub is_known : Listener → Bytes → Bool
is_known l key = elim (lookup key l.clients) [ none ↦ false | some c ↦ true ]

abbrev pub is_offered : Listener → Bytes → Bool
is_offered l key = is_in key l.accept_chan

-- The channel is empty, or it holds one connection, not accepted yet, that the loop waits for unless
-- the listener is closed.
abbrev HasShortQueue : Listener → Type 0
HasShortQueue l =
    (l.accept_chan ≡ [])
    ⊎ ((k : Bytes) × (l.accept_chan ≡ k ∷ [])
        × (is_accepted l k ≡ false)
        × (waits_for l k || l.is_closed ≡ true))

record IsOffering (l : Listener) : Type 0 where
  announced : (k : Bytes) → is_accepted l k || is_offered l k ≡ is_known l k
  short_queue : HasShortQueue l

idle_queue : (l : Listener) → HasShortQueue l → is_idle l ≡ true → l.accept_chan ≡ []
idle_queue l (inl e) i = e
idle_queue l (inr (k, e, n, w)) i = absurd (ground (arith, waiting_not_idle l k))

known-insert :
    (key k : Bytes) (c : VirtualConn) (l l' : Listener)
    → l'.clients ≡ insert key c l.clients
    → is_known l' k ≡ (is_known l k || key == k)
known-insert key k c l l' m = ground (arith, m, lookup-insert key k c l.clients)

-- An entry that is replaced stays known.
known-replace :
    (key k : Bytes) (c d : VirtualConn) (l l' : Listener)
    → lookup key l.clients ≡ some c
    → l'.clients ≡ insert key d l.clients
    → is_known l' k ≡ is_known l k
known-replace key k c d l l' e m = elim (Bool-cases (key == k)) [
  | inl p ↦
      ground (arith, known-insert key k d l l' m, ap (λ x. lookup x l.clients) (eq_of_== key k p))
  | inr q ↦ ground (arith, known-insert key k d l l' m)
]

known-close_all :
    (k : Bytes) (m : Assoc Bytes VirtualConn)
    → elim (lookup k (close_all m)) [ none ↦ false | some c ↦ true ]
      ≡ elim (lookup k m) [ none ↦ false | some c ↦ true ]
unfolding close_all lookup
known-close_all k [] = refl
known-close_all k ((key, c) ∷ m) = ground (arith, known-close_all k m)

-- The queue of a new connection: it was empty.
opened-IsOffering :
    (l l' : Listener) (key payload : Bytes)
    → is_idle l ≡ true
    → lookup key l.clients ≡ none
    → l'.clients ≡ insert key new_conn l.clients
    → l'.accept_chan ≡ offer l.accept_chan key
    → l'.accepted ≡ l.accepted
    → l'.writing ≡ some (key, payload)
    → IsOffering l
    → IsOffering l'
opened-IsOffering l l' key payload i e m q r w h =
    let queue : l'.accept_chan ≡ key ∷ [] =
      q ∙ ap (λ t. offer t key) (idle_queue l h.short_queue i) in
    record {
      announced = λ k. ground (
        arith,
        queue,
        r,
        known-insert key k new_conn l l' m,
        h.announced k,
        idle_queue l h.short_queue i,
      );
      short_queue =
          inr (key, queue, ground (arith, r, h.announced key), ground (arith, w, ==_refl key));
    }

-- The parts of the listener that the queue depends on.
kept-IsOffering :
    (l l' : Listener)
    → ((k : Bytes) → is_known l' k ≡ is_known l k)
    → l'.accept_chan ≡ l.accept_chan
    → l'.accepted ≡ l.accepted
    → HasShortQueue l'
    → IsOffering l
    → IsOffering l'
kept-IsOffering l l' n q r s h = record {
  announced = λ k. ground (arith, n k, q, r, h.announced k);
  short_queue = s;
}

delivered_queue :
    (l l' : Listener) (key pending : Bytes)
    → l.writing ≡ some (key, pending)
    → is_accepted l key ≡ true
    → l'.accept_chan ≡ l.accept_chan
    → l'.accepted ≡ l.accepted
    → l'.is_closed ≡ l.is_closed
    → HasShortQueue l
    → HasShortQueue l'
delivered_queue l l' key pending w acc q r c (inl e) = inl (q ∙ e)
delivered_queue l l' key pending w acc q r c (inr (k, e, n, v)) =
    elim (Bool-cases (waits_for l k)) [
      | inl p ↦ absurd (cc (writes_to l key k pending p w))
      | inr p ↦ inr (k, q ∙ e, ground (arith, r, n), ground (arith, c))
    ]

conn_closed_queue :
    (l l' : Listener) (key : Bytes)
    → is_accepted l key ≡ true
    → l'.accept_chan ≡ l.accept_chan
    → l'.accepted ≡ l.accepted
    → l'.is_closed ≡ l.is_closed
    → l'.writing ≡ abort_write key l.writing
    → HasShortQueue l
    → HasShortQueue l'
conn_closed_queue l l' key acc q r c w (inl e) = inl (q ∙ e)
conn_closed_queue l l' key acc q r c w (inr (k, e, n, v)) =
    let apart : (key == k) ≡ false = ==_false key k (λ p. cc (ap (is_accepted l) p)) in
    inr (k, q ∙ e, ground (arith, r, n), ground (arith, c, w, waits_for-abort l key k apart))

rest_empty :
    (l : Listener) (key : Bytes) (queue : List Bytes)
    → l.accept_chan ≡ key ∷ queue
    → HasShortQueue l
    → queue ≡ []
rest_empty l key queue e (inl p) = absurd (cc (sym e ∙ p))
rest_empty l key queue e (inr (k, p, n, w)) = cc (sym e ∙ p)

closed_queue :
    (l l' : Listener)
    → l'.accept_chan ≡ l.accept_chan
    → l'.accepted ≡ l.accepted
    → l'.is_closed ≡ true
    → HasShortQueue l
    → HasShortQueue l'
closed_queue l l' q r c (inl e) = inl (q ∙ e)
closed_queue l l' q r c (inr (k, e, n, v)) = inr (k, q ∙ e, ground (arith, r, n), ground (arith, c))

close_listener-IsOffering : (l : Listener) → IsOffering l → IsOffering (close_listener l)
unfolding close_listener
close_listener-IsOffering l h =
    kept-IsOffering l (close_listener l) (λ k. known-close_all k l.clients) refl refl
      (closed_queue l (close_listener l) refl refl refl h.short_queue) h

Outcome-IsOffering : {l l' : Listener} {a : Action} → Outcome l a l' → IsOffering l → IsOffering l'
Outcome-IsOffering (unchanged t) h = h
Outcome-IsOffering {l} {l'} (opened key payload i e) h =
    opened-IsOffering l l' key payload i e refl refl refl refl h
Outcome-IsOffering {l} {l'} (continued key payload c i e o) h =
    kept-IsOffering l l' (λ k. refl) refl refl (inl (idle_queue l h.short_queue i)) h
Outcome-IsOffering (lost key payload c i e o) h = h
Outcome-IsOffering {l} {l'} (delivered key pending n c w acc e o) h =
    kept-IsOffering l l' (λ k. known-replace key k c _ l l' e refl) refl refl
      (delivered_queue l l' key pending w acc refl refl refl h.short_queue) h
Outcome-IsOffering {l} {l'} (accepted_next key queue e) h = record {
  announced = λ k. ground (arith, e, is_in-append k l.accepted (key ∷ []), h.announced k);
  short_queue = inl (rest_empty l key queue e h.short_queue);
}
Outcome-IsOffering {l} {l'} (conn_closed key c acc e) h =
    kept-IsOffering l l' (λ k. known-replace key k c _ l l' e refl) refl refl
      (conn_closed_queue l l' key acc refl refl refl refl h.short_queue) h
Outcome-IsOffering {l} all_closed h = close_listener-IsOffering l h

run-IsOffering : (l : Listener) (history : List Action) → IsOffering l → IsOffering (run l history)
unfolding run
run-IsOffering l [] h = h
run-IsOffering l (a ∷ rest) h =
    run-IsOffering (step l a) rest (Outcome-IsOffering (step-Outcome l a) h)

queue_bound : (l : Listener) → HasShortQueue l → length l.accept_chan ≤ 1
queue_bound l (inl e) = omega (arith, ap length e)
queue_bound l (inr (k, e, _, _)) = omega (arith, ap length e)

-- After any history of a new listener, a remote address has a connection exactly when that connection
-- has been returned by `Accept` or waits in its channel, and at most one connection waits there: the
-- channel of sixteen never overflows, so no connection is dropped.
pub every_connection_offered :
    (history : List Action)
    → let l = run new_listener history in
      ((k : Bytes) → is_accepted l k || is_offered l k ≡ is_known l k) × (length l.accept_chan ≤ 1)
unfolding new_listener lookup
every_connection_offered history =
    let h =
      run-IsOffering new_listener history
        (record { announced = λ k. refl; short_queue = inl refl }) in
    (h.announced, queue_bound (run new_listener history) h.short_queue)
