-- ===== src/Simulator/EndToEnd.antt =====
-- The chunked sender of internal/simulator/mock_server.go against the stream server of
-- internal/transport/udp_stream_server.go.
use mavlink_doctor.Common.{
  ℕ, ◌<◌, true, false, none, some, List, [], ◌∷◌, ◌++◌, ◌≡◌, ◌≢◌, subst, refl, sym, ap, ◌∙◌, Bytes,
  Bytes-Eq, ==_refl, length, arith, append_assoc, append-nil,
}
use mavlink_doctor.Common.Assoc.{lookup, insert, lookup-insert_self}
use mavlink_doctor.Simulator.{send_chunks}
use mavlink_doctor.Simulator.Chunks.{concat, take_all, drop_all, send_chunks_stream}
use mavlink_doctor.Transport.UdpStream.{
  Listener, new_listener, new_conn, Action, datagram, read, accept, step, run, is_accepted,
  read_loop_round, open_client, begin_write, take_bytes, accept_next,
}

-- A schedule that serves each datagram before the next: it arrives, a waiting connection is accepted,
-- and its reader takes it.
unfoldable pub serve : Bytes → List Bytes → List Action
serve key [] = []
serve key (d ∷ ds) = datagram key d ∷ accept ∷ read key (length d) ∷ serve key ds

-- A listener whose only business is the connection of `key`, whose reader has these bytes.
record IsServing (l : Listener) (key bytes : Bytes) : Type 0 where
  found : lookup key l.clients ≡ some (record { received = bytes; is_closed = false })
  queue : l.accept_chan ≡ []
  accepted : is_accepted l key ≡ true
  idle : l.writing ≡ none
  running : l.is_closed ≡ false

datagram_served :
    (l : Listener) (key bytes d : Bytes)
    → IsServing l key bytes
    → step l (datagram key d) ≡ record l { writing = some (key, d) }
unfolding step read_loop_round open_client begin_write
datagram_served l key bytes d h = rw (h.idle, h.running, h.found) refl

accept_served : (l : Listener) → l.accept_chan ≡ [] → step l accept ≡ l
unfolding step accept_next
accept_served l h = rw h refl

read_served :
    (l : Listener) (key bytes d : Bytes)
    → lookup key l.clients ≡ some (record { received = bytes; is_closed = false })
    → is_accepted l key ≡ true
    → l.writing ≡ some (key, d)
    → step l (read key (length d)) ≡ record l {
      clients = insert key (record { received = bytes ++ d; is_closed = false }) l.clients;
      writing = none;
    }
unfolding step take_bytes
read_served l key bytes d found accepted waiting =
    rw
      (
        accepted,
        found,
        waiting,
        ==_refl key,
        take_all (length d) d (omega arith),
        drop_all (length d) d (omega arith),
      )
      refl

-- The three steps that serve one datagram.
round : Listener → Bytes → Bytes → Listener
round l key d = step (step (step l (datagram key d)) accept) (read key (length d))

after_read :
    (l : Listener) (key bytes d : Bytes)
    → lookup key l.clients ≡ some (record { received = bytes; is_closed = false })
    → is_accepted l key ≡ true
    → l.writing ≡ some (key, d)
    → l.accept_chan ≡ []
    → l.is_closed ≡ false
    → IsServing (step l (read key (length d))) key (bytes ++ d)
after_read l key bytes d found accepted waiting queue running =
    subst (λ m. IsServing m key (bytes ++ d))
      (sym (read_served l key bytes d found accepted waiting))
      (record {
        found =
            lookup-insert_self key (record { received = bytes ++ d; is_closed = false }) l.clients;
        queue = queue;
        accepted = accepted;
        idle = refl;
        running = running;
      })

round-IsServing :
    (l : Listener) (key bytes d : Bytes)
    → IsServing l key bytes
    → IsServing (round l key d) key (bytes ++ d)
unfolding round
round-IsServing l key bytes d h =
    subst (λ m. IsServing (step m (read key (length d))) key (bytes ++ d))
      (sym (
        ap (λ m. step m accept) (datagram_served l key bytes d h)
        ∙ accept_served (record l { writing = some (key, d) }) h.queue))
      (after_read (record l { writing = some (key, d) }) key bytes d h.found h.accepted refl h.queue
        h.running)

first_round : (key d : Bytes) → IsServing (round new_listener key d) key d
unfolding round step read_loop_round open_client begin_write new_listener insert lookup accept_next
first_round key d =
    let opened = step (step new_listener (datagram key d)) accept in
    after_read opened key [] d (lookup-insert_self key new_conn []) (rw (==_refl key) refl) refl
      refl refl

run-IsServing :
    (l : Listener) (key bytes : Bytes) (ds : List Bytes)
    → IsServing l key bytes
    → IsServing (run l (serve key ds)) key (bytes ++ concat ds)
unfolding run serve round
run-IsServing l key bytes [] h = subst (IsServing l key) (sym (append-nil bytes)) h
run-IsServing l key bytes (d ∷ ds) h =
    subst (IsServing (run (round l key d) (serve key ds)) key) (append_assoc bytes d (concat ds))
      (run-IsServing (round l key d) key (bytes ++ d) ds (round-IsServing l key bytes d h))

started :
    (key : Bytes) (ds : List Bytes)
    → ds ≢ []
    → IsServing (run new_listener (serve key ds)) key (concat ds)
unfolding run serve round
started key [] h = absurd (h refl)
started key (d ∷ ds) h = run-IsServing (round new_listener key d) key d ds (first_round key d)

send_chunks-ne-nil :
    (size : ℕ) (ws : List Bytes) → 0 < size → concat ws ≢ [] → send_chunks size ws ≢ []
send_chunks-ne-nil size ws h w e = w (sym (send_chunks_stream size ws h).0 ∙ ap concat e)

-- From the simulator to the server, for every positive chunk size and all writes that are not all empty:
-- when the server, from its start, takes each datagram of the chunked sender, accepts the connection and
-- reads it, the reader of the sender's address ends up with the bytes of the writes, whatever the chunk
-- size, on a connection that was accepted and is not closed.
pub chunked_sender_reassembled :
    (size : ℕ) (ws : List Bytes) (key : Bytes)
    → 0 < size
    → concat ws ≢ []
    → let l = run new_listener (serve key (send_chunks size ws)) in
      (lookup key l.clients ≡ some (record { received = concat ws; is_closed = false }))
      × (is_accepted l key ≡ true)
chunked_sender_reassembled size ws key h w =
    let s = started key (send_chunks size ws) (send_chunks-ne-nil size ws h w) in
    (
      s.found
          ∙ ap (λ x. some (record { received = x; is_closed = false }))
              (send_chunks_stream size ws h).0,
      s.accepted,
    )
