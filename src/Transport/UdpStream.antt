-- ===== src/Transport/UdpStream.antt =====
-- internal/transport/udp_stream_server.go: one UDP socket, with a virtual stream connection for each
-- remote address. The read loop, the readers and the closers are goroutines; each atomic action of
-- one of them is a step. `io.Pipe` has no buffer: a write waits until readers have taken all of it, or
-- until the pipe is closed.
pub mod Cases
pub mod Streams
pub mod Closing
pub mod Reassembly
pub mod Starvation
pub mod Acceptance
use mavlink_doctor.Common.{
  ℕ, Bool, true, false, not, ◌&&◌, ◌||◌, Option, none, some, List, [], ◌∷◌, ◌++◌, Bytes, Bytes-Eq,
  ◌==◌, length, ltb, take, drop, any, if◌then◌else◌,
}
use mavlink_doctor.Common.Assoc.{Assoc, lookup, insert}

-- `udpVirtualConn`: what its reader has read so far, and whether it is closed. Its remote address is
-- the key under which it stands.
pub record VirtualConn : Type 0 where
  pub received : Bytes
  pub is_closed : Bool

-- `udpStreamListener` with the read loop's position: `writing` is the write that the loop waits in,
-- with the bytes that no reader has taken yet. `accept_chan` and `accepted` hold remote addresses.
pub record Listener : Type 0 where
  pub clients : Assoc Bytes VirtualConn
  pub accept_chan : List Bytes
  pub accepted : List Bytes
  pub writing : Option (Bytes × Bytes)
  pub is_closed : Bool

unfoldable pub new_listener : Listener
new_listener = record {
  clients = [];
  accept_chan = [];
  accepted = [];
  writing = none;
  is_closed = false;
}

abbrev pub accept_limit : ℕ
accept_limit = 16

abbrev pub new_conn : VirtualConn
new_conn = record { received = []; is_closed = false }

-- The select on `acceptChan`: a full channel takes no more.
abbrev pub offer : List Bytes → Bytes → List Bytes
offer queue key = if ltb (length queue) accept_limit then queue ++ key ∷ [] else queue

abbrev pub is_idle : Listener → Bool
is_idle l = elim l.writing [ none ↦ not l.is_closed | some w ↦ false ]

-- The entry for a remote address: made, and offered to `Accept`, where it is missing.
unfoldable pub open_client : Option VirtualConn → Listener → Bytes → Listener
open_client none l key = record l {
  clients = insert key new_conn l.clients;
  accept_chan = offer l.accept_chan key;
}
open_client (some c) l key = l

abbrev pub closed_conn : Option VirtualConn → Bool
closed_conn none = false
closed_conn (some c) = c.is_closed

-- `client.pipeW.Write(buf[:n])`: the write to a closed pipe fails at once, and its error is dropped.
unfoldable pub begin_write : Option VirtualConn → Listener → Bytes → Bytes → Listener
begin_write found l key payload =
    if closed_conn found then l else record l { writing = some (key, payload) }

-- One round of `readLoop`, from the datagram that `ReadFromUDP` returns.
unfoldable pub read_loop_round : Listener → Bytes → Bytes → Listener
unfolding open_client begin_write
read_loop_round l key payload =
    begin_write (lookup key l.clients) (open_client (lookup key l.clients) l key) key payload

abbrev pub is_empty : Bytes → Bool
is_empty [] = true
is_empty (b ∷ bs) = false

-- A reader with a buffer of `n` bytes takes the next bytes of the write, if the write is its own.
unfoldable pub take_bytes :
    Option VirtualConn → Option (Bytes × Bytes) → Listener → Bytes → ℕ → Listener
take_bytes none w l key n = l
take_bytes (some c) none l key n = l
take_bytes (some c) (some (k, pending)) l key n =
    if k == key
    then record l {
      clients = insert key (record c { received = c.received ++ take n pending }) l.clients;
      writing = if is_empty (drop n pending) then none else some (k, drop n pending);
    }
    else l

abbrev pub abort_write : Bytes → Option (Bytes × Bytes) → Option (Bytes × Bytes)
abort_write key none = none
abort_write key (some (k, pending)) = if k == key then none else some (k, pending)

-- `udpVirtualConn.Close`
unfoldable pub close_client : Option VirtualConn → Listener → Bytes → Listener
close_client none l key = l
close_client (some c) l key = record l {
  clients = insert key (record c { is_closed = true }) l.clients;
  writing = abort_write key l.writing;
}

unfoldable pub close_all : Assoc Bytes VirtualConn → Assoc Bytes VirtualConn
close_all [] = []
close_all ((k, c) ∷ m) = (k, record c { is_closed = true }) ∷ close_all m

-- `udpStreamListener.Close`, which also ends the read loop.
unfoldable pub close_listener : Listener → Listener
close_listener l = record l { clients = close_all l.clients; writing = none; is_closed = true }

-- `Accept` where the channel has a connection.
unfoldable pub accept_next : List Bytes → Listener → Listener
accept_next [] l = l
accept_next (key ∷ queue) l = record l { accept_chan = queue; accepted = l.accepted ++ key ∷ [] }

pub data Action : Type 0 where
  datagram : (remote payload : Bytes) → Action
  read : (remote : Bytes) (size : ℕ) → Action
  accept : Action
  close_conn : (remote : Bytes) → Action
  close : Action

abbrev pub is_accepted : Listener → Bytes → Bool
is_accepted l key = any (λ k. k == key) l.accepted

-- An action that cannot happen leaves the state as it is: the loop takes a datagram only between two
-- writes, and only an accepted connection has a reader and a closer.
unfoldable pub step : Listener → Action → Listener
unfolding read_loop_round take_bytes close_client accept_next
step l (datagram key payload) = if is_idle l then read_loop_round l key payload else l
step l (read key n) =
    if is_accepted l key && not (closed_conn (lookup key l.clients))
    then take_bytes (lookup key l.clients) l.writing l key n
    else l
step l accept = accept_next l.accept_chan l
step l (close_conn key) = if is_accepted l key then close_client (lookup key l.clients) l key else l
step l close = close_listener l

unfoldable pub run : Listener → List Action → Listener
run l [] = l
run l (a ∷ as') = run (step l a) as'
