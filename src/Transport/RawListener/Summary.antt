-- ===== src/Transport/RawListener/Summary.antt =====
-- What the summary of internal/transport/raw_listener.go says of the datagrams that were read.
use mavlink_doctor.Common.{
  ℕ, zero, suc, ◌+◌, ◌-◌, ◌≡◌, refl, sym, ap, ◌∙◌, ◌≤◌, inl, inr, Bool, true, false, ◌||◌, none,
  List, [], ◌∷◌, ◌++◌, append-nil, append_assoc, Bytes, Bytes-Eq, ◌==◌, arith, length, take, any,
  ltb, Result, ok, Option, Bool-cases, eq_of_==, length-append, if◌then◌else◌,
}
use mavlink_doctor.Common.NoRepeats.{no_repeats, is_in-append, no_repeats-append}
use mavlink_doctor.Decoder.FrameInspector.{looks_like_mavlink}
use mavlink_doctor.Common.Int.{ℤ}
use mavlink_doctor.Transport.RawListener.{
  PacketSummary, Reads, timed_out, failed, packet, Observation, observe, contains_sender,
  add_sender, add_size, record_packet, read_packets, new_summary, read_socket, listen_raw_udp,
}

-- The datagrams of a run of the socket: senders and payloads.
abbrev pub packets : Reads → List (Bytes × Bytes)
packets timed_out = []
packets (failed message) = []
packets (packet remote payload rest) = (remote, payload) ∷ packets rest

abbrev pub sum : List ℕ → ℕ
sum [] = 0
sum (n ∷ ns) = n + sum ns

abbrev pub sizes_of : List (Bytes × Bytes) → List ℕ
sizes_of [] = []
sizes_of ((remote, payload) ∷ ps) = length payload ∷ sizes_of ps

abbrev pub magic_count : List (Bytes × Bytes) → ℕ
magic_count [] = 0
magic_count ((remote, payload) ∷ ps) =
    (if looks_like_mavlink payload then 1 else 0) + magic_count ps

-- The loop's counters after it, from those before it.
read_packets_counts :
    (s : PacketSummary) (reads : Reads)
    → ((read_packets s reads).0.total_packets ≡ s.total_packets + length (packets reads))
      × ((read_packets s reads).0.total_bytes ≡ s.total_bytes + sum (sizes_of (packets reads)))
      × ((read_packets s reads).0.mavlink_like ≡ s.mavlink_like + magic_count (packets reads))
unfolding read_packets record_packet
read_packets_counts s timed_out = (omega arith, omega arith, omega arith)
read_packets_counts s (failed message) = (omega arith, omega arith, omega arith)
read_packets_counts s (packet remote payload rest) =
    let (a, b, c) = read_packets_counts (record_packet s remote payload) rest in
    (omega (arith, a), omega (arith, b), omega (arith, c))

zero_left : (n : ℕ) → n ≤ 10 → ltb n 10 ≡ false → 10 - n ≡ 0
zero_left n h q = ground arith

take_nil : (k : ℕ) → take {A = ℕ} k [] ≡ []
take_nil zero = refl
take_nil (suc k) = refl

take-suc : (k m n : ℕ) (later : List ℕ) → k ≡ suc m → take k (n ∷ later) ≡ n ∷ take m later
take-suc k m n later e = rw e

take-add_size :
    (n : ℕ) (sizes later : List ℕ)
    → length sizes ≤ 10
    → add_size n sizes ++ take (10 - length (add_size n sizes)) later
      ≡ sizes ++ take (10 - length sizes) (n ∷ later)
take-add_size n sizes later h = elim (Bool-cases (ltb (length sizes) 10)) [
  | inl p ↦
      rw (p, length-append sizes (n ∷ []))
        (append_assoc sizes (n ∷ []) (take (10 - (length sizes + 1)) later)
          ∙ ap (λ t. sizes ++ t) (sym (take-suc _ _ n later (ground arith))))
  | inr q ↦ rw q (ground (arith, zero_left (length sizes) h q))
]

add_size-bounded : (n : ℕ) (sizes : List ℕ) → length sizes ≤ 10 → length (add_size n sizes) ≤ 10
add_size-bounded n sizes h = ground (arith, length-append sizes (n ∷ []))

read_packets_sizes :
    (s : PacketSummary) (reads : Reads)
    → length s.packet_sizes ≤ 10
    → (read_packets s reads).0.packet_sizes
      ≡ s.packet_sizes ++ take (10 - length s.packet_sizes) (sizes_of (packets reads))
unfolding read_packets record_packet
read_packets_sizes s timed_out h =
    sym (ap (λ t. s.packet_sizes ++ t) (take_nil _) ∙ append-nil s.packet_sizes)
read_packets_sizes s (failed message) h =
    sym (ap (λ t. s.packet_sizes ++ t) (take_nil _) ∙ append-nil s.packet_sizes)
read_packets_sizes s (packet remote payload rest) h =
    read_packets_sizes (record_packet s remote payload) rest
      (add_size-bounded (length payload) s.packet_sizes h)
    ∙ take-add_size (length payload) s.packet_sizes (sizes_of (packets rest)) h

add_sender-no_repeats :
    (x : Bytes) (xs : List Bytes) → no_repeats xs ≡ true → no_repeats (add_sender x xs) ≡ true
unfolding add_sender
add_sender-no_repeats x xs d = ground (arith, no_repeats-append x xs)

contains-add_sender :
    (x y : Bytes) (ys : List Bytes)
    → contains_sender x (add_sender y ys) ≡ contains_sender x ys || y == x
unfolding add_sender
contains-add_sender x y ys = elim (Bool-cases (contains_sender y ys)) [
  | inl p ↦ rw p (elim (Bool-cases (y == x)) [
    | inl q ↦ rw (q, sym (eq_of_== y x q), p)
    | inr q ↦ rw q (ground arith)
  ])
  | inr p ↦ rw p (ground (arith, is_in-append x ys (y ∷ [])))
]

abbrev pub sends : Bytes → List (Bytes × Bytes) → Bool
sends x ps = any (λ p. p.0 == x) ps

or_assoc : (a b c : Bool) → (a || b) || c ≡ a || (b || c)
or_assoc true b c = refl
or_assoc false b c = refl

read_packets_senders :
    (s : PacketSummary) (reads : Reads)
    → no_repeats s.unique_senders ≡ true
    → (no_repeats (read_packets s reads).0.unique_senders ≡ true)
      × ((x : Bytes)
          → contains_sender x (read_packets s reads).0.unique_senders
            ≡ contains_sender x s.unique_senders || sends x (packets reads))
unfolding read_packets record_packet
read_packets_senders s timed_out d = (d, λ x. ground arith)
read_packets_senders s (failed message) d = (d, λ x. ground arith)
read_packets_senders s (packet remote payload rest) d =
    let (a, b) =
      read_packets_senders (record_packet s remote payload) rest
        (add_sender-no_repeats remote s.unique_senders d) in
    (
      a,
      λ x.
          b x
          ∙ (ap (λ c. c || sends x (packets rest)) (contains-add_sender x remote s.unique_senders)
              ∙ or_assoc (contains_sender x s.unique_senders) (remote == x)
                  (sends x (packets rest))),
    )

calls : List (Bytes × Bytes) → List Observation
calls [] = []
calls ((remote, payload) ∷ ps) = observe remote payload ∷ calls ps

read_packets-calls :
    (s : PacketSummary) (reads : Reads) → (read_packets s reads).1 ≡ calls (packets reads)
unfolding read_packets calls
read_packets-calls s timed_out = refl
read_packets-calls s (failed message) = refl
read_packets-calls s (packet remote payload rest) =
    ap (◌∷◌ (observe remote payload)) (read_packets-calls (record_packet s remote payload) rest)

-- What a sniffer run reports of the datagrams that it has read: their number and bytes, how many begin
-- with a MAVLink magic byte, the sizes of the first ten in order, and each sender exactly once.
abbrev pub Describes : PacketSummary → List (Bytes × Bytes) → Type 0
Describes s ps =
    (s.total_packets ≡ length ps)
    × (s.total_bytes ≡ sum (sizes_of ps))
    × (s.mavlink_like ≡ magic_count ps)
    × (s.packet_sizes ≡ take 10 (sizes_of ps))
    × (no_repeats s.unique_senders ≡ true)
    × ((x : Bytes) → contains_sender x s.unique_senders ≡ sends x ps)

read_socket_summary :
    (duration : ℕ) (port : ℤ) (address : Bytes) (reads : Reads)
    → let result = read_socket (new_summary duration address port) (ok reads) in
      Describes result.0 (packets reads) × (result.1 ≡ none)
unfolding read_socket
read_socket_summary duration port address reads =
    let start = new_summary duration address port in
    let (count, bytes, magic) = read_packets_counts start reads in
    let (distinct, members) = read_packets_senders start reads refl in
    (
      (
        omega (arith, count),
        omega (arith, bytes),
        omega (arith, magic),
        read_packets_sizes start reads (omega arith),
        distinct,
        members,
      ),
      refl,
    )

-- For every socket that opens and every sequence of reads: the summary counts the datagrams, their
-- bytes and those that begin with a MAVLink magic byte, samples the sizes of the first ten in order,
-- and lists every sender, and only senders, without repetition; no error is returned.
pub listen_raw_udp_summary :
    (parse_ip : Bytes → Option Bytes) (listen_udp : Option Bytes → ℤ → Result Bytes Reads)
    (duration : ℕ) (port : ℤ) (address : Bytes) (reads : Reads)
    → listen_udp (parse_ip address) port ≡ ok reads
    → Describes (listen_raw_udp parse_ip listen_udp duration address port).0 (packets reads)
      × ((listen_raw_udp parse_ip listen_udp duration address port).1 ≡ none)
unfolding listen_raw_udp
listen_raw_udp_summary parse_ip listen_udp duration port address reads opened =
    rw opened (read_socket_summary duration port address reads)
