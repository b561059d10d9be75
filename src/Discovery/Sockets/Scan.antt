-- ===== src/Discovery/Sockets/Scan.antt =====
-- `ScanUDPSockets` of internal/discovery/sockets_linux.go as a whole.
use mavlink_doctor.Common.{
  ◌∷◌, [], ◌++◌, List, map, ◌≡◌, refl, ap, ◌∙◌, Bytes, codes, All, Result, ok, err,
}
use mavlink_doctor.Common.Fields.{join}
use mavlink_doctor.Discovery.Types.{SocketInfo}
use mavlink_doctor.Discovery.Sockets.{linux, scan_udp_sockets, columns_linux}
use mavlink_doctor.Discovery.Sockets.Listing.{
  Row, line_of, row_words, IsRow, listing, row_socket, sockets_linux-listing,
}

-- A socket as `ss` lists it, with the line that it is listed on.
pub record Listed : Type 0 where
  pub row : Row
  pub state : Bytes
  pub recv_q : Bytes
  pub send_q : Bytes
  pub local_address : Bytes
  pub peer_address : Bytes
  pub process : List Bytes

-- The line holds the columns in their order.
pub record IsListed (l : Listed) : Type 0 where
  pub well_formed : IsRow l.row
  pub columns :
      row_words l.row ≡ l.state ∷ l.recv_q ∷ l.send_q ∷ l.local_address ∷ l.peer_address ∷ l.process

abbrev pub rows : List Listed → List Row
rows ls = map (λ l. l.row) ls

-- What the program should know of a listed socket.
abbrev pub socket_of : Listed → SocketInfo
socket_of l = record {
  protocol = codes "UDP";
  local_addr = l.local_address;
  foreign_addr = l.peer_address;
  pid = [];
  process = join (codes " ") l.process;
  raw = line_of l.row;
}

row_socket-listed : (l : Listed) → IsListed l → row_socket l.row ≡ socket_of l
row_socket-listed l h = ap (columns_linux (line_of l.row)) h.columns

rows-IsRow : (ls : List Listed) → All IsListed ls → All IsRow (rows ls)
rows-IsRow [] h = tt
rows-IsRow (l ∷ ls) h = (h.0.well_formed, rows-IsRow ls h.1)

row_sockets : (ls : List Listed) → All IsListed ls → map row_socket (rows ls) ≡ map socket_of ls
row_sockets [] h = refl
row_sockets (l ∷ ls) h =
    rw (row_sockets ls h.1) (ap (λ s. s ∷ map socket_of ls) (row_socket-listed l h.0))

-- On Linux, for every list of sockets, each printed on a line of its own with its columns in the order
-- of `ss` and any blanks between them: the scan returns exactly these sockets, in order, with their
-- addresses, process and line, whether `ss` prints the list or `ss` fails and `netstat` prints it.
pub scan_listing :
    {E : Type 0} (ls : List Listed) (other : Result E Bytes) (e : E)
    → All IsListed ls
    → (scan_udp_sockets linux (ok (listing (rows ls))) other ≡ ok (map socket_of ls))
      × (scan_udp_sockets linux (err e) (ok (listing (rows ls))) ≡ ok (map socket_of ls))
unfolding scan_udp_sockets
scan_listing ls other e h =
    let read = ap ok (sockets_linux-listing (rows ls) (rows-IsRow ls h) ∙ row_sockets ls h) in
    (read, read)

pub map-split :
    (before after : List Listed) (l : Listed)
    → map socket_of (before ++ l ∷ after)
      ≡ map socket_of before ++ socket_of l ∷ map socket_of after
map-split [] after l = refl
map-split (b ∷ before) after l = ap (◌∷◌ (socket_of b)) (map-split before after l)
