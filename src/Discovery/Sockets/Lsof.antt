-- ===== src/Discovery/Sockets/Lsof.antt =====
-- What internal/discovery/sockets_darwin.go reads off a listing of `lsof`.
use mavlink_doctor.Common.{
  ℕ, ◌∷◌, [], ◌++◌, List, map, ◌≡◌, refl, ap, ◌∙◌, Bytes, Bytes-Eq, ==_false, codes, All, Result,
  ok, some, arith, has_prefix-append,
}
use mavlink_doctor.Common.Ascii.{trim_space}
use mavlink_doctor.Common.Fields.{fields-spread, spread, trim_space_line, word-append-ne-nil}
use mavlink_doctor.Discovery.Types.{SocketInfo}
use mavlink_doctor.Discovery.Sockets.{
  darwin, scan_udp_sockets, sockets_darwin, socket_darwin, columns_darwin, skip_header,
  collect_sockets,
}
use mavlink_doctor.Discovery.Sockets.Listing.{
  Row, line_of, row_words, IsRow, listing, output_lines-listing, collect_rows,
}

-- A socket as `lsof` lists it, with the line that it is listed on.
pub record Opened : Type 0 where
  pub row : Row
  pub command : Bytes
  pub pid : Bytes
  pub user : Bytes
  pub descriptor : Bytes
  pub type : Bytes
  pub device : Bytes
  pub offset : Bytes
  pub node : Bytes
  pub name : Bytes
  pub others : List Bytes

-- The line holds the columns in their order, and perhaps further words.
pub record IsOpened (o : Opened) : Type 0 where
  pub well_formed : IsRow o.row
  pub columns :
      row_words o.row
      ≡ o.command ∷ o.pid ∷ o.user ∷ o.descriptor ∷ o.type ∷ o.device ∷ o.offset ∷ o.node ∷ o.name
        ∷ o.others

abbrev pub opened_rows : List Opened → List Row
opened_rows os = map (λ o. o.row) os

-- What the program should know of an open socket.
abbrev pub opened_socket : Opened → SocketInfo
opened_socket o = record {
  protocol = codes "UDP";
  local_addr = o.name;
  foreign_addr = [];
  pid = o.pid;
  process = o.command;
  raw = line_of o.row;
}

abbrev darwin_socket : Row → SocketInfo
darwin_socket r = columns_darwin (line_of r) (row_words r)

socket_darwin-row :
    (r : Row) → IsRow r → socket_darwin (trim_space (line_of r)) ≡ some (darwin_socket r)
unfolding socket_darwin
socket_darwin-row r h = rw (trim_space_line r.first r.others h.first_word h.spaced) (
    rw (==_false (line_of r) [] (word-append-ne-nil r.first (spread r.others) h.first_word)) (
      ap (λ fs. some (columns_darwin (line_of r) fs))
        (fields-spread r.first r.others h.first_word h.spaced)))

nine_columns :
    (line a b c d e f g k n : Bytes) (others : List Bytes)
    → columns_darwin line (a ∷ b ∷ c ∷ d ∷ e ∷ f ∷ g ∷ k ∷ n ∷ others) ≡ record {
      protocol = codes "UDP";
      local_addr = n;
      foreign_addr = [];
      pid = b;
      process = a;
      raw = line;
    }
nine_columns line a b c d e f g k n others = ground arith

opened_sockets :
    (os : List Opened) → All IsOpened os → map darwin_socket (opened_rows os) ≡ map opened_socket os
opened_sockets [] h = refl
opened_sockets (o ∷ os) h =
    ap (λ s. s ∷ map darwin_socket (opened_rows os))
      (ap (columns_darwin (line_of o.row)) h.0.columns
        ∙ nine_columns (line_of o.row) o.command o.pid o.user o.descriptor o.type o.device o.offset
            o.node o.name o.others)
    ∙ ap (λ ss. opened_socket o ∷ ss) (opened_sockets os h.1)

opened_rows-IsRow : (os : List Opened) → All IsOpened os → All IsRow (opened_rows os)
opened_rows-IsRow [] h = tt
opened_rows-IsRow (o ∷ os) h = (h.0.well_formed, opened_rows-IsRow os h.1)

skip_heading :
    (words : List (ℕ × Bytes × Bytes)) (lines : List Bytes)
    → skip_header ((codes "COMMAND" ++ spread words) ∷ lines) ≡ lines
skip_heading words lines = rw (has_prefix-append (codes "COMMAND") (spread words)) refl

-- On macOS, for every list of open sockets, each printed on a line of its own with its columns in the
-- order of `lsof` and any blanks between them, after a heading that begins with the word COMMAND: the
-- scan returns exactly these sockets, in order, with their address, process and line, whatever `netstat`
-- would print.
pub scan_lsof :
    {E : Type 0} (words : List (ℕ × Bytes × Bytes)) (os : List Opened) (other : Result E Bytes)
    → let heading : Row = record { first = codes "COMMAND"; others = words } in
      IsRow heading
      → All IsOpened os
      → scan_udp_sockets darwin (ok (listing (heading ∷ opened_rows os))) other
        ≡ ok (map opened_socket os)
unfolding scan_udp_sockets sockets_darwin
scan_lsof words os other top h =
    let heading : Row = record { first = codes "COMMAND"; others = words } in
    let rs = opened_rows-IsRow os h in
    ap (λ lines. ok (collect_sockets socket_darwin (skip_header lines)))
      (output_lines-listing heading (opened_rows os) (top, rs))
    ∙ ap (λ lines. ok (collect_sockets socket_darwin lines))
        (skip_heading words (map line_of (opened_rows os)))
    ∙ ap ok (
        collect_rows socket_darwin darwin_socket socket_darwin-row (opened_rows os) rs
        ∙ opened_sockets os h)
