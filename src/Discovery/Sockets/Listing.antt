-- ===== src/Discovery/Sockets/Listing.antt =====
-- What internal/discovery/sockets_linux.go reads off a listing of `ss`.
use mavlink_doctor.Common.{
  ℕ, ◌∷◌, [], ◌++◌, List, map, ◌≡◌, ◌≢◌, refl, sym, ap, ◌∙◌, Bytes, Bytes-Eq, ==_false, All, some,
  Option, bytes_eq, append_assoc,
}
use mavlink_doctor.Common.Ascii.{
  trim_space, trim_left, trim_right, IsWord, trim_right-space, trim_left_word, trim_right-append,
}
use mavlink_doctor.Common.Fields.{
  join, split_at, split_at-join, Without, IsSpread, spread, words_of, fields-spread,
  word-append-ne-nil, trim_right_line, trim_space_line,
}
use mavlink_doctor.Discovery.Types.{SocketInfo}
use mavlink_doctor.Discovery.Sockets.{
  output_lines, collect_sockets, socket_linux, sockets_linux, columns_linux,
}

-- A line of a listing: its words, with the blanks between them.
pub record Row : Type 0 where
  pub first : Bytes
  pub others : List (ℕ × Bytes × Bytes)

abbrev pub line_of : Row → Bytes
line_of r = r.first ++ spread r.others

abbrev pub row_words : Row → List Bytes
row_words r = r.first ∷ words_of r.others

-- The words hold no space, the blanks nothing else, and the line no newline.
pub record IsRow (r : Row) : Type 0 where
  pub first_word : IsWord r.first
  pub spaced : IsSpread r.others
  pub one_line : Without 10 (line_of r)

-- The output of a tool: each line with its newline.
abbrev pub listing : List Row → Bytes
listing [] = []
listing (r ∷ rs) = line_of r ++ 10 ∷ listing rs

abbrev joined : Row → List Row → Bytes
joined r rs = join (10 ∷ []) (map line_of (r ∷ rs))

joined-ne-nil : (r : Row) (rs : List Row) → IsRow r → joined r rs ≢ []
unfolding join
joined-ne-nil r [] h e = word-append-ne-nil r.first (spread r.others) h.first_word e
joined-ne-nil r (q ∷ rs) h e =
    word-append-ne-nil r.first (spread r.others ++ 10 ∷ joined q rs) h.first_word
      (sym (append_assoc r.first (spread r.others) (10 ∷ joined q rs)) ∙ e)

trim_right-listing :
    (r : Row) (rs : List Row) → All IsRow (r ∷ rs) → trim_right (listing (r ∷ rs)) ≡ joined r rs
unfolding join
trim_right-listing r [] h =
    trim_right-space (line_of r) 10 refl
    ∙ trim_right_line r.first r.others h.0.first_word h.0.spaced
trim_right-listing r (q ∷ rs) h =
    let ends = trim_right-listing q rs h.1 in
    ap trim_right (sym (append_assoc (line_of r) (10 ∷ []) (listing (q ∷ rs))))
    ∙ trim_right-append (line_of r ++ 10 ∷ []) (listing (q ∷ rs))
        (λ e. joined-ne-nil q rs h.1.0 (sym ends ∙ e))
    ∙ ap (λ x. (line_of r ++ 10 ∷ []) ++ x) ends
    ∙ append_assoc (line_of r) (10 ∷ []) (joined q rs)

lines-Without : (rs : List Row) → All IsRow rs → All (Without 10) (map line_of rs)
lines-Without [] h = tt
lines-Without (r ∷ rs) h = (h.0.one_line, lines-Without rs h.1)

pub output_lines-listing :
    (r : Row) (rs : List Row)
    → All IsRow (r ∷ rs)
    → output_lines (listing (r ∷ rs)) ≡ map line_of (r ∷ rs)
unfolding output_lines trim_space
output_lines-listing r rs h =
    ap (λ x. split_at 10 (trim_right x)) (starts r rs h)
    ∙ ap (split_at 10) (trim_right-listing r rs h)
    ∙ split_at-join 10 (line_of r) (map line_of rs) (lines-Without (r ∷ rs) h)
  where
    starts :
        (r : Row) (rs : List Row)
        → All IsRow (r ∷ rs)
        → trim_left (listing (r ∷ rs)) ≡ listing (r ∷ rs)
    starts r rs h =
        ap trim_left (append_assoc r.first (spread r.others) (10 ∷ listing rs))
        ∙ trim_left_word r.first (spread r.others ++ 10 ∷ listing rs) h.0.first_word
        ∙ sym (append_assoc r.first (spread r.others) (10 ∷ listing rs))

-- The socket that a row stands for.
abbrev pub row_socket : Row → SocketInfo
row_socket r = columns_linux (line_of r) (row_words r)

socket_linux-row : (r : Row) → IsRow r → socket_linux (trim_space (line_of r)) ≡ some (row_socket r)
unfolding socket_linux
socket_linux-row r h = rw (trim_space_line r.first r.others h.first_word h.spaced) (
    rw (==_false (line_of r) [] (word-append-ne-nil r.first (spread r.others) h.first_word)) (
      ap (λ fs. some (columns_linux (line_of r) fs))
        (fields-spread r.first r.others h.first_word h.spaced)))

collect-some :
    (parse : Bytes → Option SocketInfo) (line : Bytes) (lines : List Bytes) (s : SocketInfo)
    → parse (trim_space line) ≡ some s
    → collect_sockets parse (line ∷ lines) ≡ s ∷ collect_sockets parse lines
unfolding collect_sockets
collect-some parse line lines s e = rw (e, collect_sockets)

no_sockets : sockets_linux [] ≡ []
unfolding sockets_linux output_lines split_at socket_linux trim_space bytes_eq
no_sockets = refl

-- Where a parser makes a socket of every row, the sockets are those of the rows.
pub collect_rows :
    (parse : Bytes → Option SocketInfo) (socket : Row → SocketInfo)
    → ((r : Row) → IsRow r → parse (trim_space (line_of r)) ≡ some (socket r))
    → (rs : List Row) → All IsRow rs
    → collect_sockets parse (map line_of rs) ≡ map socket rs
unfolding collect_sockets
collect_rows parse socket each [] h = refl
collect_rows parse socket each (r ∷ rs) h =
    collect-some parse (line_of r) (map line_of rs) (socket r) (each r h.0)
    ∙ ap (◌∷◌ (socket r)) (collect_rows parse socket each rs h.1)

-- Every listing of rows, whatever the blanks between their words, is read back row by row, in order:
-- the fourth word is the local address, the fifth the foreign one, the rest the process.
pub sockets_linux-listing :
    (rs : List Row) → All IsRow rs → sockets_linux (listing rs) ≡ map row_socket rs
unfolding sockets_linux
sockets_linux-listing [] h = no_sockets
sockets_linux-listing (r ∷ rs) h =
    ap (collect_sockets socket_linux) (output_lines-listing r rs h)
    ∙ collect_rows socket_linux row_socket socket_linux-row (r ∷ rs) h
