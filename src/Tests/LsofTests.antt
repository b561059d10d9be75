-- ===== src/Tests/LsofTests.antt =====
-- internal/discovery/sockets_darwin.go at a concrete listing of `lsof`.
use mavlink_doctor.Common.{[], ◌∷◌, List, ◌≡◌, refl, Bytes, codes, nat_eq, Result, ok, err}
use mavlink_doctor.Discovery.Sockets.{darwin, scan_udp_sockets}
use mavlink_doctor.Discovery.Sockets.Listing.{Row, IsRow, line_of, listing}
use mavlink_doctor.Discovery.Sockets.Lsof.{Opened, IsOpened, opened_rows, opened_socket, scan_lsof}
use mavlink_doctor.Tests.Data.{fails_on}
use mavlink_doctor.Tests.HostTests.{is_word-IsWord, spaced_words, spaced_words-IsSpread}

abbrev titles : List Bytes
titles =
    codes "PID"
    ∷ codes "USER"
    ∷ codes "FD"
    ∷ codes "TYPE"
    ∷ codes "DEVICE"
    ∷ codes "SIZE/OFF"
    ∷ codes "NODE"
    ∷ codes "NAME"
    ∷ []

abbrev top : Row
top = record { first = codes "COMMAND"; others = spaced_words titles }

top-IsRow : IsRow top
unfolding codes
top-IsRow = record {
  first_word = is_word-IsWord (codes "COMMAND") refl;
  spaced = spaced_words-IsSpread titles refl;
  one_line = fails_on (λ c. nat_eq c 10) (line_of top) refl;
}

abbrev cells : List Bytes
cells =
    codes "812"
    ∷ codes "pilot"
    ∷ codes "20u"
    ∷ codes "IPv4"
    ∷ codes "0xab"
    ∷ codes "0t0"
    ∷ codes "UDP"
    ∷ codes "*:14550"
    ∷ []

abbrev opened : Opened
opened = record {
  row = record { first = codes "qgc"; others = spaced_words cells };
  command = codes "qgc";
  pid = codes "812";
  user = codes "pilot";
  descriptor = codes "20u";
  type = codes "IPv4";
  device = codes "0xab";
  offset = codes "0t0";
  node = codes "UDP";
  name = codes "*:14550";
  others = [];
}

opened-IsOpened : IsOpened opened
unfolding codes
opened-IsOpened = record {
  well_formed = record {
    first_word = is_word-IsWord (codes "qgc") refl;
    spaced = spaced_words-IsSpread cells refl;
    one_line = fails_on (λ c. nat_eq c 10) (line_of opened.row) refl;
  };
  columns = refl;
}

abbrev no_netstat : Result Bytes Bytes
no_netstat = err []

scan_lsof_example :
    scan_udp_sockets darwin (ok (listing (top ∷ opened_rows (opened ∷ [])))) no_netstat
    ≡ ok (opened_socket opened ∷ [])
scan_lsof_example =
    scan_lsof (spaced_words titles) (opened ∷ []) no_netstat top-IsRow (opened-IsOpened, tt)
