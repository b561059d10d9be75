-- ===== src/Main/Program/Conflicts.antt =====
-- A socket on the port of the run, from the tool's listing to the report of cmd/mavlink-doctor/main.go.
use mavlink_doctor.Common.{
  ℕ, true, false, Bytes-Eq, some, List, [], ◌∷◌, ◌++◌, ◌≡◌, refl, sym, ap, ◌∙◌, Bytes, All, Result,
  ok, arith, append-nil, map, inl,
}
use mavlink_doctor.Cli.Flags.{Config}
use mavlink_doctor.Discovery.Ports.{check_port, port_text}
use mavlink_doctor.Discovery.Ports.Conflicts.{Names, Lists, member_conflict, bound_to-Lists}
use mavlink_doctor.Discovery.Sockets.{linux, scan_udp_sockets}
use mavlink_doctor.Discovery.Sockets.Listing.{listing}
use mavlink_doctor.Discovery.Sockets.Scan.{
  Listed, IsListed, rows, socket_of, scan_listing, map-split,
}
use mavlink_doctor.Discovery.Types.{SocketInfo, PortStatus}
use mavlink_doctor.Main.Program.{discover, compile}
use mavlink_doctor.Main.Program.Machine.{final_of, final_report, final_of_keeps}
use mavlink_doctor.Main.World.{World, takes_udp}
use mavlink_doctor.Metrics.Float64.{Float64}
use mavlink_doctor.Reporter.Redact.{redact_result}
use mavlink_doctor.Reporter.Result.{DiagnosticResult, build_result}
use mavlink_doctor.Version.{Variables}

module _ (fl : Float64) (fixed : ℕ → fl.F → Bytes) (float_text : ℕ → Bytes) (v : Variables)
    (marshal : DiagnosticResult fl.F → Result Bytes Bytes) (w : World fl.F) where
  open fl use {F}

  -- Masking leaves the status of the port as it is.
  final_port :
      (cfg : Config) (res : DiagnosticResult F)
      → (final_of fl fixed float_text v marshal w cfg res).discovery.port_status
        ≡ res.discovery.port_status
  unfolding redact_result
  final_port cfg res =
      final_of_keeps fl fixed float_text v marshal w (λ r. r.discovery.port_status) cfg res refl

  discover_port :
      (cfg : Config) (ss : List SocketInfo)
      → takes_udp cfg ≡ true
      → scan_udp_sockets w.platform w.socket_tool w.netstat ≡ ok ss
      → (discover fl fixed float_text v marshal w cfg).port_status
        ≡ some (check_port cfg.port ss w.bind_error w.ephemeral)
  unfolding discover
  discover_port cfg ss udp scanned = rw (udp, scanned) refl

  -- On Linux, for a run of transport "udp" or "auto", when `ss` lists a socket on the port of the run,
  -- among any others: the report that the file and the standard output show, redacted or not, says that
  -- the port is not available, and names this socket with its whole address, process and line.
  pub conflict_reported :
      (cfg : Config) (before after : List Listed) (l : Listed) (host : Bytes)
      → takes_udp cfg ≡ true
      → w.platform ≡ linux
      → w.socket_tool ≡ ok (listing (rows (before ++ l ∷ after)))
      → All IsListed (before ++ l ∷ after)
      → l.local_address ≡ host ++ port_text cfg.port
      → (p : PortStatus) × ((final_report fl fixed float_text v marshal w cfg).discovery.port_status
          ≡ some p)
        × (p.available ≡ false)
        × Lists (socket_of l) p.bound_sockets
  unfolding compile build_result check_port
  conflict_reported cfg before after l host udp platform tool h e =
      let xs = map socket_of before in
      let ys = map socket_of after in
      let ss = xs ++ socket_of l ∷ ys in
      let named : Names (port_text cfg.port) (socket_of l) =
        inl (host, [], e ∙ ap (λ x. host ++ x) (sym (append-nil (port_text cfg.port)))) in
      let conflict = member_conflict (port_text cfg.port) xs ys (socket_of l) named in
      let scanned : scan_udp_sockets w.platform w.socket_tool w.netstat ≡ ok ss =
        ap (λ q. scan_udp_sockets q w.socket_tool w.netstat) platform
        ∙ ap (λ t. scan_udp_sockets linux t w.netstat) tool
        ∙ (scan_listing (before ++ l ∷ after) w.netstat [] h).0
        ∙ ap ok (map-split before after l) in
      (
        check_port cfg.port ss w.bind_error w.ephemeral,
        final_port cfg (compile fl fixed float_text v marshal w cfg)
            ∙ discover_port cfg ss udp scanned,
        ground arith,
        bound_to-Lists (port_text cfg.port) xs ys (socket_of l) named,
      )
