-- ===== src/Main/Program/Subnets.antt =====
-- The subnet probe of internal/discovery/subnet_probe.go in the report of cmd/mavlink-doctor/main.go.
use mavlink_doctor.Common.{
  ℕ, Bool, false, some, List, [], ◌∷◌, ◌≡◌, refl, ap, ◌∙◌, Bytes, Bytes-Eq, ◌==◌, Result, ok, err,
  length, arith, total, ◌<◌, ◌≤◌, if◌then◌else◌,
}
use mavlink_doctor.Common.Int.{ℤ}
use mavlink_doctor.Cli.Flags.{Config}
use mavlink_doctor.Discovery.Probe.{Action, ProbeError, Probe, scan, run, start, probe_subnet}
use mavlink_doctor.Discovery.Probe.Complete.{is_text, dialled, found_complete}
use mavlink_doctor.Discovery.Probe.Hosts.{address_of, hosts-dialled}
use mavlink_doctor.Discovery.Subnet.{IpNet, generate_ips}
use mavlink_doctor.Discovery.Subnet.ClassC.{class_c, hosts, length-hosts, generate_ips-class_c}
use mavlink_doctor.Main.Program.{discover, compile}
use mavlink_doctor.Main.Program.Machine.{final_of, final_report, final_of_keeps}
use mavlink_doctor.Main.World.{World}
use mavlink_doctor.Metrics.Float64.{Float64}
use mavlink_doctor.Reporter.Redact.{redact_result}
use mavlink_doctor.Reporter.Result.{DiagnosticResult, build_result}
use mavlink_doctor.Version.{Variables}

-- The scan of a list of addresses that is not empty.
start-hosts :
    (net : IpNet) (limit : ℕ) (ips : List Bytes)
    → generate_ips net limit ≡ some ips
    → 0 < length ips
    → start (some net) limit ≡ ok (scan ips)
unfolding start
start-hosts net limit [] e h = absurd (omega arith)
start-hosts net limit (ip ∷ ips) e h = rw (e, start) refl

module _ (dial : Bytes → Bool) (port : ℤ) (history : List Action) where
  abbrev found_by : Result ProbeError Probe → Result ProbeError (List Bytes)
  found_by r = elim r [ err e ↦ err e | ok p ↦ ok ((run dial port p history).found) ]

  probe_subnet-hosts :
      (net : IpNet) (limit : ℕ) (ips : List Bytes)
      → start (some net) limit ≡ ok (scan ips)
      → probe_subnet dial port history (some net) limit
        ≡ ok ((run dial port (scan ips) history).found)
  unfolding probe_subnet
  probe_subnet-hosts net limit ips e = ap found_by e

module _ (fl : Float64) (fixed : ℕ → fl.F → Bytes) (float_text : ℕ → Bytes) (v : Variables)
    (marshal : DiagnosticResult fl.F → Result Bytes Bytes) (w : World fl.F) where
  open fl use {F}

  -- The scan of the program's run, when its actions are done.
  abbrev pub scanned : Config → List Bytes → Probe
  scanned cfg ips = run w.dial cfg.port (scan ips) w.probe_history

  final_found :
      (cfg : Config) (res : DiagnosticResult F)
      → (final_of fl fixed float_text v marshal w cfg res).discovery.subnet_probe
        ≡ res.discovery.subnet_probe
  unfolding redact_result
  final_found cfg res =
      final_of_keeps fl fixed float_text v marshal w (λ r. r.discovery.subnet_probe) cfg res refl

  discover_found :
      (cfg : Config) (net : IpNet) (ips : List Bytes)
      → (cfg.probe_subnet == []) ≡ false
      → w.parse_cidr cfg.probe_subnet ≡ some net
      → start (some net) 254 ≡ ok (scan ips)
      → (discover fl fixed float_text v marshal w cfg).subnet_probe ≡ (scanned cfg ips).found
  unfolding discover
  discover_found cfg net ips wanted parsed started =
      rw (wanted, parsed, probe_subnet-hosts w.dial cfg.port w.probe_history net 254 ips started)
        refl

  hosts_listed :
      (cfg : Config) (a b c : ℕ)
      → a < 256
      → b < 256
      → c < 256
      → (cfg.probe_subnet == []) ≡ false
      → w.parse_cidr cfg.probe_subnet ≡ some (class_c a b c)
      → (scanned cfg (hosts a b c 254)).waiting ≡ []
      → (scanned cfg (hosts a b c 254)).running ≡ []
      → (x : Bytes)
      → total (is_text x) (final_report fl fixed float_text v marshal w cfg).discovery.subnet_probe
        ≡ total (dialled w.dial cfg.port x) (hosts a b c 254)
  unfolding compile build_result
  hosts_listed cfg a b c ha hb hc wanted parsed w0 r0 x =
      let ips = hosts a b c 254 in
      let started =
        start-hosts (class_c a b c) 254 ips
          (generate_ips-class_c a b c 254 ha hb hc (omega arith) (omega arith))
          (omega (arith, length-hosts a b c 254)) in
      ap (total (is_text x)) (
        final_found cfg (compile fl fixed float_text v marshal w cfg)
        ∙ discover_found cfg (class_c a b c) ips wanted parsed started)
      ∙ found_complete w.dial cfg.port ips w.probe_history x w0 r0

  -- A run with -probe-subnet whose text stands for a network a.b.c.0/24, when all probes have ended, in
  -- whatever order they were launched and ended. In the report that the file and the standard output
  -- show, redacted or not, the address of a host d of 1 to 254, with the port of the run, is listed once
  -- when its dial succeeds and not at all when it fails; and any text is listed as often as it is that of
  -- a host of a.b.c.1 to a.b.c.254 whose dial succeeds, so nothing else is listed. Whether a dial
  -- succeeds is a function of the address: no answer of a host is involved.
  pub hosts_reported :
      (cfg : Config) (a b c d : ℕ) (x : Bytes)
      → a < 256
      → b < 256
      → c < 256
      → 0 < d
      → d ≤ 254
      → (cfg.probe_subnet == []) ≡ false
      → w.parse_cidr cfg.probe_subnet ≡ some (class_c a b c)
      → (scanned cfg (hosts a b c 254)).waiting ≡ []
      → (scanned cfg (hosts a b c 254)).running ≡ []
      → let list = (final_report fl fixed float_text v marshal w cfg).discovery.subnet_probe in
        (total (is_text (address_of cfg.port a b c d)) list
          ≡ (if w.dial (address_of cfg.port a b c d) then 1 else 0))
        × (total (is_text x) list ≡ total (dialled w.dial cfg.port x) (hosts a b c 254))
  hosts_reported cfg a b c d x ha hb hc p q wanted parsed w0 r0 =
      let listed = hosts_listed cfg a b c ha hb hc wanted parsed w0 r0 in
      (
        listed (address_of cfg.port a b c d) ∙ hosts-dialled cfg.port a b c w.dial d 254 p q,
        listed x,
      )
