-- ===== src/Tests/DiscoveryTests.antt =====
-- internal/discovery at concrete inputs.
use mavlink_doctor.Common.{
  Bool, nat_eq, ◌%◌, ◌+◌, ◌*◌, ◌%◌, ◌≤◌, ◌≡◌, ◌↔◌, refl, Bytes, codes, Option, none, some, List, [],
  ◌∷◌, ◌++◌, arith, true, false, All, length,
}
use mavlink_doctor.Common.Int.{pos}
use mavlink_doctor.Discovery.Types.{SocketInfo}
use mavlink_doctor.Discovery.Subnet.{generate_ips, inc, inc_carry}
use mavlink_doctor.Discovery.Subnet.Hosts.{IsHost, at_least_one, generate_ips_hosts}
use mavlink_doctor.Discovery.Subnet.ClassC.{class_c, hosts}
use mavlink_doctor.Discovery.Subnet.{last_byte}
use mavlink_doctor.Discovery.Probe.{Action, launch, finish, scan, run}
use mavlink_doctor.Discovery.Probe.Limit.{at_most_twenty}
use mavlink_doctor.Discovery.Probe.Complete.{probe_ends, remaining}
use mavlink_doctor.Discovery.Ports.{check_port, port_text}
use mavlink_doctor.Discovery.Ports.Conflicts.{Names, check_port_available, longer_port_conflict}

abbrev last_of_block : Bytes
last_of_block = 10 ∷ 0 ∷ 255 ∷ 255 ∷ []

inc_run : inc last_of_block ≡ 10 ∷ 1 ∷ 0 ∷ 0 ∷ []
unfolding inc inc_carry
inc_run = refl

generate_ips_hosts_example :
    (ips : List Bytes) × (generate_ips (class_c 192 168 1) 20 ≡ some ips)
    × All (IsHost (class_c 192 168 1)) ips
    × (length ips ≤ at_least_one 20)
generate_ips_hosts_example = generate_ips_hosts (class_c 192 168 1) 20 (omega arith) refl

abbrev gcs : SocketInfo
gcs = record {
  protocol = codes "udp";
  local_addr = codes "0.0.0.0" ++ port_text (pos (1455 * 10 + 0));
  foreign_addr = codes "0.0.0.0:*";
  pid = codes "42";
  process = codes "qgroundcontrol";
  raw = codes "";
}

check_port_available_example :
    ((check_port (pos 19856) (gcs ∷ []) none none).available ≡ true)
    ↔ ((◌≡◌ {A = Option Bytes} none none) × All (λ s. ¬ Names (port_text (pos 19856)) s) (gcs ∷ []))
check_port_available_example = check_port_available (pos 19856) (gcs ∷ []) none none

-- A socket on port 14550 makes port 1455 count as taken.
longer_port_conflict_example : (check_port (pos 1455) ([] ++ gcs ∷ []) none none).available ≡ false
longer_port_conflict_example =
    longer_port_conflict 1455 0 [] [] gcs (codes "0.0.0.0") (omega arith) (omega arith) refl

-- Hosts with an even last byte answer.
abbrev dial : Bytes → Bool
dial address = nat_eq (last_byte address % 2) 0

abbrev three_hosts : List Bytes
three_hosts = hosts 10 0 0 3

abbrev interleaving : List Action
interleaving = launch ∷ launch ∷ finish 1 ∷ launch ∷ finish 0 ∷ finish 0 ∷ []

none_running : length (scan three_hosts).running ≤ 20
unfolding scan
none_running = omega arith

at_most_twenty_example : length (run dial (pos 14550) (scan three_hosts) interleaving).running ≤ 20
at_most_twenty_example =
    at_most_twenty dial (pos 14550) (scan three_hosts) interleaving none_running

probe_ends_example :
    let p = run dial (pos 14550) (scan three_hosts) (launch ∷ launch ∷ []) in
    (rest : List Action) × (length rest ≡ remaining p)
    × ((run dial (pos 14550) p rest).waiting ≡ [])
    × ((run dial (pos 14550) p rest).running ≡ [])
probe_ends_example = probe_ends dial (pos 14550) three_hosts (launch ∷ launch ∷ [])
