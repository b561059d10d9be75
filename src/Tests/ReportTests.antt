-- ===== src/Tests/ReportTests.antt =====
-- What a run of cmd/mavlink-doctor/main.go reports of the host and its network, at concrete inputs.
use mavlink_doctor.Common.Int.{pos}
use mavlink_doctor.Common.{
  zero, suc, total, ℕ, ◌∷◌, ◌++◌, ◌≡◌, refl, true, false, Bytes-Eq, ◌==◌, codes, bytes_eq, some,
  List, [], ok, arith, Bytes, if◌then◌else◌,
}
use mavlink_doctor.Common.Ascii.{trim_space, trim_left, trim_right, to_lower}
use mavlink_doctor.Cli.Flags.{Config, default_flags, resolve}
use mavlink_doctor.Discovery.Probe.{
  Action, launch, finish, Probe, run, step, launch_next, end_probe, remove_at, scan, ip_text,
}
use mavlink_doctor.Discovery.Probe.Complete.{is_text, dialled}
use mavlink_doctor.Discovery.Probe.Hosts.{address_of}
use mavlink_doctor.Transport.Endpoints.{join_host_port}
use mavlink_doctor.Common.Decimal.{decimal, sprint}
use mavlink_doctor.Discovery.Subnet.ClassC.{class_c, hosts}
use mavlink_doctor.Main.Program.Subnets.{scanned, hosts_reported}
use mavlink_doctor.Main.World.{World, takes_udp}
use mavlink_doctor.Main.Program.Machine.{final_report}
use mavlink_doctor.Discovery.Ports.{port_text}
use mavlink_doctor.Discovery.Ports.Conflicts.{Lists}
use mavlink_doctor.Discovery.Sockets.Listing.{listing}
use mavlink_doctor.Discovery.Sockets.Scan.{rows, socket_of}
use mavlink_doctor.Discovery.Types.{PortStatus}
use mavlink_doctor.Main.Program.Conflicts.{conflict_reported}
use mavlink_doctor.Tests.HostTests.{listed, listed-IsListed, listed_address}
use mavlink_doctor.Tests.Data.{fractions, no_text}
use mavlink_doctor.Tests.RunTests.{variables, fixed, marshal, world}

-- The port of the run is taken, as `ss` says, and the report is to be redacted.
abbrev busy_config : Config
busy_config = resolve (record default_flags { port = pos 14550; redact = true })

abbrev busy_world : World (ℕ × ℕ)
busy_world = record world { socket_tool = ok (listing (rows (listed ∷ []))) }

busy_udp : takes_udp busy_config ≡ true
unfolding resolve default_flags trim_space trim_left trim_right to_lower codes bytes_eq
busy_udp = refl

busy_address : listed.local_address ≡ codes "0.0.0.0" ++ port_text busy_config.port
unfolding resolve
busy_address = listed_address

conflict_reported_example :
    (p : PortStatus) × ((final_report fractions fixed no_text variables marshal busy_world
        busy_config).discovery.port_status
      ≡ some p)
    × (p.available ≡ false)
    × Lists (socket_of listed) p.bound_sockets
conflict_reported_example =
    conflict_reported fractions fixed no_text variables marshal busy_world busy_config [] [] listed
      (codes "0.0.0.0") busy_udp refl refl (listed-IsListed, tt) busy_address

-- A run that probes 192.168.1.0/24, where only one host can be dialled: each probe ends before the next is launched.
abbrev one_by_one : ℕ → List Action
one_by_one zero = []
one_by_one (suc n) = launch ∷ finish 0 ∷ one_by_one n

abbrev probe_config : Config
probe_config = resolve (record default_flags { probe_subnet = codes "192.168.1.0/24" })

abbrev seventh : Bytes
seventh = codes "192.168.1.7:19856"

abbrev probe_world : World (ℕ × ℕ)
probe_world = record world {
  parse_cidr = λ text. some (class_c 192 168 1);
  probe_history = one_by_one 254;
  dial = λ address. address == seventh;
}

probe_wanted : (probe_config.probe_subnet == []) ≡ false
unfolding resolve trim_space trim_left trim_right codes bytes_eq
probe_wanted = refl

abbrev after_probes : Probe
after_probes =
    scanned fractions fixed no_text variables marshal probe_world probe_config (hosts 192 168 1 254)

all_launched : after_probes.waiting ≡ []
unfolding run step launch_next end_probe remove_at scan hosts
all_launched = refl

all_ended : after_probes.running ≡ []
unfolding run step launch_next end_probe remove_at scan hosts
all_ended = refl

hosts_reported_example :
    let list =
      (final_report fractions fixed no_text variables marshal probe_world
        probe_config).discovery.subnet_probe in
    (total (is_text (address_of probe_config.port 192 168 1 7)) list
      ≡ (if probe_world.dial (address_of probe_config.port 192 168 1 7) then 1 else 0))
    × (total (is_text seventh) list
        ≡ total (dialled probe_world.dial probe_config.port seventh) (hosts 192 168 1 254))
hosts_reported_example =
    hosts_reported fractions fixed no_text variables marshal probe_world probe_config 192 168 1 7
      seventh (omega arith) (omega arith) (omega arith) (omega arith) (omega arith) probe_wanted
      refl all_launched all_ended

-- The seventh host is dialled under this text, so the report lists it.
seventh_dialled : probe_world.dial (address_of probe_config.port 192 168 1 7) ≡ true
unfolding ip_text join_host_port decimal resolve default_flags trim_space trim_left trim_right codes
    bytes_eq sprint
seventh_dialled = refl
