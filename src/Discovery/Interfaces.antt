-- ===== src/Discovery/Interfaces.antt =====
-- internal/discovery/net_interfaces.go, and `ExtractIP` of discovery.go: the network interfaces, as
-- package net lists them, and the IPv4 addresses to bind to.
pub mod Candidates
use mavlink_doctor.Common.{
  ℕ, Bool, true, false, ◌&&◌, Option, none, some, List, [], ◌∷◌, ◌++◌, Bytes, Bytes-Eq, ◌==◌, codes,
  length, take, drop, nat_eq, Result, ok, err, if◌then◌else◌,
}
use mavlink_doctor.Discovery.Types.{InterfaceInfo}
use mavlink_doctor.Discovery.Probe.{ip_text, to4}

-- A `net.Addr`: its `String`, and the bytes of the address where it has one.
pub data Addr : Type 0 where
  ip_net : (text ip : Bytes) → Addr
  ip_addr : (text ip : Bytes) → Addr
  other_addr : (text : Bytes) → Addr

-- A `net.Interface`, and what its `Addrs` gives: `none` is an error.
pub record Interface : Type 0 where
  pub name : Bytes
  pub index : ℕ
  pub mtu : ℕ
  pub flags : Bytes
  pub addrs : Option (List Addr)

abbrev pub addr_text : Addr → Bytes
addr_text (ip_net text ip) = text
addr_text (ip_addr text ip) = text
addr_text (other_addr text) = text

unfoldable pub extract_ip : Addr → Option Bytes
extract_ip (ip_net text ip) = some ip
extract_ip (ip_addr text ip) = some ip
extract_ip (other_addr text) = none

-- The text of an IPv4 address that the loop appends, if any.
unfoldable pub bind_text : Option Bytes → List Bytes
unfolding to4 ip_text
bind_text none = []
bind_text (some ip) = elim (to4 ip) [ none ↦ [] | some v4 ↦ ip_text v4 ∷ [] ]

unfoldable pub bind_texts : List Addr → List Bytes
unfolding bind_text extract_ip
bind_texts [] = []
bind_texts (a ∷ as') = bind_text (extract_ip a) ++ bind_texts as'

abbrev pub addr_texts : List Addr → List Bytes
addr_texts [] = []
addr_texts (a ∷ as') = addr_text a ∷ addr_texts as'

abbrev pub addrs_of : Option (List Addr) → List Addr
addrs_of none = []
addrs_of (some as') = as'

unfoldable pub interface_info : Interface → InterfaceInfo
unfolding bind_texts
interface_info i = record {
  name = i.name;
  index = i.index;
  mtu = i.mtu;
  flags = i.flags;
  addresses = addr_texts (addrs_of i.addrs);
  ipv4_bind = bind_texts (addrs_of i.addrs);
}

unfoldable pub interface_infos : List Interface → List InterfaceInfo
unfolding interface_info
interface_infos [] = []
interface_infos (i ∷ is) = interface_info i ∷ interface_infos is

-- `ScanInterfaces`; the error of `net.Interfaces` is wrapped.
unfoldable pub scan_interfaces : Result Bytes (List Interface) → Result Bytes (List InterfaceInfo)
unfolding interface_infos
scan_interfaces (err e) = err (codes "unable to enumerate network interfaces: " ++ e)
scan_interfaces (ok is) = ok (interface_infos is)

-- `FindAllIPv4Candidates`
unfoldable pub named_candidates : Bytes → List Bytes → List Bytes
named_candidates name [] = []
named_candidates name (ip ∷ ips) =
    (ip ++ (codes " (" ++ (name ++ codes ")"))) ∷ named_candidates name ips

unfoldable pub find_all_ipv4_candidates : List InterfaceInfo → List Bytes
unfolding named_candidates
find_all_ipv4_candidates [] = []
find_all_ipv4_candidates (i ∷ is) =
    named_candidates i.name i.ipv4_bind ++ find_all_ipv4_candidates is
