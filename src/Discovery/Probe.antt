-- ===== src/Discovery/Probe.antt =====
-- internal/discovery/subnet_probe.go, `ProbeSubnet`: the probes of all addresses, at most twenty at a
-- time. Each atomic action of the loop or of a probe is a step; whether a dial succeeds is a function
-- of the address.
pub mod Limit
pub mod Complete
pub mod Hosts
use mavlink_doctor.Common.{
  ℕ, zero, suc, Bool, Option, none, some, List, [], ◌∷◌, ◌++◌, Bytes, codes, length, take, drop,
  ltb, nat_eq, ◌&&◌, Bytes-Eq, ◌==◌, Result, ok, err, if◌then◌else◌,
}
use mavlink_doctor.Common.Int.{ℤ}
use mavlink_doctor.Common.Decimal.{decimal}
use mavlink_doctor.Discovery.Subnet.{IpNet, generate_ips}
use mavlink_doctor.Transport.Endpoints.{join_host_port}

pub data ProbeError : Type 0 where
  invalid_cidr no_hosts : ProbeError

-- `ip.String()` of an IPv4 address in its four bytes.
unfoldable pub ip_text : Bytes → Bytes
ip_text (a ∷ b ∷ c ∷ d ∷ []) =
    decimal a ++ codes "." ++ decimal b ++ codes "." ++ decimal c ++ codes "." ++ decimal d
ip_text ip = []

-- The first 12 bytes of an IPv4 address in 16 bytes.
abbrev pub v4_prefix : Bytes
v4_prefix = 0 ∷ 0 ∷ 0 ∷ 0 ∷ 0 ∷ 0 ∷ 0 ∷ 0 ∷ 0 ∷ 0 ∷ 255 ∷ 255 ∷ []

-- `ip.To4()`
unfoldable pub to4 : Bytes → Option Bytes
to4 ip =
    if nat_eq (length ip) 4
    then some ip
    else if nat_eq (length ip) 16 && take 12 ip == v4_prefix
    then some (drop 12 ip)
    else none

-- The text that is dialled for an IPv4 address, in four bytes or in sixteen. Of another address the dial of
-- network "udp4" fails, and its text is not listed.
unfoldable pub target : ℤ → Bytes → Option Bytes
unfolding to4 ip_text
target port ip = elim (to4 ip) [ none ↦ none | some v4 ↦ some (join_host_port (ip_text v4) port) ]

-- A UDP dial waits for no answer, so `dial` says only that the system has a route to the address.
unfoldable pub reached : (Bytes → Bool) → Option Bytes → List Bytes
reached dial none = []
reached dial (some address) = if dial address then address ∷ [] else []

-- The addresses that wait for the semaphore, those that are probed, and those that were reached.
pub record Probe : Type 0 where
  pub waiting : List Bytes
  pub running : List Bytes
  pub found : List Bytes

abbrev pub semaphore : ℕ
semaphore = 20

-- `launch` is a round of the loop; `finish i` the end of the i-th running probe.
pub data Action : Type 0 where
  launch : Action
  finish : (index : ℕ) → Action

unfoldable pub remove_at : ℕ → List Bytes → Option (Bytes × List Bytes)
remove_at i [] = none
remove_at zero (x ∷ xs) = some (x, xs)
remove_at (suc i) (x ∷ xs) = elim (remove_at i xs) [ none ↦ none | some (y, ys) ↦ some (y, x ∷ ys) ]

unfoldable pub launch_next : List Bytes → Probe → Probe
launch_next [] p = p
launch_next (ip ∷ rest) p =
    if ltb (length p.running) semaphore
    then record p { waiting = rest; running = p.running ++ ip ∷ [] }
    else p

unfoldable pub scan : List Bytes → Probe
scan ips = record { waiting = ips; running = []; found = [] }

-- `ParseCIDR` gives the network, or none.
unfoldable pub start : Option IpNet → ℕ → Result ProbeError Probe
unfolding scan
start none max_hosts = err invalid_cidr
start (some net) max_hosts = elim (generate_ips net max_hosts) [
  | none ↦ err no_hosts
  | some [] ↦ err no_hosts
  | some (ip ∷ ips) ↦ ok (scan (ip ∷ ips))
]

module _ (dial : Bytes → Bool) (port : ℤ) where
  unfoldable pub end_probe : Option (Bytes × List Bytes) → Probe → Probe
  unfolding target reached
  end_probe none p = p
  end_probe (some (ip, rest)) p = record p {
    running = rest;
    found = p.found ++ reached dial (target port ip);
  }

  unfoldable pub step : Probe → Action → Probe
  unfolding launch_next end_probe
  step p launch = launch_next p.waiting p
  step p (finish i) = end_probe (remove_at i p.running) p

  unfoldable pub run : Probe → List Action → Probe
  run p [] = p
  run p (a ∷ rest) = run (step p a) rest

  -- What the scan returns once `wg.Wait` does: `history` is the order in which its actions happen.
  unfoldable pub probe_subnet : List Action → Option IpNet → ℕ → Result ProbeError (List Bytes)
  unfolding start run
  probe_subnet history cidr max_hosts = elim (start cidr max_hosts) [
    | err e ↦ err e
    | ok p ↦ ok ((run p history).found)
  ]
