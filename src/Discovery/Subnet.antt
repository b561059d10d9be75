-- ===== src/Discovery/Subnet.antt =====
-- internal/discovery/subnet_probe.go: the addresses of a subnet. An address is its bytes, most
-- significant first; a network is an address and a mask of the same length, as `net.ParseCIDR`
-- makes them (IPv4-mapped IPv6 networks, which `net` shortens to 4 bytes, are not covered).
pub mod Increment
pub mod Hosts
pub mod ClassC
use Prim.Native.Nat.{bit_and}
use mavlink_doctor.Common.{
  ℕ, zero, suc, ◌+◌, ◌*◌, Bool, true, false, not, ◌&&◌, ◌||◌, Option, none, some, List, [], ◌∷◌,
  ◌++◌, Bytes, nat_eq, leb, u8, length, if◌then◌else◌,
}

pub record IpNet : Type 0 where
  pub ip : Bytes
  pub mask : Bytes

-- `ip.Mask(mask)`
unfoldable pub mask_ip : Bytes → Bytes → Bytes
mask_ip (b ∷ bs) (m ∷ ms) = bit_and b m ∷ mask_ip bs ms
mask_ip (b ∷ bs) [] = []
mask_ip [] ms = []

-- The loop of `IPNet.Contains` over the bytes.
unfoldable pub agrees : Bytes → Bytes → Bytes → Bool
agrees (n ∷ ns) (m ∷ ms) (b ∷ bs) = nat_eq (bit_and n m) (bit_and b m) && agrees ns ms bs
agrees (n ∷ ns) (m ∷ ms) [] = false
agrees (n ∷ ns) [] bs = false
agrees [] ms [] = true
agrees [] ms (b ∷ bs) = false

unfoldable pub contains : IpNet → Bytes → Bool
unfolding agrees
contains net ip = agrees net.ip net.mask ip

-- `inc`: the loop from the last byte, which goes on as long as the byte has wrapped to 0. The Boolean
-- says that the loop has passed the first byte given.
unfoldable pub inc_carry : Bytes → Bool × Bytes
inc_carry [] = (true, [])
inc_carry (b ∷ bs) =
    let (carry, bs') = inc_carry bs in
    if carry then (nat_eq (u8 (b + 1)) 0, u8 (b + 1) ∷ bs') else (false, b ∷ bs')

unfoldable pub inc : Bytes → Bytes
unfolding inc_carry
inc ip = (inc_carry ip).1

-- `ip[len(ip)-1]`
unfoldable pub last_byte : Bytes → ℕ
last_byte [] = 0
last_byte (b ∷ []) = b
last_byte (b ∷ c ∷ bs) = last_byte (c ∷ bs)

abbrev pub is_skipped : ℕ → Bool
is_skipped b = nat_eq b 0 || nat_eq b 255

-- One round of the loop, from the address that the last round has left. `none` means that the fuel
-- has run out.
unfoldable pub collect : IpNet → ℕ → ℕ → Bytes → List Bytes → Option (List Bytes)
collect net max_hosts zero ip ips = none
collect net max_hosts (suc fuel) ip ips =
    let next = inc ip in
    let skipped = collect net max_hosts fuel next ips in
    let more = collect net max_hosts fuel next (ips ++ next ∷ []) in
    if not (contains net ip)
    then some ips
    else if not (contains net next)
    then some ips
    else if is_skipped (last_byte next)
    then skipped
    else if leb max_hosts (length (ips ++ next ∷ []))
    then some (ips ++ next ∷ [])
    else more

-- At most two addresses in a row are skipped, so three rounds for each host are enough.
unfoldable pub generate_ips : IpNet → ℕ → Option (List Bytes)
unfolding collect
generate_ips net max_hosts = collect net max_hosts (3 * max_hosts + 6) (mask_ip net.ip net.mask) []
