-- ===== src/Discovery/Subnet/Hosts.antt =====
-- `generateIPs` of internal/discovery/subnet_probe.go: it ends, and what it returns.
use mavlink_doctor.Common.{
  ℕ, zero, suc, ◌+◌, ◌-◌, ◌*◌, ◌≤◌, ◌<◌, ◌≡◌, refl, ap, inl, inr, true, false, Option, none, some,
  List, [], ◌∷◌, ◌++◌, Bytes, arith, All, All-append, length, length-append, leb, nat_eq, u8,
  if◌then◌else◌, Bool-cases,
}
use mavlink_doctor.Discovery.Subnet.{
  IpNet, mask_ip, contains, inc, last_byte, is_skipped, collect, generate_ips,
}
use mavlink_doctor.Discovery.Subnet.Increment.{last_byte-inc, length-inc}

-- An address that the loop may return.
abbrev pub IsHost : IpNet → Bytes → Type 0
IsHost net ip = (contains net ip ≡ true) × (is_skipped (last_byte ip) ≡ false)

-- How many addresses in a row the loop skips after one with this last byte.
abbrev skips : ℕ → ℕ
skips b = if nat_eq (u8 (b + 1)) 255 then 2 else if nat_eq (u8 (b + 1)) 0 then 1 else 0

abbrev pub at_least_one : ℕ → ℕ
at_least_one n = if nat_eq n 0 then 1 else n

-- What the loop returns, given what it has gathered.
abbrev Outcome : IpNet → ℕ → Option (List Bytes) → Type 0
Outcome net max_hosts none = ⊥
Outcome net max_hosts (some ips) = All (IsHost net) ips × (length ips ≤ at_least_one max_hosts)

-- A skipped address leaves fewer to skip; any other leaves at most two.
skips-next : (b : ℕ) → is_skipped (u8 (b + 1)) ≡ true → suc (skips (u8 (b + 1))) ≤ skips b
skips-next b h = ground arith

skips-le : (b : ℕ) → skips b ≤ 2
skips-le b = ground arith

not_full : (m k : ℕ) → leb m k ≡ false → k < at_least_one m
not_full m k h = ground arith

at_least_one-le : (m : ℕ) → at_least_one m ≤ m + 1
at_least_one-le m = ground arith

collect-Outcome :
    (net : IpNet) (max_hosts fuel : ℕ) (ip : Bytes) (ips : List Bytes)
    → 0 < length ip
    → length ips < at_least_one max_hosts
    → 3 * (at_least_one max_hosts - length ips) + skips (last_byte ip) < fuel
    → All (IsHost net) ips
    → Outcome net max_hosts (collect net max_hosts fuel ip ips)
unfolding collect
collect-Outcome net m zero ip ips hl hm hf h = absurd (omega arith)
collect-Outcome net m (suc fuel) ip ips hl hm hf h =
    let next = inc ip in
    let long : 0 < length next = omega (arith, length-inc ip) in
    let last = last_byte-inc ip hl in
    let added : length (ips ++ next ∷ []) ≡ length ips + 1 = length-append ips (next ∷ []) in
    elim (Bool-cases (contains net ip)) [
      | inr q ↦ rw q (h, omega arith)
      | inl p ↦ elim (Bool-cases (contains net next)) [
        | inr q ↦ rw (p, q) (h, omega arith)
        | inl r ↦ elim (Bool-cases (is_skipped (last_byte next))) [
          | inl s ↦
              rw (p, r, s)
                (collect-Outcome net m fuel next ips long hm
                  (rw last (omega (arith, skips-next (last_byte ip) (rw last at s)))) h)
          | inr s ↦
              let grown = All-append (IsHost net) ips (next ∷ []) h ((r, s), tt) in
              elim (Bool-cases (leb m (length (ips ++ next ∷ [])))) [
                | inl e ↦ rw (p, r, s, e) (grown, rw added (omega arith))
                | inr f ↦
                    rw (p, r, s, f)
                      (collect-Outcome net m fuel next (ips ++ next ∷ []) long
                        (not_full m (length (ips ++ next ∷ [])) f)
                        (omega (arith, added, skips-le (last_byte next))) grown)
              ]
        ]
      ]
    ]

mask_ip-length : (ip mask : Bytes) → length ip ≡ length mask → length (mask_ip ip mask) ≡ length ip
unfolding mask_ip
mask_ip-length [] ms h = refl
mask_ip-length (b ∷ bs) [] h = absurd (omega arith)
mask_ip-length (b ∷ bs) (m ∷ ms) h = ap suc (mask_ip-length bs ms (omega arith))

-- A network with a mask of the address's length, which is not 0. Then the scan ends with a list of at
-- most `max_hosts` addresses, or of one where `max_hosts` is 0, and each of them lies in the network
-- and has a last byte other than 0 and 255.
pub generate_ips_hosts :
    (net : IpNet) (max_hosts : ℕ)
    → 0 < length net.ip
    → length net.ip ≡ length net.mask
    → (ips : List Bytes) × (generate_ips net max_hosts ≡ some ips)
      × All (IsHost net) ips
      × (length ips ≤ at_least_one max_hosts)
unfolding generate_ips
generate_ips_hosts net m h e =
    let start = mask_ip net.ip net.mask in
    of_Outcome (collect net m (3 * m + 6) start []) (
      collect-Outcome net m (3 * m + 6) start [] (omega (arith, mask_ip-length net.ip net.mask e))
        (ground arith) (omega (arith, at_least_one-le m, skips-le (last_byte start))) tt)
  where
    of_Outcome :
        (o : Option (List Bytes))
        → Outcome net m o
        → (ips : List Bytes) × (o ≡ some ips) × All (IsHost net) ips × (length ips ≤ at_least_one m)
    of_Outcome none x = absurd x
    of_Outcome (some ips) x = (ips, refl, x.0, x.1)
