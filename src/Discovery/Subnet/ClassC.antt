-- ===== src/Discovery/Subnet/ClassC.antt =====
-- `generateIPs` of internal/discovery/subnet_probe.go on an IPv4 /24 network, with the limit that
-- cmd/mavlink-doctor/main.go gives: all hosts, in order.
use Prim.Native.Nat.{bit_and}
use mavlink_doctor.Common.{
  ℕ, zero, suc, ◌+◌, ◌-◌, ◌*◌, ◌≤◌, ◌<◌, ◌≡◌, refl, true, false, ◌&&◌, some, List, [], ◌∷◌, ◌++◌,
  Bytes, arith, length, length-append, leb, nat_eq, if◌then◌else◌,
}
use mavlink_doctor.Common.Table.{table, table_entry}
use mavlink_doctor.Discovery.Subnet.{
  IpNet, mask_ip, contains, inc, inc_carry, last_byte, is_skipped, collect, generate_ips,
}

masks_table : table (λ x. nat_eq (bit_and x 255) x && nat_eq (bit_and x 0) 0) 256 ≡ true
unfolding table
masks_table = refl

masks : (x : ℕ) → x < 256 → (bit_and x 255 ≡ x) × (bit_and x 0 ≡ 0)
masks x h = ground (
  arith,
  table_entry (λ x. nat_eq (bit_and x 255) x && nat_eq (bit_and x 0) 0) x 256 h masks_table,
)

abbrev pub class_c : ℕ → ℕ → ℕ → IpNet
class_c a b c = record { ip = a ∷ b ∷ c ∷ 0 ∷ []; mask = 255 ∷ 255 ∷ 255 ∷ 0 ∷ [] }

abbrev pub host : ℕ → ℕ → ℕ → ℕ → Bytes
host a b c d = a ∷ b ∷ c ∷ d ∷ []

-- The hosts 1, …, n of the network.
unfoldable pub hosts : ℕ → ℕ → ℕ → ℕ → List Bytes
hosts a b c zero = []
hosts a b c (suc n) = hosts a b c n ++ host a b c (suc n) ∷ []

pub length-hosts : (a b c n : ℕ) → length (hosts a b c n) ≡ n
unfolding hosts
length-hosts a b c zero = refl
length-hosts a b c (suc n) =
    omega (arith, length-append (hosts a b c n) (host a b c (suc n) ∷ []), length-hosts a b c n)

module _ (a b c : ℕ) where
  inside : (d : ℕ) → d < 256 → contains (class_c a b c) (host a b c d) ≡ true
  unfolding contains
  inside d h = ground (arith, masks d h, masks 0 (omega arith))

  inc-host : (d : ℕ) → d < 255 → inc (host a b c d) ≡ host a b c (suc d)
  unfolding inc inc_carry
  inc-host d h = ground arith

  last_host : (d : ℕ) → last_byte (host a b c d) ≡ d
  unfolding last_byte
  last_host d = refl

  not_skipped : (d : ℕ) → d < 254 → is_skipped (last_byte (host a b c (suc d))) ≡ false
  not_skipped d h = rw (last_host (suc d)) (ground arith)

  -- One round: the next host is gathered, and the loop ends when the limit is reached.
  collect-host :
      (limit fuel d : ℕ)
      → d < 254
      → collect (class_c a b c) limit (suc fuel) (host a b c d) (hosts a b c d) ≡ (
          if leb limit (suc d)
          then some (hosts a b c (suc d))
          else collect (class_c a b c) limit fuel (host a b c (suc d)) (hosts a b c (suc d)))
  unfolding collect hosts
  collect-host limit fuel d h =
      rw
        (
          inside d (omega arith),
          inc-host d (omega arith),
          inside (suc d) (omega arith),
          not_skipped d h,
        )
        (rw (length-hosts a b c (suc d)))

  collect-hosts :
      (k d limit fuel : ℕ)
      → d + suc k ≡ limit
      → limit ≤ 254
      → k < fuel
      → collect (class_c a b c) limit fuel (host a b c d) (hosts a b c d) ≡ some (hosts a b c limit)
  collect-hosts k d limit zero e l f = absurd (omega arith)
  collect-hosts zero d limit (suc fuel) e l f =
      rw (collect-host limit fuel d (omega arith)) (ground arith)
  collect-hosts (suc k) d limit (suc fuel) e l f =
      rw (collect-host limit fuel d (omega arith))
        (ground (arith, collect-hosts k (suc d) limit fuel (omega arith) l (omega arith)))

  -- On an IPv4 network a.b.c.0/24 with a limit of 1 to 254, as the program sets it, the scan returns
  -- exactly the hosts a.b.c.1 to a.b.c.limit, in this order.
  pub generate_ips-class_c :
      (limit : ℕ)
      → a < 256
      → b < 256
      → c < 256
      → 1 ≤ limit
      → limit ≤ 254
      → generate_ips (class_c a b c) limit ≡ some (hosts a b c limit)
  unfolding generate_ips mask_ip hosts
  generate_ips-class_c limit ha hb hc low high =
      rw ((masks a ha).0, (masks b hb).0, (masks c hc).0, (masks 0 (omega arith)).1)
        (collect-hosts (limit - 1) 0 limit (3 * limit + 6) (omega arith) high (omega arith))
