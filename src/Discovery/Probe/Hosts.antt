-- ===== src/Discovery/Probe/Hosts.antt =====
-- The addresses that internal/discovery/subnet_probe.go dials for the hosts of a /24 network: no two of
-- them have the same text.
use mavlink_doctor.Common.{
  ℕ, zero, suc, ◌≤◌, ◌<◌, ◌≡◌, ◌≢◌, refl, sym, ap, ◌∙◌, inl, inr, Bool, false, [], ◌∷◌, ◌++◌, Bytes,
  Bytes-Eq, codes, arith, nat_eq, total, All-append, append_cancel_left, append_cancel_right,
  ==_false, ==_refl, Bool-cases, nat_eq_iff, subst, if◌then◌else◌,
}
use mavlink_doctor.Common.Int.{ℤ}
use mavlink_doctor.Common.Decimal.{decimal, sprint, decimal-injective, All-decimal}
use mavlink_doctor.Common.Fields.{Without}
use mavlink_doctor.Common.HostPort.{has_byte-Without}
use mavlink_doctor.Discovery.Probe.{ip_text, target, to4}
use mavlink_doctor.Discovery.Probe.Complete.{dialled, total-append}
use mavlink_doctor.Discovery.Routing.Targets.{digits-Without, join_plain}
use mavlink_doctor.Discovery.Subnet.ClassC.{host, hosts}
use mavlink_doctor.Transport.Endpoints.{join_host_port}

decimal-Without : (n : ℕ) → Without b':' (decimal n)
decimal-Without n = digits-Without b':' (decimal n) (λ d. absurd (omega arith)) (All-decimal n)

append-Without : (s t : Bytes) → Without b':' s → Without b':' t → Without b':' (s ++ t)
append-Without s t h k = All-append (λ x. nat_eq x b':' ≡ false) s t h k

dotted-Without : (s : Bytes) (n : ℕ) → Without b':' s → Without b':' (s ++ decimal n ++ codes ".")
unfolding codes
dotted-Without s n h =
    append-Without (s ++ decimal n) (codes ".") (append-Without s (decimal n) h (decimal-Without n))
      (refl, tt)

module _ (port : ℤ) (a b c : ℕ) where
  -- The address of a host, as it is dialled.
  abbrev pub address_of : ℕ → Bytes
  address_of d = join_host_port (ip_text (host a b c d)) port

  -- The text of a host's address before its last byte.
  abbrev network_text : Bytes
  network_text = decimal a ++ codes "." ++ decimal b ++ codes "." ++ decimal c ++ codes "."

  host_text : (d : ℕ) → ip_text (host a b c d) ≡ network_text ++ decimal d
  unfolding ip_text codes
  host_text d = refl

  host_text-Without : (d : ℕ) → Without b':' (network_text ++ decimal d)
  host_text-Without d =
      append-Without network_text (decimal d)
        (dotted-Without ((decimal a ++ codes ".") ++ decimal b ++ codes ".") c
          (dotted-Without (decimal a ++ codes ".") b (dotted-Without [] a tt)))
        (decimal-Without d)

  host_address : (d : ℕ) → address_of d ≡ (network_text ++ decimal d) ++ b':' ∷ sprint port
  host_address d =
      ap (λ s. join_host_port s port) (host_text d)
      ∙ join_plain (network_text ++ decimal d) port
          (has_byte-Without b':' (network_text ++ decimal d) (host_text-Without d))

  address_of-injective : (d e : ℕ) → address_of d ≡ address_of e → d ≡ e
  address_of-injective d e h = decimal-injective d e (
      append_cancel_left network_text (
        append_cancel_right (network_text ++ decimal d) (network_text ++ decimal e)
          (b':' ∷ sprint port) (sym (host_address d) ∙ h ∙ host_address e)))

  module _ (dial : Bytes → Bool) where
    -- 1 when the host can be dialled.
    abbrev pub dials : ℕ → ℕ
    dials d = if dial (address_of d) then 1 else 0

    dialled_self : (d : ℕ) → dialled dial port (address_of d) (host a b c d) ≡ dials d
    unfolding target to4
    dialled_self d = elim (Bool-cases (dial (address_of d))) [
      | inl p ↦ rw (p, ==_refl (address_of d)) refl
      | inr q ↦ rw q refl
    ]

    dialled_other : (d e : ℕ) → e ≢ d → dialled dial port (address_of d) (host a b c e) ≡ 0
    unfolding target to4
    dialled_other d e h =
        let differ = ==_false (address_of e) (address_of d) (λ k. h (address_of-injective e d k)) in
        elim (Bool-cases (dial (address_of e))) [ inl p ↦ rw (p, differ) refl | inr q ↦ rw q refl ]

    before_host : (d n : ℕ) → n < d → total (dialled dial port (address_of d)) (hosts a b c n) ≡ 0
    unfolding hosts
    before_host d zero h = refl
    before_host d (suc n) h = omega (
      arith,
      total-append (dialled dial port (address_of d)) (hosts a b c n) (host a b c (suc n) ∷ []),
      before_host d n (omega (arith, h)),
      dialled_other d (suc n) (λ e. absurd (omega (arith, h, e))),
    )

    -- Among the hosts, the text of one that can be dialled stands once.
    pub hosts-dialled :
        (d n : ℕ)
        → 0 < d
        → d ≤ n
        → total (dialled dial port (address_of d)) (hosts a b c n) ≡ dials d
    unfolding hosts
    hosts-dialled d zero p h = absurd (omega (arith, p, h))
    hosts-dialled d (suc n) p h =
        let split =
          total-append (dialled dial port (address_of d)) (hosts a b c n)
            (host a b c (suc n) ∷ []) in
        elim (Bool-cases (nat_eq (suc n) d)) [
          | inl p ↦
              let e = (nat_eq_iff (suc n) d).0 p in
              omega (
                arith,
                split,
                before_host d n (omega (arith, e)),
                subst (λ k. dialled dial port (address_of d) (host a b c k) ≡ dials d) (sym e)
                    (dialled_self d),
              )
          | inr q ↦ omega (
            arith,
            split,
            hosts-dialled d n p (omega (arith, h, other q)),
            dialled_other d (suc n) (other q),
          )
        ]
      where
        other : nat_eq (suc n) d ≡ false → suc n ≢ d
        other q e = absurd (ground (arith, q, e))
