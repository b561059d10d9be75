-- ===== src/Discovery/Interfaces/Candidates.antt =====
-- The IPv4 bind candidates of internal/discovery/net_interfaces.go, in the report that
-- internal/reporter/support_report.go redacts.
use mavlink_doctor.Common.{
  ℕ, ◌<◌, none, some, Option, List, [], ◌∷◌, ◌++◌, map, ◌≡◌, refl, sym, ap, ◌∙◌, Bytes, codes,
  nat_eq, All, arith, if◌then◌else◌, append-nil, append_assoc, length, take, drop, length-drop,
  zero, suc, Bool-cases, inl, inr, nat_eq_iff, ◌&&◌, ◌==◌, Bytes-Eq, map-append,
}
use mavlink_doctor.Common.Decimal.{decimal}
use mavlink_doctor.Discovery.Probe.{ip_text, to4, v4_prefix}
use mavlink_doctor.Discovery.Interfaces.{
  Addr, Interface, extract_ip, bind_text, bind_texts, addrs_of, interface_info,
}
use mavlink_doctor.Reporter.Redact.{mask_ip, mask_from, quad_text, redact_interface}
use mavlink_doctor.Reporter.Redact.Addresses.{mask_ip-address, quad_of}

-- The IPv4 addresses of an interface, in four bytes each.
abbrev pub v4_of : Option Bytes → List Bytes
v4_of none = []
v4_of (some ip) = elim (to4 ip) [ none ↦ [] | some v4 ↦ v4 ∷ [] ]

abbrev pub v4_addresses : List Addr → List Bytes
v4_addresses [] = []
v4_addresses (a ∷ rest) = v4_of (extract_ip a) ++ v4_addresses rest

-- What a redacted report shows of an address.
abbrev pub hidden : Bytes → Bytes
hidden (a ∷ b ∷ c ∷ d ∷ []) =
    if nat_eq a 127
    then ip_text (a ∷ b ∷ c ∷ d ∷ [])
    else decimal a ++ codes "." ++ decimal b ++ codes ".xxx.xxx"
hidden other = []

abbrev pub HasBytes : Option Bytes → Type 0
HasBytes none = Unit
HasBytes (some ip) = All (λ b. b < 256) ip

abbrev IsByte : ℕ → Type 0
IsByte b = b < 256

ip_text-quad : (a b c d : ℕ) → ip_text (a ∷ b ∷ c ∷ d ∷ []) ≡ quad_text (quad_of a b c d) ++ []
unfolding ip_text quad_text codes
ip_text-quad a b c d = simp (append_assoc, append-nil)

mask_ip-v4 :
    (a b c d : ℕ)
    → a < 256
    → b < 256
    → c < 256
    → d < 256
    → mask_ip (ip_text (a ∷ b ∷ c ∷ d ∷ [])) ≡ hidden (a ∷ b ∷ c ∷ d ∷ [])
unfolding mask_from
mask_ip-v4 a b c d ha hb hc hd =
    ap mask_ip (ip_text-quad a b c d)
    ∙ mask_ip-address a b c d [] ha hb hc hd refl
    ∙ append-nil (if nat_eq a 127 then quad_text (quad_of a b c d) else _)
    ∙ ap (λ t. if nat_eq a 127 then t else decimal a ++ codes "." ++ decimal b ++ codes ".xxx.xxx")
        (sym (ip_text-quad a b c d ∙ append-nil (quad_text (quad_of a b c d))))

abbrev Four : Option Bytes → Type 0
Four none = Unit
Four (some v) = (length v ≡ 4) × All IsByte v

All-drop : (n : ℕ) (s : Bytes) → All IsByte s → All IsByte (drop n s)
All-drop zero s h = h
All-drop (suc n) [] h = tt
All-drop (suc n) (c ∷ cs) h = All-drop n cs h.1

to4-Four : (ip : Bytes) → All IsByte ip → Four (to4 ip)
unfolding to4
to4-Four ip h = elim (Bool-cases (nat_eq (length ip) 4)) [
  | inl four ↦ rw four ((nat_eq_iff (length ip) 4).0 four, h)
  | inr not_four ↦ elim (Bool-cases (nat_eq (length ip) 16 && take 12 ip == v4_prefix)) [
    | inl mapped ↦
        rw (not_four, mapped)
          (
            omega (arith, length-drop 12 ip, (nat_eq_iff (length ip) 16).0 (ground arith)),
            All-drop 12 ip h,
          )
    | inr other ↦ rw (not_four, other) tt
  ]
]

mask_ip-hidden : (v : Bytes) → length v ≡ 4 → All IsByte v → mask_ip (ip_text v) ≡ hidden v
mask_ip-hidden [] e h = absurd (omega (arith, e))
mask_ip-hidden (a ∷ []) e h = absurd (omega (arith, e))
mask_ip-hidden (a ∷ b ∷ []) e h = absurd (omega (arith, e))
mask_ip-hidden (a ∷ b ∷ c ∷ []) e h = absurd (omega (arith, e))
mask_ip-hidden (a ∷ b ∷ c ∷ d ∷ []) e h = mask_ip-v4 a b c d h.0 h.1.0 h.1.1.0 h.1.1.1.0
mask_ip-hidden (a ∷ b ∷ c ∷ d ∷ x ∷ v) e h = absurd (omega (arith, e))

texts_hidden :
    (o : Option Bytes)
    → Four o
    → map mask_ip (elim o [ none ↦ [] | some v4 ↦ ip_text v4 ∷ [] ])
      ≡ map hidden (elim o [ none ↦ [] | some v4 ↦ v4 ∷ [] ])
texts_hidden none h = refl
texts_hidden (some v) h = ap (λ t. t ∷ []) (mask_ip-hidden v h.0 h.1)

bind_text-hidden :
    (o : Option Bytes) → HasBytes o → map mask_ip (bind_text o) ≡ map hidden (v4_of o)
unfolding bind_text
bind_text-hidden none h = refl
bind_text-hidden (some ip) h = texts_hidden (to4 ip) (to4-Four ip h)

bind_texts-hidden :
    (addrs : List Addr)
    → All (λ a. HasBytes (extract_ip a)) addrs
    → map mask_ip (bind_texts addrs) ≡ map hidden (v4_addresses addrs)
unfolding bind_texts
bind_texts-hidden [] h = refl
bind_texts-hidden (a ∷ rest) h =
    map-append mask_ip (bind_text (extract_ip a)) (bind_texts rest)
    ∙ ap (λ t. t ++ map mask_ip (bind_texts rest)) (bind_text-hidden (extract_ip a) h.0)
    ∙ ap (λ t. map hidden (v4_of (extract_ip a)) ++ t) (bind_texts-hidden rest h.1)
    ∙ sym (map-append hidden (v4_of (extract_ip a)) (v4_addresses rest))

-- For an interface whose addresses are made of bytes, with IPv4 addresses in 4 or in 16 bytes and any
-- others between them: the bind candidates of its redacted report are one text for each IPv4 address, in
-- order, with the first two numbers of the address and "xxx" for the last two, but for loopback
-- addresses, which stay.
pub redacted_candidates :
    (i : Interface)
    → All (λ a. HasBytes (extract_ip a)) (addrs_of i.addrs)
    → (redact_interface (interface_info i)).ipv4_bind ≡ map hidden (v4_addresses (addrs_of i.addrs))
unfolding redact_interface interface_info
redacted_candidates i h = bind_texts-hidden (addrs_of i.addrs) h
