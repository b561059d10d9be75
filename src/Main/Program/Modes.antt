-- ===== src/Main/Program/Modes.antt =====
-- The mode that cmd/mavlink-doctor/main.go chooses for UDP.
use mavlink_doctor.Common.{
  Bool, true, false, not, ◌&&◌, ◌||◌, [], ◌∷◌, ◌≡◌, ◌⊎◌, inl, inr, refl, sym, subst, Bytes,
  Bytes-Eq, bytes_eq, ◌==◌, codes, eq_of_==, if◌then◌else◌,
}
use mavlink_doctor.Cli.Flags.{is_mode, wants_address}

-- `select_mode`, of the transport, the mode and whether there is an address.
abbrev pub by_address : Bool → Bytes
by_address a = if a then codes "client" else codes "server"

abbrev pub mode_for : Bytes → Bytes → Bool → Bytes
mode_for t m a =
    let first = if t == codes "auto" then by_address a else m in
    if first == codes "auto" then by_address a else first

abbrev pub is_client : Bytes → Bytes → Bool → Bool
is_client t m a = a && (t == codes "auto" || not (m == codes "server"))

abbrev pub Agrees : Bytes → Bytes → Bool → Type 0
Agrees t m a = (mode_for t m a == codes "server") ≡ not (is_client t m a)

agrees_auto : (m : Bytes) (a : Bool) → Agrees (codes "auto") m a
unfolding codes bytes_eq
agrees_auto m true = refl
agrees_auto m false = refl

agrees_udp_auto : (a : Bool) → Agrees (codes "udp") (codes "auto") a
unfolding codes bytes_eq
agrees_udp_auto true = refl
agrees_udp_auto false = refl

agrees_udp_server : (a : Bool) → Agrees (codes "udp") (codes "server") a
unfolding codes bytes_eq
agrees_udp_server true = refl
agrees_udp_server false = refl

agrees_udp_client :
    (address : Bytes)
    → wants_address (codes "udp") (codes "client") address ≡ false
    → Agrees (codes "udp") (codes "client") (not (address == []))
unfolding codes bytes_eq
agrees_udp_client [] h = cc
agrees_udp_client (c ∷ cs) h = refl

one_of : (b c : Bool) → (b || c) ≡ true → (b ≡ true) ⊎ (c ≡ true)
one_of true c h = inl refl
one_of false c h = inr h

agrees_udp :
    (m address : Bytes)
    → is_mode m ≡ true
    → wants_address (codes "udp") m address ≡ false
    → Agrees (codes "udp") m (not (address == []))
agrees_udp m address hm hw =
    elim (one_of (m == codes "auto" || m == codes "server") (m == codes "client") hm) [
      | inl rest ↦ elim (one_of (m == codes "auto") (m == codes "server") rest) [
        | inl e ↦
            subst (λ k. Agrees (codes "udp") k (not (address == [])))
              (sym (eq_of_== m (codes "auto") e)) (agrees_udp_auto (not (address == [])))
        | inr e ↦
            subst (λ k. Agrees (codes "udp") k (not (address == [])))
              (sym (eq_of_== m (codes "server") e)) (agrees_udp_server (not (address == [])))
      ]
      | inr e ↦
          let client = eq_of_== m (codes "client") e in
          subst (λ k. Agrees (codes "udp") k (not (address == []))) (sym client)
            (agrees_udp_client address
              (subst (λ k. wants_address (codes "udp") k address ≡ false) client hw))
    ]

pub agrees :
    (t m address : Bytes)
    → (t == codes "auto" || t == codes "udp") ≡ true
    → is_mode m ≡ true
    → wants_address t m address ≡ false
    → Agrees t m (not (address == []))
agrees t m address ht hm hw = elim (one_of (t == codes "auto") _ ht) [
  | inl e ↦
      subst (λ k. Agrees k m (not (address == []))) (sym (eq_of_== t (codes "auto") e))
        (agrees_auto m (not (address == [])))
  | inr e ↦
      let udp = eq_of_== t (codes "udp") e in
      subst (λ k. Agrees k m (not (address == []))) (sym udp)
        (agrees_udp m address hm (subst (λ k. wants_address k m address ≡ false) udp hw))
]
