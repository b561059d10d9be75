-- ===== src/Discovery/Ports/Search.antt =====
-- The substring search of internal/discovery/port_check.go, and what it makes of ports.
use mavlink_doctor.Common.{
  ℕ, ◌-◌, ◌≡◌, sym, ap, ◌∙◌, inl, inr, true, [], ◌∷◌, ◌++◌, Bytes, Bytes-Eq, ◌==◌, bytes_eq_iff,
  arith, leb, length, length-append, take, drop, take-append-drop, Bool-cases, append-nil, eq_of_==,
  take-length-append, ◌↔◌,
}
use mavlink_doctor.Discovery.Ports.{find_substr, strings_contains_port}

-- The text stands somewhere in another.
abbrev pub Occurs : Bytes → Bytes → Type 0
Occurs s sub = (pre : Bytes) × (post : Bytes) × (s ≡ pre ++ (sub ++ post))

find_substr_sound : (s sub : Bytes) → find_substr s sub ≡ true → Occurs s sub
unfolding find_substr
find_substr_sound [] sub h = ([], [], rw (eq_of_== sub [] h))
find_substr_sound (c ∷ cs) sub h = elim (Bool-cases (leb (length sub) (length (c ∷ cs)))) [
  | inr q ↦ cc (rw q at h)
  | inl p ↦ elim (Bool-cases (take (length sub) (c ∷ cs) == sub)) [
    | inl r ↦ (
      [],
      drop (length sub) (c ∷ cs),
      sym (
          ap (λ x. x ++ drop (length sub) (c ∷ cs)) (sym (eq_of_== _ _ r))
          ∙ take-append-drop (length sub) (c ∷ cs)),
    )
    | inr r ↦
        let (pre, post, e) = find_substr_sound cs sub (rw (p, r) at h) in
        (c ∷ pre, post, ap (◌∷◌ c) e)
  ]
]

find_at_start :
    (s sub : Bytes)
    → leb (length sub) (length s) ≡ true
    → (take (length sub) s == sub) ≡ true
    → find_substr s sub ≡ true
unfolding find_substr
find_at_start [] [] h k = ground (arith, bytes_eq_iff [] [])
find_at_start [] (x ∷ xs) h k = absurd (ground arith)
find_at_start (c ∷ cs) sub h k = rw (h, k)

find_substr_complete : (pre sub post : Bytes) → find_substr (pre ++ (sub ++ post)) sub ≡ true
unfolding find_substr
find_substr_complete [] sub post =
    find_at_start (sub ++ post) sub (ground (arith, length-append sub post))
      ((bytes_eq_iff _ _).1 (take-length-append sub post))
find_substr_complete (c ∷ pre) sub post =
    let fits : leb (length sub) (length (c ∷ (pre ++ (sub ++ post)))) ≡ true =
      ground (arith, length-append pre (sub ++ post), length-append sub post) in
    elim (Bool-cases (take (length sub) (c ∷ (pre ++ (sub ++ post))) == sub)) [
      | inl r ↦ rw (fits, r)
      | inr r ↦ rw (fits, r) (find_substr_complete pre sub post)
    ]

drop-Occurs : (s sub : Bytes) (n : ℕ) → (drop n s == sub) ≡ true → Occurs s sub
drop-Occurs s sub n h = (
  take n s,
  [],
  sym (ap (λ x. take n s ++ x) (append-nil sub ∙ sym (eq_of_== _ _ h)) ∙ take-append-drop n s),
)

-- The search for a port in a text, with its shortcuts for an equal text and for an equal ending, is
-- the substring relation.
pub strings_contains_port-Occurs :
    (str port : Bytes) → (strings_contains_port str port ≡ true) ↔ Occurs str port
unfolding strings_contains_port
strings_contains_port-Occurs str port = (sound, complete)
  where
    sound : strings_contains_port str port ≡ true → Occurs str port
    sound h = elim (Bool-cases (find_substr str port)) [
      | inl p ↦ find_substr_sound str port p
      | inr q ↦ elim (Bool-cases (drop (length str - length port) str == port)) [
        | inl r ↦ drop-Occurs str port (length str - length port) r
        | inr r ↦ drop-Occurs str port 0 (ground arith)
      ]
    ]

    complete : Occurs str port → strings_contains_port str port ≡ true
    complete (pre, post, e) =
        let found : find_substr str port ≡ true = rw e (find_substr_complete pre port post) in
        let fits : leb (length port) (length str) ≡ true =
          rw e (ground (arith, length-append pre (port ++ post), length-append port post)) in
        ground arith
