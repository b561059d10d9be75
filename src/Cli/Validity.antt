-- ===== src/Cli/Validity.antt =====
-- What a configuration that internal/cli/flags.go returns always satisfies.
use mavlink_doctor.Common.{
  ◌≡◌, refl, sym, ◌∙◌, ◌⊎◌, inl, inr, Bool, true, false, not, ◌&&◌, List, [], ◌∷◌, Bytes, bytes_eq,
  Bytes-Eq, subst, guard_passed, ◌==◌, codes, Result, ok, err, Bool-cases, if◌then◌else◌,
}
use mavlink_doctor.Common.Int.{ℤ}
use mavlink_doctor.Cli.Flags.{
  Flags, Config, version_config, FlagError, help_wanted, is_transport, is_mode, is_dialect,
  is_positive_duration, resolve_duration, is_disabled, resolve_report, resolve, wants_address,
  check_flags, check_parsed, parse_flags, normal, nanoseconds,
}
use mavlink_doctor.Common.Ascii.{trim_space, to_lower}

-- What the rest of the program relies on.
abbrev pub IsValid : Config → Type 0
IsValid c =
    (is_transport c.transport ≡ true)
    × (is_mode c.mode ≡ true)
    × (is_dialect c.dialect ≡ true)
    × (is_positive_duration c.listen_duration ≡ true)
    × (c.transport == codes "serial" && c.mode == codes "server" ≡ false)
    × (wants_address c.transport c.mode c.address ≡ false)
    × (is_disabled c.export_report ≡ false)

resolve_duration_positive : (n : ℤ) → is_positive_duration (resolve_duration n) ≡ true
unfolding resolve_duration
resolve_duration_positive n = elim (Bool-cases (is_positive_duration (nanoseconds n))) [
  | inl p ↦ rw (p, p)
  | inr q ↦ rw q
]

empty_enabled : is_disabled [] ≡ false
unfolding to_lower codes bytes_eq
empty_enabled = refl

resolve_report_enabled : (s : Bytes) → is_disabled (resolve_report s) ≡ false
unfolding resolve_report
resolve_report_enabled s = elim (Bool-cases (is_disabled (trim_space s))) [
  | inl p ↦ rw p empty_enabled
  | inr q ↦ rw (q, q)
]

true_of_negation : {b : Bool} → not b ≡ false → b ≡ true
true_of_negation {b = true} h = refl
true_of_negation {b = false} h = absurd (cc h)

ok_injective : (a b : Config) (r : Result FlagError Config) → r ≡ ok a → r ≡ ok b → a ≡ b
ok_injective a b r h k = cc (sym h ∙ k)

version_result :
    (f : Flags) (c : Config) → check_flags f ≡ ok c → f.version ≡ true → version_config ≡ c
unfolding check_flags
version_result f c h v = ok_injective version_config c (check_flags f) (rw v) h

after_version :
    (f : Flags) (c : Config) (r : Result FlagError Config)
    → (if f.version then ok version_config else r) ≡ ok c
    → f.version ≡ false
    → r ≡ ok c
after_version f c r h v = sym (rw v) ∙ h

check_flags-IsValid :
    (f : Flags) (c : Config) → check_flags f ≡ ok c → (c ≡ version_config) ⊎ IsValid c
unfolding check_flags resolve
check_flags-IsValid f c h = elim (Bool-cases f.version) [
  | inl v ↦ inl (sym (version_result f c h v))
  | inr v ↦
      let (t, h1) =
        guard_passed (not (is_transport (normal f.transport))) _ _ c (after_version f c _ h v) in
      let (m, h2) = guard_passed (not (is_mode (normal f.mode))) _ _ c h1 in
      let (s, h3) =
        guard_passed (normal f.transport == codes "serial" && normal f.mode == codes "server") _ _ c
          h2 in
      let (w, h4) =
        guard_passed (wants_address (normal f.transport) (normal f.mode) (trim_space f.address)) _ _
          c h3 in
      let (d, h5) = guard_passed (not (is_dialect (normal f.dialect))) _ _ c h4 in
      inr (
        subst IsValid (ok_injective (resolve f) c (ok (resolve f)) refl h5) (
          true_of_negation t,
          true_of_negation m,
          true_of_negation d,
          resolve_duration_positive f.listen,
          s,
          w,
          resolve_report_enabled f.report,
        ))
]

check_parsed-IsValid :
    (r : Result FlagError Flags) (c : Config)
    → check_parsed r ≡ ok c
    → (c ≡ version_config) ⊎ IsValid c
unfolding check_parsed
check_parsed-IsValid (err e) c h = absurd (cc h)
check_parsed-IsValid (ok f) c h = check_flags-IsValid f c h

-- Every configuration that `ParseFlags` returns, whatever the arguments and however the flags were
-- parsed, either asks for the version only, or has a known transport, mode and dialect, a positive
-- duration below 2^63 nanoseconds, no serial server, an address for an explicit UDP or TCP client, and
-- a report file that is not one of the words that disable it.
pub parse_flags-IsValid :
    (parse : List Bytes → Result FlagError Flags) (args : List Bytes) (c : Config)
    → parse_flags parse args ≡ ok c
    → (c ≡ version_config) ⊎ IsValid c
unfolding parse_flags
parse_flags-IsValid parse [] c h = check_parsed-IsValid (parse []) c h
parse_flags-IsValid parse (a ∷ rest) c h =
    let (_, h1) = guard_passed (a == codes "help") help_wanted _ c h in
    elim (Bool-cases (a == codes "version")) [
      | inl p ↦ inl (ok_injective c version_config (ok version_config) (sym (rw p) ∙ h1) refl)
      | inr q ↦ check_parsed-IsValid (parse (a ∷ rest)) c (sym (rw q) ∙ h1)
    ]
