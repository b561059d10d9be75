-- ===== src/Decoder/Names.antt =====
-- The names of internal/decoder/enums.go tell all values of an enum apart.
use mavlink_doctor.Common.{
  ℕ, ℕ-Eq, ◌≡◌, refl, sym, ◌∙◌, ◌∷◌, [], ◌++◌, ap, inl, inr, some, Bool, true, false, ◌&&◌, not,
  Bytes, Bytes-Eq, ◌==◌, codes, bytes_eq, bytes_eq_iff, has_prefix, has_prefix-append, arith,
  Option-cases, if◌then◌else◌, ◌≢◌, append_cancel_left, append_cancel_right,
}
use mavlink_doctor.Common.Assoc.{Assoc, lookup}
use mavlink_doctor.Common.Decimal.{decimal, decimal-injective}
use mavlink_doctor.Decoder.Enums.{
  format_d, name_in, autopilots, autopilot_name, vehicle_types, vehicle_type_name, system_statuses,
  system_status_name, components, component_name,
}

-- No name of the table stands under a second number, and none begins like the default text.
has_name : Bytes → Assoc ℕ Bytes → Bool
has_name s [] = false
has_name s ((k, r) ∷ m) = if s == r then true else has_name s m

pub is_clear : Bytes → Assoc ℕ Bytes → Bool
unfolding has_name
is_clear before [] = true
is_clear before ((k, s) ∷ m) =
    (not (has_prefix before s) && not (has_name s m)) && is_clear before m

has_name_of_lookup :
    (n : ℕ) (s : Bytes) (m : Assoc ℕ Bytes) → lookup n m ≡ some s → has_name s m ≡ true
unfolding lookup has_name
has_name_of_lookup n s [] h = cc
has_name_of_lookup n s ((k, r) ∷ m) h = ground (arith, bytes_eq_iff s r, has_name_of_lookup n s m)

lookup_injective :
    (before : Bytes) (a b : ℕ) (s : Bytes) (m : Assoc ℕ Bytes)
    → is_clear before m ≡ true
    → lookup a m ≡ some s
    → lookup b m ≡ some s
    → a ≡ b
unfolding lookup is_clear
lookup_injective before a b s [] c h k = cc
lookup_injective before a b s ((j, r) ∷ m) c h k =
    ground
      (arith, lookup_injective before a b s m, has_name_of_lookup a s m, has_name_of_lookup b s m)

lookup_no_prefix :
    (before : Bytes) (a : ℕ) (s : Bytes) (m : Assoc ℕ Bytes)
    → is_clear before m ≡ true
    → lookup a m ≡ some s
    → has_prefix before s ≡ false
unfolding lookup is_clear
lookup_no_prefix before a s [] c h = cc
lookup_no_prefix before a s ((j, r) ∷ m) c h = ground (arith, lookup_no_prefix before a s m)

pub format_d-injective :
    (before after : Bytes) (a b : ℕ) → format_d before after a ≡ format_d before after b → a ≡ b
unfolding format_d
format_d-injective before after a b h =
    decimal-injective a b
      (append_cancel_right (decimal a) (decimal b) after (append_cancel_left before h))

default_not_named :
    (before after : Bytes) (a b : ℕ) (s : Bytes) (m : Assoc ℕ Bytes)
    → is_clear before m ≡ true
    → lookup a m ≡ some s
    → s ≢ format_d before after b
unfolding format_d
default_not_named before after a b s m c h p =
    cc (lookup_no_prefix before a s m c h, has_prefix-append before (decimal b ++ after), p)

name_in-injective :
    (table : Assoc ℕ Bytes) (before after : Bytes) (a b : ℕ)
    → is_clear before table ≡ true
    → name_in table before after a ≡ name_in table before after b
    → a ≡ b
unfolding name_in
name_in-injective table before after a b c h = elim (Option-cases (lookup a table)) [
  | inl na ↦ elim (Option-cases (lookup b table)) [
    | inl nb ↦ format_d-injective before after a b (rw (na, nb) at h)
    | inr (s, sb) ↦
        absurd (default_not_named before after b a s table c sb (sym (rw (na, sb) at h)))
  ]
  | inr (r, sa) ↦ elim (Option-cases (lookup b table)) [
    | inl nb ↦ absurd (default_not_named before after a b r table c sa (rw (sa, nb) at h))
    | inr (s, sb) ↦ lookup_injective before a b r table c sa (sb ∙ ap some (sym (rw (sa, sb) at h)))
  ]
]

abbrev all_clear : Bool
all_clear =
    is_clear (codes "Custom / Other (") autopilots
    && is_clear (codes "Specialized / Unknown (") vehicle_types
    && is_clear (codes "Unknown state (") system_statuses
    && is_clear (codes "Component ") components

clear_tables : all_clear ≡ true
unfolding is_clear codes has_prefix bytes_eq
clear_tables = refl

-- Each of the four naming functions gives different names to different numbers, so a report tells
-- every value of the enum apart.
pub names-injective :
    (a b : ℕ)
    → a ≢ b
    → (autopilot_name a ≢ autopilot_name b)
      × (vehicle_type_name a ≢ vehicle_type_name b)
      × (system_status_name a ≢ system_status_name b)
      × (component_name a ≢ component_name b)
unfolding autopilot_name vehicle_type_name system_status_name component_name
names-injective a b h = (
  λ p. h (name_in-injective autopilots _ _ a b (ground (arith, clear_tables)) p),
  λ p. h (name_in-injective vehicle_types _ _ a b (ground (arith, clear_tables)) p),
  λ p. h (name_in-injective system_statuses _ _ a b (ground (arith, clear_tables)) p),
  λ p. h (name_in-injective components _ _ a b (ground (arith, clear_tables)) p),
)
