-- ===== src/Common/HostPort.antt =====
-- `net.SplitHostPort`, whose errors are all one to its callers here.
use Prim.Native.Nat.{ℕ, ◌+◌}
use mathlib.Core.Path.{◌≡◌, refl, ap, sym, ◌∙◌}
use mathlib.Core.Bool.{Bool, false, ◌||◌}
use mathlib.Core.Option.{Option, none, some}
use mathlib.Core.List.{[], ◌∷◌, ◌++◌, append_assoc}
use native.Mathlib.Omega.{arith}
use mavlink_doctor.Common.Tests.{nat_eq, if◌then◌else◌}
use mavlink_doctor.Common.Lists.{any, drop, length, length-append}
use mavlink_doctor.Common.Text.{Bytes}
use mavlink_doctor.Common.Fields.{Without}

-- The text before and after the last, or the first, occurrence of a byte.
abbrev before_last : ℕ → ℕ → Bytes → Option (Bytes × Bytes) → Option (Bytes × Bytes)
before_last c x xs (some (a, b)) = some (x ∷ a, b)
before_last c x xs none = if nat_eq x c then some ([], xs) else none

unfoldable pub break_last : ℕ → Bytes → Option (Bytes × Bytes)
break_last c [] = none
break_last c (x ∷ xs) = before_last c x xs (break_last c xs)

abbrev before_first : ℕ → Option (Bytes × Bytes) → Option (Bytes × Bytes)
before_first x (some (a, b)) = some (x ∷ a, b)
before_first x none = none

unfoldable pub break_first : ℕ → Bytes → Option (Bytes × Bytes)
break_first c [] = none
break_first c (x ∷ xs) =
    let rest = break_first c xs in if nat_eq x c then some ([], xs) else before_first x rest

abbrev pub has_byte : ℕ → Bytes → Bool
has_byte c s = any (λ x. nat_eq x c) s

abbrev starts_bracket : Bytes → Bool
starts_bracket [] = false
starts_bracket (x ∷ xs) = nat_eq x b'['

-- `[host]:port`: the first `]` stands just before the last colon, at offset `colon`.
abbrev split_bracketed : ℕ → Bytes → Bytes → Option (Bytes × Bytes) → Option (Bytes × Bytes)
split_bracketed colon hostport port none = none
split_bracketed colon hostport port (some (opened, after)) =
    if nat_eq (length opened + 1) colon
    then if has_byte b'[' (drop 1 hostport) || has_byte b']' after
      then none
      else some (drop 1 opened, port)
    else none

abbrev split_plain : Bytes → Bytes → Bytes → Option (Bytes × Bytes)
split_plain hostport host port =
    if has_byte b':' host || has_byte b'[' hostport || has_byte b']' hostport
    then none
    else some (host, port)

abbrev split_at_colon : Bytes → Option (Bytes × Bytes) → Option (Bytes × Bytes)
split_at_colon hostport none = none
split_at_colon hostport (some (before, port)) =
    if starts_bracket hostport
    then split_bracketed (length before) hostport port (break_first b']' hostport)
    else split_plain hostport before port

unfoldable pub split_host_port : Bytes → Option (Bytes × Bytes)
unfolding break_last break_first
split_host_port hostport = split_at_colon hostport (break_last b':' hostport)

pub break_last-none : (c : ℕ) (ys : Bytes) → Without c ys → break_last c ys ≡ none
unfolding break_last
break_last-none c [] h = refl
break_last-none c (y ∷ ys) h = rw (break_last-none c ys h.1, h.0)

break_last_found :
    (c : ℕ) (xs ys : Bytes) → Without c ys → break_last c (xs ++ c ∷ ys) ≡ some (xs, ys)
unfolding break_last
break_last_found c [] ys h = rw (break_last-none c ys h) (ground arith)
break_last_found c (x ∷ xs) ys h = rw (break_last_found c xs ys h)

break_first_found :
    (c : ℕ) (xs ys : Bytes) → Without c xs → break_first c (xs ++ c ∷ ys) ≡ some (xs, ys)
unfolding break_first
break_first_found c [] ys h = ground arith
break_first_found c (x ∷ xs) ys h = rw (h.0, break_first_found c xs ys h.1)

has_byte-append : (c : ℕ) (xs ys : Bytes) → has_byte c (xs ++ ys) ≡ has_byte c xs || has_byte c ys
has_byte-append c [] ys = refl
has_byte-append c (x ∷ xs) ys = ground (arith, has_byte-append c xs ys)

pub has_byte-Without : (c : ℕ) (xs : Bytes) → Without c xs → has_byte c xs ≡ false
has_byte-Without c [] h = refl
has_byte-Without c (x ∷ xs) h = rw h.0 (has_byte-Without c xs h.1)

-- A text that is a host as it stands, and the text of a port.
pub record IsHostText (host : Bytes) : Type 0 where
  pub no_opening : Without b'[' host
  pub no_closing : Without b']' host

pub record IsPortText (port : Bytes) : Type 0 where
  pub no_colon : Without b':' port
  pub no_opening : Without b'[' port
  pub no_closing : Without b']' port

starts_bracket-host :
    (host port : Bytes) → Without b'[' host → starts_bracket (host ++ b':' ∷ port) ≡ false
starts_bracket-host [] port h = refl
starts_bracket-host (c ∷ cs) port h = h.0

module _ (host port : Bytes) (h : IsHostText host) (p : IsPortText port) where
  no_bracket :
      (c : ℕ)
      → nat_eq b':' c ≡ false
      → Without c host
      → Without c port
      → has_byte c (host ++ b':' ∷ port) ≡ false
  no_bracket c e wh wp =
      has_byte-append c host (b':' ∷ port)
      ∙ rw (has_byte-Without c host wh, e, has_byte-Without c port wp)

  -- A host and a port joined by a colon are split apart again.
  pub split_plain_host :
      Without b':' host → split_host_port (host ++ b':' ∷ port) ≡ some (host, port)
  unfolding split_host_port
  split_plain_host w = rw (break_last_found b':' host port p.no_colon) (
      rw (
        starts_bracket-host host port h.no_opening,
        has_byte-Without b':' host w,
        no_bracket b'[' refl h.no_opening p.no_opening,
        no_bracket b']' refl h.no_closing p.no_closing,
      ))

  -- So is a host in brackets, which may hold colons.
  pub split_bracketed_host :
      split_host_port (b'[' ∷ (host ++ b']' ∷ b':' ∷ port)) ≡ some (host, port)
  unfolding split_host_port
  split_bracketed_host =
      let colon : break_last b':' (b'[' ∷ (host ++ b']' ∷ b':' ∷ port))
          ≡ some (b'[' ∷ (host ++ b']' ∷ []), port) =
        ap (λ x. break_last b':' (b'[' ∷ x)) (sym (append_assoc host (b']' ∷ []) (b':' ∷ port)))
        ∙ break_last_found b':' (b'[' ∷ (host ++ b']' ∷ [])) port p.no_colon in
      let bracket : break_first b']' (b'[' ∷ (host ++ b']' ∷ b':' ∷ port))
          ≡ some (b'[' ∷ host, b':' ∷ port) =
        break_first_found b']' (b'[' ∷ host) (b':' ∷ port) (refl, h.no_closing) in
      let inner_open : has_byte b'[' (host ++ b']' ∷ b':' ∷ port) ≡ false =
        has_byte-append b'[' host (b']' ∷ b':' ∷ port)
        ∙ rw (has_byte-Without b'[' host h.no_opening, has_byte-Without b'[' port p.no_opening) in
      ap (split_at_colon (b'[' ∷ (host ++ b']' ∷ b':' ∷ port))) colon
      ∙ ap
          (split_bracketed (length (b'[' ∷ (host ++ b']' ∷ [])))
            (b'[' ∷ (host ++ b']' ∷ b':' ∷ port)) port)
          bracket
      ∙ rw (inner_open, has_byte-Without b']' port p.no_closing)
          (ground (arith, length-append host (b']' ∷ [])))
