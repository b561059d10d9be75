-- ===== src/Cli/FlagSet/Forms.antt =====
-- The loop of `flag.FlagSet.Parse` on the flags of internal/cli/flags.go, and the form `-name=value`.
use mavlink_doctor.Common.{
  ℕ, zero, suc, ◌≡◌, refl, ap, ◌∙◌, ◌≤◌, inl, inr, Bool, true, false, not, ◌&&◌, ◌||◌, Option, none,
  some, List, [], ◌∷◌, ◌++◌, Bytes, Bytes-Eq, ◌==◌, codes, arith, nat_eq, length, any, Result, ok,
  err, Bool-cases, Option-cases,
}
use mavlink_doctor.Common.Int.{ℤ}
use mavlink_doctor.Cli.Flags.{Flags, FlagError}
use mavlink_doctor.Cli.Values.{parse_bool, parse_int}
use mavlink_doctor.Cli.FlagSet.{
  Setter, bool_flag, int_flag, string_flag, declared, Argument, no_flag, terminator, malformed,
  named, split_value, read_name, classify, store_bool, store_int, set_flag, Parsed, Round, finished,
  failed, more, round_of, parse_argument, parse_loop,
}

-- The arguments that a flag leaves are no more than those after it.
LeavesAtMost : ℕ → Result FlagError (Flags × List Bytes) → Type 0
LeavesAtMost n (err e) = Unit
LeavesAtMost n (ok (f, left)) = length left ≤ n

store_int-leaves :
    (set : ℤ → Flags → Flags) (name v : Bytes) (f : Flags) (rest : List Bytes) (n : ℕ)
    → length rest ≤ n
    → LeavesAtMost n (store_int set name v f rest)
unfolding store_int LeavesAtMost
store_int-leaves set name v f rest n h = elim (Option-cases (parse_int v)) [
  | inl e ↦ rw (LeavesAtMost, e) tt
  | inr (k, e) ↦ rw (LeavesAtMost, e) h
]

store_bool-leaves :
    (set : Bool → Flags → Flags) (name v : Bytes) (f : Flags) (rest : List Bytes) (n : ℕ)
    → length rest ≤ n
    → LeavesAtMost n (store_bool set name v f rest)
unfolding store_bool LeavesAtMost
store_bool-leaves set name v f rest n h = elim (Option-cases (parse_bool v)) [
  | inl e ↦ rw (LeavesAtMost, e) tt
  | inr (k, e) ↦ rw (LeavesAtMost, e) h
]

set_flag-leaves :
    (o : Option Setter) (name : Bytes) (v : Option Bytes) (f : Flags) (rest : List Bytes)
    → LeavesAtMost (length rest) (set_flag o name v f rest)
unfolding set_flag LeavesAtMost
set_flag-leaves none name v f rest = elim (Bool-cases (name == codes "help" || name == codes "h")) [
  | inl p ↦ rw (LeavesAtMost, p) tt
  | inr p ↦ rw (LeavesAtMost, p) tt
]
set_flag-leaves (some (bool_flag set)) name none f rest = omega arith
set_flag-leaves (some (bool_flag set)) name (some v) f rest =
    store_bool-leaves set name v f rest (length rest) (omega arith)
set_flag-leaves (some (int_flag set)) name (some v) f rest =
    store_int-leaves set name v f rest (length rest) (omega arith)
set_flag-leaves (some (int_flag set)) name none f [] = tt
set_flag-leaves (some (int_flag set)) name none f (v ∷ rest) =
    store_int-leaves set name v f rest (suc (length rest)) (omega arith)
set_flag-leaves (some (string_flag set)) name (some v) f rest = omega arith
set_flag-leaves (some (string_flag set)) name none f [] = tt
set_flag-leaves (some (string_flag set)) name none f (v ∷ rest) = omega arith

RoundLeaves : ℕ → Round → Type 0
RoundLeaves n finished = Unit
RoundLeaves n (failed e) = Unit
RoundLeaves n (more g left) = length left ≤ n

round_of-leaves : (n : ℕ) (r : Parsed) → LeavesAtMost n r → RoundLeaves n (round_of r)
unfolding round_of LeavesAtMost RoundLeaves
round_of-leaves n (err e) h = tt
round_of-leaves n (ok (g, left)) h = h

parse_argument-leaves :
    (x : Argument) (f : Flags) (a : Bytes) (rest : List Bytes)
    → RoundLeaves (length rest) (parse_argument x f a rest)
unfolding parse_argument RoundLeaves
parse_argument-leaves no_flag f a rest = tt
parse_argument-leaves terminator f a rest = tt
parse_argument-leaves malformed f a rest = tt
parse_argument-leaves (named name value) f a rest =
    round_of-leaves (length rest) (set_flag (declared name) name value f rest)
      (set_flag-leaves (declared name) name value f rest)

-- On every list of arguments, `Parse` ends with the flags or an error, with as much fuel as there are
-- arguments.
parse_loop_ends :
    (fuel : ℕ) (f : Flags) (args : List Bytes)
    → length args ≤ fuel
    → (r : Result FlagError Flags) × (parse_loop fuel f args ≡ some r)
unfolding parse_loop RoundLeaves
parse_loop_ends fuel f [] h = (ok f, refl)
parse_loop_ends zero f (a ∷ rest) h = absurd (omega (arith, h))
parse_loop_ends (suc fuel) f (a ∷ rest) h =
    go (parse_argument (classify a) f a rest) (parse_argument-leaves (classify a) f a rest)
      (λ g left k. parse_loop_ends fuel g left k)
  where
    go :
        (x : Round)
        → RoundLeaves (length rest) x
        → ((g : Flags) (left : List Bytes)
            → length left ≤ fuel
            → (r : Result FlagError Flags) × (parse_loop fuel g left ≡ some r))
        → (r : Result FlagError Flags) × (elim x [
          | finished ↦ some (ok f)
          | failed e ↦ some (err e)
          | more g left ↦ parse_loop fuel g left
        ]
            ≡ some r)
    go finished l next = (ok f, refl)
    go (failed e) l next = (err e, refl)
    go (more g left) l next = next g left (omega (arith, h, l))

-- The name holds no `=` and does not begin with a dash.
abbrev pub is_name : Bytes → Bool
is_name [] = false
is_name (c ∷ s) = not (nat_eq c b'-') && not (any (λ d. nat_eq d b'=') (c ∷ s))

split_value-name :
    (s v : Bytes)
    → any (λ d. nat_eq d b'=') s ≡ false
    → (split_value s ≡ (s, none)) × (split_value (s ++ b'=' ∷ v) ≡ (s, some v))
unfolding split_value
split_value-name [] v h = (refl, refl)
split_value-name (c ∷ s) v h = ground (arith, split_value-name s v)

read_name-name :
    (name v : Bytes)
    → is_name name ≡ true
    → (read_name name ≡ named name none) × (read_name (name ++ b'=' ∷ v) ≡ named name (some v))
unfolding read_name
read_name-name [] v h = absurd (cc h)
read_name-name (c ∷ s) v h = ground (arith, split_value-name s v)

pub classify-name :
    (name v : Bytes)
    → is_name name ≡ true
    → (classify (b'-' ∷ name) ≡ named name none)
      × (classify (b'-' ∷ (name ++ b'=' ∷ v)) ≡ named name (some v))
unfolding classify
classify-name [] v h = absurd (cc h)
classify-name (c ∷ []) v h = ground (arith, read_name-name (c ∷ []) v h)
classify-name (c ∷ d ∷ s) v h = ground (arith, read_name-name (c ∷ d ∷ s) v h)

abbrev pub next_round : ℕ → Flags → Round → Option (Result FlagError Flags)
next_round fuel f finished = some (ok f)
next_round fuel f (failed e) = some (err e)
next_round fuel f (more g left) = parse_loop fuel g left

parse_loop-round :
    (fuel : ℕ) (f : Flags) (a : Bytes) (rest : List Bytes)
    → parse_loop (suc fuel) f (a ∷ rest) ≡ next_round fuel f (parse_argument (classify a) f a rest)
unfolding parse_loop
parse_loop-round fuel f a rest = round_cases (parse_argument (classify a) f a rest)
  where
    round_cases :
        (x : Round)
        → elim x [
          | finished ↦ some (ok f)
          | failed e ↦ some (err e)
          | more g left ↦ parse_loop fuel g left
        ]
          ≡ next_round fuel f x
    round_cases finished = refl
    round_cases (failed e) = refl
    round_cases (more g left) = refl

pub named_round :
    (fuel : ℕ) (f : Flags) (a name : Bytes) (v : Option Bytes) (rest : List Bytes)
    → classify a ≡ named name v
    → parse_loop (suc fuel) f (a ∷ rest)
      ≡ next_round fuel f (round_of (set_flag (declared name) name v f rest))
unfolding parse_argument
named_round fuel f a name v rest c =
    parse_loop-round fuel f a rest ∙ ap (λ x. next_round fuel f (parse_argument x f a rest)) c
