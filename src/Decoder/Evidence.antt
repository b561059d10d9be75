-- ===== src/Decoder/Evidence.antt =====
-- What internal/decoder/gimbal.go has gathered after a sequence of messages.
use mavlink_doctor.Common.{
  ℕ, ◌≡◌, refl, sym, subst, inl, inr, Bool, true, false, ◌&&◌, ◌||◌, List, [], ◌∷◌, ◌++◌, Bytes,
  Bytes-Eq, ◌==◌, codes, bytes_eq_iff, nat_eq, any, arith, Bool-cases, if◌then◌else◌,
}
use mavlink_doctor.Gomavlib.{
  Message, heartbeat, gimbal_device_attitude_status, gimbal_device_information,
  gimbal_manager_status, gimbal_manager_information, mount_orientation, other,
}
use mavlink_doctor.Decoder.Gimbal.{
  GimbalEvidence, no_evidence, mav_type_gimbal, contains, append_unique, seen_list, observe,
  is_gimbal_component, inspect, check_gimbal_message,
}

-- A message that comes with the identifiers of its source.
pub record Received : Type 0 where
  pub message : Message
  pub system_id : ℕ
  pub component_id : ℕ

-- Which messages are evidence of a gimbal to the code: a heartbeat of type 26, any message of component
-- 154 or 155, and the messages of the gimbal device, of the gimbal manager and of the mount. README asks
-- for less than that: a gimbal heartbeat, an attitude status or a mount orientation.
abbrev is_evidence : Message → ℕ → Bool
is_evidence (heartbeat type _ _) comp = nat_eq type mav_type_gimbal || is_gimbal_component comp
is_evidence (other _) comp = is_gimbal_component comp
is_evidence (gimbal_device_attitude_status _ _) comp = true
is_evidence (gimbal_device_information _ _ _) comp = true
is_evidence (gimbal_manager_status _) comp = true
is_evidence (gimbal_manager_information _) comp = true
is_evidence (mount_orientation _ _ _) comp = true

abbrev pub shows_gimbal : Received → Bool
shows_gimbal r = is_evidence r.message r.component_id

-- The text under which a message is listed.
abbrev label : Message → Bytes
label (heartbeat _ _ _) = codes "HEARTBEAT(MAV_TYPE_GIMBAL)"
label (gimbal_device_attitude_status _ _) = codes "GIMBAL_DEVICE_ATTITUDE_STATUS"
label (gimbal_device_information _ _ _) = codes "GIMBAL_DEVICE_INFORMATION"
label (gimbal_manager_status _) = codes "GIMBAL_MANAGER_STATUS"
label (gimbal_manager_information _) = codes "GIMBAL_MANAGER_INFORMATION"
label (mount_orientation _ _ _) = codes "MOUNT_ORIENTATION"
label (other name) = name

abbrev pub is_listed_as : Bytes → Received → Bool
is_listed_as s r = shows_gimbal r && label r.message == s

-- No text stands twice.
abbrev pub IsUnique : List Bytes → Type 0
IsUnique [] = Unit
IsUnique (x ∷ xs) = (contains x xs ≡ false) × IsUnique xs

contains-append :
    (s : Bytes) (xs ys : List Bytes) → contains s (xs ++ ys) ≡ (contains s xs || contains s ys)
unfolding contains
contains-append s [] ys = refl
contains-append s (x ∷ xs) ys = ground (arith, contains-append s xs ys)

contains-append_unique :
    (s v : Bytes) (xs : List Bytes) → contains s (append_unique xs v) ≡ (contains s xs || v == s)
unfolding append_unique contains
contains-append_unique s v xs = ground (arith, contains-append s xs (v ∷ []), bytes_eq_iff v s)

append-IsUnique :
    (v : Bytes) (xs : List Bytes) → contains v xs ≡ false → IsUnique xs → IsUnique (xs ++ v ∷ [])
unfolding contains
append-IsUnique v [] h u = (refl, tt)
append-IsUnique v (x ∷ xs) h u =
    ground (
      arith,
      contains-append x xs (v ∷ []),
      bytes_eq_iff x v,
      bytes_eq_iff v x,
      append-IsUnique v xs,
    )

append_unique-IsUnique : (v : Bytes) (xs : List Bytes) → IsUnique xs → IsUnique (append_unique xs v)
unfolding append_unique
append_unique-IsUnique v xs u = ground (arith, append-IsUnique v xs)

module _ (float_text : ℕ → Bytes) where
  -- `CheckGimbalMessage` on one message after the other, each with the same evidence.
  unfoldable pub gather : GimbalEvidence → List Received → GimbalEvidence
  gather e [] = e
  gather e (r ∷ rs) =
      gather (check_gimbal_message float_text r.message r.system_id r.component_id e).1 rs

  abbrev checked : GimbalEvidence → Received → Bool × GimbalEvidence
  checked e r = check_gimbal_message float_text r.message r.system_id r.component_id e

  abbrev seen : GimbalEvidence → List Bytes
  seen e = seen_list e.messages_seen

  -- One message: the answer, the flag and the list of seen messages.
  checked_parts :
      (e : GimbalEvidence) (m : Message) (sys comp : ℕ)
      → let (found, e') = check_gimbal_message float_text m sys comp e in
        (found ≡ is_evidence m comp)
        × (e'.observed ≡ (e.observed || is_evidence m comp))
        × (seen e' ≡ (if is_evidence m comp then append_unique (seen e) (label m) else seen e))
  unfolding check_gimbal_message inspect observe
  checked_parts e (heartbeat type a s) sys comp = ground arith
  checked_parts e (gimbal_device_attitude_status a b) sys comp = ground arith
  checked_parts e (gimbal_device_information a b c) sys comp = ground arith
  checked_parts e (gimbal_manager_status a) sys comp = ground arith
  checked_parts e (gimbal_manager_information a) sys comp = ground arith
  checked_parts e (mount_orientation a b c) sys comp = ground arith
  checked_parts e (other name) sys comp = ground arith

  gather-observed :
      (e : GimbalEvidence) (rs : List Received)
      → (gather e rs).observed ≡ (e.observed || any shows_gimbal rs)
  unfolding gather
  gather-observed e [] = ground arith
  gather-observed e (r ∷ rs) = ground (
    arith,
    gather-observed (checked e r).1 rs,
    checked_parts e r.message r.system_id r.component_id,
  )

  gather-contains :
      (e : GimbalEvidence) (rs : List Received) (s : Bytes)
      → contains s (seen (gather e rs)) ≡ (contains s (seen e) || any (is_listed_as s) rs)
  unfolding gather
  gather-contains e [] s = ground arith
  gather-contains e (r ∷ rs) s = ground (
    arith,
    gather-contains (checked e r).1 rs s,
    checked_parts e r.message r.system_id r.component_id,
    contains-append_unique s (label r.message) (seen e),
  )

  gather-IsUnique :
      (e : GimbalEvidence) (rs : List Received) → IsUnique (seen e) → IsUnique (seen (gather e rs))
  unfolding gather
  gather-IsUnique e [] u = u
  gather-IsUnique e (r ∷ rs) u = gather-IsUnique (checked e r).1 rs (
      subst IsUnique (sym (checked_parts e r.message r.system_id r.component_id).2)
        (elim (Bool-cases (is_evidence r.message r.component_id)) [
          | inl p ↦ rw p (append_unique-IsUnique (label r.message) (seen e) u)
          | inr q ↦ rw q u
        ]))

  -- From no evidence, a sequence of messages leaves a gimbal observed exactly when one of the messages
  -- shows a gimbal. A message shows a gimbal when it is a heartbeat of type 26 (MAV_TYPE_GIMBAL), any
  -- message of component 154 or 155, be it a heartbeat of another type or no gimbal message at all, a
  -- GIMBAL_DEVICE_ATTITUDE_STATUS, GIMBAL_DEVICE_INFORMATION, GIMBAL_MANAGER_STATUS,
  -- GIMBAL_MANAGER_INFORMATION or a MOUNT_ORIENTATION; this is more than README counts as a
  -- confirmation. A text is in the list of seen messages exactly when a message that shows a gimbal is
  -- listed under it, each heartbeat under HEARTBEAT(MAV_TYPE_GIMBAL), each gimbal or mount message
  -- under its name and any other under its Go type, and no text stands there twice.
  pub gather_evidence :
      (rs : List Received)
      → let e = gather no_evidence rs in
        (e.observed ≡ any shows_gimbal rs)
        × ((s : Bytes) → contains s (seen_list e.messages_seen) ≡ any (is_listed_as s) rs)
        × IsUnique (seen_list e.messages_seen)
  unfolding contains
  gather_evidence rs = (
    gather-observed no_evidence rs,
    λ s. gather-contains no_evidence rs s,
    gather-IsUnique no_evidence rs tt,
  )
