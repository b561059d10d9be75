-- ===== src/Version/Commit.antt =====
-- What `init` of internal/version/version.go does to the commit.
use mavlink_doctor.Common.{
  ◌≡◌, refl, ap, ◌∙◌, ◌≤◌, false, Option, none, some, List, [], ◌∷◌, Bytes-Eq, arith, length,
  length-take,
}
use mavlink_doctor.Version.{
  Variables, Setting, BuildInfo, is_unset, apply_setting, apply_settings, apply_go_version,
  apply_version, initialise,
}

IsKept : Variables → Variables → Type 0
IsKept v v' =
    (length v.commit ≤ 7 → length v'.commit ≤ 7)
    × (is_unset v.commit ≡ false → v'.commit ≡ v.commit)

apply_setting-IsKept : (s : Setting) (v : Variables) → IsKept v (apply_setting s v)
unfolding apply_setting IsKept
apply_setting-IsKept s v = (λ h. ground (arith, h, length-take 7 s.value), λ h. ground (arith, h))

apply_settings-IsKept : (ss : List Setting) (v : Variables) → IsKept v (apply_settings ss v)
unfolding apply_settings IsKept
apply_settings-IsKept [] v = (λ h. h, λ h. refl)
apply_settings-IsKept (s ∷ rest) v =
    let (short, kept) = apply_setting-IsKept s v in
    let (shorts, keeps) = apply_settings-IsKept rest (apply_setting s v) in
    (λ h. shorts (short h), λ h. keeps (ap is_unset (kept h) ∙ h) ∙ kept h)

front_keeps :
    (info : BuildInfo) (v : Variables)
    → (apply_version info (apply_go_version info v)).commit ≡ v.commit
unfolding apply_version apply_go_version
front_keeps info v = ground arith

-- Whatever the build information, a commit that the linker has set, to another text than "none" or
-- "unknown", stays as it is.
pub initialise_keeps :
    (info : Option BuildInfo) (v : Variables)
    → is_unset v.commit ≡ false
    → (initialise info v).commit ≡ v.commit
unfolding initialise IsKept
initialise_keeps none v h = refl
initialise_keeps (some info) v h =
    let before = apply_version info (apply_go_version info v) in
    let same = front_keeps info v in
    (apply_settings-IsKept info.settings before).1 (ap is_unset same ∙ h) ∙ same

-- Whatever the build information, a commit of at most seven characters, as the default is, is replaced
-- only by one of at most seven.
pub initialise_shortens :
    (info : Option BuildInfo) (v : Variables)
    → length v.commit ≤ 7
    → length (initialise info v).commit ≤ 7
unfolding initialise IsKept
initialise_shortens none v h = h
initialise_shortens (some info) v h =
    let before = apply_version info (apply_go_version info v) in
    (apply_settings-IsKept info.settings before).0
      (omega (arith, h, ap length (front_keeps info v)))
