-- ===== src/Version.antt =====
-- internal/version/version.go: the version variables, as the linker sets them, and `init`, which fills
-- them from the build information of the binary.
pub mod Commit
use mavlink_doctor.Common.{
  ℕ, Bool, not, ◌&&◌, ◌||◌, Option, none, some, List, [], ◌∷◌, ◌++◌, Bytes, Bytes-Eq, ◌==◌, codes,
  take, length, ltb, if◌then◌else◌,
}

pub record Variables : Type 0 where
  pub version : Bytes
  pub build : Bytes
  pub commit : Bytes
  pub build_date : Bytes
  pub go_version : Bytes

unfoldable pub default_variables : Bytes → Variables
default_variables runtime_version = record {
  version = codes "v0.1.0";
  build = codes "dev";
  commit = codes "none";
  build_date = codes "unknown";
  go_version = runtime_version;
}

pub record Setting : Type 0 where
  pub key : Bytes
  pub value : Bytes

-- `debug.BuildInfo`, as far as it is used.
pub record BuildInfo : Type 0 where
  pub go_version : Bytes
  pub main_version : Bytes
  pub settings : List Setting

abbrev pub is_unset : Bytes → Bool
is_unset commit = commit == codes "none" || commit == codes "unknown"

abbrev short_hash : Bytes → Bytes
short_hash hash = if ltb 7 (length hash) then take 7 hash else hash

unfoldable pub apply_setting : Setting → Variables → Variables
apply_setting s v =
    if s.key == codes "vcs.revision"
    then (if is_unset v.commit then record v { commit = short_hash s.value } else v)
    else if s.key == codes "vcs.time"
    then (if v.build_date == codes "unknown" then record v { build_date = s.value } else v)
    else if s.key == codes "vcs.modified"
    then (if s.value == codes "true" && not (v.build == []) && not (v.build == codes "v0.1.0-dirty")
        then record v { build = v.build ++ codes "-dirty" }
        else v)
    else v

unfoldable pub apply_settings : List Setting → Variables → Variables
apply_settings [] v = v
apply_settings (s ∷ rest) v = apply_settings rest (apply_setting s v)

unfoldable pub apply_go_version : BuildInfo → Variables → Variables
apply_go_version info v =
    if v.go_version == codes "unknown" && not (info.go_version == [])
    then record v { go_version = info.go_version }
    else v

unfoldable pub apply_version : BuildInfo → Variables → Variables
apply_version info v =
    if (v.version == codes "v0.1.0" || v.version == codes "dev" || v.version == codes "0.1.0-dev")
      && not (info.main_version == [])
      && not (info.main_version == codes "(devel)")
    then record v { version = info.main_version }
    else v

-- `init`; without build information nothing changes.
unfoldable pub initialise : Option BuildInfo → Variables → Variables
unfolding apply_settings apply_go_version apply_version
initialise none v = v
initialise (some info) v =
    apply_settings info.settings (apply_version info (apply_go_version info v))

unfoldable pub version_text : Variables → Bytes
version_text v =
    codes "mavlink-doctor "
    ++ v.version
    ++ codes " (commit: "
    ++ v.commit
    ++ codes ", build: "
    ++ v.build
    ++ codes ", date: "
    ++ v.build_date
    ++ codes ", runtime: "
    ++ v.go_version
    ++ codes ")"

unfoldable pub short_text : Variables → Bytes
short_text v = codes "mavlink-doctor " ++ v.version
