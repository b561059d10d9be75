-- ===== src/Tests/VersionTests.antt =====
-- internal/version at a concrete input.
use mavlink_doctor.Common.{◌≡◌, refl, arith, ◌≤◌, some, false, [], ◌∷◌, codes, bytes_eq, length}
use mavlink_doctor.Version.{
  Variables, default_variables, BuildInfo, is_unset, initialise, apply_settings, apply_setting,
  apply_version, apply_go_version,
}

abbrev released : Variables
released = default_variables (codes "go1.24")

abbrev info : BuildInfo
info = record {
  go_version = codes "go1.24";
  main_version = codes "(devel)";
  settings =
      record { key = codes "vcs.revision"; value = codes "0123456789abcdef" }
      ∷ record { key = codes "vcs.modified"; value = codes "true" }
      ∷ [];
}

initialise_run :
    initialise (some info) released
    ≡ record released { commit = codes "0123456"; build = codes "dev-dirty" }
unfolding initialise apply_settings apply_setting apply_version apply_go_version default_variables
    codes bytes_eq
initialise_run = refl

short_default : length released.commit ≤ 7
unfolding default_variables codes
short_default = omega arith

abbrev linked : Variables
linked = record released { commit = codes "abc1234" }

linked_set : is_unset linked.commit ≡ false
unfolding codes bytes_eq
linked_set = refl
