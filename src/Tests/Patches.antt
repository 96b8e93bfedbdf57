-- ===== src/Tests/Patches.antt =====
-- The script that patches Homey's sources at concrete inputs.
use homey_shs_enhanced.Patch.Occurrences.{has_dollar, replaced-Replaces, Replaces}
use homey_shs_enhanced.Patch.Script.{
  change_files, check_version, read_version, check_file, check_files, check_supported, no_zigbee,
  system_import, system_file, config_anchor, config_file, zigbee_package, shs_package, apply,
  manager_file,
}
use homey_shs_enhanced.Patch.Success.{apply-Installed, Installed}
use homey_shs_enhanced.Patch.{
  copy_new, expand, write_file, replace_exact, replace_each, read_file, Tree, replaced,
  Compatibility,
}
use homey_shs_enhanced.Patch.Guards.{apply-guarded, IsSupported}
use homey_shs_enhanced.Prelude.{
  starts_by, false, ◌≢◌, text_eq, Thrown, Option, text, Result, Text, [], refl, none, some, ok, ◌≡◌,
  ◌↔◌, if◌then◌else◌, ◌∷◌, ◌++◌,
}

no_dollar : has_dollar (text "new") ≡ false
unfolding text
no_dollar = refl

replaced-Replaces_example :
    (replaced (text "old") (text "new") (text "an old file") ≡ some (text "an new file"))
    ↔ Replaces (text "old") (text "new") no_dollar (text "an old file") (text "an new file")
replaced-Replaces_example =
    replaced-Replaces (text "old") (text "new") no_dollar (text "an old file") (text "an new file")

-- A tree with the files that the script reads; its digests are the texts themselves.
abbrev shs_tree : Tree
shs_tree path =
    if text_eq path shs_package
    then some (text "13.5.1")
    else if text_eq path zigbee_package
    then some (text "4.5.4")
    else if text_eq path config_file
    then some (text config_anchor)
    else if text_eq path system_file
    then some (text system_import ++ text no_zigbee)
    else if text_eq path manager_file
    then some (text "bridge")
    else none

abbrev shs_manifest : Compatibility
shs_manifest = record {
  files = (manager_file, text "bridge") ∷ [];
  homey_shs_version = text "13.5.1";
  zigbee_version = text "4.5.4";
}

abbrev identity_digest : Text → Text
identity_digest contents = contents

abbrev whole_version : Text → Result Text
whole_version contents = ok contents

abbrev writes_all : Text → Option Thrown
writes_all path = none

abbrev patched : Tree × Result (Unit {0})
patched = apply identity_digest whole_version writes_all shs_manifest (ok (text "overlay")) shs_tree

patched-ok : patched.1 ≡ ok tt
unfolding apply check_supported check_files check_file read_file text_eq text read_version
    check_version change_files replace_each replace_exact replaced starts_by write_file expand
    copy_new
patched-ok = refl

patched-manager : patched.0 manager_file ≢ shs_tree manager_file
unfolding apply check_supported check_files check_file read_file text_eq text read_version
    check_version change_files replace_each replace_exact replaced starts_by write_file expand
    copy_new
patched-manager e = cc

apply-guarded_example : IsSupported identity_digest whole_version shs_manifest shs_tree
apply-guarded_example =
    apply-guarded identity_digest whole_version writes_all shs_manifest (ok (text "overlay"))
      shs_tree manager_file patched-manager

apply-Installed_example :
    Installed writes_all identity_digest whole_version (ok (text "overlay")) shs_tree patched.0
apply-Installed_example =
    apply-Installed writes_all identity_digest whole_version shs_manifest (ok (text "overlay"))
      shs_tree patched-ok
