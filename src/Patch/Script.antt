-- ===== src/Patch/Script.antt =====
-- enhancements/0001-zigbee-ember/apply.mjs: the script as a whole, and scripts/check-herdsman.mjs.
use homey_shs_enhanced.Patch.{
  write_file, copy_new, replace_each, and_then, read_file, Compatibility, Tree, Replacement,
}
use homey_shs_enhanced.Prelude.{
  not, ◌>>=◌, Thrown, ◌>>◌, plain_error, text_eq, Option, Result, text, List, String, Text, [], ok,
  err, ◌++◌, if◌then◌else◌, ◌∷◌,
}

abbrev pub config_file : Text
config_file = text "/app/apps/homey-shs/config.mts"

abbrev pub system_file : Text
system_file = text "/app/apps/homey-shs/lib/System.mts"

abbrev pub manager_file : Text
manager_file = text "/app/apps/homey-shs/lib/ManagerZigbee.mts"

abbrev pub bridge_manager_file : Text
bridge_manager_file = text "/app/apps/homey-shs/lib/ManagerZigbeeBridge.mts"

-- `CHANGED_FILES`, each under `/`.
abbrev pub changed_files : List Text
changed_files = config_file ∷ system_file ∷ manager_file ∷ bridge_manager_file ∷ []

abbrev pub config_anchor : String
config_anchor = "  HOMEY_LOCAL_ADDRESS: z.string().nullable().optional(),\n"

abbrev pub config_options : String
config_options =
    "\n  HOMEY_ZIGBEE_BACKEND: z.enum(['bridge', 'ember']).default('bridge'),\n  HOMEY_ZIGBEE_DEVICE: z.string().min(1).default('/dev/zigbee'),\n  HOMEY_ZIGBEE_BAUDRATE: z.preprocess(\n    (val) => (val != null ? Number(val) : 460800),\n    z.number().int().positive(),\n  ),\n  HOMEY_ZIGBEE_RTSCTS: z.preprocess((val) => {\n    if (val == null || val === '') return true;\n    if (val === true || val === 'true' || val === '1') return true;\n    if (val === false || val === 'false' || val === '0') return false;\n    return val;\n  }, z.boolean()),\n  HOMEY_ZIGBEE_CHANNEL: z.preprocess(\n    (val) => (val != null ? Number(val) : 11),\n    z.number().int().min(11).max(26),\n  ),\n  // Unset leaves the radio at its current power. -20..20 dBm spans the ZBT-2's EFR32MG24.\n  HOMEY_ZIGBEE_TX_POWER: z.preprocess(\n    (val) => (val == null || val === '' ? undefined : Number(val)),\n    z.number().int().min(-20).max(20).optional(),\n  ),\n"

abbrev pub system_import : String
system_import = "import { SystemLocal } from '@athombv/homey-local';\n"

abbrev pub config_import : String
config_import = "\nimport { config } from '../config.mts';\n"

abbrev pub no_zigbee : String
no_zigbee = "  override hasZigbee() {\n    return false;\n  }"

abbrev pub ember_zigbee : String
ember_zigbee = "  override hasZigbee() {\n    return config.HOMEY_ZIGBEE_BACKEND === 'ember';\n  }"

abbrev pub replacements : List Replacement
replacements =
    record {
      file = config_file;
      old_value = text config_anchor;
      new_value = text config_anchor ++ text config_options;
    }
    ∷ record {
      file = system_file;
      old_value = text system_import;
      new_value = text system_import ++ text config_import;
    }
    ∷ record { file = system_file; old_value = text no_zigbee; new_value = text ember_zigbee }
    ∷ []

abbrev pub shs_package : Text
shs_package = text "/app/apps/homey-shs/package.json"

abbrev pub zigbee_package : Text
zigbee_package = text "/app/node_modules/@athombv/zigbee/package.json"

-- `sha256`: the digest, in hexadecimal. `version_of`: `JSON.parse(text).version`.
module _ (sha256 : Text → Text) (version_of : Text → Result Text) where
  -- One turn of the loop over `manifest.files`.
  unfoldable pub check_file : Text → Text → Tree → Result (Unit {0})
  check_file file expected_hash t = elim (read_file t file) [
    | err e ↦ err e
    | ok contents ↦
        if text_eq (sha256 contents) expected_hash
        then ok tt
        else err (
            plain_error (
              text "Unsupported Homey SHS contents at "
              ++ file
              ++ text ": expected sha256:"
              ++ expected_hash
              ++ text ", got sha256:"
              ++ sha256 contents))
  ]

  unfoldable pub check_files : List (Text × Text) → Tree → Result (Unit {0})
  check_files [] t = ok tt
  check_files ((file, hash) ∷ rest) t = check_file file hash t >> check_files rest t

  unfoldable pub read_version : Text → Tree → Result Text
  read_version path t = read_file t path >>= λ contents. version_of contents

  unfoldable pub check_version : String → Text → Text → Result (Unit {0})
  check_version what expected found =
      if text_eq found expected
      then ok tt
      else err (
          plain_error (
            text "Unsupported "
            ++ text what
            ++ text " version: expected "
            ++ expected
            ++ text ", got "
            ++ found))

  -- All that the script checks before it changes a file.
  unfoldable pub check_supported : Compatibility → Tree → Result (Unit {0})
  check_supported manifest t =
      check_files manifest.files t
      >> (read_version shs_package t >>= λ shs. read_version zigbee_package t >>= λ zigbee.
          check_version "Homey SHS" manifest.homey_shs_version shs
          >> check_version "@athombv/zigbee" manifest.zigbee_version zigbee)

  module _ (refused : Text → Option Thrown) where
    -- `overlay`: the contents of `overlayPath`.
    abbrev pub copy_overlay : Result Text → Tree → Tree × Result (Unit {0})
    copy_overlay (err e) t = (t, err e)
    copy_overlay (ok contents) t = write_file refused t manager_file contents

    -- From the first replacement on.
    unfoldable pub change_files : Result Text → Tree → Tree × Result (Unit {0})
    change_files overlay t =
        and_then
          (and_then (replace_each refused replacements t)
            (copy_new refused manager_file bridge_manager_file))
          (copy_overlay overlay)

    abbrev pub change_if : Result (Unit {0}) → Result Text → Tree → Tree × Result (Unit {0})
    change_if (err e) overlay t = (t, err e)
    change_if (ok _) overlay t = change_files overlay t

    unfoldable pub apply : Compatibility → Result Text → Tree → Tree × Result (Unit {0})
    apply manifest overlay t = change_if (check_supported manifest t) overlay t

  abbrev pub herdsman_version : Text
  herdsman_version = text "10.6.2"

  abbrev pub guarded_file : Text
  guarded_file = text "dist/adapter/ember/adapter/emberAdapter.js"

  abbrev pub guarded_hash : Text
  guarded_hash = text "3d4aaf207f264fd29ceeb548c53573b1182c06aa037178a8557fd7c72877a403"

  -- check-herdsman.mjs; the tree is that of herdsman's package.
  unfoldable pub check_herdsman : Tree → Result (Unit {0})
  check_herdsman t = read_version (text "package.json") t >>= λ version.
      if not (text_eq version herdsman_version)
      then err (
          plain_error (
            text "Unsupported zigbee-herdsman "
            ++ version
            ++ text "; the Ember driver targets 10.6.2"))
      else read_file t guarded_file >>= λ contents.
          if text_eq (sha256 contents) guarded_hash
          then ok tt
          else err (
              plain_error (
                text "Unsupported zigbee-herdsman Ember adapter build: expected sha256:"
                ++ guarded_hash
                ++ text ", got sha256:"
                ++ sha256 contents))
