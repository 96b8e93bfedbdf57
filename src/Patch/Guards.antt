-- ===== src/Patch/Guards.antt =====
-- enhancements/0001-zigbee-ember/apply.mjs: what the script checks before it changes a file, and
-- the files that it changes.
-- The file is there, and has that digest.
use homey_shs_enhanced.Patch.Script.{
  change_if, apply, zigbee_package, shs_package, read_version, check_files, check_supported,
  check_version, check_file,
}
use homey_shs_enhanced.Patch.{Compatibility, read_file, Tree}
use homey_shs_enhanced.Prelude.{
  subst, Thrown, Option, ◌>>◌, refl, err, ◌≢◌, String, All, text_eq, List, Bool-cases, [], ◌∷◌,
  text_eq_sound, arith, Option-cases, Result-cases, Result, Text, some, ok, inl, inr, ◌≡◌,
}

abbrev pub Matches : (Text → Text) → Tree → Text × Text → Type 0
Matches sha256 t (file, hash) =
    (contents : Text) × (t file ≡ some contents) × (sha256 contents ≡ hash)

abbrev pub HasVersion : (Text → Result Text) → Tree → Text → Text → Type 0
HasVersion version_of t path version =
    (contents : Text) × (t path ≡ some contents) × (version_of contents ≡ ok version)

read_file-ok :
    (t : Tree) (path contents : Text) → read_file t path ≡ ok contents → t path ≡ some contents
unfolding read_file
read_file-ok t path contents e = elim (Option-cases (t path)) [
  | inl x ↦ absurd (ground (arith, e, x))
  | inr (c, x) ↦ ground (arith, e, x)
]

then-ok : (r q : Result (Unit {0})) → (r >> q) ≡ ok tt → (r ≡ ok tt) × (q ≡ ok tt)
then-ok (err x) q e = cc
then-ok (ok u) q e = (refl, e)

module _ (sha256 : Text → Text) (version_of : Text → Result Text) where
  check_file-Matches :
      (file hash : Text) (t : Tree)
      → check_file sha256 version_of file hash t ≡ ok tt
      → Matches sha256 t (file, hash)
  unfolding check_file
  check_file-Matches file hash t e = elim (Result-cases (read_file t file)) [
    | inr (x, r) ↦ absurd (ground (arith, e, r))
    | inl (c, r) ↦ elim (Bool-cases (text_eq (sha256 c) hash)) [
      | inl same ↦ (c, read_file-ok t file c r, text_eq_sound (sha256 c) hash same)
      | inr other ↦ absurd (ground (arith, e, r, other))
    ]
  ]

  check_files-Matches :
      (files : List (Text × Text)) (t : Tree)
      → check_files sha256 version_of files t ≡ ok tt
      → All (Matches sha256 t) files
  unfolding check_files
  check_files-Matches [] t e = tt
  check_files-Matches ((file, hash) ∷ rest) t e =
      elim (Result-cases (check_file sha256 version_of file hash t)) [
        | inr (x, r) ↦ absurd (ground (arith, e, r))
        | inl (u, r) ↦
            (check_file-Matches file hash t r, check_files-Matches rest t (ground (arith, e, r)))
      ]

  read_version-HasVersion :
      (path version : Text) (t : Tree)
      → read_version sha256 version_of path t ≡ ok version
      → HasVersion version_of t path version
  unfolding read_version
  read_version-HasVersion path version t e = elim (Result-cases (read_file t path)) [
    | inr (x, r) ↦ absurd (ground (arith, e, r))
    | inl (c, r) ↦ (c, read_file-ok t path c r, ground (arith, e, r))
  ]

  check_version-same :
      (what : String) (expected found : Text)
      → check_version sha256 version_of what expected found ≡ ok tt
      → found ≡ expected
  unfolding check_version
  check_version-same what expected found e = elim (Bool-cases (text_eq found expected)) [
    | inl same ↦ text_eq_sound found expected same
    | inr other ↦ absurd (ground (arith, e, other))
  ]

  -- The tree is the one that the manifest describes.
  abbrev pub IsSupported : Compatibility → Tree → Type 0
  IsSupported manifest t =
      All (Matches sha256 t) manifest.files
      × HasVersion version_of t shs_package manifest.homey_shs_version
      × HasVersion version_of t zigbee_package manifest.zigbee_version

  check_supported-IsSupported :
      (manifest : Compatibility) (t : Tree)
      → check_supported sha256 version_of manifest t ≡ ok tt
      → IsSupported manifest t
  unfolding check_supported
  check_supported-IsSupported manifest t e =
      elim (Result-cases (check_files sha256 version_of manifest.files t)) [
        | inr (x, r) ↦ absurd (ground (arith, e, r))
        | inl (u, r) ↦ elim (Result-cases (read_version sha256 version_of shs_package t)) [
          | inr (x, a) ↦ absurd (ground (arith, e, r, a))
          | inl (v, a) ↦ elim (Result-cases (read_version sha256 version_of zigbee_package t)) [
            | inr (x, b) ↦ absurd (ground (arith, e, r, a, b))
            | inl (w, b) ↦
                let checked : (check_version sha256 version_of "Homey SHS"
                        manifest.homey_shs_version v
                      >> check_version sha256 version_of "@athombv/zigbee" manifest.zigbee_version
                          w)
                    ≡ ok tt =
                  ground (arith, e, r, a, b) in
                let (shs, zigbee) = then-ok _ _ checked in
                (
                  check_files-Matches manifest.files t r,
                  subst (HasVersion version_of t shs_package)
                      (check_version-same "Homey SHS" manifest.homey_shs_version v shs)
                      (read_version-HasVersion shs_package v t a),
                  subst (HasVersion version_of t zigbee_package)
                      (check_version-same "@athombv/zigbee" manifest.zigbee_version w zigbee)
                      (read_version-HasVersion zigbee_package w t b),
                )
          ]
        ]
      ]

  change_if-guarded :
      (refused : Text → Option Thrown) (manifest : Compatibility) (overlay : Result Text) (t : Tree)
      (r : Result (Unit {0}))
      → check_supported sha256 version_of manifest t ≡ r
      → (path : Text) → (change_if sha256 version_of refused r overlay t).0 path ≢ t path
      → IsSupported manifest t
  change_if-guarded refused manifest overlay t (err x) e path changed = absurd (changed refl)
  change_if-guarded refused manifest overlay t (ok u) e path changed =
      check_supported-IsSupported manifest t e

  -- The script changes a file only of a tree that it supports: if any path has other contents after
  -- it than before, then every file of the manifest was there with its digest, and the two packages
  -- had the manifest's versions.
  pub apply-guarded :
      (refused : Text → Option Thrown) (manifest : Compatibility) (overlay : Result Text) (t : Tree)
      (path : Text)
      → (apply sha256 version_of refused manifest overlay t).0 path ≢ t path
      → IsSupported manifest t
  unfolding apply
  apply-guarded refused manifest overlay t path changed =
      change_if-guarded refused manifest overlay t _ refl path changed
