-- ===== src/RadioStore/Paths.antt =====
-- enhancements/0001-zigbee-ember/src/RadioStore.mts: the names of the store's two files and of a
-- temporary file.
use homey_shs_enhanced.Address.{to_hex}
use homey_shs_enhanced.RadioStore.Store.{temporary_path, network_path, backup_path}
use homey_shs_enhanced.Prelude.{
  length-append, text_eq_iff, ap, length, arith, text_eq, List, text, ℕ, Text, [], refl, false, ◌≡◌,
  ◌+◌, ◌≢◌, ◌∷◌, ◌++◌,
}

last_unit : ℕ → Text → ℕ
last_unit d [] = d
last_unit d (c ∷ s) = last_unit c s

last_unit-append : (d : ℕ) (s : Text) (c : ℕ) (t : Text) → last_unit d (s ++ c ∷ t) ≡ last_unit c t
unfolding last_unit
last_unit-append d [] c t = refl
last_unit-append d (a ∷ s) c t = last_unit-append a s c t

last_unit-temporary_path :
    (target pid : Text) (bytes : List ℕ) → last_unit 0 (temporary_path target pid bytes) ≡ b'p'
unfolding temporary_path text last_unit
last_unit-temporary_path target pid bytes =
    last_unit-append 0 (target ++ text "." ++ pid ++ text "." ++ to_hex bytes) b'.' (text "tmp")

last_unit-network_path : (directory : Text) → last_unit 0 (network_path directory) ≡ b'n'
unfolding network_path text last_unit
last_unit-network_path directory = last_unit-append 0 directory b'/' (text "network.json")

last_unit-backup_path : (directory : Text) → last_unit 0 (backup_path directory) ≡ b'n'
unfolding backup_path text last_unit
last_unit-backup_path directory = last_unit-append 0 directory b'/' (text "coordinator-backup.json")

text_eq-ne : (s t : Text) → s ≢ t → text_eq s t ≡ false
text_eq-ne s t h = ground (arith, text_eq_iff s t)

-- A temporary file's name ends in `p`, those of the store's files in `n`.
pub temporary-ne-network :
    (target pid : Text) (bytes : List ℕ) (directory : Text)
    → text_eq (temporary_path target pid bytes) (network_path directory) ≡ false
temporary-ne-network target pid bytes directory = text_eq-ne _ _ λ e.
    let same = ap (last_unit 0) e in
    omega (arith, same, last_unit-temporary_path target pid bytes, last_unit-network_path directory)

pub temporary-ne-backup :
    (target pid : Text) (bytes : List ℕ) (directory : Text)
    → text_eq (temporary_path target pid bytes) (backup_path directory) ≡ false
temporary-ne-backup target pid bytes directory = text_eq-ne _ _ λ e.
    let same = ap (last_unit 0) e in
    omega (arith, same, last_unit-temporary_path target pid bytes, last_unit-backup_path directory)

length-network_path : (directory : Text) → length (network_path directory) ≡ length directory + 13
unfolding network_path text
length-network_path directory = length-append directory (text "/network.json")

length-backup_path : (directory : Text) → length (backup_path directory) ≡ length directory + 24
unfolding backup_path text
length-backup_path directory = length-append directory (text "/coordinator-backup.json")

pub network-ne-backup :
    (directory : Text) → text_eq (network_path directory) (backup_path directory) ≡ false
network-ne-backup directory = text_eq-ne _ _ λ e.
    let same : length (network_path directory) ≡ length (backup_path directory) = ap length e in
    omega (arith, same, length-network_path directory, length-backup_path directory)

pub backup-ne-network :
    (directory : Text) → text_eq (backup_path directory) (network_path directory) ≡ false
backup-ne-network directory = ground (
  arith,
  network-ne-backup directory,
  text_eq_iff (network_path directory) (backup_path directory),
  text_eq_iff (backup_path directory) (network_path directory),
)
