-- ===== src/RadioStore/Load.antt =====
-- enhancements/0001-zigbee-ember/src/RadioStore.mts: `loadOrCreateNetwork` with a network.json,
-- under every schedule of refused system calls.
use homey_shs_enhanced.RadioStore.Reset.{start}
use homey_shs_enhanced.Address.{invalid, normalize_hex, homey_hex_to_buffer}
use homey_shs_enhanced.DeviceErrors.{code_is}
use homey_shs_enhanced.Disk.Rules.{
  chmod_directory_op-files, mkdir_op-files, Good-perform, Good-recover, get_file-put_file,
  chmod_op-eq, read_op-eq, Good-perform_refused, Good-continue, Good,
}
use homey_shs_enhanced.RadioStore.Store.{
  init, load_or_create_network, parse, read_network, network_path, is_no_entry,
}
use homey_shs_enhanced.Json.{property, string_of, Value}
use homey_shs_enhanced.Disk.{
  chmod_directory, mkdir, File, broken_text, read_file, chmod, World, json_text, file_at, Disk,
  Content,
}
use homey_shs_enhanced.RadioStore.Network.{file_mode, assert_stored_network, Draw}
use homey_shs_enhanced.Prelude.{
  subst, text_eq_refl, text, sym, arith, refl, All, Result, List, Text, Thrown, Option, ℕ, false,
  some, ok, err, ◌≡◌,
}

-- The validation throws nothing but a `TypeError`, which has no code.
homey_hex_to_buffer-error :
    (value : Text) (bytes : ℕ) (label : Text) (e : Thrown)
    → homey_hex_to_buffer value bytes label ≡ err e
    → is_no_entry e ≡ false
unfolding homey_hex_to_buffer normalize_hex invalid is_no_entry code_is
homey_hex_to_buffer-error value bytes label e h = ground arith

assert_stored_network-error :
    (value : Value) (e : Thrown) → assert_stored_network value ≡ err e → is_no_entry e ≡ false
unfolding assert_stored_network is_no_entry code_is
assert_stored_network-error value e h = ground (
  arith,
  homey_hex_to_buffer-error (string_of (property value (text "extendedPanId"))) 8
      (text "extended PAN ID") e,
  homey_hex_to_buffer-error (string_of (property value (text "networkKey"))) 16 (text "network key")
      e,
)

module _ (faults : ℕ → Option Thrown) (directory pid : Text) (random : List ℕ) (draw : Draw)
    (channel : ℕ) (content : Content) where
  -- The network's file has this content, under whatever mode.
  abbrev pub Holds : Disk → Type 0
  Holds d =
      (mode : ℕ) × (file_at (network_path directory) d
        ≡ some (record { content = content; mode = mode }))

  -- What was read is what the file holds, and the validation accepted it; or the error is no
  -- `ENOENT`.
  abbrev Read : Result Value → Disk → Type 0
  Read (ok value) d = Holds d × (content ≡ json_text value) × (assert_stored_network value ≡ ok tt)
  Read (err e) d = Holds d × (is_no_entry e ≡ false)

  module _ (honest : (n : ℕ) (e : Thrown) → faults n ≡ some e → is_no_entry e ≡ false) where
    abbrev Fetched : Result Content → Disk → Type 0
    Fetched (ok c) d = Holds d × (c ≡ content)
    Fetched (err e) d = Holds d × (is_no_entry e ≡ false)

    abbrev Parsed : Result Value → Disk → Type 0
    Parsed (ok v) d = Holds d × (content ≡ json_text v)
    Parsed (err e) d = Holds d × (is_no_entry e ≡ false)

    abbrev Checked : Value → Result (Unit {0}) → Disk → Type 0
    Checked v (ok _) d = Holds d × (content ≡ json_text v) × (assert_stored_network v ≡ ok tt)
    Checked v (err e) d = Holds d × (is_no_entry e ≡ false)

    read_file-Good :
        (w : World)
        → All Holds w.history
        → Holds w.disk
        → Good Holds Fetched (read_file faults (network_path directory) w)
    unfolding read_file
    read_file-Good w past h =
        Good-perform_refused Fetched faults _ _ w (elim [ ok c ↦ λ d k. k.0 | err e ↦ λ d k. k.0 ])
          past (λ e k. (h, honest _ e k)) (rw (read_op-eq _ w.disk _ h.1) (h, refl))

    parse-Good :
        (c : Content) (w : World)
        → All Holds w.history
        → Fetched (ok c) w.disk
        → Good Holds Parsed (w, parse c)
    unfolding is_no_entry code_is
    parse-Good (json_text v) w past k = record { past = past; now = (k.0, sym k.1) }
    parse-Good broken_text w past k = record { past = past; now = (k.0, refl) }

    checked :
        (v : Value) (r : Result (Unit {0})) (d : Disk)
        → assert_stored_network v ≡ r
        → Parsed (ok v) d
        → Checked v r d
    checked v (ok a) d e k = (k.0, k.1, e)
    checked v (err x) d e k = (k.0, assert_stored_network-error v x e)

    check-Good :
        (v : Value) (w : World)
        → All Holds w.history
        → Parsed (ok v) w.disk
        → Good Holds (Checked v) (w, assert_stored_network v)
    check-Good v w past k = record { past = past; now = checked v _ w.disk refl k }

    chmod-Good :
        (v : Value) (w : World)
        → All Holds w.history
        → Checked v (ok tt) w.disk
        → Good Holds (Checked v) (chmod faults (network_path directory) file_mode w)
    unfolding chmod
    chmod-Good v w past k =
        Good-perform_refused (Checked v) faults _ _ w
          (elim [ ok c ↦ λ d l. l.0 | err e ↦ λ d l. l.0 ]) past (λ e l. (k.0, honest _ e l))
          (rw (chmod_op-eq _ file_mode w.disk _ k.0.1) (
            (
              file_mode,
              rw (
                get_file-put_file (network_path directory) (network_path directory) _ w.disk.files,
                text_eq_refl (network_path directory),
              ),
            ),
            k.1,
            k.2,
          ))

    read_network-Good :
        (w : World)
        → All Holds w.history
        → Holds w.disk
        → Good Holds Read (read_network faults directory pid w)
    unfolding read_network
    read_network-Good w past h =
        Good-continue {R = Fetched} _ _ (read_file-Good w past h) (λ e d k. k)
          λ c w past k.
            Good-continue {R = Parsed} (w, parse c) _ (parse-Good c w past k) (λ e d k. k)
              λ v w past k.
                Good-continue {R = Checked v} (w, assert_stored_network v) _ (check-Good v w past k)
                  (λ e d k. k)
                  λ a w past k.
                    Good-continue {R = Checked v} _ _ (chmod-Good v w past k) (λ e d k. k)
                      λ a w past k. record { past = past; now = k }

    abbrev Loaded : Result Value → Disk → Type 0
    Loaded (ok v) d = Holds d × (content ≡ json_text v) × (assert_stored_network v ≡ ok tt)
    Loaded (err e) d = Holds d × Unit {0}

    loaded :
        (r : Result Value) (d : Disk) (value : Value)
        → r ≡ ok value
        → Loaded r d
        → (content ≡ json_text value) × (assert_stored_network value ≡ ok tt)
    loaded (ok v) d value e k =
        let same : v ≡ value = cc in
        subst (λ u. (content ≡ json_text u) × (assert_stored_network u ≡ ok tt)) same (k.1, k.2)
    loaded (err x) d value e k = cc

    init-Good :
        (w : World)
        → All Holds w.history
        → Holds w.disk
        → Good Holds (λ (_ : Result (Unit {0})) d. Holds d) (init faults directory pid w)
    unfolding init mkdir chmod_directory
    init-Good w past h =
        Good-continue {R = λ (_ : Result (Unit {0})) d. Holds d} _ _
          (Good-perform _ faults _ _ w (λ r d k. k) past (λ e. h) (rw mkdir_op-files h))
          (λ e d k. k)
          λ a w past k.
            Good-perform _ faults _ _ w (λ r d k. k) past (λ e. k) (rw chmod_directory_op-files k)

    load-Good :
        (w : World)
        → All Holds w.history
        → Holds w.disk
        → Good Holds Loaded (load_or_create_network faults directory pid random draw channel w)
    unfolding load_or_create_network
    load-Good w past h =
        Good-continue {R = λ (_ : Result (Unit {0})) d. Holds d} _ _ (init-Good w past h)
          (λ e d k. (k, tt))
          λ a w past k.
            Good-recover {R = Read} _ _ (read_network-Good w past k) (λ v d l. l)
              λ e w past l. rw l.1 (record { past = past; now = (l.0, tt) })

-- Once there is a `network.json`, starting never replaces it: whatever the initial channel and
-- whatever system calls are refused, each disk on the way has its content unchanged, and a network
-- that is returned is the one that the file holds and is valid. The operating system is taken to
-- report `ENOENT` for missing files only.
pub load_or_create_network-keeps :
    (faults : ℕ → Option Thrown) (directory pid : Text) (random : List ℕ) (draw : Draw)
    (channel : ℕ) (d0 : Disk) (file : File)
    → ((n : ℕ) (e : Thrown) → faults n ≡ some e → is_no_entry e ≡ false)
    → file_at (network_path directory) d0 ≡ some file
    → let (w, r) = load_or_create_network faults directory pid random draw channel (start d0) in
      All
        (λ d.
          (mode : ℕ) × (file_at (network_path directory) d ≡ some (record file { mode = mode })))
        w.history
      × ((value : Value)
          → r ≡ ok value
          → (file.content ≡ json_text value) × (assert_stored_network value ≡ ok tt))
load_or_create_network-keeps faults directory pid random draw channel d0 file honest h =
    let g =
      load-Good faults directory pid random draw channel file.content honest (start d0) tt
        (file.mode, h) in
    (
      g.past,
      λ value e.
          loaded faults directory pid random draw channel file.content honest _ _ value e g.now,
    )
