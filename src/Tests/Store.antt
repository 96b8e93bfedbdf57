-- ===== src/Tests/Store.antt =====
-- The radio store at concrete inputs.
use homey_shs_enhanced.Controller.Options.Created.{create_adapter-create_network, options_drawn}
use homey_shs_enhanced.Controller.Options.{create_adapter, DeviceOptions}
use homey_shs_enhanced.RadioStore.Persist.{load_or_create_network-persists}
use homey_shs_enhanced.RadioStore.Sure.{never}
use homey_shs_enhanced.DeviceErrors.{code_is}
use homey_shs_enhanced.RadioStore.Load.{load_or_create_network-keeps}
use homey_shs_enhanced.Json.{Value, null_value}
use homey_shs_enhanced.Tests.Codecs.{octets}
use homey_shs_enhanced.RadioStore.Reset.{
  reset_network-pairs, Paired, write_backup-atomic, private_file, start,
}
use homey_shs_enhanced.RadioStore.Network.{
  network_value, assert_stored_network, invalid_channel, create_network, Draw, StoredNetwork,
}
use homey_shs_enhanced.Disk.{get_file, file_at, broken_text, json_text, Disk, File}
use homey_shs_enhanced.RadioStore.Created.{create_network-refuses, IsDraw}
use homey_shs_enhanced.RadioStore.Store.{
  temporary_path, write_backup, is_no_entry, backup_path, load_or_create_network, reset_network,
  network_path,
}
use homey_shs_enhanced.Prelude.{
  true, subst, Bool-cases, inl, text_eq, All, arith, system_error, text, Option, ℕ, Text, List,
  Thrown, [], refl, zero, suc, false, none, some, ok, err, inr, if◌then◌else◌, ◌≡◌, ◌∷◌, ◌==◌, ◌⊎◌,
}

abbrev bytes_of : ℕ → ℕ → List ℕ
bytes_of zero b = []
bytes_of (suc n) b = b ∷ bytes_of n b

abbrev draw : Draw
draw = record { pan_id = 0x1a62; pan_bytes = bytes_of 8 0xdd; key_bytes = bytes_of 16 0xc3 }

draw-IsDraw : IsDraw draw
draw-IsDraw = record {
  pan_low = omega arith;
  pan_high = omega arith;
  pan_size = refl;
  pan_octets = octets (bytes_of 8 0xdd) refl;
  key_size = refl;
  key_octets = octets (bytes_of 16 0xc3) refl;
}

abbrev usb_stick : DeviceOptions
usb_stick = record {
  device = text "/dev/zigbee";
  baud_rate = 460_800;
  rtscts = true;
  transmit_power = none;
}

create_adapter-create_network_example :
    (network : StoredNetwork) × (create_network draw 15 ≡ ok network)
    × (assert_stored_network (network_value network) ≡ ok tt)
    × (create_adapter usb_stick (text "/radio/backup.json") network
        ≡ ok (options_drawn usb_stick (text "/radio/backup.json") network.pan_id draw 15))
create_adapter-create_network_example =
    create_adapter-create_network usb_stick (text "/radio/backup.json") draw 15 draw-IsDraw
      (omega arith) (omega arith)

create_network-refuses_example : create_network draw 27 ≡ err (invalid_channel 27)
create_network-refuses_example = create_network-refuses draw 27 (inr (omega arith))

abbrev directory : Text
directory = text "/homey/radio"

abbrev pid : Text
pid = text "42"

abbrev random : List ℕ
random = bytes_of 6 7

abbrev io_error : Thrown
io_error = system_error (text "EIO") (text "i/o error")

-- The second system call is refused.
abbrev second_fails : ℕ → Option Thrown
second_fails n = if n == 1 then some io_error else none

-- A stored network and its backup.
abbrev home : StoredNetwork
home = record {
  pan_id = 0x1a62;
  extended_pan_id = text "dd:dd:dd:dd:dd:dd:dd:dd";
  channel = 15;
  network_key = text "c3:c3:c3:c3:c3:c3:c3:c3:c3:c3:c3:c3:c3:c3:c3:c3";
}

abbrev home_file : File
home_file = record { content = json_text (network_value home); mode = 0o644 }

abbrev home_disk : Disk
home_disk = record {
  directory = some 0o700;
  files =
      (network_path directory, home_file)
      ∷ (backup_path directory, record { content = broken_text; mode = 0o600 })
      ∷ [];
}

write_backup-atomic_example :
    let network = network_path directory in
    let target = backup_path directory in
    let (w, r) = write_backup second_fails directory pid random null_value (start home_disk) in
    All
      (λ d.
        (file_at network d ≡ file_at network home_disk)
        × ((file_at target d ≡ file_at target home_disk)
            ⊎ (file_at target d ≡ some (private_file null_value))))
      w.history
    × (r ≡ ok tt
        → (file_at target w.disk ≡ some (private_file null_value))
          × (file_at (temporary_path target pid random) w.disk ≡ none))
write_backup-atomic_example =
    write_backup-atomic second_fails directory pid random null_value home_disk

reset_network-pairs_example :
    let (w, r) = reset_network second_fails directory pid random draw 15 (start home_disk) in
    All (Paired second_fails directory pid random draw 15 home_disk) w.history
    × ((value : Value)
        → r ≡ ok value
        → (file_at (network_path directory) w.disk ≡ some (private_file value))
          × (file_at (backup_path directory) w.disk ≡ none))
reset_network-pairs_example =
    reset_network-pairs second_fails directory pid random draw 15 home_disk

second_fails-error : (n : ℕ) (e : Thrown) → second_fails n ≡ some e → is_no_entry e ≡ false
unfolding is_no_entry code_is text_eq text
second_fails-error n e h = elim (Bool-cases (n == 1)) [
  | inl second ↦
      let same : io_error ≡ e = ground arith in subst (λ x. is_no_entry x ≡ false) same refl
  | inr other ↦ absurd (ground arith)
]

load_or_create_network-keeps_example :
    let (w, r) =
      load_or_create_network second_fails directory pid random draw 20 (start home_disk) in
    All
      (λ d.
        (mode : ℕ) × (file_at (network_path directory) d ≡ some (record home_file { mode = mode })))
      w.history
    × ((value : Value)
        → r ≡ ok value
        → (json_text (network_value home) ≡ json_text value)
          × (assert_stored_network value ≡ ok tt))
unfolding get_file text_eq network_path text
load_or_create_network-keeps_example =
    load_or_create_network-keeps second_fails directory pid random draw 20 home_disk home_file
      second_fails-error refl

abbrev empty_disk : Disk
empty_disk = record { directory = none; files = [] }

load_or_create_network-persists_example :
    let (w, r) = load_or_create_network never directory pid random draw 15 (start empty_disk) in
    let (w', r') =
      load_or_create_network never directory (text "43") random draw 20 (start w.disk) in
    (network : StoredNetwork) × (create_network draw 15 ≡ ok network)
    × (r ≡ ok (network_value network))
    × (r' ≡ ok (network_value network))
unfolding get_file
load_or_create_network-persists_example =
    load_or_create_network-persists directory pid random draw 15 empty_disk (text "43") random draw
      20 draw-IsDraw (omega arith) (omega arith) refl refl
