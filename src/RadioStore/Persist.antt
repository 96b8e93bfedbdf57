-- ===== src/RadioStore/Persist.antt =====
-- enhancements/0001-zigbee-ember/src/RadioStore.mts: a network created at a start or a reset, and
-- the start after it.
use homey_shs_enhanced.DeviceErrors.{code_is}
use homey_shs_enhanced.Disk.Rules.{get_file-remove_file, chmod_op-eq, read_op-eq}
use homey_shs_enhanced.RadioStore.Sure.{
  Sure-recover, Sure-value, Sure-perform, write_json_atomic-Sure, Stored, init-Sure, Sure-continue,
  never, Sure,
}
use homey_shs_enhanced.RadioStore.Created.{create_network-IsAccepted, IsDraw}
use homey_shs_enhanced.RadioStore.Reset.{start, private_file}
use homey_shs_enhanced.Disk.{
  remove_op, remove, remove_file, json_text, no_entry, file_at, enter, Disk, World, read_op, chmod,
  get_file, perform, read_file, File,
}
use homey_shs_enhanced.RadioStore.Store.{
  backup_path, reset_network, is_no_entry, temporary_path, network_path, write_network,
  create_and_write, read_network, load_or_create_network,
}
use homey_shs_enhanced.RadioStore.Network.{
  file_mode, network_value, assert_stored_network, create_network, Draw, StoredNetwork,
}
use homey_shs_enhanced.Prelude.{
  text, text_eq, true, ap, arith, ℕ, List, Text, refl, none, some, ok, err, ◌+◌, ◌≡◌, ◌∷◌, ◌∙◌, ◌≤◌,
}

is_no_entry-no_entry : is_no_entry no_entry ≡ true
unfolding is_no_entry code_is text_eq text
is_no_entry-no_entry = refl

module _ (directory pid : Text) where
  abbrev Holds : StoredNetwork → List (Text × File) → Type 0
  Holds network files =
      get_file (network_path directory) files ≡ some (private_file (network_value network))

  read_network-missing :
      (w : World)
      → file_at (network_path directory) w.disk ≡ none
      → read_network never directory pid w
        ≡ (record w { ticks = w.ticks + 1; history = w.disk ∷ w.history }, err no_entry)
  unfolding read_network read_file perform read_op enter
  read_network-missing w h = ground arith

  -- A valid network is read.
  read_network-Sure :
      (network : StoredNetwork) (w : World)
      → assert_stored_network (network_value network) ≡ ok tt
      → Holds network w.disk.files
      → Sure (λ value d. value ≡ network_value network) (read_network never directory pid w)
  unfolding read_network read_file chmod
  read_network-Sure network w valid h =
      let file = private_file (network_value network) in
      Sure-continue (λ c d. (c ≡ json_text (network_value network)) × Holds network d.files)
        (λ value d. value ≡ network_value network) _ _
        (Sure-perform (λ c d. (c ≡ json_text (network_value network)) × Holds network d.files) _ _ w
          w.disk (json_text (network_value network))
          (read_op-eq (network_path directory) w.disk file h) (refl, h))
        λ c w k.
          rw (k.0, valid)
            (Sure-continue (λ (_ : Unit {0}) d. Unit {0}) (λ value d. value ≡ network_value network)
              _ _
              (Sure-perform (λ (_ : Unit {0}) d. Unit {0}) _ _ w _ tt
                (chmod_op-eq (network_path directory) file_mode w.disk file k.1) tt)
              λ a w k. refl)

  load-found :
      (random : List ℕ) (draw : Draw) (channel : ℕ) (network : StoredNetwork) (w : World)
      → assert_stored_network (network_value network) ≡ ok tt
      → Holds network w.disk.files
      → Sure
          (λ value d. value ≡ network_value network)
          (load_or_create_network never directory pid random draw channel w)
  unfolding load_or_create_network
  load-found random draw channel network w valid h =
      Sure-continue (λ (_ : Unit {0}) d. Holds network d.files)
        (λ value d. value ≡ network_value network) _ _ (init-Sure (Holds network) directory pid w h)
        λ a w k.
          Sure-recover (λ value d. value ≡ network_value network) _ _
            (read_network-Sure network w valid k)

  create_and_write-Sure :
      (random : List ℕ) (draw : Draw) (channel : ℕ) (network : StoredNetwork) (w : World)
      → create_network draw channel ≡ ok network
      → assert_stored_network (network_value network) ≡ ok tt
      → file_at (temporary_path (network_path directory) pid random) w.disk ≡ none
      → Sure
          (λ value d. (value ≡ network_value network) × Holds network d.files)
          (create_and_write never directory pid random draw channel w)
  unfolding create_and_write write_network
  create_and_write-Sure random draw channel network w created valid free = rw created (
      rw valid (
        Sure-continue (Stored directory pid random (network_path directory) (network_value network))
          (λ value d. (value ≡ network_value network) × Holds network d.files) _ _
          (write_json_atomic-Sure directory pid random (network_path directory)
            (network_value network) w free)
          λ a w k. (refl, k)))

  load-missing :
      (random : List ℕ) (draw : Draw) (channel : ℕ) (network : StoredNetwork) (w : World)
      → create_network draw channel ≡ ok network
      → assert_stored_network (network_value network) ≡ ok tt
      → file_at (network_path directory) w.disk ≡ none
      → file_at (temporary_path (network_path directory) pid random) w.disk ≡ none
      → Sure
          (λ value d. (value ≡ network_value network) × Holds network d.files)
          (load_or_create_network never directory pid random draw channel w)
  unfolding load_or_create_network
  load-missing random draw channel network w created valid absent free =
      let target = network_path directory in
      let temporary = temporary_path target pid random in
      Sure-continue (λ (_ : Unit {0}) d. (file_at target d ≡ none) × (file_at temporary d ≡ none))
        (λ value d. (value ≡ network_value network) × Holds network d.files) _ _
        (init-Sure (λ files. (get_file target files ≡ none) × (get_file temporary files ≡ none))
          directory pid w (absent, free))
        λ a w k.
          rw (read_network-missing w k.0, is_no_entry-no_entry)
            (create_and_write-Sure random draw channel network _ created valid k.1)

  removed-free :
      (path other : Text) (files : List (Text × File))
      → get_file path files ≡ none
      → get_file path (remove_file other files) ≡ none
  removed-free path other files h = ground (arith, get_file-remove_file path other files)

  reset-Sure :
      (random : List ℕ) (draw : Draw) (channel : ℕ) (network : StoredNetwork) (w : World)
      → create_network draw channel ≡ ok network
      → assert_stored_network (network_value network) ≡ ok tt
      → file_at (temporary_path (network_path directory) pid random) w.disk ≡ none
      → Sure
          (λ value d. (value ≡ network_value network) × Holds network d.files)
          (reset_network never directory pid random draw channel w)
  unfolding reset_network remove remove_op write_network
  reset-Sure random draw channel network w created valid free =
      let target = network_path directory in
      let temporary = temporary_path target pid random in
      rw (created, valid)
        (Sure-continue (λ (_ : Unit {0}) d. file_at temporary d ≡ none)
          (λ value d. (value ≡ network_value network) × Holds network d.files) _ _
          (Sure-perform (λ (_ : Unit {0}) d. file_at temporary d ≡ none) _ _ w
            (record w.disk { files = remove_file (backup_path directory) w.disk.files }) tt refl
            (removed-free temporary (backup_path directory) w.disk.files free))
          λ a w k.
            Sure-continue (Stored directory pid random target (network_value network))
              (λ value d. (value ≡ network_value network) × Holds network d.files) _ _
              (write_json_atomic-Sure directory pid random target (network_value network) w k)
              λ a w k. (refl, k))

-- If there is no `network.json`, and no temporary file in the way, then a start on a channel from 11
-- to 26 without refused system calls creates the drawn network and returns it; and the next start
-- returns the same network, whatever it draws and whatever its initial channel.
pub load_or_create_network-persists :
    (directory pid : Text) (random : List ℕ) (draw : Draw) (channel : ℕ) (d0 : Disk) (pid' : Text)
    (random' : List ℕ) (draw' : Draw) (channel' : ℕ)
    → IsDraw draw
    → 11 ≤ channel
    → channel ≤ 26
    → file_at (network_path directory) d0 ≡ none
    → file_at (temporary_path (network_path directory) pid random) d0 ≡ none
    → let (w, r) = load_or_create_network never directory pid random draw channel (start d0) in
      let (w', r') =
        load_or_create_network never directory pid' random' draw' channel' (start w.disk) in
      (network : StoredNetwork) × (create_network draw channel ≡ ok network)
      × (r ≡ ok (network_value network))
      × (r' ≡ ok (network_value network))
load_or_create_network-persists directory pid random draw channel d0 pid' random' draw' channel' d h
      k absent free =
    let (network, created, _, valid, _, _) = create_network-IsAccepted draw channel d h k in
    let o = load_or_create_network never directory pid random draw channel (start d0) in
    let (value, first, (same, held)) =
      Sure-value (λ value d. (value ≡ network_value network) × Holds directory pid network d.files)
        o
        (load-missing directory pid random draw channel network (start d0) created valid absent
          free) in
    let (value', second, same') =
      Sure-value (λ value d. value ≡ network_value network)
        (load_or_create_network never directory pid' random' draw' channel' (start o.0.disk))
        (load-found directory pid' random' draw' channel' network (start o.0.disk) valid held) in
    (network, created, first ∙ ap (λ v. ok v) same, second ∙ ap (λ v. ok v) same')

-- Without refused system calls and with no temporary file in the way, resetting the network on a
-- channel from 11 to 26 returns the drawn network; and the next start returns it too.
pub reset_network-persists :
    (directory pid : Text) (random : List ℕ) (draw : Draw) (channel : ℕ) (d0 : Disk) (pid' : Text)
    (random' : List ℕ) (draw' : Draw) (channel' : ℕ)
    → IsDraw draw
    → 11 ≤ channel
    → channel ≤ 26
    → file_at (temporary_path (network_path directory) pid random) d0 ≡ none
    → let (w, r) = reset_network never directory pid random draw channel (start d0) in
      let (w', r') =
        load_or_create_network never directory pid' random' draw' channel' (start w.disk) in
      (network : StoredNetwork) × (create_network draw channel ≡ ok network)
      × (r ≡ ok (network_value network))
      × (r' ≡ ok (network_value network))
reset_network-persists directory pid random draw channel d0 pid' random' draw' channel' d h k free =
    let (network, created, _, valid, _, _) = create_network-IsAccepted draw channel d h k in
    let o = reset_network never directory pid random draw channel (start d0) in
    let (value, first, (same, held)) =
      Sure-value (λ value d. (value ≡ network_value network) × Holds directory pid network d.files)
        o (reset-Sure directory pid random draw channel network (start d0) created valid free) in
    let (value', second, same') =
      Sure-value (λ value d. value ≡ network_value network)
        (load_or_create_network never directory pid' random' draw' channel' (start o.0.disk))
        (load-found directory pid' random' draw' channel' network (start o.0.disk) valid held) in
    (network, created, first ∙ ap (λ v. ok v) same, second ∙ ap (λ v. ok v) same')
