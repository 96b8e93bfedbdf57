-- ===== src/RadioStore/Reset.antt =====
-- enhancements/0001-zigbee-ember/src/RadioStore.mts: `resetNetwork` and `writeBackup`, under
-- every schedule of refused system calls.
use homey_shs_enhanced.Disk.Rules.{get_file-remove_file, Good-perform, Good-continue, Good}
use homey_shs_enhanced.RadioStore.Paths.{
  network-ne-backup, backup-ne-network, temporary-ne-backup, temporary-ne-network,
}
use homey_shs_enhanced.RadioStore.Atomic.{
  After-IsWhole, IsReplaced, After-ok, IsWhole, write_json_atomic-Good,
}
use homey_shs_enhanced.RadioStore.Store.{
  write_json_atomic, write_network, reset_network, temporary_path, backup_path, network_path,
  write_backup,
}
use homey_shs_enhanced.RadioStore.Network.{
  assert_stored_network, network_value, create_network, StoredNetwork, Draw, file_mode,
}
use homey_shs_enhanced.Json.{Value}
use homey_shs_enhanced.Disk.{
  lift, continue, remove_op, remove, file_at, json_text, File, World, Disk,
}
use homey_shs_enhanced.Prelude.{
  ◌∙◌, text_eq_refl, sym, arith, subst, Result, Result-cases, inr, refl, inl, All, List, Text,
  Thrown, Option, ℕ, [], none, some, ok, ◌⊎◌, ◌≡◌,
}

abbrev pub start : Disk → World
start d = record { disk = d; ticks = 0; history = [] }

abbrev pub private_file : Value → File
private_file value = record { content = json_text value; mode = file_mode }

module _ (faults : ℕ → Option Thrown) (directory pid : Text) (random : List ℕ) where
  -- While the backup is written, whichever system calls are refused, each disk on the way has
  -- `network.json` as it was and the backup either as it was or whole and private. If the write
  -- does not throw, it has the new backup and no temporary file is left.
  pub write_backup-atomic :
      (backup : Value) (d0 : Disk)
      → let network = network_path directory in
        let target = backup_path directory in
        let (w, r) = write_backup faults directory pid random backup (start d0) in
        All
          (λ d.
            (file_at network d ≡ file_at network d0)
            × ((file_at target d ≡ file_at target d0)
                ⊎ (file_at target d ≡ some (private_file backup))))
          w.history
        × (r ≡ ok tt
            → (file_at target w.disk ≡ some (private_file backup))
              × (file_at (temporary_path target pid random) w.disk ≡ none))
  unfolding write_backup
  write_backup-atomic backup d0 =
      let network = network_path directory in
      let target = backup_path directory in
      let g =
        write_json_atomic-Good d0 network target backup pid random
          (temporary-ne-network target pid random directory)
          (temporary-ne-backup target pid random directory) (backup-ne-network directory)
          (IsWhole d0 network target backup pid random) (λ d h. h) faults directory (start d0) tt
          (refl, inl refl) in
      (
        g.past,
        λ e.
            (After-ok d0 network target backup pid random
              (IsReplaced d0 network target backup pid random) _ _ e g.now).1,
      )

  -- Either the network is the old one, and its backup is still there or removed; or the network
  -- is the one just created, whole and private, and there is no backup.
  abbrev pub Paired : Draw → ℕ → Disk → Disk → Type 0
  Paired draw channel d0 d =
      ((file_at (network_path directory) d ≡ file_at (network_path directory) d0)
        × ((file_at (backup_path directory) d ≡ file_at (backup_path directory) d0)
            ⊎ (file_at (backup_path directory) d ≡ none)))
      ⊎ ((network : StoredNetwork) × (create_network draw channel ≡ ok network)
          × (file_at (network_path directory) d ≡ some (private_file (network_value network)))
          × (file_at (backup_path directory) d ≡ none))

  abbrev Done : Draw → ℕ → Disk → Result Value → Disk → Type 0
  Done draw channel d0 r d =
      Paired draw channel d0 d
      × ((value : Value)
          → r ≡ ok value
          → (file_at (network_path directory) d ≡ some (private_file value))
            × (file_at (backup_path directory) d ≡ none))

  abbrev IsRemoved : Disk → Disk → Type 0
  IsRemoved d0 d =
      (file_at (network_path directory) d ≡ file_at (network_path directory) d0)
      × (file_at (backup_path directory) d ≡ none)

  module _ (draw : Draw) (channel : ℕ) (d0 : Disk) (network : StoredNetwork)
      (created : create_network draw channel ≡ ok network) where
    remove_backup-Good :
        Good
          (Paired draw channel d0)
          (λ (r : Result (Unit {0})) d. Paired draw channel d0 d × ((r ≡ ok tt) → IsRemoved d0 d))
          (remove faults (backup_path directory) (start d0))
    unfolding remove remove_op
    remove_backup-Good =
        Good-perform _ faults _ _ (start d0) (λ r d h. h.0) tt
          (λ e. (inl (refl, inl refl), λ k. cc))
          (ground (
            arith,
            get_file-remove_file (network_path directory) (backup_path directory) d0.files,
            get_file-remove_file (backup_path directory) (backup_path directory) d0.files,
            backup-ne-network directory,
            text_eq_refl (backup_path directory),
          ))

    write_network-Good :
        (w : World)
        → All (Paired draw channel d0) w.history
        → IsRemoved d0 w.disk
        → Good
            (Paired draw channel d0)
            (λ (r : Result (Unit {0})) d.
              Paired draw channel d0 d
              × ((r ≡ ok tt)
                  → (file_at (network_path directory) d
                      ≡ some (private_file (network_value network)))
                    × (file_at (backup_path directory) d ≡ none)))
            (write_network faults directory pid random (network_value network) w)
    unfolding write_network
    write_network-Good w past h =
        Good-continue {R = λ (_ : Result (Unit {0})) d. IsRemoved d0 d}
          (w, assert_stored_network (network_value network))
          (λ _.
            write_json_atomic faults directory pid random (network_path directory)
              (network_value network))
          (record { past = past; now = h }) (λ e d k. (inl (k.0, inr k.1), λ x. cc))
          λ a w past k.
            let file = network_path directory in
            let value = network_value network in
            let other = backup_path directory in
            let whole = λ (d : Disk) (h : IsWhole w.disk other file value pid random d).
              let bak = h.0 ∙ k.1 in
              let p : Paired draw channel d0 d = elim h.1 [
                | inl e ↦ inl (e ∙ k.0, inr bak)
                | inr e ↦ inr (network, created, e, bak)
              ] in
              p in
            let replaced = IsReplaced w.disk other file value pid random in
            let g =
              write_json_atomic-Good w.disk other file value pid random
                (temporary-ne-backup file pid random directory)
                (temporary-ne-network file pid random directory) (network-ne-backup directory)
                (Paired draw channel d0) whole faults directory w past (refl, inl refl) in
            record {
              past = g.past;
              now = (
                whole (write_json_atomic faults directory pid random file value w).0.disk
                    (After-IsWhole w.disk other file value pid random replaced _ _ g.now),
                λ e.
                    let h = After-ok w.disk other file value pid random replaced _ _ e g.now in
                    (h.1.0, h.0.0 ∙ k.1),
              );
            }

    reset-Good : Good (Paired draw channel d0) (Done draw channel d0) (
        continue (remove faults (backup_path directory) (start d0)) λ _ w.
          continue
            (write_network faults directory pid random (network_value network) w)
            (λ _. lift (ok (network_value network))))
    reset-Good =
        Good-continue _ _ remove_backup-Good (λ e d k. (k.0, λ v x. cc))
          λ a w past k.
            Good-continue _ _ (write_network-Good w past (k.1 refl)) (λ e d k. (k.0, λ v x. cc))
              λ a w past l. record {
                past = past;
                now = (
                  l.0,
                  λ v x. let same : network_value network ≡ v = cc in rw (← same) (l.1 refl),
                );
              }

  -- While the network is reset, whichever system calls are refused, no disk on the way pairs a new
  -- `network.json` with the old backup. If the reset does not throw, the last disk has the new
  -- network that it returns, and no backup.
  pub reset_network-pairs :
      (draw : Draw) (channel : ℕ) (d0 : Disk)
      → let (w, r) = reset_network faults directory pid random draw channel (start d0) in
        All (Paired draw channel d0) w.history
        × ((value : Value)
            → r ≡ ok value
            → (file_at (network_path directory) w.disk ≡ some (private_file value))
              × (file_at (backup_path directory) w.disk ≡ none))
  unfolding reset_network
  reset_network-pairs draw channel d0 = elim (Result-cases (create_network draw channel)) [
    | inl (network, e) ↦
        let g =
          subst
            (λ r. Good (Paired draw channel d0) (Done draw channel d0) (
              continue (start d0, r)
                λ network w. continue (remove faults (backup_path directory) w) λ _ w.
                  continue (write_network faults directory pid random (network_value network) w)
                    (λ _. lift (ok (network_value network)))))
            (sym e) (reset-Good draw channel d0 network e) in
        (g.past, g.now.1)
    | inr (x, e) ↦ rw e (tt, λ v x. cc)
  ]
