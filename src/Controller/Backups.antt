-- ===== src/Controller/Backups.antt =====
-- enhancements/0001-zigbee-ember/src/HomeyEmberController.mts: `writeBackup`, which every caller that
-- comes while a backup is under way shares, as steps between its awaits. How the adapter and the
-- store settle is a parameter of the steps.
pub mod Shared
use homey_shs_enhanced.Prelude.{
  or_default, not, List, Bool, ℕ, Option, Result, [], suc, false, none, some, ok, err, ◌++◌,
  if◌then◌else◌, ◌∷◌,
}

-- The part of herdsman's unified backup that the controller reads; `none` for a missing field.
pub record NetworkKey : Type 0 where
  pub sequence_number : Option ℕ
  pub frame_counter : Option ℕ

-- Where the backup waits: for `adapter.backup`, or for `store.writeBackup`.
pub data BackupPhase : Type 0 where
  reading : BackupPhase
  storing : Option NetworkKey → BackupPhase

-- `ready`: the controller has an adapter and a stored network. `in_flight` is `backupInFlight`, and
-- `waiting` are the calls that got its promise, by their numbers; `settled` are the calls that have
-- ended. `emitted` are the counters of the `state` events, the last one first.
pub record Backups : Type 0 where
  pub ready : Bool
  pub in_flight : Option BackupPhase
  pub waiting : List ℕ
  pub settled : List (ℕ × Result (Unit {0}))
  pub key_sequence_number : ℕ
  pub key_frame_counter : ℕ
  pub emitted : List (ℕ × ℕ)
  -- The backups that were begun.
  pub reads : ℕ

abbrev pub no_backups : Backups
no_backups = record {
  ready = false;
  in_flight = none;
  waiting = [];
  settled = [];
  key_sequence_number = 0;
  key_frame_counter = 0;
  emitted = [];
  reads = 0;
}

-- `becomes_ready`: an adapter is set or taken away. `calls`: `writeBackup` is called. `read`: what
-- `adapter.backup` and `toUnifiedBackup` come to; `stored`: what the store comes to.
pub data BackupEvent : Type 0 where
  becomes_ready : Bool → BackupEvent
  calls : ℕ → BackupEvent
  read : Result (Option NetworkKey) → BackupEvent
  stored : Result (Unit {0}) → BackupEvent

unfoldable pub write_backup : ℕ → Backups → Backups
write_backup c s =
    if not s.ready then record s { settled = (c, ok tt) ∷ s.settled } else elim s.in_flight [
      | some phase ↦ record s { waiting = c ∷ s.waiting }
      | none ↦ record s { in_flight = some reading; waiting = c ∷ s.waiting; reads = suc s.reads }
    ]

abbrev pub settle_all : Result (Unit {0}) → List ℕ → List (ℕ × Result (Unit {0}))
settle_all r [] = []
settle_all r (c ∷ cs) = (c, r) ∷ settle_all r cs

-- The promise settles, and `finally` clears `backupInFlight`.
unfoldable pub settle_backup : Result (Unit {0}) → Backups → Backups
settle_backup r s = record s {
  in_flight = none;
  waiting = [];
  settled = settle_all r s.waiting ++ s.settled;
}

abbrev pub sequence_of : Option NetworkKey → ℕ
sequence_of none = 0
sequence_of (some key) = or_default key.sequence_number 0

abbrev pub counter_of : Option NetworkKey → ℕ
counter_of none = 0
counter_of (some key) = or_default key.frame_counter 0

-- After the store has written the backup.
unfoldable pub publish_counters : Option NetworkKey → Backups → Backups
publish_counters key s = record s {
  key_sequence_number = sequence_of key;
  key_frame_counter = counter_of key;
  emitted = (sequence_of key, counter_of key) ∷ s.emitted;
}

abbrev pub resume_read : Option BackupPhase → Result (Option NetworkKey) → Backups → Backups
resume_read (some reading) (ok key) s = record s { in_flight = some (storing key) }
resume_read (some reading) (err e) s = settle_backup (err e) s
resume_read _ r s = s

abbrev pub resume_store : Option BackupPhase → Result (Unit {0}) → Backups → Backups
resume_store (some (storing key)) (ok _) s = settle_backup (ok tt) (publish_counters key s)
resume_store (some (storing key)) (err e) s = settle_backup (err e) s
resume_store _ r s = s

unfoldable pub backup_step : Backups → BackupEvent → Backups
backup_step s (becomes_ready b) = record s { ready = b }
backup_step s (calls c) = write_backup c s
backup_step s (read r) = resume_read s.in_flight r s
backup_step s (stored r) = resume_store s.in_flight r s

unfoldable pub backup_run : Backups → List BackupEvent → Backups
backup_run s [] = s
backup_run s (e ∷ es) = backup_run (backup_step s e) es
