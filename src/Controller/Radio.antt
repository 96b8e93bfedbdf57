-- ===== src/Controller/Radio.antt =====
-- enhancements/0001-zigbee-ember/src/HomeyEmberController.mts: the life of the controller's adapters
-- (`start`, `startAdapter`, `_reset`, `destroy`, `_destroy`, `setNextResetChannel`), as steps between
-- two awaits. Homey's base class, which calls `_reset` and, from `destroy`, `_destroy`, is not here.
pub mod Steps
pub mod Accounts
pub mod Kept
pub mod Later
pub mod Late
pub mod Closed
pub mod Channel
use homey_shs_enhanced.Json.{decimal}
use homey_shs_enhanced.Prelude.{
  text, range_error, ltb, Result, not, Bool, List, or_default, Option, ℕ, [], suc, true, false,
  none, some, ok, err, ◌∷◌, if◌then◌else◌, ◌++◌, ◌||◌, ◌==◌,
}

-- Who waits for `startAdapter` and what follows it.
pub data Purpose : Type 0 where
  starting resetting : Purpose

-- Where the one call of `start` or `_reset` waits. A number is that of its adapter.
--   unstarted: `start` is not called yet.
--   idle: no call waits.
--   stopping_old: `_reset` waits for `oldAdapter.stop()`; the number is the new channel.
--   loading: `start` waits for `loadOrCreateNetwork`.
--   storing: `_reset` waits for the store's `resetNetwork`, which is given that channel.
--   connecting, publishing: `startAdapter` waits for `adapter.start()`, for `publishState`.
--   cleaning: it waits for `adapter.stop()` in its `catch` block.
--   saving: for `writeBackup`.
--   grouping: `start` waits for `addMulticastGroup(0)`.
pub data Task : Type 0 where
  unstarted idle loading grouping : Task
  stopping_old storing : ℕ → Task
  saving : Purpose → Task
  connecting publishing cleaning : Purpose → ℕ → Task

-- Where `_destroy` waits: it is not called yet; for the last backup; for `adapter.stop()`; it has
-- returned.
pub data Teardown : Type 0 where
  alive last_backup stopping_adapter gone : Teardown

-- Adapters are numbered as they are made, below `made`; `stopped` are those whose `stop` was called.
-- `network_channel` is `networkSettings?.channel`, and `stored_channel` `storedNetwork?.channel`.
pub record Radio : Type 0 where
  pub adapter : Option ℕ
  pub made : ℕ
  pub stopped : List ℕ
  pub started : Bool
  pub destroyed : Bool
  pub skip_final_backup : Bool
  pub next_reset_channel : Option ℕ
  pub network_channel : Option ℕ
  pub stored_channel : Option ℕ
  pub backup_timeout : Bool
  pub backup_interval : Bool
  pub task : Task
  pub teardown : Teardown

abbrev pub constructed : Radio
constructed = record {
  adapter = none;
  made = 0;
  stopped = [];
  started = false;
  destroyed = false;
  skip_final_backup = false;
  next_reset_channel = none;
  network_channel = none;
  stored_channel = none;
  backup_timeout = false;
  backup_interval = false;
  task = unstarted;
  teardown = alive;
}

abbrev pub is_adapter : Option ℕ → ℕ → Bool
is_adapter none k = false
is_adapter (some j) k = j == k

abbrev pub stop_each : Option ℕ → List ℕ → List ℕ
stop_each none stopped = stopped
stop_each (some k) stopped = k ∷ stopped

-- A call that throws or returns.
unfoldable pub ends : Radio → Radio
ends s = record s { task = idle }

unfoldable pub start : Radio → Radio
start s = if s.started then s else record s { destroyed = false; task = loading }

-- The store has given a network, on that channel; then `startAdapter` up to `adapter.start()`.
unfoldable pub start_adapter : Purpose → ℕ → Radio → Radio
start_adapter p channel s = record s {
  stored_channel = some channel;
  adapter = some s.made;
  made = suc s.made;
  task = connecting p s.made;
}

-- The `catch` block of `startAdapter`, up to `adapter.stop()`.
unfoldable pub clean_up : Purpose → ℕ → Radio → Radio
clean_up p k s = record s {
  adapter = if is_adapter s.adapter k then none else s.adapter;
  stopped = k ∷ s.stopped;
  task = cleaning p k;
}

-- After `adapter.start()`.
unfoldable pub on_connected : Purpose → ℕ → Radio → Radio
on_connected p k s =
    if s.destroyed || not (is_adapter s.adapter k)
    then clean_up p k s
    else record s { task = publishing p k }

-- After `publishState`, which read the network's channel from the adapter that has connected.
unfoldable pub on_published : Purpose → ℕ → Radio → Radio
on_published starting channel s = record s {
  network_channel = some channel;
  started = true;
  task = saving starting;
}
on_published resetting channel s = record s {
  network_channel = some channel;
  task = saving resetting;
}

-- After `writeBackup`.
unfoldable pub on_saved : Purpose → Radio → Radio
on_saved starting s = record s { backup_interval = true; task = grouping }
on_saved resetting s = record s { task = idle }

unfoldable pub reset_channel : ℕ → Radio → ℕ
reset_channel initial_channel s =
    or_default s.next_reset_channel (or_default s.network_channel initial_channel)

-- `_reset` up to its first await.
unfoldable pub reset : ℕ → Radio → Radio
reset initial_channel s = record s {
  next_reset_channel = none;
  adapter = none;
  stopped = stop_each s.adapter s.stopped;
  task = elim s.adapter [
    | none ↦ storing (reset_channel initial_channel s)
    | some k ↦ stopping_old (reset_channel initial_channel s)
  ];
}

-- The channel is a natural number here: any other number is refused too.
unfoldable pub set_next_reset_channel : Option ℕ → Radio → Radio × Result (Unit {0})
set_next_reset_channel none s = (record s { next_reset_channel = none }, ok tt)
set_next_reset_channel (some c) s =
    if ltb c 11 || ltb 26 c
    then (s, err (range_error (text "Invalid Zigbee channel: " ++ decimal c)))
    else (record s { next_reset_channel = some c }, ok tt)

unfoldable pub suppress_final_backup : Radio → Radio
suppress_final_backup s = record s { skip_final_backup = true }

-- The part of `_destroy` that takes the adapter, up to `adapter.stop()`, or to the end.
abbrev pub take_from : Option ℕ → Radio → Radio
take_from none s = record s { started = false; teardown = gone }
take_from (some k) s = record s {
  adapter = none;
  stopped = k ∷ s.stopped;
  teardown = stopping_adapter;
}

unfoldable pub take_adapter : Radio → Radio
take_adapter s = take_from s.adapter s

-- `_destroy` up to its first await.
unfoldable pub destroy : Radio → Radio
destroy s =
    if s.destroyed
    then s
    else let s' : Radio = record s {
      destroyed = true;
      backup_timeout = false;
      backup_interval = false;
      teardown = last_backup;
    } in
      if s.skip_final_backup then take_adapter s' else s'

-- The end of `_destroy`.
unfoldable pub on_adapter_stopped : Radio → Radio
on_adapter_stopped s = record s { started = false; teardown = gone }

-- `scheduleBackup`, and its timer going off.
unfoldable pub schedule_backup : Radio → Radio
schedule_backup s = record s { backup_timeout = true }

unfoldable pub backup_due : Radio → Radio
backup_due s = record s { backup_timeout = false }
