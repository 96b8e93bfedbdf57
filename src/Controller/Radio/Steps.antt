-- ===== src/Controller/Radio/Steps.antt =====
-- enhancements/0001-zigbee-ember/src/HomeyEmberController.mts: the order in which the steps of a
-- controller's life can come. The premises are those of its callers: the manager starts a controller
-- at most once and resets one that is started, and one such call runs at a time. `destroy` may come
-- at any point of them, also before `start`, and `destroyPromise` makes it one call of `_destroy`.
use homey_shs_enhanced.Controller.Radio.{
  starting, storing, unstarted, backup_due, schedule_backup, suppress_final_backup,
  set_next_reset_channel, on_adapter_stopped, stopping_adapter, take_adapter, last_backup, destroy,
  grouping, on_saved, saving, cleaning, on_published, publishing, clean_up, on_connected,
  connecting, start_adapter, Purpose, ends, resetting, loading, stopping_old, reset, start, alive,
  constructed, idle, Radio,
}
use homey_shs_enhanced.Prelude.{Option, ℕ, true, ◌≡◌}

pub data Step : Radio → Radio → Type 0 where
  starts : (s : Radio) → s.task ≡ unstarted → Step s (start s)
  resets :
      (initial_channel : ℕ) (s : Radio)
      → s.task ≡ idle
      → s.started ≡ true
      → Step s (reset initial_channel s)
  -- `withTimeout(oldAdapter.stop())` is settled.
  old_stopped :
      (channel : ℕ) (s : Radio)
      → s.task ≡ stopping_old channel
      → Step s (record s { task = storing channel })
  old_stop_fails : (channel : ℕ) (s : Radio) → s.task ≡ stopping_old channel → Step s (ends s)
  loaded : (channel : ℕ) (s : Radio) → s.task ≡ loading → Step s (start_adapter starting channel s)
  -- The network that the store makes is on the channel that it is given.
  stored :
      (channel : ℕ) (s : Radio)
      → s.task ≡ storing channel
      → Step s (start_adapter resetting channel s)
  -- The store, or the making of the adapter, throws.
  load_fails : (s : Radio) → s.task ≡ loading → Step s (ends s)
  store_fails : (channel : ℕ) (s : Radio) → s.task ≡ storing channel → Step s (ends s)
  connected :
      (p : Purpose) (k : ℕ) (s : Radio) → s.task ≡ connecting p k → Step s (on_connected p k s)
  connect_fails :
      (p : Purpose) (k : ℕ) (s : Radio) → s.task ≡ connecting p k → Step s (clean_up p k s)
  published :
      (p : Purpose) (k : ℕ) (channel : ℕ) (s : Radio)
      → s.task ≡ publishing p k
      → Step s (on_published p channel s)
  publish_fails :
      (p : Purpose) (k : ℕ) (s : Radio) → s.task ≡ publishing p k → Step s (clean_up p k s)
  cleaned : (p : Purpose) (k : ℕ) (s : Radio) → s.task ≡ cleaning p k → Step s (ends s)
  saved : (p : Purpose) (s : Radio) → s.task ≡ saving p → Step s (on_saved p s)
  save_fails : (p : Purpose) (s : Radio) → s.task ≡ saving p → Step s (ends s)
  grouped : (s : Radio) → s.task ≡ grouping → Step s (ends s)
  destroys : (s : Radio) → s.teardown ≡ alive → Step s (destroy s)
  last_backup_ends : (s : Radio) → s.teardown ≡ last_backup → Step s (take_adapter s)
  adapter_stopped : (s : Radio) → s.teardown ≡ stopping_adapter → Step s (on_adapter_stopped s)
  sets_channel : (c : Option ℕ) (s : Radio) → Step s (set_next_reset_channel c s).0
  suppresses : (s : Radio) → Step s (suppress_final_backup s)
  schedules : (s : Radio) → Step s (schedule_backup s)
  comes_due : (s : Radio) → Step s (backup_due s)

pub data Reach : Radio → Type 0 where
  new : Reach constructed
  later : {s t : Radio} → Reach s → Step s t → Reach t
