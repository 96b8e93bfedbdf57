-- ===== src/Controller/Radio/Closed.antt =====
-- enhancements/0001-zigbee-ember/src/HomeyEmberController.mts: what becomes of the adapters that a
-- controller makes.
use homey_shs_enhanced.Controller.Radio.Late.{starts_late, Reach-IsFlagged}
use homey_shs_enhanced.Controller.Radio.Later.{
  timers-IsAccountable, set_next_reset_channel-IsAccountable, take_from-IsAccountable,
  destroy-IsAccountable, on_saved-IsAccountable, on_published-IsAccountable, reset-IsAccountable,
}
use homey_shs_enhanced.Controller.Radio.Steps.{
  store_fails, stored, comes_due, schedules, suppresses,
}
use homey_shs_enhanced.Controller.Radio.Accounts.{
  constructed-IsAccountable, is_stopped, IsAccountable,
}
use homey_shs_enhanced.Controller.Radio.{starting}
use homey_shs_enhanced.Prelude.{ℕ, arith, refl, true, false, some, ◌<◌, ◌⊎◌, ◌≡◌}
use homey_shs_enhanced.Controller.Radio.{
  starting, storing, resetting, idle, backup_due, gone, schedule_backup, suppress_final_backup,
  Radio, on_adapter_stopped, take_adapter,
}
use homey_shs_enhanced.Controller.Radio.Kept.{
  start_adapter-IsAccountable, IsHeld-task, moves_on, start-IsAccountable, ends-IsAccountable,
  clean_up-IsAccountable, on_connected-IsAccountable,
}
use homey_shs_enhanced.Controller.Radio.Steps.{
  suppresses, sets_channel, adapter_stopped, last_backup_ends, destroys, grouped, save_fails, saved,
  cleaned, publish_fails, published, connect_fails, load_fails, loaded, old_stop_fails, old_stopped,
  resets, new, starts, later, Step, Reach, connected,
}

Step-IsAccountable : {s t : Radio} → Step s t → IsAccountable s → IsAccountable t
unfolding take_adapter on_adapter_stopped suppress_final_backup schedule_backup backup_due
Step-IsAccountable (starts s i) v = start-IsAccountable s v i
Step-IsAccountable (resets c s i b) v = reset-IsAccountable c s v
Step-IsAccountable (old_stopped c s i) v =
    moves_on s v (storing c) (IsHeld-task s v i) (λ g d _. v.taken g d (rw i refl))
Step-IsAccountable (old_stop_fails c s i) v = ends-IsAccountable s v (rw i refl)
Step-IsAccountable (loaded c s i) v = start_adapter-IsAccountable s v starting c (IsHeld-task s v i)
Step-IsAccountable (stored c s i) v =
    start_adapter-IsAccountable s v resetting c (IsHeld-task s v i)
Step-IsAccountable (load_fails s i) v = ends-IsAccountable s v (rw i refl)
Step-IsAccountable (store_fails c s i) v = ends-IsAccountable s v (rw i refl)
Step-IsAccountable (connected p k s i) v = on_connected-IsAccountable s v p k i
Step-IsAccountable (connect_fails p k s i) v = clean_up-IsAccountable s v p k (IsHeld-task s v i)
Step-IsAccountable (published p k c s i) v = on_published-IsAccountable p k c s v i
Step-IsAccountable (publish_fails p k s i) v = clean_up-IsAccountable s v p k (IsHeld-task s v i)
Step-IsAccountable (cleaned p k s i) v = ends-IsAccountable s v (rw i refl)
Step-IsAccountable (saved p s i) v = on_saved-IsAccountable p s v i
Step-IsAccountable (save_fails p s i) v = ends-IsAccountable s v (rw i refl)
Step-IsAccountable (grouped s i) v = ends-IsAccountable s v (rw i refl)
Step-IsAccountable (destroys s a) v = destroy-IsAccountable s v
Step-IsAccountable (last_backup_ends s a) v = take_from-IsAccountable s.adapter s v refl
Step-IsAccountable (adapter_stopped s a) v = record {
  accounted = v.accounted;
  held = v.held;
  taken = λ _ d c. v.taken (rw a refl) d c;
}
Step-IsAccountable (sets_channel c s) v = set_next_reset_channel-IsAccountable s v c
Step-IsAccountable (suppresses s) v = timers-IsAccountable s v _ _ true _
Step-IsAccountable (schedules s) v = timers-IsAccountable s v true _ _ _
Step-IsAccountable (comes_due s) v = timers-IsAccountable s v false _ _ _

pub Reach-IsAccountable : {s : Radio} → Reach s → IsAccountable s
Reach-IsAccountable new = constructed-IsAccountable
Reach-IsAccountable (later r st) = Step-IsAccountable st (Reach-IsAccountable r)

-- At every point of a controller's life, `stop` was called of every adapter that it made, except the
-- one that is its current adapter, whatever fails, and whenever it is reset or destroyed, also
-- while it starts. Unless `start` was called after `_destroy` had begun, once `_destroy` has
-- returned and neither `start` nor `_reset` waits, `stop` was called of every one.
pub Reach-stopped :
    (s : Radio) (k : ℕ) (r : Reach s)
    → k < s.made
    → ((is_stopped s.stopped k ≡ true) ⊎ (s.adapter ≡ some k))
      × (starts_late r ≡ false → s.teardown ≡ gone → s.task ≡ idle → is_stopped s.stopped k ≡ true)
Reach-stopped s k r l =
    let v = Reach-IsAccountable r in
    (
      v.accounted k l,
      λ early g i.
          let d : s.destroyed ≡ true = ground (arith, Reach-IsFlagged r early, g) in
          ground (arith, v.accounted k l, v.taken (rw g refl) d (rw i refl)),
    )
