-- ===== src/Controller/Radio/Late.antt =====
-- enhancements/0001-zigbee-ember/src/HomeyEmberController.mts: what the flag `destroyed` says, which
-- `_destroy` sets and `start` clears.
use homey_shs_enhanced.Controller.Radio.Steps.{
  store_fails, stored, comes_due, schedules, suppresses,
}
use homey_shs_enhanced.Controller.Radio.Accounts.{is_alive}
use homey_shs_enhanced.Controller.Radio.{
  Purpose, starting, take_from, start, on_connected, clean_up, is_adapter, on_published, on_saved,
  destroy, set_next_reset_channel, reset, ends, start_adapter,
}
use homey_shs_enhanced.Controller.Radio.Accounts.{is_alive}
use homey_shs_enhanced.Prelude.{
  ◌∙◌, sym, Bool, Option, ℕ, not, ◌||◌, none, inl, inr, Bool-cases, ltb, arith, refl, true, false,
  some, ◌≡◌,
}
use homey_shs_enhanced.Controller.Radio.{
  starting, resetting, backup_due, schedule_backup, suppress_final_backup, Radio,
  on_adapter_stopped, take_adapter,
}
use homey_shs_enhanced.Controller.Radio.Steps.{
  suppresses, sets_channel, adapter_stopped, last_backup_ends, destroys, grouped, save_fails, saved,
  cleaned, publish_fails, published, connect_fails, load_fails, loaded, old_stop_fails, old_stopped,
  resets, new, starts, later, Step, Reach, connected,
}

-- `start` was called after `_destroy` had begun.
abbrev pub is_late : {s t : Radio} → Step s t → Bool
is_late (starts s i) = not (is_alive s.teardown)
is_late _ = false

abbrev pub starts_late : {s : Radio} → Reach s → Bool
starts_late new = false
starts_late (later r st) = starts_late r || is_late st

-- Without such a start, the flag says whether `_destroy` has begun.
abbrev pub IsFlagged : Radio → Type 0
IsFlagged s = s.destroyed ≡ not (is_alive s.teardown)

take_from-IsFlagged : (a : Option ℕ) (s : Radio) → s.destroyed ≡ true → IsFlagged (take_from a s)
take_from-IsFlagged none s d = d
take_from-IsFlagged (some k) s d = d

start-IsFlagged :
    (s : Radio) → not (is_alive s.teardown) ≡ false → IsFlagged s → IsFlagged (start s)
unfolding start
start-IsFlagged s early f = elim (Bool-cases s.started) [
  | inl b ↦ simp b f
  | inr b ↦ simp b (sym early)
]

on_connected-IsFlagged :
    (p : Purpose) (k : ℕ) (s : Radio) → IsFlagged s → IsFlagged (on_connected p k s)
unfolding on_connected clean_up
on_connected-IsFlagged p k s f = elim (Bool-cases (s.destroyed || not (is_adapter s.adapter k))) [
  | inl b ↦ simp b f
  | inr b ↦ simp b f
]

on_published-IsFlagged :
    (p : Purpose) (channel : ℕ) (s : Radio) → IsFlagged s → IsFlagged (on_published p channel s)
unfolding on_published
on_published-IsFlagged starting channel s f = f
on_published-IsFlagged resetting channel s f = f

on_saved-IsFlagged : (p : Purpose) (s : Radio) → IsFlagged s → IsFlagged (on_saved p s)
unfolding on_saved
on_saved-IsFlagged starting s f = f
on_saved-IsFlagged resetting s f = f

destroy-IsFlagged : (s : Radio) → IsFlagged s → IsFlagged (destroy s)
unfolding destroy take_adapter
destroy-IsFlagged s f = elim (Bool-cases s.destroyed) [
  | inl d ↦ simp d (sym d ∙ f)
  | inr d ↦ elim (Bool-cases s.skip_final_backup) [
    | inl quiet ↦ simp (d, quiet) (take_from-IsFlagged s.adapter _ refl)
    | inr loud ↦ simp (d, loud) refl
  ]
]

set_next_reset_channel-IsFlagged :
    (c : Option ℕ) (s : Radio) → IsFlagged s → IsFlagged (set_next_reset_channel c s).0
unfolding set_next_reset_channel
set_next_reset_channel-IsFlagged none s f = f
set_next_reset_channel-IsFlagged (some c) s f = elim (Bool-cases (ltb c 11 || ltb 26 c)) [
  | inl b ↦ simp b f
  | inr b ↦ simp b f
]

Step-IsFlagged : {s t : Radio} (st : Step s t) → is_late st ≡ false → IsFlagged s → IsFlagged t
unfolding reset ends start_adapter clean_up take_adapter on_adapter_stopped suppress_final_backup
    schedule_backup backup_due
Step-IsFlagged (starts s i) l f = start-IsFlagged s l f
Step-IsFlagged (resets c s i b) l f = f
Step-IsFlagged (old_stopped c s i) l f = f
Step-IsFlagged (old_stop_fails c s i) l f = f
Step-IsFlagged (loaded c s i) l f = f
Step-IsFlagged (stored c s i) l f = f
Step-IsFlagged (load_fails s i) l f = f
Step-IsFlagged (store_fails c s i) l f = f
Step-IsFlagged (connected p k s i) l f = on_connected-IsFlagged p k s f
Step-IsFlagged (connect_fails p k s i) l f = f
Step-IsFlagged (published p k c s i) l f = on_published-IsFlagged p c s f
Step-IsFlagged (publish_fails p k s i) l f = f
Step-IsFlagged (cleaned p k s i) l f = f
Step-IsFlagged (saved p s i) l f = on_saved-IsFlagged p s f
Step-IsFlagged (save_fails p s i) l f = f
Step-IsFlagged (grouped s i) l f = f
Step-IsFlagged (destroys s a) l f = destroy-IsFlagged s f
Step-IsFlagged (last_backup_ends s a) l f = take_from-IsFlagged s.adapter s (ground (arith, f, a))
Step-IsFlagged (adapter_stopped s a) l f = ground (arith, f, a)
Step-IsFlagged (sets_channel c s) l f = set_next_reset_channel-IsFlagged c s f
Step-IsFlagged (suppresses s) l f = f
Step-IsFlagged (schedules s) l f = f
Step-IsFlagged (comes_due s) l f = f

pub Reach-IsFlagged : {s : Radio} (r : Reach s) → starts_late r ≡ false → IsFlagged s
Reach-IsFlagged new l = refl
Reach-IsFlagged (later r st) l =
    let before : starts_late r ≡ false = ground arith in
    Step-IsFlagged st (ground arith) (Reach-IsFlagged r before)
