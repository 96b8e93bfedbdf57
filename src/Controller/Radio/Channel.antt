-- ===== src/Controller/Radio/Channel.antt =====
-- enhancements/0001-zigbee-ember/src/HomeyEmberController.mts: the channel of a reset network.
use homey_shs_enhanced.Controller.Radio.{
  backup_due, schedule_backup, suppress_final_backup, idle, resetting, on_adapter_stopped,
  connecting, start_adapter, take_from, ends, storing, take_adapter, stopping_old, Task, destroy,
  reset_channel, set_next_reset_channel, reset, Radio,
}
use homey_shs_enhanced.Controller.Radio.Steps.{
  comes_due, schedules, suppresses, sets_channel, adapter_stopped, last_backup_ends, destroys,
  grouped, save_fails, saved, cleaned, publish_fails, published, connect_fails, connected,
  store_fails, load_fails, stored, loaded, old_stop_fails, old_stopped, resets, starts, Step,
}
use homey_shs_enhanced.Prelude.{
  ltb, Thrown, if-elim, Result, Bool-cases, Bool, ℕ, Option, refl, true, false, none, some, ok, err,
  inl, inr, ◌↔◌, ◌⊎◌, ◌≡◌, ◌≤◌, ◌||◌, ◌∙◌, arith,
}

abbrev pub is_asking : Task → Bool
is_asking (stopping_old c) = true
is_asking (storing c) = true
is_asking _ = false

-- A `_reset` that makes its network on channel `c`: it will ask the store for that one, or asks for
-- it; or has it, and connects the adapter; or has failed.
abbrev pub IsOnChannel : ℕ → Radio → Type 0
IsOnChannel c s =
    ((s.task ≡ stopping_old c) ⊎ (s.task ≡ storing c))
    ⊎ (((s.stored_channel ≡ some c) × ((k : ℕ) × (s.task ≡ connecting resetting k)))
        ⊎ (s.task ≡ idle))

-- The steps of a controller from a call of `_reset` on, until the call has the store's network.
pub data Resetting (s : Radio) : Radio → Type 0 where
  called : Resetting s s
  goes_on :
      (t : Radio) {u : Radio} → Resetting s t → is_asking t.task ≡ true → Step t u → Resetting s u

-- Neither `_destroy` nor another call from outside moves the task.
take_from-task : (a : Option ℕ) (s : Radio) → (take_from a s).task ≡ s.task
take_from-task none s = refl
take_from-task (some k) s = refl

destroy-task : (s : Radio) → (destroy s).task ≡ s.task
unfolding destroy take_adapter
destroy-task s = elim (Bool-cases s.destroyed) [
  | inl d ↦ simp d refl
  | inr d ↦ elim (Bool-cases s.skip_final_backup) [
    | inl quiet ↦ simp (d, quiet) (take_from-task s.adapter _)
    | inr loud ↦ simp (d, loud) refl
  ]
]

set_next_reset_channel-task :
    (c : Option ℕ) (s : Radio) → (set_next_reset_channel c s).0.task ≡ s.task
unfolding set_next_reset_channel
set_next_reset_channel-task none s = refl
set_next_reset_channel-task (some c) s = elim (Bool-cases (ltb c 11 || ltb 26 c)) [
  | inl b ↦ simp b refl
  | inr b ↦ simp b refl
]

module _ (c : ℕ) where
  abbrev Asks : Radio → Type 0
  Asks s = (s.task ≡ stopping_old c) ⊎ (s.task ≡ storing c)

  stays : (s t : Radio) → t.task ≡ s.task → Asks s → IsOnChannel c t
  stays s t e (inl a) = inl (inl (e ∙ a))
  stays s t e (inr a) = inl (inr (e ∙ a))

  Step-IsOnChannel : {s t : Radio} → Step s t → Asks s → IsOnChannel c t
  unfolding ends start_adapter take_adapter on_adapter_stopped suppress_final_backup schedule_backup
      backup_due
  Step-IsOnChannel (starts s i) a = absurd (ground (arith, i, a))
  Step-IsOnChannel (resets x s i b) a = absurd (ground (arith, i, a))
  Step-IsOnChannel (old_stopped x s i) (inl a) = inl (inr (cc))
  Step-IsOnChannel (old_stopped x s i) (inr a) = absurd (ground (arith, i, a))
  Step-IsOnChannel (old_stop_fails x s i) a = inr (inr refl)
  Step-IsOnChannel (loaded x s i) a = absurd (ground (arith, i, a))
  Step-IsOnChannel (stored x s i) (inl a) = absurd (ground (arith, i, a))
  Step-IsOnChannel (stored x s i) (inr a) = inr (inl (cc, (_, refl)))
  Step-IsOnChannel (load_fails s i) a = inr (inr refl)
  Step-IsOnChannel (store_fails x s i) a = inr (inr refl)
  Step-IsOnChannel (connected p k s i) a = absurd (ground (arith, i, a))
  Step-IsOnChannel (connect_fails p k s i) a = absurd (ground (arith, i, a))
  Step-IsOnChannel (published p k x s i) a = absurd (ground (arith, i, a))
  Step-IsOnChannel (publish_fails p k s i) a = absurd (ground (arith, i, a))
  Step-IsOnChannel (cleaned p k s i) a = absurd (ground (arith, i, a))
  Step-IsOnChannel (saved p s i) a = absurd (ground (arith, i, a))
  Step-IsOnChannel (save_fails p s i) a = absurd (ground (arith, i, a))
  Step-IsOnChannel (grouped s i) a = absurd (ground (arith, i, a))
  Step-IsOnChannel (destroys s d) a = stays s (destroy s) (destroy-task s) a
  Step-IsOnChannel (last_backup_ends s d) a =
      stays s (take_adapter s) (take_from-task s.adapter s) a
  Step-IsOnChannel (adapter_stopped s d) a = stays s (on_adapter_stopped s) refl a
  Step-IsOnChannel (sets_channel x s) a =
      stays s (set_next_reset_channel x s).0 (set_next_reset_channel-task x s) a
  Step-IsOnChannel (suppresses s) a = stays s (suppress_final_backup s) refl a
  Step-IsOnChannel (schedules s) a = stays s (schedule_backup s) refl a
  Step-IsOnChannel (comes_due s) a = stays s (backup_due s) refl a

  asked : (s : Radio) → is_asking s.task ≡ true → IsOnChannel c s → Asks s
  asked s a (inl h) = h
  asked s a (inr (inl (e, (k, h)))) = absurd (ground (arith, a, h))
  asked s a (inr (inr h)) = absurd (ground (arith, a, h))

  Resetting-IsOnChannel : {s t : Radio} → Resetting s t → IsOnChannel c s → IsOnChannel c t
  Resetting-IsOnChannel called h = h
  Resetting-IsOnChannel (goes_on t run a st) h =
      Step-IsOnChannel st (asked t a (Resetting-IsOnChannel run h))

  reset-Asks :
      (a : Option ℕ)
      → let t : Task = elim a [ none ↦ storing c | some k ↦ stopping_old c ] in
        (t ≡ stopping_old c) ⊎ (t ≡ storing c)
  reset-Asks none = inr refl
  reset-Asks (some k) = inl refl

-- What setting the channel `c` may come to: the new state, and how the call ends.
abbrev pub IsChannelSet : ℕ → ℕ → Radio → Radio × Result (Unit {0}) → Type 0
IsChannelSet c initial_channel s (t, r) =
    ((r ≡ ok tt) ↔ ((11 ≤ c) × (c ≤ 26)))
    × (r ≡ ok tt
        → ((u : Radio) → Resetting (reset initial_channel t) u → IsOnChannel c u)
          × ((reset initial_channel t).next_reset_channel ≡ none))
    × ((e : Thrown) → r ≡ err e → t ≡ s)

module _ (c initial_channel : ℕ) (s : Radio) where
  refused_channel :
      (e : Thrown) → (ltb c 11 || ltb 26 c) ≡ true → IsChannelSet c initial_channel s (s, err e)
  refused_channel e out = ((λ h. cc, λ h. absurd (ground arith)), λ h. cc, λ e h. refl)

  accepted_channel :
      (ltb c 11 || ltb 26 c) ≡ false
      → IsChannelSet c initial_channel s (record s { next_reset_channel = some c }, ok tt)
  unfolding reset_channel reset
  accepted_channel inside = (
    (λ h. ground arith, λ h. refl),
    λ h. (λ u run. Resetting-IsOnChannel c run (inl (reset-Asks c s.adapter)), refl),
    λ e h. cc,
  )

  -- A channel is taken for the next reset exactly if it is one from 11 to 26. That reset, whatever
  -- happens besides while it stops the old adapter and waits for the store, asks the store for a
  -- network on that channel, and connects an adapter on it unless it fails before; and it forgets
  -- the channel when it begins. A channel that is refused changes nothing.
  pub set_next_reset_channel-IsChannelSet :
      IsChannelSet c initial_channel s (set_next_reset_channel (some c) s)
  unfolding set_next_reset_channel
  set_next_reset_channel-IsChannelSet =
      if-elim (IsChannelSet c initial_channel s) (ltb c 11 || ltb 26 c) _ _ (refused_channel _)
        accepted_channel
