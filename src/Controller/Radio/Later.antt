-- ===== src/Controller/Radio/Later.antt =====
-- enhancements/0001-zigbee-ember/src/HomeyEmberController.mts: the invariant of the adapters' lives,
-- from `publishState` on, and through `_reset` and `_destroy`.
use homey_shs_enhanced.Controller.Radio.Kept.{moves_on}
use homey_shs_enhanced.Controller.Radio.Accounts.{is_stopped, IsHeld, IsAccountable}
use homey_shs_enhanced.Prelude.{
  ltb, Bool, List, Bool-cases, ==-refl, arith, ℕ, Option, refl, true, false, none, some, inl, inr,
  ◌≡◌, ◌||◌, ◌⊎◌, if◌then◌else◌,
}
use homey_shs_enhanced.Controller.Radio.{
  unstarted, storing, grouping, destroy, cleaning, set_next_reset_channel, take_from, reset_channel,
  stop_each, last_backup, saving, stopping_old, on_saved, reset, take_adapter, on_published,
  publishing, connecting, idle, loading, Purpose, Task, Radio, starting, resetting,
}

pub on_published-IsAccountable :
    (p : Purpose) (k : ℕ) (channel : ℕ) (s : Radio)
    → IsAccountable s
    → s.task ≡ publishing p k
    → IsAccountable (on_published p channel s)
unfolding on_published
on_published-IsAccountable starting k channel s v i = record {
  accounted = v.accounted;
  held = tt;
  taken = λ g d _. v.taken g d (rw i refl);
}
on_published-IsAccountable resetting k channel s v i = record {
  accounted = v.accounted;
  held = tt;
  taken = λ g d _. v.taken g d (rw i refl);
}

pub on_saved-IsAccountable :
    (p : Purpose) (s : Radio) → IsAccountable s → s.task ≡ saving p → IsAccountable (on_saved p s)
unfolding on_saved
on_saved-IsAccountable starting s v i = record {
  accounted = v.accounted;
  held = tt;
  taken = λ g d _. v.taken g d (rw i refl);
}
on_saved-IsAccountable resetting s v i = moves_on s v idle tt (λ g d _. v.taken g d (rw i refl))

is_stopped-stop_each :
    (a : Option ℕ) (stopped : List ℕ) (k : ℕ)
    → (is_stopped stopped k ≡ true) ⊎ (a ≡ some k)
    → is_stopped (stop_each a stopped) k ≡ true
is_stopped-stop_each none stopped k (inl h) = h
is_stopped-stop_each none stopped k (inr h) = cc
is_stopped-stop_each (some j) stopped k (inl h) = ground arith
is_stopped-stop_each (some j) stopped k (inr h) = ground (arith, ==-refl j)

pub reset-IsAccountable :
    (initial_channel : ℕ) (s : Radio) → IsAccountable s → IsAccountable (reset initial_channel s)
unfolding reset
reset-IsAccountable c s v = record {
  accounted = λ k l. inl (is_stopped-stop_each s.adapter s.stopped k (v.accounted k l));
  held =
      elim s.adapter
        as (λ a.
          IsHeld
            (elim a [
              | none ↦ storing (reset_channel c s)
              | some k ↦ stopping_old (reset_channel c s)
            ])
            none) [ none ↦ refl | some k ↦ refl ];
  taken = λ _ _ _. refl;
}

IsHeld-none : (t : Task) (a : Option ℕ) → IsHeld t a → IsHeld t none
IsHeld-none unstarted a h = refl
IsHeld-none idle a h = tt
IsHeld-none grouping a h = tt
IsHeld-none (saving p) a h = tt
IsHeld-none (cleaning p k) a h = refl
IsHeld-none (stopping_old c) a h = refl
IsHeld-none loading a h = refl
IsHeld-none (storing c) a h = refl
IsHeld-none (connecting p k) a h = inl refl
IsHeld-none (publishing p k) a h = inl refl

pub take_from-IsAccountable :
    (a : Option ℕ) (s : Radio) → IsAccountable s → s.adapter ≡ a → IsAccountable (take_from a s)
take_from-IsAccountable none s v e = record {
  accounted = v.accounted;
  held = v.held;
  taken = λ _ _ _. e;
}
take_from-IsAccountable (some k) s v e = record {
  accounted =
      λ j l. inl (is_stopped-stop_each (some k) s.stopped j (ground (arith, v.accounted j l)));
  held = IsHeld-none s.task s.adapter v.held;
  taken = λ _ _ _. refl;
}

if-IsAccountable :
    (b : Bool) {s t : Radio}
    → IsAccountable s
    → IsAccountable t
    → IsAccountable (if b then s else t)
if-IsAccountable true v w = v
if-IsAccountable false v w = w

-- What no part of the invariant reads may change; and a `_destroy` may begin.
module _ (s : Radio) (v : IsAccountable s) where
  pub timers-IsAccountable :
      (timeout interval skip : Bool) (next : Option ℕ)
      → IsAccountable (record s {
        backup_timeout = timeout;
        backup_interval = interval;
        skip_final_backup = skip;
        next_reset_channel = next;
      })
  timers-IsAccountable timeout interval skip next = record {
    accounted = v.accounted;
    held = v.held;
    taken = v.taken;
  }

  pub destroy-IsAccountable : IsAccountable (destroy s)
  unfolding destroy take_adapter
  destroy-IsAccountable = elim (Bool-cases s.destroyed) [
    | inl d ↦ simp d v
    | inr d ↦
        let v' : IsAccountable (record s {
          destroyed = true;
          backup_timeout = false;
          backup_interval = false;
          teardown = last_backup;
        }) =
          record { accounted = v.accounted; held = v.held; taken = λ e _ _. cc } in
        simp d
          (if-IsAccountable s.skip_final_backup (take_from-IsAccountable s.adapter _ v' refl) v')
  ]

  pub set_next_reset_channel-IsAccountable :
      (c : Option ℕ) → IsAccountable (set_next_reset_channel c s).0
  unfolding set_next_reset_channel
  set_next_reset_channel-IsAccountable none = timers-IsAccountable _ _ _ none
  set_next_reset_channel-IsAccountable (some c) = elim (Bool-cases (ltb c 11 || ltb 26 c)) [
    | inl b ↦ simp b v
    | inr b ↦ simp b (timers-IsAccountable _ _ _ (some c))
  ]
