-- ===== src/Controller/Radio/Kept.antt =====
-- enhancements/0001-zigbee-ember/src/HomeyEmberController.mts: the invariant of the adapters' lives,
-- step by step.
use homey_shs_enhanced.Controller.Radio.Accounts.{is_taken, is_connecting, IsHeld, IsAccountable}
use homey_shs_enhanced.Prelude.{
  not, Bool-cases, subst, ==-refl, arith, ℕ, Option, refl, true, false, none, some, inl, inr, ◌≡◌,
  ◌||◌, ◌⊎◌, if◌then◌else◌,
}
use homey_shs_enhanced.Controller.Radio.{
  unstarted, publishing, connecting, idle, clean_up, on_connected, Purpose, is_adapter,
  start_adapter, ends, Task, start, Radio,
}

module _ (s : Radio) (v : IsAccountable s) where
  pub IsHeld-task : {t : Task} → s.task ≡ t → IsHeld t s.adapter
  IsHeld-task i = subst (λ t. IsHeld t s.adapter) i v.held

  -- A step to a task that holds the adapter if the old one did.
  pub moves_on :
      (t : Task)
      → IsHeld t s.adapter
      → (is_taken s.teardown ≡ true
          → s.destroyed ≡ true
          → is_connecting t ≡ false
          → s.adapter ≡ none)
      → IsAccountable (record s { task = t })
  moves_on t h g = record { accounted = v.accounted; held = h; taken = g }

  pub ends-IsAccountable : is_connecting s.task ≡ false → IsAccountable (ends s)
  unfolding ends
  ends-IsAccountable c = moves_on idle tt (λ g d _. v.taken g d c)

  pub start-IsAccountable : s.task ≡ unstarted → IsAccountable (start s)
  unfolding start
  start-IsAccountable i = elim (Bool-cases s.started) [
    | inl b ↦ simp b v
    | inr b ↦
        let closed = IsHeld-task i in
        simp b (record { accounted = v.accounted; held = closed; taken = λ _ _ _. closed })
  ]

  pub start_adapter-IsAccountable :
      (p : Purpose) (channel : ℕ) → s.adapter ≡ none → IsAccountable (start_adapter p channel s)
  unfolding start_adapter
  start_adapter-IsAccountable p channel held = record {
    accounted = λ k l. ground (arith, v.accounted k, held, ==-refl k);
    held = inr refl;
    taken = λ _ _ e. cc;
  }

is_adapter-dropped :
    (a : Option ℕ) (k : ℕ) → (a ≡ none) ⊎ (a ≡ some k) → (if is_adapter a k then none else a) ≡ none
is_adapter-dropped none k h = refl
is_adapter-dropped (some j) k h = ground (arith, h)

module _ (s : Radio) (v : IsAccountable s) (p : Purpose) (k : ℕ) where
  pub clean_up-IsAccountable :
      (s.adapter ≡ none) ⊎ (s.adapter ≡ some k) → IsAccountable (clean_up p k s)
  unfolding clean_up
  clean_up-IsAccountable h =
      let dropped = is_adapter-dropped s.adapter k h in
      record {
        accounted = λ j l. ground (arith, v.accounted j l, h, ==-refl j);
        held = dropped;
        taken = λ _ _ _. dropped;
      }

  pub on_connected-IsAccountable : s.task ≡ connecting p k → IsAccountable (on_connected p k s)
  unfolding on_connected
  on_connected-IsAccountable i = elim (Bool-cases (s.destroyed || not (is_adapter s.adapter k))) [
    | inl b ↦ simp b (clean_up-IsAccountable (IsHeld-task s v i))
    | inr b ↦
        simp b (moves_on s v (publishing p k) (IsHeld-task s v i) (λ _ d _. absurd (ground arith)))
  ]
