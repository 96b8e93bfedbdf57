-- ===== src/Controller/Radio/Accounts.antt =====
-- enhancements/0001-zigbee-ember/src/HomeyEmberController.mts: the invariant of the adapters'
-- lives.

use homey_shs_enhanced.Controller.Radio.{
  unstarted, storing, grouping, idle, loading, cleaning, publishing, gone, stopping_old, connecting,
  saving, alive, stopping_adapter, Task, Radio, constructed, Teardown,
}
use homey_shs_enhanced.Prelude.{
  ℕ, arith, Bool, Option, List, refl, [], true, false, none, some, ◌∷◌, ◌≡◌, ◌||◌, ◌==◌, ◌<◌, ◌⊎◌,
}

abbrev pub is_stopped : List ℕ → ℕ → Bool
is_stopped [] k = false
is_stopped (j ∷ js) k = j == k || is_stopped js k

-- What the adapter is while the task waits there, unless `_destroy` took it.
abbrev pub IsHeld : Task → Option ℕ → Type 0
IsHeld unstarted a = a ≡ none
IsHeld idle a = Unit
IsHeld grouping a = Unit
IsHeld (saving p) a = Unit
IsHeld (cleaning p k) a = a ≡ none
IsHeld (stopping_old c) a = a ≡ none
IsHeld loading a = a ≡ none
IsHeld (storing c) a = a ≡ none
IsHeld (connecting p k) a = (a ≡ none) ⊎ (a ≡ some k)
IsHeld (publishing p k) a = (a ≡ none) ⊎ (a ≡ some k)

abbrev pub is_connecting : Task → Bool
is_connecting (connecting p k) = true
is_connecting _ = false

abbrev pub is_taken : Teardown → Bool
is_taken stopping_adapter = true
is_taken gone = true
is_taken _ = false

abbrev pub is_alive : Teardown → Bool
is_alive alive = true
is_alive _ = false

pub record IsAccountable (s : Radio) : Type 0 where
  -- Every adapter made is the controller's, or was stopped.
  pub accounted : (k : ℕ) → k < s.made → (is_stopped s.stopped k ≡ true) ⊎ (s.adapter ≡ some k)
  pub held : IsHeld s.task s.adapter
  -- Once `_destroy` has taken the adapter, and if no `start` has come after it, there is none but
  -- one that connects.
  pub taken :
      is_taken s.teardown ≡ true
      → s.destroyed ≡ true
      → is_connecting s.task ≡ false
      → s.adapter ≡ none

pub constructed-IsAccountable : IsAccountable constructed
constructed-IsAccountable = record {
  accounted = λ k l. absurd (omega arith);
  held = refl;
  taken = λ a d b. refl;
}
