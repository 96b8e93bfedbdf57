-- ===== src/Manager/Lifecycle.antt =====
-- enhancements/0001-zigbee-ember/src/ManagerZigbeeEmber.mts: recovery from a disconnect, reset and
-- shutdown (`recoverFromDisconnect`, `onUninit`, `resetNetwork`, the `disconnected` handler), as
-- steps between two awaits. The start loop itself is in Manager/StartLoop.antt.
pub mod Supervised
pub mod Steps
pub mod Restart
use homey_shs_enhanced.Prelude.{
  Option, not, ℕ, List, Bool, [], zero, suc, true, false, none, some, ◌||◌, if◌then◌else◌, ◌∷◌,
}

-- Where a call of `recoverFromDisconnect` waits: for the teardown and the old loop, or for
-- `setCurrentCommand`.
pub data Phase : Type 0 where
  tearing_down announcing : Phase

-- `generation` numbers the `AbortController` that `lifecycleAbort` is; `aborted` are the aborted
-- ones, `loops` the start loops that run, each by its signal, and `recoveries` the calls of
-- `recoverFromDisconnect` that wait.
pub record Lifecycle : Type 0 where
  pub generation : ℕ
  pub aborted : List ℕ
  pub loops : List ℕ
  pub recoveries : List Phase
  pub recovering : Bool
  pub resetting : Bool
  pub stopping : Bool
  pub zigbee_ready : Bool
  -- `controllerStartPromise` is set.
  pub start_promise : Bool

-- `disconnected`: a controller disconnects; is it `this.controller`? `readiness`: Homey's base class
-- sets `zigbee_ready`. `torn_down` and `announced`: what the i-th recovery waits for succeeds or
-- fails. `loop_ends`: the i-th loop returns.
pub data Event : Type 0 where
  disconnected readiness : Bool → Event
  torn_down announced : ℕ → Bool → Event
  loop_ends : ℕ → Event
  shuts_down reset_begins reset_ends reset_fails : Event

abbrev pub remove_at : {A : Type 0} → ℕ → List A → List A
remove_at i [] = []
remove_at zero (x ∷ xs) = xs
remove_at (suc i) (x ∷ xs) = x ∷ remove_at i xs

abbrev pub phase_at : ℕ → List Phase → Option Phase
phase_at i [] = none
phase_at zero (p ∷ ps) = some p
phase_at (suc i) (p ∷ ps) = phase_at i ps

-- After `onInit`: the first loop runs under the first signal.
abbrev pub initialised : Lifecycle
initialised = record {
  generation = 1;
  aborted = [];
  loops = 1 ∷ [];
  recoveries = [];
  recovering = false;
  resetting = false;
  stopping = false;
  zigbee_ready = false;
  start_promise = true;
}

-- `recoverFromDisconnect` up to its first await.
unfoldable pub recover_from_disconnect : Lifecycle → Lifecycle
recover_from_disconnect s = if s.recovering || s.stopping || s.resetting then s else record s {
  aborted = s.generation ∷ s.aborted;
  recoveries = tearing_down ∷ s.recoveries;
  recovering = true;
  zigbee_ready = false;
  start_promise = false;
}

-- The `disconnected` handler of a controller.
unfoldable pub on_disconnected : Bool → Lifecycle → Lifecycle
on_disconnected current s =
    if s.stopping || s.resetting || not s.zigbee_ready || not current
    then s
    else recover_from_disconnect s

-- The end of recovery `i`, with `finally`.
abbrev pub end_recovery : ℕ → Lifecycle → Lifecycle
end_recovery i s = record s { recoveries = remove_at i s.recoveries; recovering = false }

-- From the teardown to the call of `setCurrentCommand`; `phase`: where recovery `i` waits.
abbrev pub resume_teardown : Option Phase → ℕ → Bool → Lifecycle → Lifecycle
resume_teardown none i succeeds s = s
resume_teardown (some announcing) i succeeds s = s
resume_teardown (some tearing_down) i succeeds s =
    if not succeeds || s.stopping then end_recovery i s else record s {
      generation = suc s.generation;
      recoveries = announcing ∷ remove_at i s.recoveries;
      start_promise = true;
    }

unfoldable pub on_torn_down : ℕ → Bool → Lifecycle → Lifecycle
on_torn_down i succeeds s = resume_teardown (phase_at i s.recoveries) i succeeds s

-- From `setCurrentCommand` on: the loop runs under the signal that `lifecycleAbort` has now.
abbrev pub resume_announcement : Option Phase → ℕ → Bool → Lifecycle → Lifecycle
resume_announcement none i succeeds s = s
resume_announcement (some tearing_down) i succeeds s = s
resume_announcement (some announcing) i succeeds s =
    if not succeeds
    then end_recovery i s
    else end_recovery i (record s { loops = s.generation ∷ s.loops })

unfoldable pub on_announced : ℕ → Bool → Lifecycle → Lifecycle
on_announced i succeeds s = resume_announcement (phase_at i s.recoveries) i succeeds s

-- `onUninit` up to its first await.
unfoldable pub on_uninit : Lifecycle → Lifecycle
on_uninit s = record s { stopping = true; aborted = s.generation ∷ s.aborted }

unfoldable pub step : Lifecycle → Event → Lifecycle
step s (disconnected current) = on_disconnected current s
step s (readiness ready) = record s { zigbee_ready = ready }
step s (torn_down i succeeds) = on_torn_down i succeeds s
step s (announced i succeeds) = on_announced i succeeds s
step s (loop_ends i) = record s { loops = remove_at i s.loops }
step s shuts_down = on_uninit s
step s reset_begins = record s { resetting = true }
step s reset_ends = record s { resetting = false }
step s reset_fails = recover_from_disconnect (record s { resetting = false })

unfoldable pub run : Lifecycle → List Event → Lifecycle
run s [] = s
run s (e ∷ es) = run (step s e) es
