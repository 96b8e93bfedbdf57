-- ===== src/Driver/Lock.antt =====
-- enhancements/0001-zigbee-ember/src/homey-ember.cjs: `withMulticastLock`, a chain of promises that
-- lets one operation on the multicast table run at a time.
pub mod Tickets
pub mod Exclusion
use homey_shs_enhanced.Prelude.{
  ltb, leb, ℕ, Bool, List, [], suc, true, false, ◌||◌, ◌∷◌, ◌&&◌, if◌then◌else◌, ◌==◌,
}

-- Where a call waits: for `previous`, for its operation, or no more.
pub data LockPhase : Type 0 where
  waiting running released : LockPhase

-- Promises are numbered as they are made, from 1 on; number 0 is that of the constructor, which is
-- resolved. A call makes the promise of its own number, and `previous` and `phase` are those of the
-- call of a number. `tail` is `homeyMulticastTail`.
pub record Chain : Type 0 where
  pub tail : ℕ
  pub made : ℕ
  pub previous : ℕ → ℕ
  pub phase : ℕ → LockPhase

abbrev pub unlocked : Chain
unlocked = record { tail = 0; made = 0; previous = λ k. 0; phase = λ k. waiting }

abbrev pub put {ℓ} : {A : Type ℓ} → (ℕ → A) → ℕ → A → ℕ → A
put f i a j = if i == j then a else f j

abbrev pub is_waiting : LockPhase → Bool
is_waiting waiting = true
is_waiting _ = false

abbrev pub is_running : LockPhase → Bool
is_running running = true
is_running _ = false

abbrev pub is_released : LockPhase → Bool
is_released released = true
is_released _ = false

-- `release` is called when the operation has settled, and resolves the call's promise.
unfoldable pub is_resolved : Chain → ℕ → Bool
is_resolved s p = p == 0 || (leb p s.made && is_released (s.phase p))

-- A call, up to `await previous`.
unfoldable pub enter : Chain → Chain
enter s = record {
  tail = suc s.made;
  made = suc s.made;
  previous = put s.previous (suc s.made) s.tail;
  phase = put s.phase (suc s.made) waiting;
}

-- `begins`: call `k` goes on after `await previous`. `settles`: its operation returns or throws.
pub data LockEvent : Type 0 where
  enters : LockEvent
  begins operation_settles : ℕ → LockEvent

unfoldable pub begin : ℕ → Chain → Chain
begin k s =
    if ltb 0 k && leb k s.made && is_waiting (s.phase k) && is_resolved s (s.previous k)
    then record s { phase = put s.phase k running }
    else s

unfoldable pub release : ℕ → Chain → Chain
release k s =
    if ltb 0 k && leb k s.made && is_running (s.phase k)
    then record s { phase = put s.phase k released }
    else s

unfoldable pub lock_step : Chain → LockEvent → Chain
lock_step s enters = enter s
lock_step s (begins k) = begin k s
lock_step s (operation_settles k) = release k s

unfoldable pub lock_run : Chain → List LockEvent → Chain
lock_run s [] = s
lock_run s (e ∷ es) = lock_run (lock_step s e) es
