-- ===== src/Backoff.antt =====
-- enhancements/0001-zigbee-ember/src/backoff.mts: the delays between two attempts to start the
-- coordinator, and the wait that an abort interrupts.
pub mod Schedule
pub mod Wait
use homey_shs_enhanced.Prelude.{
  [], ◌∷◌, if◌then◌else◌, List, ℕ, ◌*◌, ◌≤◌, min, max, Thrown, Option, none, some, Bool, true,
  false,
}

abbrev pub retry_initial_ms : ℕ
retry_initial_ms = 2_000

abbrev pub retry_max_ms : ℕ
retry_max_ms = 60_000

unfoldable pub next_backoff_ms : ℕ → ℕ
next_backoff_ms current_ms = min (max current_ms retry_initial_ms * 2) retry_max_ms

-- The non-negative doubles that `jitterBackoffMs` computes with. IEEE addition and multiplication
-- round to nearest, so they are monotone, and so is `Math.round`.
pub record Doubles : Type 1 where
  pub Double : Type 0
  pub from_int : ℕ → Double
  pub plus : Double → Double → Double
  pub times : Double → Double → Double
  pub round : Double → ℕ
  pub zero_point_eight : Double
  pub zero_point_four : Double
  pub Le : Double → Double → Type 0
  pub plus_mono : (a b c : Double) → Le b c → Le (plus a b) (plus a c)
  pub times_mono_left : (a b c : Double) → Le a b → Le (times a c) (times b c)
  pub times_mono_right : (a b c : Double) → Le b c → Le (times a b) (times a c)
  pub round_mono : (a b : Double) → Le a b → round a ≤ round b

module _ (d : Doubles) where
  open d use {Double, from_int, plus, times, round, zero_point_eight, zero_point_four}

  -- `random` is the value that the call of `Math.random` returns.
  unfoldable pub jitter_backoff_ms : ℕ → Double → ℕ
  jitter_backoff_ms delay_ms random =
      let factor = plus zero_point_eight (times random zero_point_four) in
      min (round (times (from_int delay_ms) factor)) retry_max_ms

-- How a promise is settled: `reject` carries the reason.
pub data Settled : Type 0 where
  resolved : Settled
  rejected : Thrown → Settled

-- A call of `waitForDelay`: whether its timer is armed, whether its abort listener is attached, and
-- how its promise is settled.
pub record Waiter : Type 0 where
  pub armed : Bool
  pub listening : Bool
  pub outcome : Option Settled

-- The signal that a caller passes: none, one that is not aborted, or one aborted with a reason.
pub data Signal : Type 0 where
  no_signal live_signal : Signal
  aborted_signal : Thrown → Signal

pub data WaitEvent : Type 0 where
  timer_fires : WaitEvent
  signal_aborts : Thrown → WaitEvent

unfoldable pub wait_for_delay : Signal → Waiter
wait_for_delay no_signal = record { armed = true; listening = false; outcome = none }
wait_for_delay live_signal = record { armed = true; listening = true; outcome = none }
wait_for_delay (aborted_signal reason) = record {
  armed = false;
  listening = false;
  outcome = some (rejected reason);
}

-- A promise keeps its first settlement.
unfoldable pub settle : Option Settled → Settled → Option Settled
settle none s = some s
settle (some s) _ = some s

-- The callbacks of the timer and of the listener; one that is not in place does not run.
unfoldable pub wait_step : Waiter → WaitEvent → Waiter
unfolding settle
wait_step w timer_fires =
    if w.armed
    then record { armed = false; listening = false; outcome = settle w.outcome resolved }
    else w
wait_step w (signal_aborts reason) =
    if w.listening
    then record { armed = false; listening = false; outcome = settle w.outcome (rejected reason) }
    else w

unfoldable pub wait_run : Waiter → List WaitEvent → Waiter
wait_run w [] = w
wait_run w (e ∷ es) = wait_run (wait_step w e) es
