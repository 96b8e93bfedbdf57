-- ===== src/Backoff/Wait.antt =====
-- enhancements/0001-zigbee-ember/src/backoff.mts: the end of an interruptible wait.
use homey_shs_enhanced.Prelude.{some, Thrown, false, refl, [], ◌∷◌, ◌≡◌, List}
use homey_shs_enhanced.Backoff.{
  Waiter, WaitEvent, timer_fires, signal_aborts, wait_for_delay, wait_step, wait_run, Settled,
  resolved, rejected, live_signal, aborted_signal,
}

abbrev pub verdict : WaitEvent → Settled
verdict timer_fires = resolved
verdict (signal_aborts reason) = rejected reason

abbrev pub done : Settled → Waiter
done s = record { armed = false; listening = false; outcome = some s }

pub wait_run-done : (s : Settled) (es : List WaitEvent) → wait_run (done s) es ≡ done s
unfolding wait_run wait_step
wait_run-done s [] = refl
wait_run-done s (timer_fires ∷ es) = wait_run-done s es
wait_run-done s (signal_aborts _ ∷ es) = wait_run-done s es

-- Of a timer and an abort, the first that comes settles the wait: it resolves on the timer and
-- rejects with the abort's reason. Neither the timer nor the listener is left, and whatever comes
-- later changes nothing. A wait on an aborted signal is rejected before either is in place.
pub wait_first :
    (e : WaitEvent) (es : List WaitEvent) (reason : Thrown)
    → (wait_run (wait_for_delay live_signal) (e ∷ es) ≡ done (verdict e))
      × (wait_run (wait_for_delay (aborted_signal reason)) es ≡ done (rejected reason))
unfolding wait_run wait_step wait_for_delay
wait_first timer_fires es reason = (wait_run-done _ es, wait_run-done _ es)
wait_first (signal_aborts _) es reason = (wait_run-done _ es, wait_run-done _ es)
