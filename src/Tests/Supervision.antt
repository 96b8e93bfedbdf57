-- ===== src/Tests/Supervision.antt =====
-- The manager's loops at concrete inputs.
use homey_shs_enhanced.Manager.Teardown.Ended.{
  teardown_zigbee-ends, calls_made, IsLive, IsDestroyed, calls_on,
}
use homey_shs_enhanced.Controller.Radio.{Radio}
use homey_shs_enhanced.Manager.Teardown.{
  suppress_backup, controller_destroy, aborts_interview, aborts_pairing, no_sessions, Sessions,
  TeardownEnds, teardown_zigbee,
}
use homey_shs_enhanced.Manager.Bindings.{endpoints_of, is_trust_remote, Endpoint, create_bindings}
use homey_shs_enhanced.Manager.Bindings.Calls.{create_bindings-calls, sends_from, asks}
use homey_shs_enhanced.Manager.Lifecycle.Steps.{run-one_loop}
use homey_shs_enhanced.Manager.StartLoop.Alone.{run_start_loop-is_alone, is_alone}
use homey_shs_enhanced.Manager.Lifecycle.Supervised.{live_loops}
use homey_shs_enhanced.Backoff.{resolved, retry_initial_ms}
use homey_shs_enhanced.Tests.Codecs.{tenths}
use homey_shs_enhanced.Manager.State.{Manager}
use homey_shs_enhanced.Manager.Lifecycle.Restart.{run-restarts, IsHealthy, IsRestarted}
use homey_shs_enhanced.Manager.StartLoop.Retries.{
  run_start_loop-connects, connection_effects, connected, IsSuccess, IsFailure,
}
use homey_shs_enhanced.Json.{null_value, Value}
use homey_shs_enhanced.Manager.StartLoop.{returned, Attempt, run_start_loop}
use homey_shs_enhanced.Manager.Lifecycle.{
  announced, shuts_down, torn_down, readiness, loop_ends, disconnected, initialised, Event, step,
  run,
}
use homey_shs_enhanced.Prelude.{
  Bool, not, Option, ◌&&◌, ◌||◌, ◌==◌, length, map, arith, Result, text, ltb, system_error, Text, ℕ,
  List, Thrown, [], refl, true, false, none, some, ok, err, inl, inr, ◌++◌, ◌<◌, ◌≤◌, ◌≡◌,
  if◌then◌else◌, ◌∷◌,
}

abbrev accept : Value → Result (Unit {0})
accept state = ok tt

abbrev dongle : Text
dongle = text "/dev/zigbee"

abbrev no_device : Thrown
no_device = system_error (text "ENOENT") (text "no such file")

-- An attempt that finds no device.
abbrev missing : Attempt ℕ
missing = record {
  stopped = false;
  nodes_set = ok tt;
  started = err no_device;
  stopped_after_start = false;
  destroyed = ok tt;
  network_settings = null_value;
  made_ready = ok tt;
  ready_then = false;
  stopped_after_ready = false;
  controller_then = some 0;
  stopped_after_failure = false;
  random = 5;
  waited = resolved;
}

abbrev present : Attempt ℕ
present = record missing { started = ok tt; ready_then = true }

-- The device is plugged in during the third wait.
abbrev plugged_in : ℕ → Attempt ℕ
plugged_in k = if ltb k 3 then missing else present

abbrev idle_manager : Manager
idle_manager = record {
  controller = none;
  zigbee_ready = false;
  zigbee_error = none;
  controller_state = none;
}

missing-IsFailure : IsFailure missing
missing-IsFailure = record {
  running = refl;
  cause = no_device;
  failed = inr (inl (refl, refl));
  running_still = refl;
  waited_out = refl;
}

plugged_in-IsFailure : (j : ℕ) → j < 3 → IsFailure (plugged_in j)
plugged_in-IsFailure j h = let early : ltb j 3 ≡ true = ground arith in simp early missing-IsFailure

present-IsSuccess : IsSuccess present
present-IsSuccess = record {
  running = refl;
  nodes = refl;
  start = refl;
  running_then = refl;
  ready = refl;
  running_still = refl;
}

run_start_loop-connects_example :
    run_start_loop tenths accept dongle 10 plugged_in 0 retry_initial_ms idle_manager ≡ (
      connected tenths accept dongle 3 present,
      connection_effects tenths accept dongle 3 plugged_in 0,
      returned,
    )
run_start_loop-connects_example =
    run_start_loop-connects tenths accept dongle 3 10 plugged_in idle_manager (omega arith)
      plugged_in-IsFailure present-IsSuccess

run_start_loop-is_alone_example :
    let (m', effects, end) =
      run_start_loop tenths accept dongle 10 plugged_in 0 retry_initial_ms idle_manager in
    is_alone none effects ≡ true
run_start_loop-is_alone_example =
    run_start_loop-is_alone tenths accept dongle 10 plugged_in 0 retry_initial_ms idle_manager

-- A disconnect that the shutdown overtakes.
abbrev overtaken : List Event
overtaken =
    loop_ends 0
    ∷ readiness true
    ∷ disconnected true
    ∷ torn_down 0 true
    ∷ shuts_down
    ∷ announced 0 true
    ∷ []

run-one_loop_example :
    let s = run initialised overtaken in
    (live_loops s ≤ 1)
    × (s.recovering ≡ true → live_loops s ≡ 0)
    × (s.stopping ≡ true → live_loops s ≡ 0)
    × (length s.recoveries ≡ (if s.recovering then 1 else 0))
run-one_loop_example = run-one_loop overtaken

abbrev started_up : List Event
started_up = loop_ends 0 ∷ readiness true ∷ []

started_up-IsHealthy : IsHealthy (run initialised started_up)
unfolding run step
started_up-IsHealthy = record {
  ready = refl;
  not_recovering = refl;
  not_resetting = refl;
  not_stopping = refl;
}

run-restarts_example : IsRestarted (run initialised started_up) (
    run (run initialised started_up) (
      disconnected true ∷ map disconnected (true ∷ false ∷ [])
      ++ (torn_down 0 true ∷ announced 0 true ∷ [])))
run-restarts_example = run-restarts started_up (true ∷ false ∷ []) started_up-IsHealthy

-- A remote of two endpoints, of which one sends On/Off.
abbrev remote : Option (List Endpoint)
remote = some (
    record { endpoint_id = 1; output_clusters = 0 ∷ 6 ∷ [] }
    ∷ record { endpoint_id = 2; output_clusters = 5 ∷ [] }
    ∷ [])

create_bindings-calls_example :
    (asks (1, 6) (create_bindings (ok tt) (text "{}") (ok remote)).0 ≡ (
      not (is_trust_remote (text "{}"))
      && ((6 == 6 || 6 == 8) && sends_from (endpoints_of remote) 1 6)))
    × (create_bindings (err no_device) (text "{}") (ok remote) ≡ ([], err no_device))
create_bindings-calls_example = create_bindings-calls (text "{}") remote 1 6 no_device

-- A pairing whose callback throws, with a controller that was not ready.
abbrev torn : TeardownEnds
torn = record { local = ok tt; controller = true; inherited = ok tt }

abbrev pairing : Sessions
pairing = record { add_node = some (err no_device); interview_node = none }

teardown_zigbee-ends_example :
    let (s', (calls, r)) = teardown_zigbee false torn pairing in
    (s' ≡ no_sessions)
    × (calls_made aborts_pairing calls ≡ 1)
    × (calls_made aborts_interview calls ≡ 0)
    × (Path (Result (Unit {0})) (ok tt) (ok tt)
        → (calls_made controller_destroy calls ≡ 1)
          × (calls_made suppress_backup calls ≡ 1)
          × (r ≡ ok tt)
          × (Path Bool true true
              → (radio : Radio) → IsLive radio
              → IsDestroyed false (calls_on calls radio)))
    × ((e : Thrown)
        → Path (Result (Unit {0})) (ok tt) (err e)
        → (calls_made controller_destroy calls ≡ 0) × (r ≡ err e))
teardown_zigbee-ends_example = teardown_zigbee-ends false torn pairing
