-- ===== src/Manager/StartLoop.antt =====
-- enhancements/0001-zigbee-ember/src/ManagerZigbeeEmber.mts: `runStartLoop`, which creates
-- controllers until one starts.
pub mod Retries
pub mod Alone
use homey_shs_enhanced.DeviceErrors.{describe_adapter_error}
use homey_shs_enhanced.Manager.State.{parse_controller_state, Manager}
use homey_shs_enhanced.Json.{Value}
use homey_shs_enhanced.Backoff.{
  resolved, rejected, jitter_backoff_ms, next_backoff_ms, Settled, Doubles,
}
use homey_shs_enhanced.Prelude.{
  List, Thrown, Text, Option, Result, Bool, ℕ, [], zero, suc, false, none, some, ok, err,
  if◌then◌else◌, ◌∷◌, ◌==◌, ◌++◌,
}

-- What one turn of the loop finds. `stopped...` is `signal.aborted || this.stopping` where it is
-- read; the other fields are how the awaited calls end.
pub record Attempt (Double : Type 0) : Type 0 where
  pub stopped : Bool
  pub nodes_set : Result (Unit {0})
  pub started : Result (Unit {0})
  pub stopped_after_start : Bool
  pub destroyed : Result (Unit {0})
  pub network_settings : Value
  pub made_ready : Result (Unit {0})
  -- `this.zigbee_ready`, which Homey's `onZigbeeReady` sets.
  pub ready_then : Bool
  -- Stopped, or `this.controller !== controller`.
  pub stopped_after_ready : Bool
  -- `this.controller` in the `catch` block.
  pub controller_then : Option ℕ
  pub stopped_after_failure : Bool
  pub random : Double
  -- How `waitForDelay` is settled.
  pub waited : Settled

-- What the loop does, in its order; log messages are left out. `announces` is the call of
-- `setCurrentCommand`, and `waits` that of `waitForDelay`.
pub data Effect : Type 0 where
  creates starts suppresses destroys resolves waits : ℕ → Effect
  announces : Effect

pub data Ended : Type 0 where
  returned retries : Ended

-- `this.controller = null`, if it is the attempt's own.
abbrev pub drop_controller : ℕ → Option ℕ → Option ℕ
drop_controller k none = none
drop_controller k (some c) = if c == k then none else some c

-- What a turn leaves, and the turns after it if the loop goes on.
abbrev pub after :
    Manager × List Effect × Ended
    → (Manager → Manager × List Effect × Ended)
    → Manager × List Effect × Ended
after (m, effects, returned) next = (m, effects, returned)
after (m, effects, retries) next = let (m', later, end) = next m in (m', effects ++ later, end)

module _ (d : Doubles) (assert_network_configuration : Value → Result (Unit {0}))
    (device : Text) where
  open d use {Double}

  -- The `try` block, for controller `k`: `ok` when it returns.
  unfoldable pub try_block :
      ℕ → Attempt Double → Manager → Manager × List Effect × Result (Unit {0})
  try_block k a m = elim a.nodes_set [
    | err e ↦ (m, [], err e)
    | ok _ ↦ elim a.started [
      | err e ↦ (m, starts k ∷ [], err e)
      | ok _ ↦
          if a.stopped_after_start
          then (m, starts k ∷ suppresses k ∷ destroys k ∷ [], a.destroyed)
          else (let m' : Manager = record m {
            zigbee_ready = a.ready_then;
            zigbee_error = none;
            controller_state =
                parse_controller_state assert_network_configuration a.network_settings;
          } in
              elim a.made_ready [
                | err e ↦ (m', starts k ∷ [], err e)
                | ok _ ↦ (
                  m',
                  if a.stopped_after_ready then starts k ∷ [] else starts k ∷ resolves k ∷ [],
                  ok tt,
                )
              ])
    ]
  ]

  -- The `catch` block, for the error `e`.
  unfoldable pub catch_block :
      ℕ → ℕ → Attempt Double → Thrown → Manager → Manager × List Effect × Ended
  catch_block k retry_ms a e m =
      let m' = record m { controller = drop_controller k a.controller_then } in
      if a.stopped_after_failure then (m', suppresses k ∷ destroys k ∷ [], returned) else (
        record m' { zigbee_ready = false; zigbee_error = some (describe_adapter_error e device) },
        suppresses k ∷ destroys k ∷ announces ∷ waits (jitter_backoff_ms d retry_ms a.random) ∷ [],
        elim a.waited [ resolved ↦ retries | rejected _ ↦ returned ],
      )

  -- One turn of the loop.
  unfoldable pub attempt : ℕ → ℕ → Attempt Double → Manager → Manager × List Effect × Ended
  attempt k retry_ms a m =
      let (m', tried, r) = try_block k a (record m { controller = some k }) in
      elim r [
        | ok _ ↦ (m', creates k ∷ tried, returned)
        | err e ↦
            let (m'', caught, end) = catch_block k retry_ms a e m' in
            (m'', creates k ∷ tried ++ caught, end)
      ]

  -- The first `fuel` turns, from turn `k` on: `retries` when the loop still runs.
  unfoldable pub run_start_loop :
      ℕ → (ℕ → Attempt Double) → ℕ → ℕ → Manager → Manager × List Effect × Ended
  run_start_loop zero attempts k retry_ms m = (m, [], retries)
  run_start_loop (suc fuel) attempts k retry_ms m =
      if (attempts k).stopped
      then (m, [], returned)
      else after (attempt k retry_ms (attempts k) m)
          λ m'. run_start_loop fuel attempts (suc k) (next_backoff_ms retry_ms) m'
