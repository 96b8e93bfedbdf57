-- ===== src/Promises.antt =====
-- enhancements/0001-zigbee-ember/src/HomeyEmberController.mts and ManagerZigbeeEmber.mts: promises
-- that are raced against an abort signal or a timer (`withAbort`, `withTimeout`, `settleWithin`).
pub mod Races
use homey_shs_enhanced.Backoff.{live_signal, no_signal, aborted_signal, Signal}
use homey_shs_enhanced.Prelude.{
  type_error, text, timeout_error, plain_error, value_thrown, Text, ℕ, List, Result, Thrown, Option,
  Bool, [], true, false, none, some, ok, err, if◌then◌else◌, ◌∷◌, ◌++◌,
}

-- `signal.reason instanceof Error ? signal.reason : new Error(...)`; a reason that is no `Error` is
-- a `value_thrown`.
unfoldable pub abort_error : Thrown → Thrown
abort_error (value_thrown _) = plain_error (text "The Zigbee request was aborted")
abort_error (type_error m) = type_error m
abort_error e = e

-- A race that is on: whether its timer or its abort listener is in place, and how the promise that
-- the caller awaits is settled.
pub record Race (A : Type 0) : Type 0 where
  pub watching : Bool
  pub outcome : Option (Result A)

-- `settles`: the promise that is raced. `expires`: the timer fires. `aborts`: the signal aborts.
pub data RaceEvent (A : Type 0) : Type 0 where
  settles : Result A → RaceEvent A
  expires : RaceEvent A
  aborts : Thrown → RaceEvent A

unfoldable pub first_outcome {ℓ} : {B : Type ℓ} → Option B → B → Option B
first_outcome none b = some b
first_outcome (some a) b = some a

-- `withAbort(promise, signal)`: no signal, one that is aborted already, or one that may abort.
unfoldable pub with_abort : {A : Type 0} → Signal → Race A
with_abort no_signal = record { watching = false; outcome = none }
with_abort (aborted_signal reason) = record {
  watching = false;
  outcome = some (err (abort_error reason));
}
with_abort live_signal = record { watching = true; outcome = none }

-- The listener is attached with `once`, and `finally` detaches it.
unfoldable pub abort_step : {A : Type 0} → Race A → RaceEvent A → Race A
unfolding first_outcome
abort_step race (settles r) = record { watching = false; outcome = first_outcome race.outcome r }
abort_step race (aborts reason) =
    if race.watching
    then record {
      watching = false;
      outcome = first_outcome race.outcome (err (abort_error reason));
    }
    else race
abort_step race expires = race

-- `withTimeout(promise, timeoutMs, operation)`.
unfoldable pub with_timeout : {A : Type 0} → Race A
with_timeout = record { watching = true; outcome = none }

unfoldable pub timeout_step : {A : Type 0} → ℕ → Text → Race A → RaceEvent A → Race A
unfolding first_outcome
timeout_step ms operation race (settles r) = record {
  watching = false;
  outcome = first_outcome race.outcome r;
}
timeout_step ms operation race expires =
    if race.watching
    then record {
      watching = false;
      outcome =
          first_outcome race.outcome (err (timeout_error ms (operation ++ text " timed out")));
    }
    else race
timeout_step ms operation race (aborts _) = race

-- `settleWithin(promise, timeoutMs)`: `undefined` has nothing to wait for; a rejection counts as
-- settled.
unfoldable pub settle_within : Bool → Race (Unit {0})
settle_within true = record { watching = true; outcome = none }
settle_within false = record { watching = false; outcome = some (ok tt) }

unfoldable pub settle_within_step : Race (Unit {0}) → RaceEvent (Unit {0}) → Race (Unit {0})
unfolding first_outcome
settle_within_step race (settles r) = record {
  watching = false;
  outcome = first_outcome race.outcome (ok tt);
}
settle_within_step race expires =
    if race.watching
    then record { watching = false; outcome = first_outcome race.outcome (ok tt) }
    else race
settle_within_step race (aborts _) = race

unfoldable pub run_race :
    {A : Type 0} → (Race A → RaceEvent A → Race A) → Race A → List (RaceEvent A) → Race A
run_race step race [] = race
run_race step race (e ∷ es) = run_race step (step race e) es
