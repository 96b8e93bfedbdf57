-- ===== src/Manager/Teardown.antt =====
-- enhancements/0001-zigbee-ember/src/ManagerZigbeeEmber.mts: `teardownZigbee`, `onZigbeeDestroy`,
-- `abortControllerSessions`, `onUninit` and `resetNetwork`, as what each calls in its order. How
-- the awaited calls end is a parameter; the flags that they set are those of Manager/Lifecycle.antt.
pub mod Ended
use homey_shs_enhanced.Manager.State.{ControllerState}
use homey_shs_enhanced.Prelude.{
  not, ℕ, Bool, Result, Option, List, [], true, false, none, some, ok, err, ◌∷◌, ◌++◌, ◌&&◌,
}

-- A call that the manager makes; `aborts_pairing` and `aborts_interview` are the callbacks that
-- Homey's core keeps.
pub data ManagerCall : Type 0 where
  aborts_pairing aborts_interview : ManagerCall
  local_destroy : ManagerCall
  suppress_backup : ManagerCall
  controller_destroy : ManagerCall
  base_zigbee_destroy : ManagerCall
  aborts_lifecycle : ManagerCall
  settles_loop : ManagerCall
  base_uninit : ManagerCall
  sets_reset_channel : Option ℕ → ManagerCall
  base_reset_network : ManagerCall
  publishes_state : ControllerState → ManagerCall
  satellites_rejoin : ManagerCall
  recovers : ManagerCall

abbrev pub Calls : Type 0
Calls = List ManagerCall × Result (Unit {0})

-- A call that ends so, and what follows unless it threw.
abbrev pub call : ManagerCall → Result (Unit {0}) → Calls → Calls
call c (err e) later = (c ∷ [], err e)
call c (ok _) (cs, r) = (c ∷ cs, r)

-- A call whose error is only logged.
abbrev pub call_anyway : ManagerCall → Calls → Calls
call_anyway c (cs, r) = (c ∷ cs, r)

-- The two callbacks, `none` for `null`, by how they end if they are called.
pub record Sessions : Type 0 where
  pub add_node : Option (Result (Unit {0}))
  pub interview_node : Option (Result (Unit {0}))

abbrev pub no_sessions : Sessions
no_sessions = record { add_node = none; interview_node = none }

-- `abort?.()`, in a `try` block.
abbrev pub abort_session : ManagerCall → Option (Result (Unit {0})) → List ManagerCall
abort_session c none = []
abort_session c (some r) = c ∷ []

unfoldable pub abort_controller_sessions : Sessions → Sessions × List ManagerCall
abort_controller_sessions s = (
  no_sessions,
  abort_session aborts_pairing s.add_node ++ abort_session aborts_interview s.interview_node,
)

-- How the awaited calls end; `controller`: there is one.
pub record TeardownEnds : Type 0 where
  pub local : Result (Unit {0})
  pub controller : Bool
  pub inherited : Result (Unit {0})

-- `this.controller?.destroy().catch(...)`.
abbrev pub destroy_controller : Bool → Calls → Calls
destroy_controller false later = later
destroy_controller true later = call_anyway controller_destroy later

abbrev pub suppress_if : Bool → Calls → Calls
suppress_if false later = later
suppress_if true later = call_anyway suppress_backup later

unfoldable pub teardown_zigbee : Bool → TeardownEnds → Sessions → Sessions × Calls
teardown_zigbee backup ends s =
    let (s', aborts) = abort_controller_sessions s in
    let (calls, r) = call local_destroy ends.local (
      suppress_if (not backup && ends.controller) (
        destroy_controller ends.controller
          (call base_zigbee_destroy ends.inherited ([], ok tt)))) in
    (s', (aborts ++ calls, r))

unfoldable pub on_zigbee_destroy : TeardownEnds → Sessions → Sessions × Calls
on_zigbee_destroy ends s = teardown_zigbee true ends s

-- After a part that has ended, what follows unless it threw.
abbrev pub go_on : Calls → Calls → Calls
go_on (cs, err e) later = (cs, err e)
go_on (cs, ok _) (ds, r) = (cs ++ ds, r)

-- `onUninit`: the last backup is made if the coordinator was ready.
unfoldable pub uninit : Bool → TeardownEnds → Result (Unit {0}) → Sessions → Sessions × Calls
uninit zigbee_ready ends inherited s =
    let (s', torn) = teardown_zigbee zigbee_ready ends s in
    (
      s',
      call_anyway aborts_lifecycle
          (go_on torn (call_anyway settles_loop (call base_uninit inherited ([], ok tt)))),
    )

abbrev pub publish_if : Option ControllerState → Result (Unit {0}) → Calls → Calls
publish_if none published later = later
publish_if (some state) published later = call (publishes_state state) published later

-- `catch` and `finally`: what is called after an error.
abbrev pub recover_if : Calls → Calls
recover_if (cs, ok u) = (cs, ok u)
recover_if (cs, err e) = (cs ++ recovers ∷ [], err e)

-- `resetNetwork`, from `setNextResetChannel` on, which gives `channel_set`. `state`: what
-- `parseControllerState` makes of the controller's settings.
unfoldable pub reset_network_calls :
    Option ℕ
    → Result (Unit {0})
    → Result (Unit {0})
    → Option ControllerState
    → Result (Unit {0})
    → Calls
reset_network_calls channel channel_set inherited state published =
    call (sets_reset_channel channel) channel_set (
      recover_if (
        call base_reset_network inherited
          (publish_if state published (call_anyway satellites_rejoin ([], ok tt)))))
