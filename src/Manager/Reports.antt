-- ===== src/Manager/Reports.antt =====
-- enhancements/0001-zigbee-ember/src/ManagerZigbeeEmber.mts: what the manager reports and sets up
-- (`createController`, `demoteLegacyBridgeControllerFlags`, `getState`, `getStateNodes`,
-- `onControllerNodeUpdate`, and the message of a disconnect). Homey's own answers are parameters.
pub mod Nodes
use homey_shs_enhanced.Json.{Value, decimal}
use homey_shs_enhanced.Manager.State.{ControllerState}
use homey_shs_enhanced.Controller.Options.{DeviceOptions}
use homey_shs_enhanced.Prelude.{
  text, ◌>>=◌, text_eq, or_default, ℕ, List, Bool, Text, Option, Result, [], true, false, none,
  some, ok, err, ◌==◌, ◌∷◌, ◌++◌, if◌then◌else◌,
}

-- The part of config.mts that the manager reads.
pub record EmberConfig : Type 0 where
  pub device : Text
  pub baudrate : ℕ
  pub rtscts : Bool
  pub channel : ℕ
  pub tx_power : Option Value

-- The options of a new controller, and its initial channel.
unfoldable pub create_controller : EmberConfig → DeviceOptions × ℕ
create_controller config = (
  record {
    device = config.device;
    baud_rate = config.baudrate;
    rtscts = config.rtscts;
    transmit_power = config.tx_power;
  },
  config.channel,
)

-- The details of a disconnect; `error`: the `String(...)` of the error.
pub record Disconnect : Type 0 where
  pub status : Option ℕ
  pub status_name : Option Text
  pub error : Option Text

abbrev pub status_text : Option ℕ → Option Text
status_text none = none
status_text (some n) = some (decimal n)

-- `statusName ?? status ?? error ?? 'unknown status'`.
unfoldable pub disconnect_error : Disconnect → Text
disconnect_error d =
    let detail =
      or_default d.status_name
        (or_default (status_text d.status) (or_default d.error (text "unknown status"))) in
    text "The Ember coordinator disconnected (" ++ (detail ++ text "). Retrying.")

-- `flags.splice(flags.indexOf(flag), 1)`, where the flag is found.
abbrev pub remove_flag : ℕ → List ℕ → List ℕ
remove_flag flag [] = []
remove_flag flag (f ∷ fs) = if f == flag then fs else f ∷ remove_flag flag fs

-- The flags of each bridge.
unfoldable pub demote_bridges : ℕ → List (List ℕ) → List (List ℕ)
demote_bridges flag [] = []
demote_bridges flag (fs ∷ bridges) = remove_flag flag fs ∷ demote_bridges flag bridges

-- A node of the report, by its address; the coordinator's own fields are fixed.
pub data StateNode (N : Type 0) : Type 0 where
  coordinator_node : Text → StateNode N
  other_node : N → StateNode N

abbrev pub StateNodes : Type 0 → Type 0
StateNodes N = List (Text × StateNode N)

module _ {N : Type 0} where
  -- `stateNodes[key] = node`.
  abbrev pub put_node : Text → StateNode N → StateNodes N → StateNodes N
  put_node key node [] = (key, node) ∷ []
  put_node key node ((k, n) ∷ ns) =
      let rest = put_node key node ns in if text_eq k key then (k, node) ∷ ns else (k, n) ∷ rest

  abbrev pub get_node_at : Text → StateNodes N → Option (StateNode N)
  get_node_at key [] = none
  get_node_at key ((k, n) ∷ ns) = if text_eq k key then some n else get_node_at key ns

  abbrev pub put_truthy : Text → StateNodes N → StateNodes N
  put_truthy [] ns = ns
  put_truthy (c ∷ s) ns = put_node (c ∷ s) (coordinator_node (c ∷ s)) ns

  -- `if (controllerState?.IEEEAddress)`, where the empty text is false.
  abbrev pub with_coordinator : Option ControllerState → StateNodes N → StateNodes N
  with_coordinator none ns = ns
  with_coordinator (some state) ns = put_truthy state.ieee_address ns

  -- `satellites`: `addStateNodesBridgeSatellites`.
  unfoldable pub get_state_nodes :
      Result (StateNodes N)
      → Option ControllerState
      → (StateNodes N → Result (StateNodes N))
      → Result (StateNodes N)
  get_state_nodes inherited state satellites =
      inherited >>= λ ns. satellites (with_coordinator state ns)

-- `state.availability.zigbee`.
pub data Availability : Type 0 where
  available unavailable : Availability

unfoldable pub zigbee_availability : Bool → Availability
zigbee_availability ready = if ready then available else unavailable

-- `onControllerNodeUpdate`: is the base class called? `local`: whether Homey's local part took the
-- update, or its error.
unfoldable pub on_controller_node_update :
    Result Bool → Result (Unit {0}) → Bool × Result (Unit {0})
on_controller_node_update (err e) inherited = (false, err e)
on_controller_node_update (ok true) inherited = (false, ok tt)
on_controller_node_update (ok false) inherited = (true, inherited)
