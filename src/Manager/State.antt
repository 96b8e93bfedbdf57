-- ===== src/Manager/State.antt =====
-- enhancements/0001-zigbee-ember/src/ManagerZigbeeEmber.mts: the manager's fields and
-- `parseControllerState`. Homey's `assertNetworkConfiguration` is a parameter.
use homey_shs_enhanced.Json.{str_value, property, Value}
use homey_shs_enhanced.Prelude.{text, Bool, Result, ℕ, Option, Text, none, some, ok, err}

pub record ControllerState : Type 0 where
  pub ieee_address : Text
  pub pan_id : Value
  pub extended_pan_id : Value
  pub network_key : Value
  pub channel : Value
  pub network_key_sequence_number : Value
  pub network_key_frame_counter : Value
  pub software_version : Text

-- The fields that the start loop reads or writes; a controller is named by its number.
pub record Manager : Type 0 where
  pub controller : Option ℕ
  pub zigbee_ready : Bool
  pub zigbee_error : Option Text
  pub controller_state : Option ControllerState

abbrev pub state_of : Value → Value → Value → Option ControllerState
state_of state (str_value ieee_address) (str_value software_version) = some (record {
  ieee_address = ieee_address;
  pan_id = property state (text "panId");
  extended_pan_id = property state (text "extendedPanId");
  network_key = property state (text "networkKey");
  channel = property state (text "channel");
  network_key_sequence_number = property state (text "networkKeySequenceNumber");
  network_key_frame_counter = property state (text "networkKeyFrameCounter");
  software_version = software_version;
})
state_of state _ _ = none

unfoldable pub parse_controller_state : (Value → Result (Unit {0})) → Value → Option ControllerState
parse_controller_state assert_network_configuration state =
    elim (assert_network_configuration state) [
      | err e ↦ none
      | ok _ ↦
          state_of state (property state (text "IEEEAddress"))
            (property state (text "softwareVersion"))
    ]
