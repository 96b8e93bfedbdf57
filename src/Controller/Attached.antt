-- ===== src/Controller/Attached.antt =====
-- enhancements/0001-zigbee-ember/src/HomeyEmberController.mts: `attachAdapterEvents`, which hands
-- the adapter's events to their handlers and forwards two of them, and `findIeeeAddress`.
-- The details of a status are herdsman's, `D`.
use homey_shs_enhanced.Controller.Events.{
  on_route_record, on_zdo_frame, on_device_leave, on_device_joined, ZdoFrame, on_zcl_payload,
  Action, ZclPayload,
}
use homey_shs_enhanced.Prelude.{Option, Bool, Text, Result, ℕ, List, none, some, ok, err}

pub data AdapterEvent (D : Type 0) : Type 0 where
  zcl_payload : ZclPayload → AdapterEvent D
  device_joined : Text → ℕ → AdapterEvent D
  device_leave : Option Text → Option ℕ → AdapterEvent D
  homey_zdo_frame : ZdoFrame → AdapterEvent D
  homey_route_record : ℕ → Text → AdapterEvent D
  homey_radio_status homey_disconnected : D → AdapterEvent D

-- What the controller does then, or emits.
pub data Attached (D : Type 0) : Type 0 where
  acts : List Action → Attached D
  radio_status disconnected_event : D → Attached D

-- `lookup`: how `getIEEEAddress(address, { allowRequest: false })` ends.
abbrev pub found_address : Result Text → Option Text
found_address (ok ieee) = some ieee
found_address (err e) = none

unfoldable pub find_ieee_address : (ℕ → Result Text) → ℕ → Option Text
find_ieee_address lookup address = found_address (lookup address)

module _ {D : Type 0} (success announce network_response ieee_response : ℕ)
    (lookup : ℕ → Result Text) (is_node : Text → Bool) where
  unfoldable pub on_adapter_event : AdapterEvent D → Attached D
  on_adapter_event (zcl_payload p) = acts (
      on_zcl_payload success announce network_response ieee_response (find_ieee_address lookup)
        is_node p)
  on_adapter_event (device_joined eui64 address) = acts (
      on_device_joined success announce network_response ieee_response (find_ieee_address lookup)
        is_node eui64 address)
  on_adapter_event (device_leave eui64 address) = acts (
      on_device_leave success announce network_response ieee_response (find_ieee_address lookup)
        is_node eui64 address)
  on_adapter_event (homey_zdo_frame frame) = acts (
      on_zdo_frame success announce network_response ieee_response (find_ieee_address lookup)
        is_node frame)
  on_adapter_event (homey_route_record sender eui64) = acts (
      on_route_record success announce network_response ieee_response (find_ieee_address lookup)
        is_node sender eui64)
  on_adapter_event (homey_radio_status d) = radio_status d
  on_adapter_event (homey_disconnected d) = disconnected_event d
