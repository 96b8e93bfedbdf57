-- ===== src/Controller/Settings.antt =====
-- enhancements/0001-zigbee-ember/src/HomeyEmberController.mts: `publishState`, which makes the
-- network settings that the manager reads, and the sending of ZCL frames and group requests
-- (`_sendZCLFrame`, `_bindGroup`, `_unbindGroup`). What the adapter answers is a parameter.
pub mod Published
pub mod Frames
use homey_shs_enhanced.Controller.ZdoData.{default_zdo_timeout_ms}
use homey_shs_enhanced.Address.{homey_ieee_to_eui64, eui64_to_homey_ieee}
use homey_shs_enhanced.Controller.SendErrors.{translate_send_error}
use homey_shs_enhanced.Json.{
  end, property, str_value, null_value, field, undefined_value, int_value, obj_value, Value,
}
use homey_shs_enhanced.Prelude.{
  ◌>>◌, ◌>>=◌, plain_error, text, Result, or_default, Option, ℕ, Bool, List, Text, [], true, false,
  none, some, ok, err, ◌∷◌, ◌++◌,
}

-- What `Promise.all` gives: of the network parameters, the coordinator's EUI64, and its version.
pub record Coordinator : Type 0 where
  pub pan_id : ℕ
  pub extended_pan_id : Text
  pub channel : ℕ
  pub ieee : Text
  pub version_type : Text
  -- `Object.values(version.meta)`, each as text.
  pub version_meta : List Text

abbrev pub join_dots : List Text → Text
join_dots [] = []
join_dots (t ∷ []) = t
join_dots (t ∷ u ∷ ts) = t ++ (text "." ++ join_dots (u ∷ ts))

-- `value ?? 0`.
abbrev pub or_zero : Value → Value
or_zero undefined_value = int_value 0
or_zero null_value = int_value 0
or_zero v = v

-- `${version.type} ${Object.values(version.meta).join('.')}`.
unfoldable pub software_version_of : Coordinator → Text
software_version_of c = c.version_type ++ (text " " ++ join_dots c.version_meta)

-- `previous`: `networkSettings`, which is `undefined` at first.
unfoldable pub settings_of : Text → Value → Coordinator → Text → Text → Value
settings_of network_key previous c ieee extended_pan_id = obj_value (
    field (text "IEEEAddress") (str_value ieee) (
      field (text "panId") (int_value c.pan_id) (
        field (text "extendedPanId") (str_value extended_pan_id) (
          field (text "networkKey") (str_value network_key) (
            field (text "channel") (int_value c.channel) (
              field (text "networkKeySequenceNumber")
                (or_zero (property previous (text "networkKeySequenceNumber")))
                (field (text "networkKeyFrameCounter")
                  (or_zero (property previous (text "networkKeyFrameCounter")))
                  (field (text "softwareVersion") (str_value (software_version_of c)) end))))))))

-- The settings, if there are an adapter and a stored network: its key is given then.
unfoldable pub publish_state : Option Text → Value → Result Coordinator → Result (Option Value)
publish_state none previous answers = ok none
publish_state (some network_key) previous answers = answers >>= λ c.
    eui64_to_homey_ieee c.ieee >>= λ ieee.
    eui64_to_homey_ieee c.extended_pan_id >>= λ extended_pan_id.
    ok (some (settings_of network_key previous c ieee extended_pan_id))

-- What `sendRawZclFrame` is given. `signal`: the caller's `AbortSignal`, by a number.
pub record FrameRequest : Type 0 where
  pub eui64 : Text
  pub network_address : ℕ
  pub endpoint : ℕ
  pub cluster_id : ℕ
  pub bytes : List ℕ
  pub force_route_discovery : Bool
  pub timeout : ℕ
  pub signal : Option ℕ

-- What Homey's base class gives `_sendZCLFrame`.
pub record ZclFrame : Type 0 where
  pub ieee_address : Text
  pub endpoint_id : ℕ
  pub cluster_id : ℕ
  pub zcl_frame : List ℕ
  pub enable_route_discovery : Bool
  pub timeout : Option ℕ
  pub signal : Option ℕ

abbrev pub frame_timeout : ZclFrame → ℕ
frame_timeout f = or_default f.timeout 4_500

abbrev pub frame_of : ZclFrame → ℕ → Text → FrameRequest
frame_of f network_address eui64 = record {
  eui64 = eui64;
  network_address = network_address;
  endpoint = f.endpoint_id;
  cluster_id = f.cluster_id;
  bytes = f.zcl_frame;
  force_route_discovery = f.enable_route_discovery;
  timeout = frame_timeout f;
  signal = f.signal;
}

-- `ready`: the adapter is there. `sent`: how its `sendRawZclFrame` settles.
module _ (get_network_address : Text → Result ℕ) (ready : Bool)
    (sent : FrameRequest → Result (Unit {0})) where
  abbrev pub send_translated : ℕ → Result (Unit {0}) → Result (Unit {0})
  send_translated timeout (ok u) = ok u
  send_translated timeout (err e) = err (translate_send_error e timeout)

  abbrev pub require_ready : Bool → Result (Unit {0})
  require_ready true = ok tt
  require_ready false = err (plain_error (text "Ember adapter is not ready"))

  -- The requests that the adapter is given, and how the call ends: the part in the `try` block,
  -- before and after the address is converted.
  abbrev pub give_frame : ZclFrame → ℕ → Result Text → List FrameRequest × Result (Unit {0})
  give_frame f network_address (err e) = ([], err (translate_send_error e (frame_timeout f)))
  give_frame f network_address (ok eui64) =
      let q = frame_of f network_address eui64 in
      (q ∷ [], send_translated (frame_timeout f) (sent q))

  abbrev pub send_to : ZclFrame → Result ℕ → List FrameRequest × Result (Unit {0})
  send_to f (err e) = ([], err e)
  send_to f (ok network_address) =
      give_frame f network_address (require_ready ready >> homey_ieee_to_eui64 f.ieee_address)

  unfoldable pub send_zcl_frame : ZclFrame → List FrameRequest × Result (Unit {0})
  send_zcl_frame f = send_to f (get_network_address f.ieee_address)

-- `_bindGroup` and `_unbindGroup`, up to the races: the group that the adapter is given to add or
-- remove, and the timeout and words of the race's `TimeoutError`.
pub data GroupRequest : Type 0 where
  binds unbinds : ℕ → GroupRequest

pub record GroupRace : Type 0 where
  pub request : GroupRequest
  pub timeout : ℕ
  pub operation : Text

unfoldable pub bind_group : Bool → ℕ → Option ℕ → Result GroupRace
bind_group false group timeout = err (plain_error (text "Ember adapter is not ready"))
bind_group true group timeout = ok (record {
  request = binds group;
  timeout = or_default timeout default_zdo_timeout_ms;
  operation = text "Add Zigbee multicast group";
})

unfoldable pub unbind_group : Bool → ℕ → Option ℕ → Result GroupRace
unbind_group false group timeout = err (plain_error (text "Ember adapter is not ready"))
unbind_group true group timeout = ok (record {
  request = unbinds group;
  timeout = or_default timeout default_zdo_timeout_ms;
  operation = text "Remove Zigbee multicast group";
})
