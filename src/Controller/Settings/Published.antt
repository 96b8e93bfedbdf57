-- ===== src/Controller/Settings/Published.antt =====
-- enhancements/0001-zigbee-ember/src/HomeyEmberController.mts and ManagerZigbeeEmber.mts: the
-- settings that `publishState` makes, as `parseControllerState` reads them.
-- What the manager keeps of the settings.
use homey_shs_enhanced.Address.{eui64_to_homey_ieee}
use homey_shs_enhanced.Manager.State.{state_of, ControllerState, parse_controller_state}
use homey_shs_enhanced.Json.{str_value, int_value, get_field, property, Value}
use homey_shs_enhanced.Controller.Settings.{
  software_version_of, or_zero, Coordinator, settings_of, publish_state,
}
use homey_shs_enhanced.Prelude.{
  sym, ap, ◌∙◌, arith, Result-cases, text_eq, text, Result, Text, refl, some, ok, inl, inr, ◌≡◌,
}

abbrev pub state_published : Text → Value → Coordinator → Text → Text → ControllerState
state_published network_key previous c ieee extended_pan_id = record {
  ieee_address = ieee;
  pan_id = int_value c.pan_id;
  extended_pan_id = str_value extended_pan_id;
  network_key = str_value network_key;
  channel = int_value c.channel;
  network_key_sequence_number = or_zero (property previous (text "networkKeySequenceNumber"));
  network_key_frame_counter = or_zero (property previous (text "networkKeyFrameCounter"));
  software_version = software_version_of c;
}

settings_of-parsed :
    (network_key : Text) (previous : Value) (c : Coordinator) (ieee extended_pan_id : Text)
    → state_of
        (settings_of network_key previous c ieee extended_pan_id)
        (property (settings_of network_key previous c ieee extended_pan_id) (text "IEEEAddress"))
        (property
          (settings_of network_key previous c ieee extended_pan_id)
          (text "softwareVersion"))
      ≡ some (state_published network_key previous c ieee extended_pan_id)
unfolding settings_of property get_field text text_eq
settings_of-parsed network_key previous c ieee extended_pan_id = refl

accepted_state :
    (a : Value → Result (Unit {0})) (settings : Value)
    → a settings ≡ ok tt
    → parse_controller_state a settings
      ≡ state_of settings
          (property settings (text "IEEEAddress"))
          (property settings (text "softwareVersion"))
unfolding parse_controller_state
accepted_state a settings accepted = rw (accepted, parse_controller_state) refl

-- Whenever `publishState` makes settings, from the coordinator's answers, and Homey accepts them as
-- a network's configuration, the manager reads back from them the coordinator's addresses in
-- Homey's form, its network, the stored key, and the counters that were known before, or 0.
pub parse_controller_state-publish_state :
    (assert_network_configuration : Value → Result (Unit {0})) (network_key : Text)
    (previous : Value) (c : Coordinator) (settings : Value)
    → publish_state (some network_key) previous (ok c) ≡ ok (some settings)
    → assert_network_configuration settings ≡ ok tt
    → (ieee : Text) × (extended_pan_id : Text) × (eui64_to_homey_ieee c.ieee ≡ ok ieee)
      × (eui64_to_homey_ieee c.extended_pan_id ≡ ok extended_pan_id)
      × (parse_controller_state assert_network_configuration settings
          ≡ some (state_published network_key previous c ieee extended_pan_id))
unfolding publish_state parse_controller_state
parse_controller_state-publish_state a key previous c settings e accepted =
    elim (Result-cases (eui64_to_homey_ieee c.ieee)) [
      | inr (x, f) ↦ absurd (ground (arith, e, f))
      | inl (ieee, f) ↦ elim (Result-cases (eui64_to_homey_ieee c.extended_pan_id)) [
        | inr (x, g) ↦ absurd (ground (arith, e, f, g))
        | inl (pan, g) ↦
            let made : settings_of key previous c ieee pan ≡ settings = ground (arith, e, f, g) in
            (ieee, pan, f, g, parsed ieee pan made)
      ]
    ]
  where
    parsed :
        (ieee pan : Text)
        → settings_of key previous c ieee pan ≡ settings
        → parse_controller_state a settings ≡ some (state_published key previous c ieee pan)
    parsed ieee pan made =
        accepted_state a settings accepted
        ∙ ap
            (λ v.
              state_of v (property v (text "IEEEAddress")) (property v (text "softwareVersion")))
            (sym made)
        ∙ settings_of-parsed key previous c ieee pan
