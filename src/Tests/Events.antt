-- ===== src/Tests/Events.antt =====
-- Events of the adapter at concrete inputs.
use homey_shs_enhanced.Address.{eui64_to_homey_ieee}
use homey_shs_enhanced.Controller.Events.{
  on_zdo_frame, on_device_joined, on_route_record, on_device_leave, by_network, on_zcl_payload,
  ZclPayload, ZdoFrame,
}
use homey_shs_enhanced.Controller.Events.Updates.{events-updates, Justified, updates}
use homey_shs_enhanced.Controller.ZdoData.{MacFlags}
use homey_shs_enhanced.Prelude.{
  Thrown, text, Bool, Option, ℕ, Text, [], false, none, some, ok, err, ◌∷◌, ◌≡◌, ◌⊎◌,
}

abbrev no_address : ℕ → Option Text
no_address address = none

abbrev no_node : Text → Bool
no_node ieee = false

abbrev lamp_eui64 : Text
lamp_eui64 = text "0x00124b001cddee01"

abbrev still_flags : MacFlags
still_flags = record {
  alternate_pan_coordinator = false;
  device_type = false;
  power_source = false;
  rx_on_when_idle = false;
  security_capability = false;
  allocate_address = false;
}

abbrev announcement : ZdoFrame
announcement = record {
  sender = 0x1234;
  endpoint = 0;
  cluster_id = 0x13;
  payload = 1 ∷ 2 ∷ [];
  response =
      some
        (0, some (record { eui64 = some lamp_eui64; nwk_address = 0x1234; flags = still_flags }));
}

abbrev switched_on : ZclPayload
switched_on = record {
  address = by_network 0x1234;
  endpoint = 1;
  cluster_id = 6;
  bytes = 1 ∷ [];
  group_id = none;
  destination_endpoint = none;
}

events-updates_example :
    (updates (on_zcl_payload 0 0x13 0x8000 0x8001 no_address no_node switched_on) ≡ [])
    × (updates (on_device_leave 0 0x13 0x8000 0x8001 no_address no_node (some lamp_eui64) none)
        ≡ [])
    × (updates (on_route_record 0 0x13 0x8000 0x8001 no_address no_node 0x1234 lamp_eui64) ≡ [])
    × (((e : Thrown) × (eui64_to_homey_ieee lamp_eui64 ≡ err e)
          × (on_device_joined 0 0x13 0x8000 0x8001 no_address no_node lamp_eui64 0x1234 ≡ []))
        ⊎ ((ieee : Text) × (eui64_to_homey_ieee lamp_eui64 ≡ ok ieee)
            × (updates (on_device_joined 0 0x13 0x8000 0x8001 no_address no_node lamp_eui64 0x1234)
                ≡ (ieee, 0x1234) ∷ [])))
    × Justified 0 0x13 0x8000 0x8001 no_address no_node announcement
        (updates (on_zdo_frame 0 0x13 0x8000 0x8001 no_address no_node announcement))
events-updates_example =
    events-updates 0 0x13 0x8000 0x8001 no_address no_node switched_on lamp_eui64 0x1234
      (some lamp_eui64) none announcement
