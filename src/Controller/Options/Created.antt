-- ===== src/Controller/Options/Created.antt =====
-- enhancements/0001-zigbee-ember/src/HomeyEmberController.mts and RadioStore.mts: the options that
-- `createAdapter` makes of a network that `createNetwork` drew.
-- What herdsman is given of a drawn network: the bytes as they were drawn, the extended PAN ID
-- reversed, on that channel alone.
use homey_shs_enhanced.Address.{network_key_to_bytes, extended_pan_id_to_bytes}
use homey_shs_enhanced.RadioStore.Created.{create_network-IsAccepted, IsDraw}
use homey_shs_enhanced.RadioStore.Network.{
  network_value, assert_stored_network, create_network, Draw, StoredNetwork,
}
use homey_shs_enhanced.Controller.Options.{AdapterOptions, create_adapter, DeviceOptions}
use homey_shs_enhanced.Prelude.{
  ap, text, reverse, List, ℕ, Text, [], refl, false, ok, ◌≡◌, ◌∙◌, ◌∷◌, ◌≤◌,
}

abbrev pub options_drawn : DeviceOptions → Text → ℕ → Draw → ℕ → AdapterOptions
options_drawn options backup_path pan_id draw channel = record {
  pan_id = pan_id;
  extended_pan_id = reverse draw.pan_bytes;
  channel_list = channel ∷ [];
  network_key = draw.key_bytes;
  network_key_distribute = false;
  adapter = text "ember";
  path = options.device;
  baud_rate = options.baud_rate;
  rtscts = options.rtscts;
  backup_path = backup_path;
  disable_led = false;
  transmit_power = options.transmit_power;
}

create_adapter-eq :
    (options : DeviceOptions) (backup_path : Text) (network : StoredNetwork) (pan key : List ℕ)
    → extended_pan_id_to_bytes network.extended_pan_id ≡ ok pan
    → network_key_to_bytes network.network_key ≡ ok key
    → create_adapter options backup_path network
      ≡ ok (record {
        pan_id = network.pan_id;
        extended_pan_id = pan;
        channel_list = network.channel ∷ [];
        network_key = key;
        network_key_distribute = false;
        adapter = text "ember";
        path = options.device;
        baud_rate = options.baud_rate;
        rtscts = options.rtscts;
        backup_path = backup_path;
        disable_led = false;
        transmit_power = options.transmit_power;
      })
unfolding create_adapter
create_adapter-eq options backup_path network pan key e f = rw (e, f, create_adapter) refl

-- On a channel from 11 to 26 a network is created, the store's validation accepts it, and the
-- adapter is made with the drawn bytes: the extended PAN ID reversed, the key in order, on that
-- channel alone, and the device's options as they are.
pub create_adapter-create_network :
    (options : DeviceOptions) (backup_path : Text) (draw : Draw) (channel : ℕ)
    → IsDraw draw
    → 11 ≤ channel
    → channel ≤ 26
    → (network : StoredNetwork) × (create_network draw channel ≡ ok network)
      × (assert_stored_network (network_value network) ≡ ok tt)
      × (create_adapter options backup_path network
          ≡ ok (options_drawn options backup_path network.pan_id draw channel))
create_adapter-create_network options backup_path draw channel d h k =
    let (network, made, on, accepted, pan, key) = create_network-IsAccepted draw channel d h k in
    (
      network,
      made,
      accepted,
      create_adapter-eq options backup_path network _ _ pan key
          ∙ ap (λ c. ok (options_drawn options backup_path network.pan_id draw c)) on,
    )
