-- ===== src/Controller/Options.antt =====
-- enhancements/0001-zigbee-ember/src/HomeyEmberController.mts: `createAdapter`, which gives herdsman
-- the network that the store keeps and the options of the device.
pub mod Created
-- `transmitPower` is absent where the radio keeps its power.
use homey_shs_enhanced.Json.{Value}
use homey_shs_enhanced.Address.{network_key_to_bytes, extended_pan_id_to_bytes}
use homey_shs_enhanced.RadioStore.Network.{StoredNetwork}
use homey_shs_enhanced.Prelude.{
  text, ◌>>=◌, Option, Result, Bool, List, ℕ, Text, [], false, ok, ◌∷◌,
}

pub record DeviceOptions : Type 0 where
  pub device : Text
  pub baud_rate : ℕ
  pub rtscts : Bool
  pub transmit_power : Option Value

pub record AdapterOptions : Type 0 where
  pub pan_id : ℕ
  pub extended_pan_id : List ℕ
  pub channel_list : List ℕ
  pub network_key : List ℕ
  pub network_key_distribute : Bool
  pub adapter : Text
  pub path : Text
  pub baud_rate : ℕ
  pub rtscts : Bool
  pub backup_path : Text
  pub disable_led : Bool
  pub transmit_power : Option Value

-- What `adapterFactory` is given; `backup_path` is that of the store.
unfoldable pub create_adapter : DeviceOptions → Text → StoredNetwork → Result AdapterOptions
create_adapter options backup_path network =
    extended_pan_id_to_bytes network.extended_pan_id >>= λ extended_pan_id.
    network_key_to_bytes network.network_key >>= λ network_key. ok (record {
      pan_id = network.pan_id;
      extended_pan_id = extended_pan_id;
      channel_list = network.channel ∷ [];
      network_key = network_key;
      network_key_distribute = false;
      adapter = text "ember";
      path = options.device;
      baud_rate = options.baud_rate;
      rtscts = options.rtscts;
      backup_path = backup_path;
      disable_led = false;
      transmit_power = options.transmit_power;
    })
