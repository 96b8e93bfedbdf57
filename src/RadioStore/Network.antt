-- ===== src/RadioStore/Network.antt =====
-- enhancements/0001-zigbee-ember/src/RadioStore.mts: the stored Zigbee network, its validation and
-- its creation.
use homey_shs_enhanced.Address.{homey_hex_to_buffer, hex_bytes, format_homey_hex}
use homey_shs_enhanced.Json.{
  string_of, property, null_value, undefined_value, end, str_value, decimal, field, int_value,
  arr_value, obj_value, Value,
}
use homey_shs_enhanced.Prelude.{
  ◌>>=◌, ◌>>◌, text, ltb, not, type_error, range_error, Result, Text, String, Thrown, List, ℕ, Bool,
  true, false, ok, err, ◌&&◌, ◌||◌, ◌++◌,
}

pub record StoredNetwork : Type 0 where
  pub pan_id : ℕ
  pub extended_pan_id : Text
  pub channel : ℕ
  pub network_key : Text

abbrev pub file_mode : ℕ
file_mode = 0o600

abbrev pub directory_mode : ℕ
directory_mode = 0o700

abbrev pub int_between : ℕ → ℕ → Value → Bool
int_between low high (int_value n) = not (ltb n low) && not (ltb high n)
int_between low high undefined_value = false
int_between low high _ = false

-- `value && typeof value === 'object'`.
abbrev pub is_object : Value → Bool
is_object (arr_value _) = true
is_object (obj_value _) = true
is_object null_value = false
is_object _ = false

abbrev pub check : Bool → String → Result (Unit {0})
check true message = ok tt
check false message = err (type_error (text message))

unfoldable pub assert_stored_network : Value → Result (Unit {0})
assert_stored_network value = do
  check (is_object value) "Invalid network.json"
  check (int_between 1 0xfffe (property value (text "panId"))) "Invalid PAN ID in network.json"
  check (int_between 11 26 (property value (text "channel"))) "Invalid channel in network.json"
  _ ←
      homey_hex_to_buffer (string_of (property value (text "extendedPanId"))) 8
        (text "extended PAN ID")
  _ ← homey_hex_to_buffer (string_of (property value (text "networkKey"))) 16 (text "network key")
  ok tt

-- The object that is written as JSON.
unfoldable pub network_value : StoredNetwork → Value
network_value n = obj_value (
    field (text "panId") (int_value n.pan_id) (
      field (text "extendedPanId") (str_value n.extended_pan_id) (
        field (text "channel") (int_value n.channel)
          (field (text "networkKey") (str_value n.network_key) end))))

-- What one call of `createNetwork` draws: `randomInt(1, 0xffff)` and the random bytes.
pub record Draw : Type 0 where
  pub pan_id : ℕ
  pub pan_bytes : List ℕ
  pub key_bytes : List ℕ

unfoldable pub invalid_channel : ℕ → Thrown
invalid_channel channel = range_error (text "Invalid Zigbee channel: " ++ decimal channel)

abbrev pub check_channel : Bool → ℕ → Result (Unit {0})
check_channel true channel = ok tt
check_channel false channel = err (invalid_channel channel)

unfoldable pub create_network : Draw → ℕ → Result StoredNetwork
create_network draw channel =
    check_channel (not (ltb channel 11 || ltb 26 channel)) channel >>= λ _.
    format_homey_hex (hex_bytes draw.pan_bytes) 8 (text "extended PAN ID") >>= λ pan.
    format_homey_hex (hex_bytes draw.key_bytes) 16 (text "network key") >>= λ key.
    ok
      (record { pan_id = draw.pan_id; extended_pan_id = pan; channel = channel; network_key = key })
