-- ===== src/RadioStore/Created.antt =====
-- enhancements/0001-zigbee-ember/src/RadioStore.mts: what `createNetwork` makes.
use homey_shs_enhanced.Address.Codec.{format_homey_hex-bytes}
use homey_shs_enhanced.Address.Digits.{IsByte}
use homey_shs_enhanced.Json.{string_of, property, int_value}
use homey_shs_enhanced.Address.{homey_hex_to_buffer, network_key_to_bytes, extended_pan_id_to_bytes}
use homey_shs_enhanced.RadioStore.Network.{
  StoredNetwork, invalid_channel, int_between, network_value, Draw, assert_stored_network,
  create_network,
}
use homey_shs_enhanced.Prelude.{
  text, List, reverse, ltb, text_eq, arith, All, not, length, ℕ, refl, true, false, ok, err, ◌<◌,
  ◌⊎◌, ◌||◌, ◌≡◌, ◌≤◌,
}

-- What the random source promises: `randomInt(1, 0xffff)` is at least 1 and below 0xffff, and
-- `randomBytes(n)` has n bytes.
pub record IsDraw (draw : Draw) : Type 0 where
  pub pan_low : 1 ≤ draw.pan_id
  pub pan_high : draw.pan_id < 0xffff
  pub pan_size : length draw.pan_bytes ≡ 8
  pub pan_octets : All IsByte draw.pan_bytes
  pub key_size : length draw.key_bytes ≡ 16
  pub key_octets : All IsByte draw.key_bytes

in_range : (low high n : ℕ) → low ≤ n → n ≤ high → int_between low high (int_value n) ≡ true
in_range low high n h k = ground arith

-- A network whose numbers are in range and whose texts read as bytes is accepted.
assert_stored_network-eq-ok :
    (n : StoredNetwork) {pan key : List ℕ}
    → 1 ≤ n.pan_id
    → n.pan_id ≤ 0xfffe
    → 11 ≤ n.channel
    → n.channel ≤ 26
    → homey_hex_to_buffer n.extended_pan_id 8 (text "extended PAN ID") ≡ ok pan
    → homey_hex_to_buffer n.network_key 16 (text "network key") ≡ ok key
    → assert_stored_network (network_value n) ≡ ok tt
unfolding assert_stored_network network_value property text_eq string_of
assert_stored_network-eq-ok n h1 h2 h3 h4 p k =
    rw (in_range 1 0xfffe n.pan_id h1 h2, in_range 11 26 n.channel h3 h4, p, k)

-- On a channel from 11 to 26 a network is created on that channel, the store's validation accepts
-- it, and herdsman is given the drawn bytes: the extended PAN ID reversed, the key in order.
pub create_network-IsAccepted :
    (draw : Draw) (channel : ℕ)
    → IsDraw draw
    → 11 ≤ channel
    → channel ≤ 26
    → (network : StoredNetwork) × (create_network draw channel ≡ ok network)
      × (network.channel ≡ channel)
      × (assert_stored_network (network_value network) ≡ ok tt)
      × (extended_pan_id_to_bytes network.extended_pan_id ≡ ok (reverse draw.pan_bytes))
      × (network_key_to_bytes network.network_key ≡ ok draw.key_bytes)
unfolding create_network extended_pan_id_to_bytes network_key_to_bytes
create_network-IsAccepted draw channel d h k =
    let (pan, p, read_pan) =
      format_homey_hex-bytes draw.pan_bytes 7 (text "extended PAN ID") d.pan_octets d.pan_size in
    let (key, q, read_key) =
      format_homey_hex-bytes draw.key_bytes 15 (text "network key") d.key_octets d.key_size in
    let network : StoredNetwork = record {
      pan_id = draw.pan_id;
      extended_pan_id = pan;
      channel = channel;
      network_key = key;
    } in
    let allowed : not (ltb channel 11 || ltb 26 channel) ≡ true = ground arith in
    (
      network,
      rw (allowed, p, q),
      refl,
      assert_stored_network-eq-ok network d.pan_low (omega (arith, d.pan_high)) h k (read_pan _)
          (read_key _),
      rw (read_pan (text "extended PAN ID")),
      read_key _,
    )

-- Off these channels nothing is created, whatever is drawn: a `RangeError` is thrown.
pub create_network-refuses :
    (draw : Draw) (channel : ℕ)
    → (channel < 11) ⊎ (26 < channel)
    → create_network draw channel ≡ err (invalid_channel channel)
unfolding create_network
create_network-refuses draw channel h =
    let refused : not (ltb channel 11 || ltb 26 channel) ≡ false = ground arith in rw refused
