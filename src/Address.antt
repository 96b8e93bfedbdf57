-- ===== src/Address.antt =====
-- enhancements/0001-zigbee-ember/src/address.mts: hexadecimal addresses and keys, in Homey's form
-- (octets joined by colons), in herdsman's (`0x` and digits) and as bytes.
pub mod Digits
pub mod Normal
pub mod Codec
use homey_shs_enhanced.Prelude.{
  ℕ, ◌+◌, ◌-◌, ◌*◌, ◌/◌, ◌%◌, Bool, ◌&&◌, ◌||◌, List, [], ◌∷◌, ◌++◌, map, reverse, Text, text,
  to_lower, leb, ltb, ◌==◌, if◌then◌else◌, length, all, Result, ok, err, ◌>>=◌, Thrown, type_error,
}

-- `value.replace(/^0x/i, '')`.
unfoldable pub strip_hex_prefix : Text → Text
strip_hex_prefix [] = []
strip_hex_prefix (a ∷ []) = a ∷ []
strip_hex_prefix (a ∷ b ∷ s) = if a == b'0' && to_lower b == b'x' then s else a ∷ b ∷ s

-- `.replaceAll(HOMEY_HEX_SEPARATOR, '')`.
unfoldable pub drop_separators : Text → Text
drop_separators [] = []
drop_separators (c ∷ s) = if c == b':' then drop_separators s else c ∷ drop_separators s

-- `[0-9a-f]`.
unfoldable pub is_hex : ℕ → Bool
is_hex c = (leb b'0' c && leb c b'9') || (leb b'a' c && leb c b'f')

-- The only code units whose lower case is a hexadecimal digit are ASCII, so `toLowerCase` is
-- written for ASCII: on other texts the test fails either way.
unfoldable pub normalized : Text → Text
unfolding strip_hex_prefix drop_separators
normalized value = map to_lower (drop_separators (strip_hex_prefix value))

unfoldable pub invalid : Text → Text → Thrown
invalid label value = type_error (text "Invalid " ++ label ++ text ": " ++ value)

unfoldable pub normalize_hex : Text → ℕ → Text → Result Text
normalize_hex value bytes label =
    let hex = normalized value in
    if all is_hex hex && length hex == bytes * 2 then ok hex else err (invalid label value)

-- `hex.match(/../g)`, with `[]` for `null`.
unfoldable pub pairs : Text → List Text
pairs [] = []
pairs (a ∷ []) = []
pairs (a ∷ b ∷ s) = (a ∷ b ∷ []) ∷ pairs s

unfoldable pub join : Text → List Text → Text
join sep [] = []
join sep (x ∷ []) = x
join sep (x ∷ y ∷ xs) = x ++ (sep ++ join sep (y ∷ xs))

unfoldable pub hex_digit : ℕ → ℕ
hex_digit n = if ltb n 10 then b'0' + n else b'a' + (n - 10)

-- `buffer.toString('hex')`.
unfoldable pub to_hex : List ℕ → Text
unfolding hex_digit
to_hex [] = []
to_hex (b ∷ bs) = hex_digit (b / 16) ∷ hex_digit (b % 16) ∷ to_hex bs

unfoldable pub digit_value : ℕ → ℕ
digit_value c = if leb b'a' c then c - b'a' + 10 else c - b'0'

-- `Buffer.from(hex, 'hex')`, at a text of hexadecimal digits.
unfoldable pub from_hex : Text → List ℕ
unfolding digit_value
from_hex [] = []
from_hex (a ∷ []) = []
from_hex (a ∷ b ∷ s) = (digit_value a * 16 + digit_value b) ∷ from_hex s

-- `string | Uint8Array`.
pub data HexInput : Type 0 where
  hex_string : Text → HexInput
  hex_bytes : List ℕ → HexInput

-- `hex.match(/../g)!.join(HOMEY_HEX_SEPARATOR)`, where `null` has no `join`.
unfoldable pub join_pairs : List Text → Result Text
unfolding join
join_pairs [] = err (type_error (text "Cannot read properties of null (reading 'join')"))
join_pairs (x ∷ xs) = ok (join (b':' ∷ []) (x ∷ xs))

unfoldable pub format_homey_hex : HexInput → ℕ → Text → Result Text
format_homey_hex (hex_string value) bytes label = do
  hex ← normalize_hex value bytes label
  join_pairs (pairs hex)
format_homey_hex (hex_bytes value) bytes label = do
  hex ← normalize_hex (to_hex value) bytes label
  join_pairs (pairs hex)

unfoldable pub homey_hex_to_buffer : Text → ℕ → Text → Result (List ℕ)
homey_hex_to_buffer value bytes label = do hex ← normalize_hex value bytes label; ok (from_hex hex)

unfoldable pub homey_ieee_to_eui64 : Text → Result Text
homey_ieee_to_eui64 value = do
  hex ← normalize_hex value 8 (text "IEEE address")
  ok (b'0' ∷ b'x' ∷ hex)

unfoldable pub eui64_to_homey_ieee : Text → Result Text
eui64_to_homey_ieee value = format_homey_hex (hex_string value) 8 (text "EUI64")

unfoldable pub network_key_to_bytes : Text → Result (List ℕ)
network_key_to_bytes value = homey_hex_to_buffer value 16 (text "network key")

unfoldable pub extended_pan_id_to_bytes : Text → Result (List ℕ)
extended_pan_id_to_bytes value = do
  bytes ← homey_hex_to_buffer value 8 (text "extended PAN ID")
  ok (reverse bytes)
