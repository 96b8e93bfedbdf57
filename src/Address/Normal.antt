-- ===== src/Address/Normal.antt =====
-- enhancements/0001-zigbee-ember/src/address.mts: what `normalizeHex` returns, and the printed
-- forms of it.
use homey_shs_enhanced.Prelude.{
  ==-refl, ℕ, zero, suc, ◌*◌, ◌≡◌, refl, true, [], ◌∷◌, map, Text, to_lower, length, all, ok, arith,
}
use homey_shs_enhanced.Address.{
  strip_hex_prefix, normalized, drop_separators, is_hex, normalize_hex, pairs, join,
}
use homey_shs_enhanced.Address.Digits.{is_hex-ne-x, to_lower-is_hex, is_hex-ne-colon}

-- The texts that `normalize_hex` returns.
pub record IsHexText (bytes : ℕ) (hex : Text) : Type 0 where
  pub digits : all is_hex hex ≡ true
  pub size : length hex ≡ bytes * 2

pub normalize_hex-IsHexText :
    (value : Text) (bytes : ℕ) (label : Text) {hex : Text}
    → normalize_hex value bytes label ≡ ok hex
    → IsHexText bytes hex
unfolding normalize_hex
normalize_hex-IsHexText value bytes label h = ground arith

pub map-to_lower-digits : (hex : Text) → all is_hex hex ≡ true → map to_lower hex ≡ hex
map-to_lower-digits [] h = refl
map-to_lower-digits (c ∷ s) h = ground (arith, to_lower-is_hex c, map-to_lower-digits s)

drop_separators-digits : (hex : Text) → all is_hex hex ≡ true → drop_separators hex ≡ hex
unfolding drop_separators
drop_separators-digits [] h = refl
drop_separators-digits (c ∷ s) h = ground (arith, is_hex-ne-colon c, drop_separators-digits s)

-- Colons between the octets are dropped again.
drop_separators-join :
    (hex : Text) (bytes : ℕ)
    → all is_hex hex ≡ true
    → length hex ≡ bytes * 2
    → drop_separators (join (b':' ∷ []) (pairs hex)) ≡ hex
unfolding drop_separators join pairs
drop_separators-join [] bytes h k = refl
drop_separators-join (a ∷ []) bytes h k = absurd (omega arith)
drop_separators-join (a ∷ b ∷ []) bytes h k = ground (arith, is_hex-ne-colon a, is_hex-ne-colon b)
drop_separators-join (a ∷ b ∷ c ∷ []) bytes h k = absurd (omega arith)
drop_separators-join (a ∷ b ∷ c ∷ d ∷ s) (suc n) h k =
    ground (arith, is_hex-ne-colon a, is_hex-ne-colon b, drop_separators-join (c ∷ d ∷ s) n)
drop_separators-join (a ∷ b ∷ c ∷ d ∷ s) zero h k = absurd (omega arith)

strip_hex_prefix-digits :
    (a b : ℕ) (s : Text) → is_hex b ≡ true → strip_hex_prefix (a ∷ b ∷ s) ≡ a ∷ b ∷ s
unfolding strip_hex_prefix
strip_hex_prefix-digits a b s h = ground (arith, to_lower-is_hex b, is_hex-ne-x b)

module _ (bytes : ℕ) where
  pub normalized-digits : (hex : Text) → IsHexText bytes hex → normalized hex ≡ hex
  unfolding normalized strip_hex_prefix
  normalized-digits [] v = refl
  normalized-digits (a ∷ []) v = absurd (omega (arith, v.size))
  normalized-digits (a ∷ b ∷ s) v = ground (
    arith,
    strip_hex_prefix-digits a b s,
    drop_separators-digits (a ∷ b ∷ s),
    map-to_lower-digits (a ∷ b ∷ s),
  )

  -- Homey's form.
  pub normalized-join :
      (hex : Text) → IsHexText bytes hex → normalized (join (b':' ∷ []) (pairs hex)) ≡ hex
  unfolding normalized join pairs
  normalized-join [] v = refl
  normalized-join (a ∷ []) v = absurd (omega (arith, v.size))
  normalized-join (a ∷ b ∷ []) v = ground (
    arith,
    strip_hex_prefix-digits a b [],
    drop_separators-digits (a ∷ b ∷ []),
    map-to_lower-digits (a ∷ b ∷ []),
  )
  normalized-join (a ∷ b ∷ c ∷ s) v = ground (
    arith,
    strip_hex_prefix-digits a b (b':' ∷ join (b':' ∷ []) (pairs (c ∷ s))),
    drop_separators-join (a ∷ b ∷ c ∷ s) bytes,
    map-to_lower-digits (a ∷ b ∷ c ∷ s),
  )

  -- herdsman's form.
  pub normalized-prefixed :
      (hex : Text) → IsHexText bytes hex → normalized (b'0' ∷ b'x' ∷ hex) ≡ hex
  unfolding normalized strip_hex_prefix to_lower
  normalized-prefixed hex v = ground (arith, drop_separators-digits hex, map-to_lower-digits hex)

  pub normalize_hex-eq-ok :
      (value : Text) (label : Text) {hex : Text}
      → normalized value ≡ hex
      → IsHexText bytes hex
      → normalize_hex value bytes label ≡ ok hex
  unfolding normalize_hex
  normalize_hex-eq-ok value label e v = ground (arith, ==-refl (bytes * 2))
