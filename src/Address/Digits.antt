-- ===== src/Address/Digits.antt =====
-- enhancements/0001-zigbee-ember/src/address.mts: single hexadecimal digits and octets.
use homey_shs_enhanced.Prelude.{
  ℕ, ◌*◌, ◌/◌, ◌%◌, ◌<◌, ◌≡◌, refl, true, false, List, [], ◌∷◌, All, all, length, to_lower, ◌==◌,
  arith,
}
use homey_shs_enhanced.Address.{is_hex, hex_digit, digit_value, to_hex, from_hex}

pub to_lower-is_hex : (c : ℕ) → is_hex c ≡ true → to_lower c ≡ c
unfolding is_hex to_lower
to_lower-is_hex c h = ground arith

pub is_hex-ne-colon : (c : ℕ) → is_hex c ≡ true → (c == b':') ≡ false
unfolding is_hex
is_hex-ne-colon c h = ground arith

pub is_hex-ne-x : (c : ℕ) → is_hex c ≡ true → (c == b'x') ≡ false
unfolding is_hex
is_hex-ne-x c h = ground arith

pub is_hex-hex_digit : (n : ℕ) → n < 16 → is_hex (hex_digit n) ≡ true
unfolding is_hex hex_digit
is_hex-hex_digit n h = ground arith

pub digit_value-hex_digit : (n : ℕ) → n < 16 → digit_value (hex_digit n) ≡ n
unfolding digit_value hex_digit
digit_value-hex_digit n h = ground arith

pub hex_digit-digit_value : (c : ℕ) → is_hex c ≡ true → hex_digit (digit_value c) ≡ c
unfolding digit_value hex_digit is_hex
hex_digit-digit_value c h = ground arith

pub digit_value-lt : (c : ℕ) → is_hex c ≡ true → digit_value c < 16
unfolding digit_value is_hex
digit_value-lt c h = ground arith

abbrev pub IsByte : ℕ → Type 0
IsByte b = b < 256

pub all-is_hex-to_hex : (bs : List ℕ) → All IsByte bs → all is_hex (to_hex bs) ≡ true
unfolding to_hex
all-is_hex-to_hex [] h = refl
all-is_hex-to_hex (b ∷ bs) h =
    ground (arith, is_hex-hex_digit (b / 16), is_hex-hex_digit (b % 16), all-is_hex-to_hex bs)

pub length-to_hex : (bs : List ℕ) → length (to_hex bs) ≡ length bs * 2
unfolding to_hex
length-to_hex [] = refl
length-to_hex (b ∷ bs) = omega (arith, length-to_hex bs)

pub from_hex-to_hex : (bs : List ℕ) → All IsByte bs → from_hex (to_hex bs) ≡ bs
unfolding to_hex from_hex
from_hex-to_hex [] h = refl
from_hex-to_hex (b ∷ bs) h =
    ground
      (arith, digit_value-hex_digit (b / 16), digit_value-hex_digit (b % 16), from_hex-to_hex bs)
