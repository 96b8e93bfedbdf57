-- ===== src/Address/Codec.antt =====
-- enhancements/0001-zigbee-ember/src/address.mts: the conversions and their inverses, between
-- bytes and Homey's form and between Homey's form and herdsman's.
use homey_shs_enhanced.Prelude.{
  all, err, text, reverse, inr, inl, ◌==◌, ◌&&◌, Bool-cases, ◌⊎◌, subst, >>=-eq-ok, ℕ, suc, ◌≡◌,
  refl, ap, List, [], ◌∷◌, Text, length, All, ok, arith, ◌>>=◌,
}
use homey_shs_enhanced.Address.{
  is_hex, invalid, normalized, extended_pan_id_to_bytes, eui64_to_homey_ieee, homey_ieee_to_eui64,
  network_key_to_bytes, normalize_hex, pairs, join, join_pairs, to_hex, hex_string, hex_bytes,
  format_homey_hex, homey_hex_to_buffer,
}
use homey_shs_enhanced.Address.Digits.{IsByte, all-is_hex-to_hex, length-to_hex, from_hex-to_hex}
use homey_shs_enhanced.Address.Normal.{
  normalized-prefixed, IsHexText, normalize_hex-IsHexText, normalized-digits, normalized-join,
  normalize_hex-eq-ok,
}

-- Homey's form of a text of digits.
abbrev pub colons : Text → Text
colons hex = join (b':' ∷ []) (pairs hex)

join_pairs-eq-ok :
    (n : ℕ) (hex : Text) → IsHexText (suc n) hex → join_pairs (pairs hex) ≡ ok (colons hex)
unfolding join_pairs pairs
join_pairs-eq-ok n [] v = absurd (omega (arith, v.size))
join_pairs-eq-ok n (a ∷ []) v = absurd (omega (arith, v.size))
join_pairs-eq-ok n (a ∷ b ∷ s) v = refl

pub format_homey_hex-eq-ok :
    (n : ℕ) (value label : Text) {hex : Text}
    → normalize_hex value (suc n) label ≡ ok hex
    → format_homey_hex (hex_string value) (suc n) label ≡ ok (colons hex)
unfolding format_homey_hex
format_homey_hex-eq-ok n value label {hex} h =
    rw h (join_pairs-eq-ok n hex (normalize_hex-IsHexText value (suc n) label h))

to_hex-IsHexText : (bs : List ℕ) → All IsByte bs → IsHexText (length bs) (to_hex bs)
to_hex-IsHexText bs h = record { digits = all-is_hex-to_hex bs h; size = length-to_hex bs }

module _ (b : ℕ) (bs : List ℕ) (label : Text) (h : All IsByte (b ∷ bs)) where
  formatted :
      format_homey_hex (hex_bytes (b ∷ bs)) (length (b ∷ bs)) label ≡ ok (colons (to_hex (b ∷ bs)))
  unfolding format_homey_hex
  formatted =
      let hex = to_hex (b ∷ bs) in
      let v = to_hex-IsHexText (b ∷ bs) h in
      rw (normalize_hex-eq-ok (length (b ∷ bs)) hex label (normalized-digits _ hex v) v)
        (join_pairs-eq-ok (length bs) hex v)

  read_back : homey_hex_to_buffer (colons (to_hex (b ∷ bs))) (length (b ∷ bs)) label ≡ ok (b ∷ bs)
  unfolding homey_hex_to_buffer
  read_back =
      let hex = to_hex (b ∷ bs) in
      let v = to_hex-IsHexText (b ∷ bs) h in
      rw (normalize_hex-eq-ok (length (b ∷ bs)) (colons hex) label (normalized-join _ hex v) v)
        (ap (λ t. ok t) (from_hex-to_hex (b ∷ bs) h))

-- Formatting a non-empty array of bytes succeeds, and reading the result as the same number of
-- bytes, under any label, gives the array back.
pub homey_hex_to_buffer-format_homey_hex :
    (b : ℕ) (bs : List ℕ) (label label' : Text)
    → All IsByte (b ∷ bs)
    → (format_homey_hex (hex_bytes (b ∷ bs)) (length (b ∷ bs)) label >>= λ t.
        homey_hex_to_buffer t (length (b ∷ bs)) label')
      ≡ ok (b ∷ bs)
homey_hex_to_buffer-format_homey_hex b bs label label' h =
    rw (formatted b bs label h) (read_back b bs label' h)

-- A coordinator's network key and extended PAN ID, stored in Homey's form, reach herdsman as the
-- bytes they were made of: the key in order, the PAN ID reversed.
pub credentials-format_homey_hex :
    (b : ℕ) (bs : List ℕ) (label : Text)
    → All IsByte (b ∷ bs)
    → (length (b ∷ bs) ≡ 16
        → (format_homey_hex (hex_bytes (b ∷ bs)) 16 label >>= network_key_to_bytes) ≡ ok (b ∷ bs))
      × (length (b ∷ bs) ≡ 8
          → (format_homey_hex (hex_bytes (b ∷ bs)) 8 label >>= extended_pan_id_to_bytes)
            ≡ ok (reverse (b ∷ bs)))
unfolding network_key_to_bytes extended_pan_id_to_bytes
credentials-format_homey_hex b bs label h = (
  λ n.
      subst
        (λ k.
          (format_homey_hex (hex_bytes (b ∷ bs)) k label >>= λ t.
          homey_hex_to_buffer t k (text "network key"))
          ≡ ok (b ∷ bs))
        n (homey_hex_to_buffer-format_homey_hex b bs label (text "network key") h),
  λ n.
      subst
        (λ k.
          (format_homey_hex (hex_bytes (b ∷ bs)) k label >>= λ t.
          homey_hex_to_buffer t k (text "extended PAN ID") >>= λ bytes. ok (reverse bytes))
          ≡ ok (reverse (b ∷ bs)))
        n (rw (formatted b bs label h, read_back b bs (text "extended PAN ID") h)),
)

-- A text that converts to herdsman's form converts back to Homey's form, and that form converts to
-- the same EUI64 again.
pub eui64_to_homey_ieee-homey_ieee_to_eui64 :
    (value : Text) {eui64 : Text}
    → homey_ieee_to_eui64 value ≡ ok eui64
    → (ieee : Text) × (eui64_to_homey_ieee eui64 ≡ ok ieee)
      × (homey_ieee_to_eui64 ieee ≡ ok eui64)
      × (eui64_to_homey_ieee ieee ≡ ok ieee)
unfolding homey_ieee_to_eui64 eui64_to_homey_ieee
eui64_to_homey_ieee-homey_ieee_to_eui64 value {eui64} h =
    let (hex, e, f) = >>=-eq-ok (normalize_hex value 8 (text "IEEE address")) _ h in
    let v = normalize_hex-IsHexText value 8 (text "IEEE address") e in
    let back : normalize_hex (colons hex) 8 (text "IEEE address") ≡ ok hex =
      normalize_hex-eq-ok 8 (colons hex) (text "IEEE address") (normalized-join 8 hex v) v in
    (
      colons hex,
      subst (λ t. format_homey_hex (hex_string t) 8 (text "EUI64") ≡ ok (colons hex)) (cc)
          (format_homey_hex-eq-ok 7 (b'0' ∷ b'x' ∷ hex) (text "EUI64")
            (normalize_hex-eq-ok 8 _ (text "EUI64") (normalized-prefixed 8 hex v) v)),
      rw back f,
      format_homey_hex-eq-ok 7 (colons hex) (text "EUI64")
          (normalize_hex-eq-ok 8 _ (text "EUI64") (normalized-join 8 hex v) v),
    )

-- Every text either normalises to sixteen digits, and both conversions succeed with these digits;
-- or it does not, and both throw a `TypeError` that names the text.
pub conversion_cases :
    (value : Text)
    → (IsHexText 8 (normalized value)
        × (homey_ieee_to_eui64 value ≡ ok (b'0' ∷ b'x' ∷ normalized value))
        × (eui64_to_homey_ieee value ≡ ok (colons (normalized value))))
      ⊎ ((¬ IsHexText 8 (normalized value))
          × (homey_ieee_to_eui64 value ≡ err (invalid (text "IEEE address") value))
          × (eui64_to_homey_ieee value ≡ err (invalid (text "EUI64") value)))
unfolding homey_ieee_to_eui64 eui64_to_homey_ieee format_homey_hex normalize_hex
conversion_cases value =
    elim (Bool-cases (all is_hex (normalized value) && length (normalized value) == 16)) [
      | inl good ↦
          let v : IsHexText 8 (normalized value) = ground arith in
          inl (v, rw good, rw good (join_pairs-eq-ok 7 (normalized value) v))
      | inr bad ↦ inr (λ v. ground (arith, v.digits, v.size), rw bad, rw bad)
    ]

-- The same at a stated size, as the radio store uses it.
pub format_homey_hex-bytes :
    (bytes : List ℕ) (n : ℕ) (label : Text)
    → All IsByte bytes
    → length bytes ≡ suc n
    → (t : Text) × (format_homey_hex (hex_bytes bytes) (suc n) label ≡ ok t)
      × ((label' : Text) → homey_hex_to_buffer t (suc n) label' ≡ ok bytes)
format_homey_hex-bytes [] n label h k = absurd (omega arith)
format_homey_hex-bytes (b ∷ bs) n label h k =
    subst
      (λ size.
        (t : Text) × (format_homey_hex (hex_bytes (b ∷ bs)) size label ≡ ok t)
        × ((label' : Text) → homey_hex_to_buffer t size label' ≡ ok (b ∷ bs)))
      k (_, formatted b bs label h, λ label'. read_back b bs label' h)
