-- ===== src/Tests/Codecs.antt =====
-- Addresses, credentials and delays at concrete inputs.
use homey_shs_enhanced.Address.Digits.{IsByte}
use homey_shs_enhanced.Promises.Races.{
  races_first, within_verdict, timeout_verdict, abort_verdict, first_verdict, race_after,
}
use homey_shs_enhanced.Address.Codec.{eui64_to_homey_ieee-homey_ieee_to_eui64}
use homey_shs_enhanced.Address.{
  is_hex, normalize_hex, homey_ieee_to_eui64, normalized, eui64_to_homey_ieee,
}
use homey_shs_enhanced.Backoff.Schedule.{backoff_after-eq, backoff_after}
use homey_shs_enhanced.Promises.{
  RaceEvent, settle_within, settle_within_step, with_timeout, timeout_step, settles, aborts,
  expires, with_abort, abort_step, run_race,
}
use homey_shs_enhanced.Backoff.{retry_initial_ms, live_signal, retry_max_ms, Doubles}
use homey_shs_enhanced.Prelude.{
  to_lower, All, ltb, all, refl, zero, suc, arith, plain_error, ℕ, min, text, List, Thrown, Text,
  [], true, ok, err, ◌^◌, ◌∷◌, ◌/◌, ◌≤◌, ◌≡◌, ◌+◌, ◌*◌,
}

abbrev key : List ℕ
key = 0x1a ∷ 2 ∷ 3 ∷ 4 ∷ 5 ∷ 6 ∷ 7 ∷ 8 ∷ 9 ∷ 10 ∷ 11 ∷ 12 ∷ 13 ∷ 14 ∷ 15 ∷ 0xff ∷ []

pub octets : (bs : List ℕ) → all (λ b. ltb b 256) bs ≡ true → All IsByte bs
octets [] h = tt
octets (b ∷ bs) h = (ground arith, octets bs (ground arith))

abbrev homey_address : Text
homey_address = text "00:12:4B:00:1c:dd:ee:ff"

eui64_to_homey_ieee-homey_ieee_to_eui64_example :
    (ieee : Text) × (eui64_to_homey_ieee (text "0x00124b001cddeeff") ≡ ok ieee)
    × (homey_ieee_to_eui64 ieee ≡ ok (text "0x00124b001cddeeff"))
    × (eui64_to_homey_ieee ieee ≡ ok ieee)
unfolding homey_ieee_to_eui64 normalize_hex normalized text to_lower is_hex
eui64_to_homey_ieee-homey_ieee_to_eui64_example =
    eui64_to_homey_ieee-homey_ieee_to_eui64 homey_address refl

backoff_after-eq_example : backoff_after 7 ≡ min (retry_initial_ms * 2 ^ 7) retry_max_ms
backoff_after-eq_example = backoff_after-eq 7

pub tenth_mono : (a b : ℕ) → a ≤ b → a / 10 ≤ b / 10
tenth_mono a b h = omega arith

pub mul_mono_left : (a b c : ℕ) → a ≤ b → a * c ≤ b * c
mul_mono_left a b zero h = omega arith
mul_mono_left a b (suc c) h = omega (arith, mul_mono_left a b c h)

pub mul_mono_right : (a b c : ℕ) → b ≤ c → a * b ≤ a * c
mul_mono_right zero b c h = omega arith
mul_mono_right (suc a) b c h = omega (arith, mul_mono_right a b c h)

-- Tenths, rounded down, in place of doubles.
abbrev pub tenths : Doubles
tenths = record {
  Double = ℕ;
  from_int = λ n. n * 10;
  plus = λ a b. a + b;
  times = λ a b. a * b / 10;
  round = λ a. a / 10;
  zero_point_eight = 8;
  zero_point_four = 4;
  Le = λ a b. a ≤ b;
  plus_mono = λ a b c h. omega arith;
  times_mono_left = λ a b c h. tenth_mono (a * c) (b * c) (mul_mono_left a b c h);
  times_mono_right = λ a b c h. tenth_mono (a * b) (a * c) (mul_mono_right a b c h);
  round_mono = λ a b h. omega arith;
}

abbrev stopped : Thrown
stopped = plain_error (text "Homey is shutting down")

abbrev events : List (RaceEvent ℕ)
events = expires ∷ aborts stopped ∷ settles (ok 7) ∷ []

abbrev failure : List (RaceEvent (Unit {0}))
failure = settles (err stopped) ∷ []

races_first_example :
    (run_race abort_step (with_abort live_signal) events
      ≡ race_after (first_verdict abort_verdict events))
    × (run_race (timeout_step 5_000 (text "Ember adapter stop")) with_timeout events
        ≡ race_after (first_verdict (timeout_verdict 5_000 (text "Ember adapter stop")) events))
    × (run_race settle_within_step (settle_within true) failure
        ≡ race_after (first_verdict within_verdict failure))
races_first_example = races_first 5_000 (text "Ember adapter stop") events failure
