-- ===== src/Controller/Zdo/Joining.antt =====
-- enhancements/0001-zigbee-ember/src/HomeyEmberController.mts: `_permitJoin`, with the calls of the
-- adapter that it makes. `ready`: the adapter is there. `outcome`: how each call ends.
use homey_shs_enhanced.Address.{homey_ieee_to_eui64, is_hex, from_hex}
use homey_shs_enhanced.Address.{to_hex}
use homey_shs_enhanced.Prelude.{
  All, ◌<◌, type_error, text, to_lower, plain_error, not, map, Thrown, Option, length, all, ℕ, List,
  Text, Bool, Result, [], false, none, some, ok, err, if◌then◌else◌, ◌∷◌, ◌==◌, ◌⊎◌, ◌≡◌, ◌&&◌,
}

pub data AdapterCall : Type 0 where
  add_install_code : Text → List ℕ → Bool → AdapterCall
  permit_joining : ℕ → AdapterCall

pub record InstallCode : Type 0 where
  pub ieee_address : Text
  pub code : Text

-- `/^[0-9a-f]{36}$/i`.
unfoldable pub is_install_code : Text → Bool
is_install_code code = all is_hex (map to_lower code) && length code == 36

-- `Buffer.from(code, 'hex')`, which reads capitals too.
unfoldable pub install_bytes : Text → List ℕ
install_bytes code = from_hex (map to_lower code)

abbrev pub after_call :
    AdapterCall
    → Result (Unit {0})
    → List AdapterCall × Result (Unit {0})
    → List AdapterCall × Result (Unit {0})
after_call c (ok _) (calls, r) = (c ∷ calls, r)
after_call c (err e) later = (c ∷ [], err e)

module _ (ready : Bool) (outcome : AdapterCall → Result (Unit {0})) where
  unfoldable pub call : AdapterCall → List AdapterCall × Result (Unit {0})
  call c = (c ∷ [], outcome c)

  abbrev with_code : Text → List ℕ → ℕ → Result Text → List AdapterCall × Result (Unit {0})
  with_code code bytes duration (err e) = ([], err e)
  with_code code bytes duration (ok eui64) =
      let c = add_install_code eui64 bytes false in
      after_call c (outcome c) (call (permit_joining duration))

  unfoldable pub permit_join : ℕ → Option InstallCode → List AdapterCall × Result (Unit {0})
  permit_join duration install =
      if not ready
      then ([], err (plain_error (text "Ember adapter is not ready")))
      else elim install [
        | none ↦ call (permit_joining duration)
        | some i ↦
            if not (is_install_code i.code)
            then (
              [],
              err (type_error (text "Install code must be exactly 36 hexadecimal characters")),
            )
            else with_code i.code (install_bytes i.code) duration
                (homey_ieee_to_eui64 i.ieee_address)
      ]

-- The bytes that a code spells: eighteen, which print as the code in small letters.
abbrev pub IsSpelled : Text → List ℕ → Type 0
IsSpelled code bytes =
    (length bytes ≡ 18) × All (λ b. b < 256) bytes × (to_hex bytes ≡ map to_lower code)

-- Why no call of the adapter is made.
abbrev pub IsRefused : Bool → InstallCode → Type 0
IsRefused ready i =
    (ready ≡ false)
    ⊎ ((is_install_code i.code ≡ false)
        ⊎ ((e : Thrown) × (homey_ieee_to_eui64 i.ieee_address ≡ err e)))
