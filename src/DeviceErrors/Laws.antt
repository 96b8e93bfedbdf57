-- ===== src/DeviceErrors/Laws.antt =====
-- enhancements/0001-zigbee-ember/src/device-errors.mts: the parts of a description.
use homey_shs_enhanced.DeviceErrors.{
  is_firmware, code_is, busy_text, is_busy, generic_text, forbidden_text, is_forbidden,
  firmware_text, missing_text, is_missing, describe_adapter_error,
}
use homey_shs_enhanced.Prelude.{
  text, code_of, message_of, Thrown, Bool-cases, system_error, append_assoc, append-nil, [], refl,
  false, none, inl, inr, Text, ◌≡◌, ◌++◌,
}

-- `part` stands in `whole`.
abbrev pub Infix : Text → Text → Type 0
Infix part whole = (before after : Text) × (whole ≡ before ++ (part ++ after))

Infix-middle : (a part b : Text) → Infix part (a ++ part ++ b)
Infix-middle a part b = (a, b, append_assoc a part b)

Infix-append : (part : Text) {whole : Text} (b : Text) → Infix part whole → Infix part (whole ++ b)
Infix-append part b (before, after, e) = (before, after ++ b, rw (e, append_assoc, append_assoc))

Infix-end : (a part : Text) → Infix part (a ++ part)
Infix-end a part = (a, [], rw append-nil)

-- Whatever the error, its description names the device that it is about.
pub describe_adapter_error-names_device :
    (error : Thrown) (device : Text) → Infix device (describe_adapter_error error device)
unfolding describe_adapter_error missing_text forbidden_text busy_text firmware_text generic_text
describe_adapter_error-names_device error device =
    let message = message_of error in
    let code = code_of error in
    elim (Bool-cases (is_missing code message)) [
      | inl h ↦ rw h (Infix-middle _ device _)
      | inr h ↦ elim (Bool-cases (is_forbidden code message)) [
        | inl k ↦ rw (h, k) (Infix-middle _ device _)
        | inr k ↦ elim (Bool-cases (is_busy code message)) [
          | inl b ↦
              rw (h, k, b) (Infix-append device _ (Infix-append device _ (Infix-middle _ device _)))
          | inr b ↦ elim (Bool-cases (is_firmware message)) [
            | inl f ↦
                rw (h, k, b, f)
                  (Infix-append device _ (Infix-append device _ (Infix-middle _ device _)))
            | inr f ↦ rw (h, k, b, f) (Infix-append device _ (Infix-middle _ device _))
          ]
        ]
      ]
    ]

-- An error that is neither a missing, a forbidden nor a busy device is described with its own
-- message, on the firmware branch and on the last one.
pub describe_adapter_error-keeps_cause :
    (error : Thrown) (device : Text)
    → is_missing (code_of error) (message_of error) ≡ false
    → is_forbidden (code_of error) (message_of error) ≡ false
    → is_busy (code_of error) (message_of error) ≡ false
    → Infix (message_of error) (describe_adapter_error error device)
unfolding describe_adapter_error firmware_text generic_text
describe_adapter_error-keeps_cause error device h k b =
    elim (Bool-cases (is_firmware (message_of error))) [
      | inl f ↦ rw (h, k, b, f) (Infix-end _ _)
      | inr f ↦ rw (h, k, b, f) (Infix-end _ _)
    ]

-- The code of a system error decides its description: `ENOENT` whatever the message, `EACCES` and
-- `EPERM` unless the message speaks of a missing file, `EBUSY` unless it speaks of a missing file
-- or of a refused access.
pub describe_adapter_error-errno :
    (message device : Text)
    → (describe_adapter_error (system_error (text "ENOENT") message) device ≡ missing_text device)
      × (is_missing none message ≡ false
          → (describe_adapter_error (system_error (text "EACCES") message) device
              ≡ forbidden_text device)
            × (describe_adapter_error (system_error (text "EPERM") message) device
                ≡ forbidden_text device))
      × (is_missing none message ≡ false
          → is_forbidden none message ≡ false
          → describe_adapter_error (system_error (text "EBUSY") message) device ≡ busy_text device)
unfolding describe_adapter_error is_missing is_forbidden is_busy code_is
describe_adapter_error-errno message device = (refl, λ h. (rw h, rw h), λ h k. rw (h, k))
