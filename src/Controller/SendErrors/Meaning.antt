-- ===== src/Controller/SendErrors/Meaning.antt =====
-- enhancements/0001-zigbee-ember/src/HomeyEmberController.mts: the errors that
-- `translateSendError` gives.
use homey_shs_enhanced.Controller.SendErrors.{
  status_in, layer_is, is_unreachable_status, translate_status, translate_message,
  translate_send_error,
}
use homey_shs_enhanced.Prelude.{
  Text, text_eq, unreachable_error, timeout_error, contains, type_error, status_error, text,
  message_of, ℕ, StatusError, Thrown, plain_error, text_eq_refl, refl, true, false, ◌++◌, arith,
  not, ◌≡◌, if◌then◌else◌, ◌&&◌,
}

-- Whatever is thrown, its message survives the translation.
pub message_of-translate_send_error :
    (error : Thrown) (timeout : ℕ)
    → message_of (translate_send_error error timeout) ≡ message_of error
unfolding translate_send_error translate_message translate_status
message_of-translate_send_error (status_error e) timeout = ground arith
message_of-translate_send_error (type_error m) timeout = ground arith
message_of-translate_send_error _ timeout = ground arith

sl-ne-ezsp : (e : StatusError) → e.layer ≡ text "sl" → layer_is e "ezsp" ≡ false
unfolding text text_eq
sl-ne-ezsp e h = rw h refl

-- A failed delivery that the radio's stack reports always runs Homey's repair: it counts as an
-- unreachable node, but for a timeout outside the list of unreachable statuses.
pub translate_send_error-delivery :
    (e : StatusError) (timeout : ℕ)
    → e.layer ≡ text "sl"
    → e.operation ≡ text "Raw ZCL delivery"
    → translate_send_error (status_error e) timeout ≡ (
        if not (is_unreachable_status e.status_name) && contains (text "TIMEOUT") e.status_name
        then timeout_error timeout e.message
        else unreachable_error e.message (status_error e))
unfolding translate_send_error translate_status
translate_send_error-delivery e timeout layer operation =
    let not_ezsp = sl-ne-ezsp e layer in
    let is_sl : layer_is e "sl" ≡ true = rw layer (text_eq_refl (text "sl")) in
    let raw : text_eq e.operation (text "Raw ZCL delivery") ≡ true =
      rw operation (text_eq_refl (text "Raw ZCL delivery")) in
    ground arith

-- The status that the driver writes into a message is read back from it: a failure that has lost
-- its class, and so its fields, is recognised by its message.
pub translate_send_error-message :
    (operation name : Text) (timeout : ℕ)
    → status_in (operation ++ (text " failed with status=" ++ name)) ≡ name
    → is_unreachable_status name ≡ true
    → let message = operation ++ (text " failed with status=" ++ name) in
      translate_send_error (plain_error message) timeout
      ≡ unreachable_error message (plain_error message)
unfolding translate_send_error translate_message
translate_send_error-message operation name timeout found h = rw (found, h)
