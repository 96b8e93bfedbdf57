-- ===== src/Tests/Errors.antt =====
-- Descriptions and translations of errors at concrete inputs.
use homey_shs_enhanced.Controller.SendErrors.Meaning.{translate_send_error-delivery}
use homey_shs_enhanced.Controller.SendErrors.{is_unreachable_status, translate_send_error}
use homey_shs_enhanced.Prelude.{
  timeout_error, contains, not, unreachable_error, status_error, plain_error, text, Text,
  StatusError, Thrown, refl, ◌&&◌, ◌≡◌, if◌then◌else◌,
}

abbrev tty : Text
tty = text "/dev/ttyUSB0"

abbrev closed : Thrown
closed = plain_error (text "ASH reset")

abbrev no_ack : StatusError
no_ack = record {
  operation = text "Raw ZCL delivery";
  status = 0x0c02;
  status_name = text "ZIGBEE_NO_APS_ACK";
  layer = text "sl";
  message = text "Raw ZCL delivery failed with status=ZIGBEE_NO_APS_ACK";
}

translate_send_error-delivery_example : translate_send_error (status_error no_ack) 10_000 ≡ (
    if not (is_unreachable_status no_ack.status_name)
      && contains (text "TIMEOUT") no_ack.status_name
    then timeout_error 10_000 no_ack.message
    else unreachable_error no_ack.message (status_error no_ack))
translate_send_error-delivery_example = translate_send_error-delivery no_ack 10_000 refl refl
