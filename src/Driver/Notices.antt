-- ===== src/Driver/Notices.antt =====
-- enhancements/0001-zigbee-ember/src/homey-ember.cjs: what the adapter tells its controller
-- (`onZDOResponse`, `onMessageSent`, `onStackStatus`, `onNcpNeedsResetAndInit`, `stop` and the handler
-- of route records), beside the calls of herdsman's own handlers.
pub mod Order
use homey_shs_enhanced.Driver.Dispatch.Sending.{delivery_error}
use homey_shs_enhanced.Driver.Dispatch.{HerdsmanNumbers}
use homey_shs_enhanced.Driver.Statuses.{status_name, ezsp_status_name, ezsp_error}
use homey_shs_enhanced.Driver.Pending.{on_message_sent, reject_pending_sends, Sends, Report}
use homey_shs_enhanced.Driver.Dispatch.{HerdsmanNumbers}
use homey_shs_enhanced.Prelude.{text, Result, Option, Text, ℕ, List, [], none, some, ok, err, ◌∷◌}

-- An emitted event, or a call of the base class. `base_message_sent` is made under the multicast
-- lock. A missing first byte of a frame is `none`.
pub data Notice (Parsed : Type 0) : Type 0 where
  -- Sender, endpoint, sequence, cluster and payload of `homeyZdoFrame`, with what parsing gave.
  zdo_frame_notice : ℕ → ℕ → Option ℕ → ℕ → List ℕ → Result Parsed → Notice Parsed
  -- `homeyRadioStatus`: the status and its name.
  stack_notice : ℕ → Text → Notice Parsed
  -- The same of a message, with its type, destination and tag.
  message_sent_notice : ℕ → Text → ℕ → ℕ → ℕ → Notice Parsed
  disconnected_notice : ℕ → Text → Notice Parsed
  route_record_notice : ℕ → Text → Notice Parsed
  base_zdo_response base_message_sent base_stack_status base_needs_reset base_stop : Notice Parsed
  base_route_record : Notice Parsed

abbrev pub head_option : List ℕ → Option ℕ
head_option [] = none
head_option (b ∷ bs) = some b

abbrev pub tail_bytes : List ℕ → List ℕ
tail_bytes [] = []
tail_bytes (b ∷ bs) = bs

module _ {Parsed : Type 0} (h : HerdsmanNumbers) where
  open h use {names, ok_status, timeout_status}

  abbrev pub inherited_response : Result Parsed → List (Notice Parsed)
  inherited_response (ok p) = base_zdo_response ∷ []
  inherited_response (err e) = []

  -- `parsed`: what `readResponse` gives or throws.
  unfoldable pub receive_zdo_response : ℕ → ℕ → ℕ → List ℕ → Result Parsed → List (Notice Parsed)
  receive_zdo_response sender endpoint cluster contents parsed =
      zdo_frame_notice sender endpoint (head_option contents) cluster (tail_bytes contents) parsed
      ∷ inherited_response parsed

  -- `onMessageSent` as a whole: the sends, and what is told.
  unfoldable pub report_message_sent : ℕ → Report → Sends → Sends × List (Notice Parsed)
  report_message_sent tag report s = (
    on_message_sent ok_status timeout_status (delivery_error h) tag report s,
    message_sent_notice report.status (status_name names report.status) report.kind
          report.destination tag
        ∷ base_message_sent
        ∷ [],
  )

  unfoldable pub on_stack_status : ℕ → List (Notice Parsed)
  on_stack_status status = stack_notice status (status_name names status) ∷ base_stack_status ∷ []

  unfoldable pub on_ncp_needs_reset_and_init : ℕ → Sends → Sends × List (Notice Parsed)
  on_ncp_needs_reset_and_init status s = (
    reject_pending_sends ok_status timeout_status (delivery_error h)
        (ezsp_error names (text "Raw ZCL delivery") status) s,
    disconnected_notice status (ezsp_status_name names status) ∷ base_needs_reset ∷ [],
  )

  -- `not_connected` is `EzspStatus.NOT_CONNECTED`.
  unfoldable pub stop_adapter : ℕ → Sends → Sends × List (Notice Parsed)
  stop_adapter not_connected s = (
    reject_pending_sends ok_status timeout_status (delivery_error h)
        (ezsp_error names (text "Raw ZCL delivery") not_connected) s,
    base_stop ∷ [],
  )

  -- The handler that the constructor puts in front of EZSP's.
  unfoldable pub receive_route_record : ℕ → Text → List (Notice Parsed)
  receive_route_record source source_eui =
      base_route_record ∷ route_record_notice source source_eui ∷ []
