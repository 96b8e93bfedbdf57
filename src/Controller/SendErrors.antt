-- ===== src/Controller/SendErrors.antt =====
-- enhancements/0001-zigbee-ember/src/HomeyEmberController.mts: `translateSendError`, which decides
-- what Homey takes a failed request for.
pub mod Meaning
use homey_shs_enhanced.DeviceErrors.{skip, contains_any_fold}
use homey_shs_enhanced.Prelude.{
  timeout_error, eq_exact, contains_fold, type_error, text, starts_by, status_error, text_eq, leb,
  unreachable_error, contains, String, message_of, or_default, Option, Bool, Text, StatusError,
  Thrown, List, ℕ, [], false, none, some, ◌==◌, if◌then◌else◌, ◌||◌, ◌&&◌, ◌∷◌,
}

abbrev pub unreachable_statuses : List String
unreachable_statuses =
    "NETWORK_DOWN" ∷ "NOT_JOINED" ∷ "MAC_NO_ACK_RECEIVED" ∷ "ZIGBEE_DELIVERY_FAILED"
    ∷ "ZIGBEE_SOURCE_ROUTE_FAILURE" ∷ "ZIGBEE_MANY_TO_ONE_ROUTE_FAILURE" ∷ "ZIGBEE_NO_APS_ACK"
    ∷ "ZIGBEE_SEND_UNICAST_ROUTE_DISCOVERY_UNDERWAY" ∷ "ZIGBEE_SEND_UNICAST_FAILURE"
    ∷ "ZIGBEE_SEND_UNICAST_NO_ROUTE" ∷ []

-- `set.has(name)`.
unfoldable pub has_text : List String → Text → Bool
has_text [] name = false
has_text (s ∷ ss) name = text_eq (text s) name || has_text ss name

unfoldable pub is_unreachable_status : Text → Bool
is_unreachable_status name = has_text unreachable_statuses name

-- `/a|b|.../.test(name)`.
unfoldable pub contains_any : List String → Text → Bool
contains_any [] name = false
contains_any (s ∷ ss) name = contains (text s) name || contains_any ss name

-- `[A-Z0-9_]`.
unfoldable pub is_name_unit : ℕ → Bool
is_name_unit c = (leb b'A' c && leb c b'Z') || (leb b'0' c && leb c b'9') || c == b'_'

-- The longest run of such characters at the front.
unfoldable pub name_prefix : Text → Text
name_prefix [] = []
name_prefix (c ∷ s) = if is_name_unit c then c ∷ name_prefix s else []

-- The name after `status=`, at the place where `s` begins, if there is one.
unfoldable pub status_here : Text → Option Text
status_here s =
    if starts_by eq_exact (text "status=") s
    then elim (name_prefix (skip (text "status=") s)) [ [] ↦ none | c ∷ name ↦ some (c ∷ name) ]
    else none

-- `message.match(/status=([A-Z0-9_]+)/)?.[1] ?? ''`.
unfoldable pub status_in : Text → Text
status_in [] = []
status_in (c ∷ s) = elim (status_here (c ∷ s)) [ some name ↦ name | none ↦ status_in s ]

abbrev pub layer_is : StatusError → String → Bool
layer_is e name = text_eq e.layer (text name)

-- The part for a `HomeyEmberStatusError`; `none` where the function goes on.
unfoldable pub translate_status : StatusError → ℕ → Option Thrown
translate_status e timeout =
    let name = e.status_name in
    if layer_is e "ezsp"
      && (contains_any ("TIMEOUT" ∷ "NO_RESPONSE" ∷ []) name
          || text_eq name (text "ERROR_QUEUE_FULL"))
    then some (timeout_error timeout e.message)
    else if layer_is e "ezsp"
        && contains_any ("NOT_CONNECTED" ∷ "HOST_FATAL" ∷ "NCP_FATAL" ∷ "ASH_" ∷ "SERIAL" ∷ []) name
    then some (unreachable_error e.message (status_error e))
    else if is_unreachable_status name
    then some (unreachable_error e.message (status_error e))
    else if contains (text "TIMEOUT") name
    then some (timeout_error timeout e.message)
    else if layer_is e "sl" && text_eq e.operation (text "Raw ZCL delivery")
    then some (unreachable_error e.message (status_error e))
    else none

-- The part that goes by the message.
unfoldable pub translate_message : Thrown → ℕ → Thrown
translate_message error timeout =
    let message = message_of error in
    if is_unreachable_status (status_in message)
    then unreachable_error message error
    else if contains_fold (text "delivery failed") message
    then unreachable_error message error
    else if contains_any_fold ("timeout" ∷ "timed out" ∷ "no response" ∷ []) message
    then timeout_error timeout message
    else error

abbrev pub status_part : Thrown → ℕ → Option Thrown
status_part (status_error e) timeout = translate_status e timeout
status_part (type_error _) timeout = none
status_part _ timeout = none

unfoldable pub translate_send_error : Thrown → ℕ → Thrown
translate_send_error error timeout =
    or_default (status_part error timeout) (translate_message error timeout)
