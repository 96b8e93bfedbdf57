-- ===== src/Driver/Dispatch.antt =====
-- enhancements/0001-zigbee-ember/src/homey-ember.cjs: `sendRawZclFrame` and `sendHomeyZdo`, which
-- hand a frame to the coordinator. How each awaited call ends is a parameter; herdsman's numbers are
-- fields of a record.
pub mod Sending
pub mod Asking
pub mod Raw
pub mod Requests
use homey_shs_enhanced.Driver.Statuses.{StatusNames}
use homey_shs_enhanced.Prelude.{Thrown, Text, ℕ, Bool, Option, List, [], true, false, ◌∷◌}

-- The bits of the APS options, which the code joins with `|`.
pub data ApsOption : Type 0 where
  default_options force_route_discovery retry : ApsOption

pub record ApsFrame : Type 0 where
  pub profile_id : ℕ
  pub cluster_id : ℕ
  pub source_endpoint : ℕ
  pub destination_endpoint : ℕ
  pub options : List ApsOption
  pub group_id : ℕ
  pub sequence : ℕ

-- A call of EZSP: the destination, frame, message tag and bytes of `ezspSendUnicast`; the alias,
-- destination, frame, radius, tag and bytes of `ezspSendBroadcast`.
pub data EzspCall : Type 0 where
  unicast : ℕ → ApsFrame → ℕ → List ℕ → EzspCall
  broadcast : ℕ → ℕ → ApsFrame → ℕ → ℕ → List ℕ → EzspCall

pub record HerdsmanNumbers : Type 0 where
  pub names : StatusNames
  pub ok_status : ℕ
  pub timeout_status : ℕ
  -- `EmberOutgoingMessageType.DIRECT`.
  pub direct : ℕ
  -- `FIXED_ENDPOINTS[0]`.
  pub fixed_endpoint : ℕ
  pub fixed_profile_id : ℕ
  pub zdo_profile_id : ℕ
  pub zdo_endpoint : ℕ
  pub null_node_id : ℕ
  pub is_broadcast_address : ℕ → Bool
  -- `getResponseClusterId`.
  pub response_cluster_id : ℕ → Option ℕ
  pub network_address_response : ℕ
  -- The error's `code`, if it is a number.
  pub numeric_code : Thrown → Option ℕ

-- `data` is `none` where the argument is no `Buffer`.
pub record RawRequest : Type 0 where
  pub network_address : ℕ
  pub endpoint : ℕ
  pub cluster_id : ℕ
  pub bytes : Option (List ℕ)
  pub force_route_discovery : Option Bool
  pub source_endpoint : Option ℕ
  pub profile_id : Option ℕ

pub record HomeyZdoRequest : Type 0 where
  pub ieee_address : Text
  pub network_address : ℕ
  pub cluster_id : ℕ
  pub payload : Option (List ℕ)
  pub disable_response : Option Bool
  pub timeout : Option ℕ

abbrev pub default_send_timeout : ℕ
default_send_timeout = 15_000

abbrev pub zdo_request_radius : ℕ
zdo_request_radius = 0xff

abbrev pub route_options : Bool → List ApsOption
route_options true = default_options ∷ force_route_discovery ∷ retry ∷ []
route_options false = default_options ∷ []
