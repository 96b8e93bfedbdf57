-- ===== src/Controller/Events.antt =====
-- enhancements/0001-zigbee-ember/src/HomeyEmberController.mts: the handlers of the adapter's events
-- (`onZclPayload`, `onDeviceJoined`, `onDeviceLeave`, `onZdoFrame`, `onRouteRecord`). Each gives what
-- it makes the controller do, up to where it throws: its caller ignores the error. herdsman's
-- numbers, Homey's nodes and its address book are parameters.
pub mod Updates
use homey_shs_enhanced.Address.{eui64_to_homey_ieee}
use homey_shs_enhanced.Controller.ZdoData.{HomeyCapabilities, capabilities, MacFlags}
use homey_shs_enhanced.Prelude.{
  ◌>>=◌, or_default, text, type_error, List, Bool, Option, Text, ℕ, Result, [], none, some, ok, err,
  ◌==◌, ◌∷◌, ◌++◌, if◌then◌else◌,
}

-- A call of Homey's base class, an emitted event, or `scheduleBackup`.
pub data Action : Type 0 where
  update_node_address node_joined : Text → ℕ → Action
  node_left update_last_seen : Text → Action
  schedule_backup : Action
  -- The address, endpoint, cluster, bytes, group and destination endpoint of `handleZclFrame`.
  handle_zcl_frame : Text → ℕ → ℕ → List ℕ → Option ℕ → ℕ → Action
  -- The address, sender, cluster, endpoint and bytes of `zdoFrameReceived`.
  zdo_frame_received : Text → ℕ → ℕ → ℕ → List ℕ → Action
  end_device_announce : Text → ℕ → HomeyCapabilities → Action
  network_address_response ieee_address_response : ℕ → Text → ℕ → Action

-- `payload.address`: herdsman gives an EUI64 or a network address.
pub data Address : Type 0 where
  by_eui64 : Text → Address
  by_network : ℕ → Address

pub record ZclPayload : Type 0 where
  pub address : Address
  pub endpoint : ℕ
  pub cluster_id : ℕ
  pub bytes : List ℕ
  pub group_id : Option ℕ
  pub destination_endpoint : Option ℕ

-- The part of a parsed ZDO response that `onZdoFrame` reads.
pub record ZdoParsed : Type 0 where
  pub eui64 : Option Text
  pub nwk_address : ℕ
  pub flags : MacFlags

pub record ZdoFrame : Type 0 where
  pub sender : ℕ
  pub endpoint : ℕ
  pub cluster_id : ℕ
  pub payload : List ℕ
  pub response : Option (ℕ × Option ZdoParsed)

abbrev pub coordinator_endpoint : ℕ
coordinator_endpoint = 1

-- `text ? f(text) : undefined`, where the empty text is false.
abbrev pub convert_truthy : Option Text → Result (Option Text)
convert_truthy none = ok none
convert_truthy (some []) = ok none
convert_truthy (some (c ∷ s)) = eui64_to_homey_ieee (c ∷ s) >>= λ ieee. ok (some ieee)

-- `eui64ToHomeyIeee(text)`, which throws a `TypeError` for `undefined`.
abbrev pub convert : Option Text → Result Text
convert none = err (type_error (text "Cannot read properties of undefined (reading 'replace')"))
convert (some s) = eui64_to_homey_ieee s

-- `groupID ? { groupId } : {}`.
abbrev pub truthy_number : Option ℕ → Option ℕ
truthy_number none = none
truthy_number (some n) = if n == 0 then none else some n

-- What is done with an address that was found; nothing if none was, or if converting threw.
abbrev pub for_address : Result (Option Text) → (Text → List Action) → List Action
for_address (err e) act = []
for_address (ok none) act = []
for_address (ok (some ieee)) act = act ieee

abbrev pub for_converted : Result Text → (Text → List Action) → List Action
for_converted (err e) act = []
for_converted (ok ieee) act = act ieee

-- `find_ieee_address`: the address book's answer, `none` if it throws. `is_node`: `getNode` finds
-- one.
module _ (success announce network_response ieee_response : ℕ) (find_ieee_address : ℕ → Option Text)
    (is_node : Text → Bool) where
  abbrev pub payload_address : Address → Result (Option Text)
  payload_address (by_eui64 eui64) = eui64_to_homey_ieee eui64 >>= λ ieee. ok (some ieee)
  payload_address (by_network address) = ok (find_ieee_address address)

  unfoldable pub on_zcl_payload : ZclPayload → List Action
  on_zcl_payload p = for_address (payload_address p.address) λ ieee.
      handle_zcl_frame ieee p.endpoint p.cluster_id p.bytes (truthy_number p.group_id)
        (or_default p.destination_endpoint coordinator_endpoint)
      ∷ []

  unfoldable pub on_device_joined : Text → ℕ → List Action
  on_device_joined eui64 network_address = for_converted (eui64_to_homey_ieee eui64) λ ieee.
      update_node_address ieee network_address
      ∷ node_joined ieee network_address
      ∷ schedule_backup
      ∷ []

  abbrev pub leaving_address : Option Text → Option ℕ → Result (Option Text)
  leaving_address (some (c ∷ s)) address = convert_truthy (some (c ∷ s))
  leaving_address _ none = ok none
  leaving_address _ (some address) = ok (find_ieee_address address)

  unfoldable pub on_device_leave : Option Text → Option ℕ → List Action
  on_device_leave eui64 network_address =
      for_address (leaving_address eui64 network_address)
        λ ieee. node_left ieee ∷ schedule_backup ∷ []

  abbrev pub parsed_eui64 : Option (ℕ × Option ZdoParsed) → Option Text
  parsed_eui64 none = none
  parsed_eui64 (some (status, none)) = none
  parsed_eui64 (some (status, some p)) = p.eui64

  abbrev received : Option Text → ZdoFrame → List Action
  received none frame = []
  received (some ieee) frame =
      zdo_frame_received ieee frame.sender frame.cluster_id frame.endpoint frame.payload ∷ []

  -- The `switch` for a successful response.
  unfoldable pub on_zdo_response : ZdoFrame → ZdoParsed → List Action
  on_zdo_response frame p = for_converted (convert p.eui64) λ ieee.
      if frame.cluster_id == announce
      then update_node_address ieee p.nwk_address
        ∷ end_device_announce ieee p.nwk_address (capabilities p.flags)
        ∷ []
      else if frame.cluster_id == network_response
      then network_address_response success ieee p.nwk_address ∷ []
      else if frame.cluster_id == ieee_response
      then ieee_address_response success ieee p.nwk_address ∷ []
      else []

  abbrev pub responded : ZdoFrame → Option (ℕ × Option ZdoParsed) → List Action
  responded frame none = []
  responded frame (some (status, none)) = []
  responded frame (some (status, some p)) =
      if status == success then on_zdo_response frame p else []

  abbrev or_sender : Option Text → ℕ → Option Text
  or_sender none sender = find_ieee_address sender
  or_sender (some ieee) sender = some ieee

  abbrev pub zdo_actions : Result (Option Text) → ZdoFrame → List Action
  zdo_actions (err e) frame = []
  zdo_actions (ok parsed) frame =
      received (or_sender parsed frame.sender) frame ++ responded frame frame.response

  unfoldable pub on_zdo_frame : ZdoFrame → List Action
  on_zdo_frame frame = zdo_actions (convert_truthy (parsed_eui64 frame.response)) frame

  unfoldable pub on_route_record : ℕ → Text → List Action
  on_route_record sender eui64 = for_converted (eui64_to_homey_ieee eui64) λ source.
      for_address (ok (if is_node source then some source else find_ieee_address sender))
        λ ieee. update_last_seen ieee ∷ []
