-- ===== src/Controller/Zdo.antt =====
-- enhancements/0001-zigbee-ember/src/HomeyEmberController.mts: the requests that Homey makes of a
-- node by ZDO (Zigbee device objects). herdsman's adapter, its ZDO tables and Homey's address book
-- are parameters.
pub mod Status
pub mod Tables
pub mod Joining
use homey_shs_enhanced.Controller.SendErrors.{translate_send_error}
use homey_shs_enhanced.Address.{eui64_to_homey_ieee, homey_ieee_to_eui64}
use homey_shs_enhanced.Json.{decimal}
use homey_shs_enhanced.Controller.ZdoData.{
  AnswerData, AnswerKind, Arg, BindingEntry, HomeyBinding, HomeyBindingTable, HomeyCapabilities,
  HomeyMatchDescriptor, HomeySimpleDescriptor, NodeUpdate, RequestOptions, ZdoNames, ZdoRequest,
  address_data, bool_arg, capabilities, endpoints_data, flags_data, match_data, no_data, num_arg,
  nums_arg, simple_data, table_data, text_arg, timeout_of, to_endpoint, to_group,
}
use homey_shs_enhanced.Prelude.{
  ◌>>◌, plain_error, length, text, timeout_error, binding_table_full_error, Result, or_default,
  Thrown, Option, List, Bool, Text, ℕ, [], true, false, none, some, ok, err, ◌||◌, if◌then◌else◌,
  ◌%◌, ◌++◌, ◌==◌, ◌∷◌, ◌/◌, ◌>>=◌,
}

-- `names`: herdsman's numbers. `get_network_address`: the base class's. `ready`: the adapter is
-- there. `answer`: how the promise of `withAbort(adapter.sendHomeyZdo(...))` is settled.
-- `timeout_message`: the message of a `TimeoutError` that is given none.
module _ (names : ZdoNames) (get_network_address : Text → Result ℕ) (ready : Bool)
    (timeout_message : ℕ → Text)
    (answer : (k : AnswerKind) → ZdoRequest → Result (Option (ℕ × AnswerData k))) where
  unfoldable pub status_label : ℕ → Text
  status_label status = or_default (names.label status) (decimal status)

  unfoldable pub assert_zdo_success : {D : Type 0} → ℕ × D → RequestOptions → Result D
  assert_zdo_success (status, d) options =
      if status == names.success
      then ok d
      else if status == names.table_full || status == names.device_binding_table_full
      then err (binding_table_full_error (status_label status))
      else if status == names.timeout
      then err (timeout_error (timeout_of options) (timeout_message (timeout_of options)))
      else err (plain_error (text "ZDO request failed with status=" ++ status_label status))

  abbrev translated : {A : Type 0} → ℕ → Result A → Result A
  translated timeout (ok a) = ok a
  translated timeout (err e) = err (translate_send_error e timeout)

  abbrev check_aborted : Option Thrown → Result (Unit {0})
  check_aborted none = ok tt
  check_aborted (some reason) = err reason

  abbrev require_adapter : Bool → Result (Unit {0})
  require_adapter true = ok tt
  require_adapter false = err (plain_error (text "Ember adapter is not ready"))

  abbrev require_response : {D : Type 0} → ℕ → Option (ℕ × D) → Result (ℕ × D)
  require_response timeout none = err (timeout_error timeout (timeout_message timeout))
  require_response timeout (some r) = ok r

  -- `sendZdo`, with the network address given.
  unfoldable pub send_zdo_to :
      (k : AnswerKind) → Text → ℕ → List Arg → RequestOptions → ℕ → Result (ℕ × AnswerData k)
  send_zdo_to k ieee cluster args options network_address = do
    response ← translated (timeout_of options) (do
      check_aborted options.aborted
      require_adapter ready
      eui64 ← homey_ieee_to_eui64 ieee
      answer k (record {
        eui64 = eui64;
        network_address = network_address;
        cluster_id = cluster;
        args = args;
        timeout = timeout_of options;
        signal = options.signal;
      }))
    require_response (timeout_of options) response

  -- `sendZdo`, with the address that the base class knows.
  unfoldable pub send_zdo :
      (k : AnswerKind) → Text → ℕ → List Arg → RequestOptions → Result (ℕ × AnswerData k)
  send_zdo k ieee cluster args options = do
    network_address ← get_network_address ieee
    send_zdo_to k ieee cluster args options network_address

  unfoldable pub request_leave : Text → RequestOptions → Result Bool
  request_leave ieee options = do
    response ←
        send_zdo no_data ieee names.leave_request
          (text_arg (text "0x0000000000000000") ∷ num_arg names.without_rejoin ∷ []) options
    assert_zdo_success response options
    ok true

  -- The arguments that `_bind` and `_unbind` send.
  unfoldable pub binding_args : Text → ℕ → ℕ → Text → ℕ → Result (List Arg)
  binding_args ieee endpoint cluster target target_endpoint = do
    source ← homey_ieee_to_eui64 ieee
    destination ← homey_ieee_to_eui64 target
    ok (
        text_arg source
        ∷ num_arg endpoint
        ∷ num_arg cluster
        ∷ num_arg 3
        ∷ text_arg destination
        ∷ num_arg 0
        ∷ num_arg target_endpoint
        ∷ [])

  unfoldable pub change_binding : ℕ → Text → ℕ → ℕ → Text → ℕ → RequestOptions → Result Text
  change_binding request ieee endpoint cluster target target_endpoint options = do
    args ← binding_args ieee endpoint cluster target target_endpoint
    response ← send_zdo no_data ieee request args options
    assert_zdo_success response options
    ok (status_label response.0)

  unfoldable pub bind : Text → ℕ → ℕ → Text → ℕ → RequestOptions → Result Text
  bind = change_binding names.bind_request

  unfoldable pub unbind : Text → ℕ → ℕ → Text → ℕ → RequestOptions → Result Text
  unbind = change_binding names.unbind_request

  unfoldable pub homey_binding : BindingEntry → Result HomeyBinding
  homey_binding entry = do
    source ← eui64_to_homey_ieee entry.source_eui64
    destination ← if entry.dest_addr_mode == 1 then ok (to_group entry.dest_group) else (do
      address ← eui64_to_homey_ieee entry.dest_eui64
      ok (to_endpoint address entry.dest_endpoint))
    ok (record {
      src_address = source;
      src_endpoint = entry.source_endpoint;
      cluster_id = entry.cluster_id;
      dst_addr_mode = entry.dest_addr_mode;
      destination = destination;
    })

  -- `entryList.map(...)`, which throws at the first entry that throws.
  unfoldable pub homey_bindings : List BindingEntry → Result (List HomeyBinding)
  homey_bindings [] = ok []
  homey_bindings (entry ∷ entries) = do
    b ← homey_binding entry
    bs ← homey_bindings entries
    ok (b ∷ bs)

  unfoldable pub get_binding_table : Text → ℕ → RequestOptions → Result HomeyBindingTable
  get_binding_table ieee start_index options = do
    response ←
        send_zdo table_data ieee names.binding_table_request (num_arg start_index ∷ []) options
    table ← assert_zdo_success response options
    bindings ← homey_bindings table.entry_list
    ok (record {
      status = status_label response.0;
      binding_table_entries = table.binding_table_entries;
      start_index = table.start_index;
      binding_table_list_count = length bindings;
      binding_table_list = bindings;
    })

  unfoldable pub get_active_endpoints : Text → RequestOptions → Result (List ℕ)
  get_active_endpoints ieee options = do
    address ← get_network_address ieee
    response ←
        send_zdo endpoints_data ieee names.active_endpoints_request (num_arg address ∷ []) options
    assert_zdo_success response options

  unfoldable pub get_simple_descriptor : Text → ℕ → RequestOptions → Result HomeySimpleDescriptor
  get_simple_descriptor ieee endpoint options = do
    address ← get_network_address ieee
    response ←
        send_zdo simple_data ieee names.simple_descriptor_request
          (num_arg address ∷ num_arg endpoint ∷ []) options
    d ← assert_zdo_success response options
    ok (record {
      status = status_label response.0;
      nwk_addr_of_interest = d.nwk_address;
      reserved = d.size;
      endpoint_id = d.endpoint;
      application_profile_id = d.profile_id;
      application_device_id = d.device_id;
      application_device_version = d.device_version % 16;
      reserved1 = d.device_version / 16;
      input_clusters = d.in_cluster_list;
      output_clusters = d.out_cluster_list;
    })

  unfoldable pub get_match_descriptor :
      Text → ℕ → List ℕ → List ℕ → RequestOptions → Result HomeyMatchDescriptor
  get_match_descriptor ieee profile input_clusters output_clusters options = do
    address ← get_network_address ieee
    response ←
        send_zdo match_data ieee names.match_descriptors_request
          (num_arg address
            ∷ num_arg profile
            ∷ nums_arg input_clusters
            ∷ nums_arg output_clusters
            ∷ [])
          options
    d ← assert_zdo_success response options
    ok (record {
      status = status_label response.0;
      nwk_addr_of_interest = d.nwk_address;
      match_list = d.endpoint_list;
    })

  unfoldable pub get_node_capabilities : Text → RequestOptions → Result HomeyCapabilities
  get_node_capabilities ieee options = do
    address ← get_network_address ieee
    response ← send_zdo flags_data ieee names.node_descriptor_request (num_arg address ∷ []) options
    flags ← assert_zdo_success response options
    ok (capabilities flags)

  -- Besides its result, a request for an address updates the address book.
  unfoldable pub request_network_address : Text → RequestOptions → Result (ℕ × List NodeUpdate)
  request_network_address ieee options = do
    eui64 ← homey_ieee_to_eui64 ieee
    response ←
        send_zdo_to address_data ieee names.network_address_request
          (text_arg eui64 ∷ bool_arg false ∷ num_arg 0 ∷ []) options names.rx_on_when_idle
    d ← assert_zdo_success response options
    ok (d.nwk_address, (ieee, d.nwk_address) ∷ [])

  unfoldable pub request_ieee_address : ℕ → RequestOptions → Result (Text × List NodeUpdate)
  request_ieee_address network_address options = do
    response ←
        send_zdo_to address_data names.blank_eui64 names.ieee_address_request
          (num_arg network_address ∷ bool_arg false ∷ num_arg 0 ∷ []) options network_address
    d ← assert_zdo_success response options
    ieee ← eui64_to_homey_ieee d.eui64
    ok (ieee, (ieee, d.nwk_address) ∷ [])
