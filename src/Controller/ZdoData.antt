-- ===== src/Controller/ZdoData.antt =====
-- enhancements/0001-zigbee-ember/src/HomeyEmberController.mts: what the requests that Homey makes of
-- a node by ZDO are built from, what a node answers, and what Homey is given of it.
use homey_shs_enhanced.Prelude.{or_default, Thrown, Option, List, Bool, Text, ℕ}

abbrev pub default_zdo_timeout_ms : ℕ
default_zdo_timeout_ms = 10_000

-- The names and numbers that herdsman's `Zdo` and `ZSpec` give.
pub record ZdoNames : Type 0 where
  pub success : ℕ
  pub table_full : ℕ
  pub device_binding_table_full : ℕ
  pub timeout : ℕ
  -- `Zdo.Status[status]`.
  pub label : ℕ → Option Text
  pub leave_request : ℕ
  pub bind_request : ℕ
  pub unbind_request : ℕ
  pub binding_table_request : ℕ
  pub active_endpoints_request : ℕ
  pub simple_descriptor_request : ℕ
  pub match_descriptors_request : ℕ
  pub node_descriptor_request : ℕ
  pub network_address_request : ℕ
  pub ieee_address_request : ℕ
  pub without_rejoin : ℕ
  pub rx_on_when_idle : ℕ
  pub blank_eui64 : Text

-- The arguments of `buildRequest`.
pub data Arg : Type 0 where
  text_arg : Text → Arg
  num_arg : ℕ → Arg
  bool_arg : Bool → Arg
  nums_arg : List ℕ → Arg

-- What `sendHomeyZdo` is given, the payload by what it is built from.
pub record ZdoRequest : Type 0 where
  pub eui64 : Text
  pub network_address : ℕ
  pub cluster_id : ℕ
  pub args : List Arg
  pub timeout : ℕ
  pub signal : Option ℕ

-- `RequestOptsInternal`: a timeout, and a signal, by a number, with its abort reason if it is
-- already aborted.
pub record RequestOptions : Type 0 where
  pub timeout : Option ℕ
  pub aborted : Option Thrown
  pub signal : Option ℕ

abbrev pub timeout_of : RequestOptions → ℕ
timeout_of options = or_default options.timeout default_zdo_timeout_ms

pub record BindingEntry : Type 0 where
  pub source_eui64 : Text
  pub source_endpoint : ℕ
  pub cluster_id : ℕ
  pub dest_addr_mode : ℕ
  -- `entry.dest`: a group's number in mode 1, an EUI64 otherwise.
  pub dest_group : ℕ
  pub dest_eui64 : Text
  pub dest_endpoint : ℕ

pub data Destination : Type 0 where
  to_group : ℕ → Destination
  to_endpoint : Text → ℕ → Destination

pub record HomeyBinding : Type 0 where
  pub src_address : Text
  pub src_endpoint : ℕ
  pub cluster_id : ℕ
  pub dst_addr_mode : ℕ
  pub destination : Destination

pub record BindingTable : Type 0 where
  pub entry_list : List BindingEntry
  pub binding_table_entries : ℕ
  pub start_index : ℕ

pub record HomeyBindingTable : Type 0 where
  pub status : Text
  pub binding_table_entries : ℕ
  pub start_index : ℕ
  pub binding_table_list_count : ℕ
  pub binding_table_list : List HomeyBinding

pub record SimpleDescriptor : Type 0 where
  pub nwk_address : ℕ
  pub size : ℕ
  pub endpoint : ℕ
  pub profile_id : ℕ
  pub device_id : ℕ
  pub device_version : ℕ
  pub in_cluster_list : List ℕ
  pub out_cluster_list : List ℕ

pub record HomeySimpleDescriptor : Type 0 where
  pub status : Text
  pub nwk_addr_of_interest : ℕ
  pub reserved : ℕ
  pub endpoint_id : ℕ
  pub application_profile_id : ℕ
  pub application_device_id : ℕ
  pub application_device_version : ℕ
  pub reserved1 : ℕ
  pub input_clusters : List ℕ
  pub output_clusters : List ℕ

pub record MatchDescriptor : Type 0 where
  pub nwk_address : ℕ
  pub endpoint_list : List ℕ

pub record HomeyMatchDescriptor : Type 0 where
  pub status : Text
  pub nwk_addr_of_interest : ℕ
  pub match_list : List ℕ

-- Each flag by its truth value.
pub record MacFlags : Type 0 where
  pub alternate_pan_coordinator : Bool
  pub device_type : Bool
  pub power_source : Bool
  pub rx_on_when_idle : Bool
  pub security_capability : Bool
  pub allocate_address : Bool

pub record HomeyCapabilities : Type 0 where
  pub alternate_pan_coordinator : Bool
  pub device_type : Bool
  pub power_source_mains : Bool
  pub receive_when_idle : Bool
  pub security : Bool
  pub allocate_address : Bool

unfoldable pub capabilities : MacFlags → HomeyCapabilities
capabilities value = record {
  alternate_pan_coordinator = value.alternate_pan_coordinator;
  device_type = value.device_type;
  power_source_mains = value.power_source;
  receive_when_idle = value.rx_on_when_idle;
  security = value.security_capability;
  allocate_address = value.allocate_address;
}

pub record AddressAnswer : Type 0 where
  pub eui64 : Text
  pub nwk_address : ℕ

-- The requests by what a node answers.
pub data AnswerKind : Type 0 where
  no_data table_data endpoints_data simple_data match_data flags_data address_data : AnswerKind

abbrev pub AnswerData : AnswerKind → Type 0
AnswerData no_data = Unit {0}
AnswerData table_data = BindingTable
AnswerData endpoints_data = List ℕ
AnswerData simple_data = SimpleDescriptor
AnswerData match_data = MatchDescriptor
AnswerData flags_data = MacFlags
AnswerData address_data = AddressAnswer

-- A call of the base class's `updateNodeAddress`.
abbrev pub NodeUpdate : Type 0
NodeUpdate = Text × ℕ
