-- ===== src/Tests/Requests.antt =====
-- Requests of a node at concrete inputs.

use homey_shs_enhanced.Address.{is_hex, normalized, normalize_hex, homey_ieee_to_eui64}
use homey_shs_enhanced.Controller.Zdo.Status.{
  bind-unbind-IsSent, IsChanged, change_binding-IsSent, IsSent,
}
use homey_shs_enhanced.Controller.Zdo.Joining.{InstallCode, AdapterCall}
use homey_shs_enhanced.Controller.Zdo.{
  bind, unbind, assert_zdo_success, send_zdo_to, send_zdo, binding_args, change_binding,
  status_label,
}
use homey_shs_enhanced.Controller.ZdoData.{
  address_data, flags_data, match_data, endpoints_data, num_arg, text_arg, to_endpoint, no_data,
  table_data, simple_data, ZdoRequest, AnswerData, RequestOptions, MacFlags, HomeyBindingTable,
  BindingEntry, HomeySimpleDescriptor, AnswerKind, ZdoNames,
}
use homey_shs_enhanced.Prelude.{
  to_lower, Option, Result, text, ℕ, Text, [], refl, true, false, none, some, ok, if◌then◌else◌,
  ◌≡◌, ◌∷◌, ◌==◌,
}

-- Numbers of herdsman's `Zdo`.
abbrev zdo : ZdoNames
zdo = record {
  success = 0;
  table_full = 0x87;
  device_binding_table_full = 0x8c;
  timeout = 0x85;
  label = λ status. if status == 0 then some (text "SUCCESS") else none;
  leave_request = 0x34;
  bind_request = 0x21;
  unbind_request = 0x22;
  binding_table_request = 0x33;
  active_endpoints_request = 5;
  simple_descriptor_request = 4;
  match_descriptors_request = 6;
  node_descriptor_request = 2;
  network_address_request = 0;
  ieee_address_request = 1;
  without_rejoin = 0;
  rx_on_when_idle = 0xfffd;
  blank_eui64 = text "0x0000000000000000";
}

abbrev lamp : Text
lamp = text "00:12:4b:00:1c:dd:ee:01"

abbrev hub : Text
hub = text "00:12:4b:00:1c:dd:ee:02"

abbrev known_address : Text → Result ℕ
known_address ieee = ok 0x1234

abbrev timed_out : ℕ → Text
timed_out ms = text "Timeout"

abbrev lamp_entry : BindingEntry
lamp_entry = record {
  source_eui64 = text "0x00124b001cddee01";
  source_endpoint = 1;
  cluster_id = 6;
  dest_addr_mode = 3;
  dest_group = 0;
  dest_eui64 = text "0x00124b001cddee02";
  dest_endpoint = 1;
}

abbrev no_flags : MacFlags
no_flags = record {
  alternate_pan_coordinator = false;
  device_type = false;
  power_source = false;
  rx_on_when_idle = false;
  security_capability = false;
  allocate_address = false;
}

-- A node that answers every request with success.
abbrev answers : (k : AnswerKind) → AnswerData k
answers no_data = tt
answers table_data = record {
  entry_list = lamp_entry ∷ [];
  binding_table_entries = 1;
  start_index = 0;
}
answers endpoints_data = 1 ∷ []
answers simple_data = record {
  nwk_address = 0x1234;
  size = 8;
  endpoint = 1;
  profile_id = 0x0104;
  device_id = 0x0100;
  device_version = 0x21;
  in_cluster_list = 6 ∷ [];
  out_cluster_list = [];
}
answers match_data = record { nwk_address = 0x1234; endpoint_list = 1 ∷ [] }
answers flags_data = no_flags
answers address_data = record { eui64 = text "0x00124b001cddee01"; nwk_address = 0x1234 }

abbrev node : (k : AnswerKind) → ZdoRequest → Result (Option (ℕ × AnswerData k))
node k request = ok (some (0, answers k))

abbrev no_options : RequestOptions
no_options = record { timeout = none; aborted = none; signal = none }

abbrev homey_table : HomeyBindingTable
homey_table = record {
  status = text "SUCCESS";
  binding_table_entries = 1;
  start_index = 0;
  binding_table_list_count = 1;
  binding_table_list =
      record {
        src_address = lamp;
        src_endpoint = 1;
        cluster_id = 6;
        dst_addr_mode = 3;
        destination = to_endpoint hub 1;
      }
      ∷ [];
}

abbrev lamp_descriptor : HomeySimpleDescriptor
lamp_descriptor = record {
  status = text "SUCCESS";
  nwk_addr_of_interest = 0x1234;
  reserved = 8;
  endpoint_id = 1;
  application_profile_id = 0x0104;
  application_device_id = 0x0100;
  application_device_version = 1;
  reserved1 = 2;
  input_clusters = 6 ∷ [];
  output_clusters = [];
}

change_binding-IsSent_example :
    (source : Text) × (destination : Text) × (address : ℕ) × (homey_ieee_to_eui64 lamp ≡ ok source)
    × (homey_ieee_to_eui64 hub ≡ ok destination)
    × (known_address lamp ≡ ok address)
    × IsSent zdo known_address true timed_out node no_data lamp 0x21
        (text_arg source
          ∷ num_arg 1
          ∷ num_arg 6
          ∷ num_arg 3
          ∷ text_arg destination
          ∷ num_arg 0
          ∷ num_arg 1
          ∷ [])
        no_options
        address
        (0, tt)
    × (text "SUCCESS" ≡ status_label zdo known_address true timed_out node 0)
unfolding change_binding binding_args homey_ieee_to_eui64 normalize_hex normalized text to_lower
    is_hex send_zdo send_zdo_to assert_zdo_success status_label
change_binding-IsSent_example =
    change_binding-IsSent zdo known_address true timed_out node 0x21 lamp 1 6 hub 1 no_options
      (text "SUCCESS") refl

-- The same pair of endpoints bound, and unbound again.
bind-unbind-IsSent_example :
    (bind zdo known_address true timed_out node lamp 1 6 hub 1 no_options ≡ ok (text "SUCCESS")
      → IsChanged zdo known_address true timed_out node 0x21 lamp 1 6 hub 1 no_options
          (text "SUCCESS"))
    × (unbind zdo known_address true timed_out node lamp 1 6 hub 1 no_options ≡ ok (text "SUCCESS")
        → IsChanged zdo known_address true timed_out node 0x22 lamp 1 6 hub 1 no_options
            (text "SUCCESS"))
bind-unbind-IsSent_example =
    bind-unbind-IsSent zdo known_address true timed_out node lamp 1 6 hub 1 no_options
      (text "SUCCESS")

abbrev install : InstallCode
install = record { ieee_address = lamp; code = text "83fed3407a939723a5c639b26916d505c3b5" }

abbrev all_well : AdapterCall → Result (Unit {0})
all_well c = ok tt
