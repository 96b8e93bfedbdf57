-- ===== src/Tests/Dispatches.antt =====
-- The handing over of frames, and the lock on the multicast table, at concrete inputs.
use homey_shs_enhanced.Driver.Dispatch.Sending.{send_raw_zcl_frame}
use homey_shs_enhanced.Driver.Dispatch.Raw.{
  send_raw_zcl_frame-IsReported, IsReported, send_raw_zcl_frame-ends, handed_raw, EndsDispatch,
}
use homey_shs_enhanced.Driver.Pending.{Report, no_sends, aborts}
use homey_shs_enhanced.Driver.Lock.Exclusion.{lock_run-refines, lock_run-exclusive}
use homey_shs_enhanced.Driver.Lock.Tickets.{no_tickets, ticket_run, ticket_phase}
use homey_shs_enhanced.Driver.Lock.{
  running, is_resolved, release, begin, enter, lock_step, operation_settles, begins, enters,
  released, unlocked, LockEvent, lock_run,
}
use homey_shs_enhanced.Driver.Dispatch.{HerdsmanNumbers, HomeyZdoRequest, RawRequest}
use homey_shs_enhanced.Prelude.{
  plain_error, arith, leb, text, List, [], refl, true, none, some, ok, ◌≡◌, ◌+◌, ◌∷◌,
}

abbrev numbers : HerdsmanNumbers
numbers = record {
  names = record { sl = λ n. none; ezsp = λ n. none };
  ok_status = 0;
  timeout_status = 7;
  direct = 0;
  fixed_endpoint = 1;
  fixed_profile_id = 0x0104;
  zdo_profile_id = 0;
  zdo_endpoint = 0;
  null_node_id = 0xffff;
  is_broadcast_address = λ address. leb 0xfff8 address;
  response_cluster_id = λ cluster. some (0x8000 + cluster);
  network_address_response = 0x8000;
  numeric_code = λ e. none;
}

abbrev toggle : RawRequest
toggle = record {
  network_address = 0x1234;
  endpoint = 1;
  cluster_id = 6;
  bytes = some (1 ∷ 9 ∷ 2 ∷ []);
  force_route_discovery = none;
  source_endpoint = none;
  profile_id = none;
}

-- EZSP refuses the frame after its send was aborted.
send_raw_zcl_frame-ends_example :
    let o =
      send_raw_zcl_frame numbers toggle none
        (ok tt)
        none
        (5, 0)
        (aborts (5, 0) (plain_error (text "gone")) ∷ [])
        (ok (1, 0))
        no_sends in
    EndsDispatch numbers toggle (5, 0) true (ok (1, 0)) no_sends o
    × (o.1 ≡ handed_raw numbers toggle (5, 0) (some (1 ∷ 9 ∷ 2 ∷ [])) true)
send_raw_zcl_frame-ends_example =
    send_raw_zcl_frame-ends numbers toggle (5, 0) none (ok tt) none
      (aborts (5, 0) (plain_error (text "gone")) ∷ []) (ok (1, 0)) no_sends

abbrev describe_node : HomeyZdoRequest
describe_node = record {
  ieee_address = text "0x00124b0001020304";
  network_address = 0x1234;
  cluster_id = 2;
  payload = some (0 ∷ 0x34 ∷ 0x12 ∷ []);
  disable_response = none;
  timeout = none;
}

-- Two calls come; the second tries to go on before the first has settled, and then in its turn.
abbrev lock_events : List LockEvent
lock_events = enters ∷ enters ∷ begins 2 ∷ begins 1 ∷ operation_settles 1 ∷ begins 2 ∷ []

lock_events-made : (lock_run unlocked lock_events).made ≡ 2
unfolding lock_run lock_step enter begin release is_resolved
lock_events-made = refl

second_runs : (lock_run unlocked lock_events).phase 2 ≡ running
unfolding lock_run lock_step enter begin release is_resolved
second_runs = refl

lock_run-refines_example :
    (lock_run unlocked lock_events).phase 2 ≡ ticket_phase (ticket_run no_tickets lock_events) 2
lock_run-refines_example =
    lock_run-refines lock_events 2 (omega arith) (omega (arith, lock_events-made))

lock_run-exclusive_example : (lock_run unlocked lock_events).phase 1 ≡ released
lock_run-exclusive_example =
    lock_run-exclusive lock_events 1 2 (omega arith) (omega (arith, lock_events-made)) (omega arith)
      (omega (arith, lock_events-made)) second_runs

-- The report of that frame.
abbrev toggle_report : Report
toggle_report = record {
  status = 0;
  kind = 0;
  destination = 0x1234;
  profile_id = 0x0104;
  cluster_id = 6;
  source_endpoint = 1;
  destination_endpoint = 1;
  sequence = 42;
}

send_raw_zcl_frame-IsReported_example :
    IsReported numbers toggle
      (5, 0)
      toggle_report
      no_sends
      (send_raw_zcl_frame numbers toggle none (ok tt) none (5, 0) [] (ok (0, 41)) no_sends)
send_raw_zcl_frame-IsReported_example =
    send_raw_zcl_frame-IsReported numbers toggle (5, 0) (1 ∷ 9 ∷ 2 ∷ []) 41 toggle_report no_sends
      refl
