-- ===== src/Tests/Sends.antt =====
-- Pending sends at concrete inputs.
use homey_shs_enhanced.Driver.Pending.Counts.{
  count_pending, count_settled, count_watched, registrations,
}
use homey_shs_enhanced.Driver.Closing.Plan.{adapter_permit_join-closes, plan, Follows}
use homey_shs_enhanced.Driver.Closing.{
  broadcast_close, set_join_policy, close_coordinator, inherited, close_node, adapter_permit_join,
  JoinCommand,
}
use homey_shs_enhanced.Driver.Pending.Once.{send_run-settles}
use homey_shs_enhanced.Driver.Pending.{
  rejects_all, times_out, reported, registers, no_sends, SendEvent, Expected, Sends, send_run,
  Report,
}
use homey_shs_enhanced.Prelude.{
  Result, ok, err, text, plain_error, Thrown, ℕ, List, [], none, some, ◌⊎◌, ◌∷◌, ◌≤◌, ◌≡◌,
}

abbrev timeout_of_herdsman : ℕ
timeout_of_herdsman = 7

abbrev failed_delivery : ℕ → Thrown
failed_delivery status = plain_error (text "Raw ZCL delivery")

abbrev to_lamp : Expected
to_lamp = record {
  kind = 0;
  destination = 0x1234;
  profile_id = 0x0104;
  cluster_id = 6;
  source_endpoint = 1;
  destination_endpoint = 1;
}

abbrev lamp_report : Report
lamp_report = record {
  status = 0;
  kind = 0;
  destination = 0x1234;
  profile_id = 0x0104;
  cluster_id = 6;
  source_endpoint = 1;
  destination_endpoint = 1;
  sequence = 42;
}

-- A tag that is used again while its first send is pending.
abbrev traffic : List SendEvent
traffic =
    registers (5, 0) (some to_lamp) none
    ∷ registers (5, 1) (some to_lamp) none
    ∷ reported 5 lamp_report
    ∷ times_out (5, 0)
    ∷ rejects_all (plain_error (text "stopped"))
    ∷ []

send_run-settles_example :
    let s = send_run 0 timeout_of_herdsman failed_delivery no_sends traffic in
    (registrations (5, 0) traffic ≡ 1
      → ((count_watched (5, 0) s.watched ≡ 1) × (count_settled (5, 0) s.settled ≡ 0))
        ⊎ ((count_watched (5, 0) s.watched ≡ 0) × (count_settled (5, 0) s.settled ≡ 1)))
    × (registrations (5, 0) traffic ≡ 0
        → (count_watched (5, 0) s.watched ≡ 0) × (count_settled (5, 0) s.settled ≡ 0))
    × (count_pending (5, 0) s.pending ≤ count_watched (5, 0) s.watched)
send_run-settles_example = send_run-settles 0 timeout_of_herdsman failed_delivery traffic (5, 0)

abbrev two_pending : Sends
two_pending = record {
  pending =
      record { send = (5, 0); expected = some to_lamp }
      ∷ record { send = (6, 1); expected = none }
      ∷ [];
  watched = (5, 0) ∷ (6, 1) ∷ [];
  settled = [];
}

-- A coordinator that refuses to be closed.
abbrev refuses_close : JoinCommand → Result (Unit {0})
refuses_close close_coordinator = err (plain_error (text "Close coordinator permit-join"))
refuses_close set_join_policy = ok tt
refuses_close broadcast_close = ok tt
refuses_close (close_node address) = ok tt
refuses_close (inherited seconds address) = ok tt

adapter_permit_join-closes_example :
    let o = adapter_permit_join refuses_close (ok tt) 0 none in
    ((e : Thrown) × Path (Result (Unit {0})) (ok tt) (err e) × (o ≡ ([], err e)))
    ⊎ (Path (Result (Unit {0})) (ok tt) (ok tt) × Follows refuses_close (plan none) o)
adapter_permit_join-closes_example = adapter_permit_join-closes refuses_close (ok tt) none
