-- ===== src/Tests/Lifecycles.antt =====
-- The controller's life, its backups and its settings at concrete inputs.
use homey_shs_enhanced.Controller.Radio.Late.{starts_late}
use homey_shs_enhanced.Controller.Radio.Steps.{published, saved}
use homey_shs_enhanced.Logger.Lazy.{log_run-lazy, heard_lazy, built_in, made_for}
use homey_shs_enhanced.Logger.{
  plain_message, info_level, lazy_message, debug_level, LogCall, log_run,
}
use homey_shs_enhanced.Controller.Settings.Published.{
  parse_controller_state-publish_state, state_published,
}
use homey_shs_enhanced.Manager.State.{parse_controller_state}
use homey_shs_enhanced.Controller.Radio.Closed.{Reach-stopped}
use homey_shs_enhanced.Controller.Backups.Shared.{
  backup_run-shared, IsQuiet, calls_of, settled_of, waits_for,
}
use homey_shs_enhanced.Address.{
  pairs, join_pairs, is_hex, normalized, normalize_hex, format_homey_hex, eui64_to_homey_ieee,
}
use homey_shs_enhanced.Controller.Radio.Accounts.{is_stopped}
use homey_shs_enhanced.Controller.Radio.Channel.{set_next_reset_channel-IsChannelSet, IsChannelSet}
use homey_shs_enhanced.Controller.Backups.{
  calls, stored, becomes_ready, no_backups, read, BackupEvent, NetworkKey, backup_run, Backups,
}
use homey_shs_enhanced.Controller.Settings.Frames.{send_zcl_frame-IsFrameSent, IsFrameSent}
use homey_shs_enhanced.Json.{undefined_value, Value}
use homey_shs_enhanced.Controller.Settings.{
  publish_state, send_zcl_frame, settings_of, FrameRequest, ZclFrame, Coordinator,
}
use homey_shs_enhanced.Prelude.{
  ◌≤◌, to_lower, plain_error, arith, ℕ, Result, text, Text, List, Option, [], refl, true, false,
  none, some, ok, err, ◌≡◌, ◌+◌, ◌∷◌, ◌⊎◌,
}
use homey_shs_enhanced.Controller.Radio.{
  on_published, on_saved, clean_up, take_adapter, start, set_next_reset_channel, idle,
  start_adapter, gone, ends, destroy, on_connected, suppress_final_backup, on_adapter_stopped,
  constructed, Radio, starting,
}
use homey_shs_enhanced.Controller.Radio.Steps.{
  cleaned, grouped, adapter_stopped, new, later, Reach, starts, suppresses, loaded, destroys,
  connected,
}

-- A controller that is destroyed, without a last backup, while its first adapter connects.
abbrev opened : Radio
opened = suppress_final_backup (start_adapter starting 15 (start constructed))

abbrev stopping_radio : Radio
stopping_radio = destroy opened

abbrev stopped_radio : Radio
stopped_radio = on_adapter_stopped stopping_radio

abbrev cleaning_radio : Radio
cleaning_radio = on_connected starting 0 stopped_radio

abbrev closed_radio : Radio
closed_radio = ends cleaning_radio

closed_radio-Reach : Reach closed_radio
unfolding start suppress_final_backup start_adapter destroy take_adapter on_adapter_stopped
    on_connected clean_up
closed_radio-Reach =
    later
      (later
        (later
          (later
            (later
              (later (later new (starts constructed refl)) (loaded 15 (start constructed) refl))
              (suppresses (start_adapter starting 15 (start constructed))))
            (destroys opened refl))
          (adapter_stopped stopping_radio refl))
        (connected starting 0 stopped_radio refl))
      (cleaned starting 0 cleaning_radio refl)

Reach-stopped_example :
    ((is_stopped closed_radio.stopped 0 ≡ true) ⊎ (closed_radio.adapter ≡ some 0))
    × (starts_late closed_radio-Reach ≡ false
        → closed_radio.teardown ≡ gone
        → closed_radio.task ≡ idle
        → is_stopped closed_radio.stopped 0 ≡ true)
unfolding ends on_connected on_adapter_stopped destroy suppress_final_backup start_adapter start
    take_adapter clean_up
Reach-stopped_example = Reach-stopped closed_radio 0 closed_radio-Reach (omega arith)

-- A controller that is started after it was destroyed opens its adapter, and no call of `_destroy`
-- is left that would stop it.
abbrev destroyed_first : Radio
destroyed_first = destroy (suppress_final_backup constructed)

abbrev reopened : Radio
reopened = start_adapter starting 15 (start destroyed_first)

abbrev reconnected : Radio
reconnected = on_published starting 15 (on_connected starting 0 reopened)

abbrev left_open : Radio
left_open = ends (on_saved starting reconnected)

left_open-Reach :
    Reach left_open
    × (left_open.teardown ≡ gone)
    × (left_open.task ≡ idle)
    × (left_open.adapter ≡ some 0)
    × (is_stopped left_open.stopped 0 ≡ false)
unfolding start suppress_final_backup start_adapter on_connected destroy take_adapter on_published
    on_saved ends
left_open-Reach = (
  later
      (later
        (later
          (later
            (later
              (later
                (later (later new (suppresses constructed))
                  (destroys (suppress_final_backup constructed) refl))
                (starts destroyed_first refl))
              (loaded 15 (start destroyed_first) refl))
            (connected starting 0 reopened refl))
          (published starting 0 15 (on_connected starting 0 reopened) refl))
        (saved starting reconnected refl))
      (grouped (on_saved starting reconnected) refl),
  refl,
  refl,
  refl,
  refl,
)

-- A controller that is destroyed while `start` publishes its state: the timer that `_destroy` has
-- cleared is armed afterwards.
abbrev late_publishing : Radio
late_publishing = on_connected starting 0 opened

abbrev late_stopping : Radio
late_stopping = destroy late_publishing

abbrev late_gone : Radio
late_gone = on_adapter_stopped late_stopping

abbrev late_saving : Radio
late_saving = on_published starting 15 late_gone

abbrev late_radio : Radio
late_radio = on_saved starting late_saving

late_radio-interval :
    Reach late_radio × (late_radio.teardown ≡ gone) × (late_radio.backup_interval ≡ true)
unfolding start suppress_final_backup start_adapter on_connected destroy take_adapter
    on_adapter_stopped on_published on_saved
late_radio-interval = (
  later
      (later
        (later
          (later
            (later
              (later
                (later (later new (starts constructed refl)) (loaded 15 (start constructed) refl))
                (suppresses (start_adapter starting 15 (start constructed))))
              (connected starting 0 opened refl))
            (destroys late_publishing refl))
          (adapter_stopped late_stopping refl))
        (published starting 0 15 late_gone refl))
      (saved starting late_saving refl),
  refl,
  refl,
)

set_next_reset_channel-IsChannelSet_example :
    IsChannelSet 25 11 constructed (set_next_reset_channel (some 25) constructed)
set_next_reset_channel-IsChannelSet_example = set_next_reset_channel-IsChannelSet 25 11 constructed

-- Two calls share a backup that the store cannot write, and a third makes its own.
abbrev backup_key : Option NetworkKey
backup_key = some (record { sequence_number = some 3; frame_counter = none })

abbrev backup_events : List BackupEvent
backup_events =
    becomes_ready true
    ∷ calls 0
    ∷ calls 1
    ∷ read (ok backup_key)
    ∷ stored (err (plain_error (text "disk full")))
    ∷ calls 2
    ∷ []

backup_run-shared_example :
    let s = backup_run no_backups backup_events in
    (waits_for 1 s.waiting + settled_of 1 s.settled ≡ calls_of 1 backup_events)
    × IsQuiet s.in_flight s.waiting
backup_run-shared_example = backup_run-shared 1 backup_events

abbrev reading_backup : Backups
reading_backup = backup_run no_backups (becomes_ready true ∷ calls 0 ∷ calls 1 ∷ [])

abbrev ember_coordinator : Coordinator
ember_coordinator = record {
  pan_id = 0x1a62;
  extended_pan_id = text "0x1122334455667788";
  channel = 15;
  ieee = text "0x00124b0001020304";
  version_type = text "EmberZNet";
  version_meta = text "8" ∷ text "0" ∷ [];
}

abbrev ember_key : Text
ember_key = text "00112233445566778899aabbccddeeff"

abbrev accepts_settings : Value → Result (Unit {0})
accepts_settings v = ok tt

parse_controller_state-publish_state_example :
    let c = ember_coordinator in
    let settings =
      settings_of ember_key undefined_value c
        (text "00:12:4b:00:01:02:03:04")
        (text "11:22:33:44:55:66:77:88") in
    (ieee : Text) × (extended_pan_id : Text) × (eui64_to_homey_ieee c.ieee ≡ ok ieee)
    × (eui64_to_homey_ieee c.extended_pan_id ≡ ok extended_pan_id)
    × (parse_controller_state accepts_settings settings
        ≡ some (state_published ember_key undefined_value c ieee extended_pan_id))
unfolding publish_state eui64_to_homey_ieee format_homey_hex normalize_hex normalized text to_lower
    is_hex join_pairs pairs
parse_controller_state-publish_state_example =
    parse_controller_state-publish_state accepts_settings ember_key undefined_value
      ember_coordinator _ refl refl

abbrev on_command : ZclFrame
on_command = record {
  ieee_address = text "00:12:4b:00:01:02:03:04";
  endpoint_id = 1;
  cluster_id = 6;
  zcl_frame = 1 ∷ 5 ∷ 1 ∷ [];
  enable_route_discovery = false;
  timeout = none;
  signal = some 1;
}

abbrev knows_address : Text → Result ℕ
knows_address ieee = ok 0x1234

abbrev takes_frame : FrameRequest → Result (Unit {0})
takes_frame q = ok tt

send_zcl_frame-IsFrameSent_example :
    IsFrameSent knows_address true takes_frame on_command
      (send_zcl_frame knows_address true takes_frame on_command)
send_zcl_frame-IsFrameSent_example =
    send_zcl_frame-IsFrameSent knows_address true takes_frame on_command

-- A debug message under a namespace that is off and then on, and one at a level that is printed.
abbrev log_calls : List LogCall
log_calls =
    record {
      enabled = λ n. false;
      level = debug_level;
      message = lazy_message (text "frame");
      namespace = text "zh:ember";
    }
    ∷ record {
      enabled = λ n. true;
      level = debug_level;
      message = lazy_message (text "frame");
      namespace = text "zh:ember";
    }
    ∷ record {
      enabled = λ n. false;
      level = info_level;
      message = plain_message (text "started");
      namespace = text "zh:ember";
    }
    ∷ []

log_run-lazy_example :
    let (ds, es) = log_run log_calls [] in
    (made_for (text "zh:ember") es ≤ 1) × (built_in es ≡ heard_lazy log_calls)
log_run-lazy_example = log_run-lazy log_calls (text "zh:ember")
