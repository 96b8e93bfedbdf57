-- ===== src/Driver/Dispatch/Sending.antt =====
-- enhancements/0001-zigbee-ember/src/homey-ember.cjs: `sendRawZclFrame`.
use homey_shs_enhanced.Promises.{abort_error}
use homey_shs_enhanced.Driver.Statuses.{sl_error, normalize_dispatch_error}
use homey_shs_enhanced.Driver.Pending.{
  wait_for_message_sent, send_run, on_not_dispatched, SendEvent, Sends, Expected, Send,
}
use homey_shs_enhanced.Prelude.{
  type_error, text, Thrown, ℕ, Result, Option, List, or_default, [], false, none, some, ok, err,
  ◌∷◌, if◌then◌else◌, ◌==◌,
}
use homey_shs_enhanced.Driver.Dispatch.{
  HerdsmanNumbers, RawRequest, ApsFrame, EzspCall, route_options, unicast,
}

module _ (h : HerdsmanNumbers) where
  open h use {names, ok_status, timeout_status, direct}

  unfoldable pub delivery_error : ℕ → Thrown
  delivery_error status = sl_error names (text "Raw ZCL delivery") status

  unfoldable pub raw_frame : RawRequest → ApsFrame
  raw_frame q = record {
    profile_id = or_default q.profile_id h.fixed_profile_id;
    cluster_id = q.cluster_id;
    source_endpoint = or_default q.source_endpoint h.fixed_endpoint;
    destination_endpoint = q.endpoint;
    options = route_options (or_default q.force_route_discovery false);
    group_id = 0;
    sequence = 0;
  }

  unfoldable pub raw_expected : RawRequest → Expected
  unfolding raw_frame
  raw_expected q = record {
    kind = direct;
    destination = q.network_address;
    profile_id = (raw_frame q).profile_id;
    cluster_id = q.cluster_id;
    source_endpoint = (raw_frame q).source_endpoint;
    destination_endpoint = q.endpoint;
  }

  -- The sends, the calls of EZSP, and how the function ends: it throws, or waits for that send's
  -- promise.
  abbrev pub Dispatched : Type 0
  Dispatched = Sends × List EzspCall × Result Send

  -- After `ezspSendUnicast`, whose status and sequence, or error, is `answer`.
  unfoldable pub end_raw_dispatch : Send → EzspCall → Result (ℕ × ℕ) → Sends → Dispatched
  unfolding delivery_error
  end_raw_dispatch k call (err e) s =
      let error = normalize_dispatch_error names h.numeric_code (text "Raw ZCL dispatch") e in
      (on_not_dispatched ok_status timeout_status delivery_error k.0 error s, call ∷ [], err error)
  end_raw_dispatch k call (ok (status, sequence)) s =
      if status == ok_status
      then (s, call ∷ [], ok k)
      else (let error = sl_error names (text "Raw ZCL dispatch") status in
          (
            on_not_dispatched ok_status timeout_status delivery_error k.0 error s,
            call ∷ [],
            err error,
          ))

  -- What runs in the queue. `k`: the message tag that EZSP gives, and the promise's number;
  -- `meanwhile`: what happens to the sends before `ezspSendUnicast` settles.
  unfoldable pub dispatch_raw :
      RawRequest
      → List ℕ
      → Result (Unit {0})
      → Option Thrown
      → Send
      → List SendEvent
      → Result (ℕ × ℕ)
      → Sends
      → Dispatched
  unfolding delivery_error
  dispatch_raw q bytes (err e) aborted_later k meanwhile answer s = (s, [], err e)
  dispatch_raw q bytes (ok _) (some reason) k meanwhile answer s = (s, [], err (abort_error reason))
  dispatch_raw q bytes (ok _) none k meanwhile answer s =
      end_raw_dispatch k (unicast q.network_address (raw_frame q) k.0 bytes) answer (
        send_run ok_status timeout_status delivery_error
          (wait_for_message_sent ok_status timeout_status delivery_error k (some (raw_expected q))
            none s)
          meanwhile)

  abbrev pub raw_with :
      RawRequest
      → Option (List ℕ)
      → Option Thrown
      → Result (Unit {0})
      → Option Thrown
      → Send
      → List SendEvent
      → Result (ℕ × ℕ)
      → Sends
      → Dispatched
  raw_with q none aborted locked aborted_later k meanwhile answer s =
      (s, [], err (type_error (text "Raw ZCL data must be a Buffer")))
  raw_with q (some bytes) (some reason) locked aborted_later k meanwhile answer s =
      (s, [], err (abort_error reason))
  raw_with q (some bytes) none locked aborted_later k meanwhile answer s =
      dispatch_raw q bytes locked aborted_later k meanwhile answer s

  -- `aborted` and `aborted_later`: the signal's reason at the call, and when it leaves the queue;
  -- `locked`: `checkInterpanLock`.
  unfoldable pub send_raw_zcl_frame :
      RawRequest
      → Option Thrown
      → Result (Unit {0})
      → Option Thrown
      → Send
      → List SendEvent
      → Result (ℕ × ℕ)
      → Sends
      → Dispatched
  send_raw_zcl_frame q aborted locked aborted_later k meanwhile answer s =
      raw_with q q.bytes aborted locked aborted_later k meanwhile answer s
