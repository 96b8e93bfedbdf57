-- ===== src/Driver/Dispatch/Asking.antt =====
-- enhancements/0001-zigbee-ember/src/homey-ember.cjs: `sendHomeyZdo`.
use homey_shs_enhanced.Promises.{abort_error}
use homey_shs_enhanced.Driver.Statuses.{sl_error, normalize_dispatch_error}
use homey_shs_enhanced.Prelude.{
  type_error, text, Thrown, set, Text, ℕ, Result, Option, List, or_default, [], false, none, some,
  ok, err, ◌∷◌, if◌then◌else◌, ◌==◌,
}
use homey_shs_enhanced.Driver.Dispatch.{
  HerdsmanNumbers, HomeyZdoRequest, ApsFrame, EzspCall, default_options, zdo_request_radius,
  default_send_timeout, unicast, broadcast,
}

module _ (h : HerdsmanNumbers) where
  open h use {names, ok_status}

  -- What a request by ZDO leaves to wait for: nothing, or the answer of a node, by its EUI64 or its
  -- network address, the sequence, the answer's cluster and the timeout.
  pub data ZdoWait : Type 0 where
    no_answer : ZdoWait
    answer_by_eui64 : Text → ℕ → ℕ → ℕ → ZdoWait
    answer_by_address : ℕ → ℕ → ℕ → ℕ → ZdoWait

  unfoldable pub zdo_frame : ℕ → ApsFrame
  zdo_frame cluster = record {
    profile_id = h.zdo_profile_id;
    cluster_id = cluster;
    source_endpoint = h.zdo_endpoint;
    destination_endpoint = h.zdo_endpoint;
    options = default_options ∷ [];
    group_id = 0;
    sequence = 0;
  }

  unfoldable pub zdo_call : HomeyZdoRequest → List ℕ → ℕ → EzspCall
  zdo_call q payload tag =
      if h.is_broadcast_address q.network_address
      then broadcast h.null_node_id q.network_address (zdo_frame q.cluster_id) zdo_request_radius
          tag (set payload 0 tag)
      else unicast q.network_address (zdo_frame q.cluster_id) tag (set payload 0 tag)

  -- `!responseClusterId` holds of 0 too.
  abbrev pub wait_for_cluster : HomeyZdoRequest → ℕ → Option ℕ → ZdoWait
  wait_for_cluster q sequence none = no_answer
  wait_for_cluster q sequence (some cluster) =
      if cluster == 0
      then no_answer
      else if cluster == h.network_address_response
      then answer_by_eui64 q.ieee_address sequence cluster
          (or_default q.timeout default_send_timeout)
      else answer_by_address q.network_address sequence cluster
          (or_default q.timeout default_send_timeout)

  unfoldable pub zdo_wait : HomeyZdoRequest → ℕ → ZdoWait
  zdo_wait q sequence =
      if or_default q.disable_response false
      then no_answer
      else wait_for_cluster q sequence (h.response_cluster_id q.cluster_id)

  abbrev pub end_zdo_dispatch : HomeyZdoRequest → Result (ℕ × ℕ) → Result ZdoWait
  end_zdo_dispatch q (err e) =
      err (normalize_dispatch_error names h.numeric_code (text "ZDO dispatch") e)
  end_zdo_dispatch q (ok (status, sequence)) =
      if status == ok_status
      then ok (zdo_wait q sequence)
      else err (sl_error names (text "ZDO dispatch") status)

  abbrev pub zdo_with :
      HomeyZdoRequest
      → Option (List ℕ)
      → Option Thrown
      → Result (Unit {0})
      → Option Thrown
      → ℕ
      → Result (ℕ × ℕ)
      → List EzspCall × Result ZdoWait
  zdo_with q none aborted locked aborted_later tag answer =
      ([], err (type_error (text "ZDO payload must be a Buffer")))
  zdo_with q (some payload) (some reason) locked aborted_later tag answer =
      ([], err (abort_error reason))
  zdo_with q (some payload) none (err e) aborted_later tag answer = ([], err e)
  zdo_with q (some payload) none (ok _) (some reason) tag answer = ([], err (abort_error reason))
  zdo_with q (some payload) none (ok _) none tag answer =
      (zdo_call q payload tag ∷ [], end_zdo_dispatch q answer)

  -- `tag`: `nextZDORequestSequence`; `answer`: what EZSP's call comes to.
  unfoldable pub send_homey_zdo :
      HomeyZdoRequest
      → Option Thrown
      → Result (Unit {0})
      → Option Thrown
      → ℕ
      → Result (ℕ × ℕ)
      → List EzspCall × Result ZdoWait
  send_homey_zdo q aborted locked aborted_later tag answer =
      zdo_with q q.payload aborted locked aborted_later tag answer
