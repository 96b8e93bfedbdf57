-- ===== src/Driver/Notices/Order.antt =====
-- enhancements/0001-zigbee-ember/src/homey-ember.cjs: what has become of the pending sends when the
-- adapter stops or the coordinator is reset.
use homey_shs_enhanced.Driver.Dispatch.Sending.{delivery_error}
use homey_shs_enhanced.Driver.Statuses.{ezsp_status_name, ezsp_error}
use homey_shs_enhanced.Driver.Pending.Rejected.{reject_pending_sends-all, rejections}
use homey_shs_enhanced.Driver.Pending.{Sends}
use homey_shs_enhanced.Driver.Dispatch.{HerdsmanNumbers}
use homey_shs_enhanced.Prelude.{refl, text, ℕ, [], ◌∷◌, ◌++◌, ◌≡◌}
use homey_shs_enhanced.Driver.Notices.{
  base_needs_reset, disconnected_notice, on_ncp_needs_reset_and_init, stop_adapter,
}

module _ {Parsed : Type 0} (h : HerdsmanNumbers) where
  open h use {names}

  -- When the coordinator must be reset, every pending send has been rejected with an error of the
  -- layer below, in the order in which they were registered, before the controller is told that it
  -- is disconnected; and the same when the adapter stops. No send is left waiting.
  pub rejected_first :
      (status not_connected : ℕ) (s : Sends)
      → let (reset, told) = on_ncp_needs_reset_and_init {Parsed = Parsed} h status s in
        let (stopped, after) = stop_adapter {Parsed = Parsed} h not_connected s in
        (reset.pending ≡ [])
        × (reset.settled
            ≡ s.settled ++ rejections s.pending (ezsp_error names (text "Raw ZCL delivery") status))
        × (told
            ≡ disconnected_notice status (ezsp_status_name names status) ∷ base_needs_reset ∷ [])
        × (stopped.pending ≡ [])
        × (stopped.settled
            ≡ s.settled
              ++ rejections s.pending (ezsp_error names (text "Raw ZCL delivery") not_connected))
  unfolding on_ncp_needs_reset_and_init stop_adapter
  rejected_first status not_connected s =
      let reject = reject_pending_sends-all h.ok_status h.timeout_status (delivery_error h) in
      let (none_reset, all_reset) = reject (ezsp_error names (text "Raw ZCL delivery") status) s in
      let (none_stopped, all_stopped) =
        reject (ezsp_error names (text "Raw ZCL delivery") not_connected) s in
      (none_reset, all_reset, refl, none_stopped, all_stopped)
