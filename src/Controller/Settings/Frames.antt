-- ===== src/Controller/Settings/Frames.antt =====
-- enhancements/0001-zigbee-ember/src/HomeyEmberController.mts: what `_sendZCLFrame` gives the
-- adapter, and what Homey takes a failure for.
use homey_shs_enhanced.Prelude.{Result-cases, false, or_default, plain_error, text}
use homey_shs_enhanced.Controller.SendErrors.{translate_send_error}
use homey_shs_enhanced.Address.{homey_ieee_to_eui64}
use homey_shs_enhanced.Prelude.{
  Thrown, Bool-cases, List, Bool, ℕ, Result, Text, [], refl, true, ok, err, inl, inr, ◌≡◌, ◌∷◌, ◌⊎◌,
}
use homey_shs_enhanced.Controller.Settings.{frame_of, send_zcl_frame, FrameRequest, ZclFrame}

-- What the adapter is asked for: the frame as it is, between the two addresses, under Homey's
-- timeout or one of 4.5 s, and under Homey's signal.
pub record IsFrame (f : ZclFrame) (address : ℕ) (eui64 : Text) (q : FrameRequest) : Type 0 where
  pub to_node : (q.network_address ≡ address) × (q.eui64 ≡ eui64)
  pub to_place : (q.endpoint ≡ f.endpoint_id) × (q.cluster_id ≡ f.cluster_id)
  pub carried : q.bytes ≡ f.zcl_frame
  pub routed : q.force_route_discovery ≡ f.enable_route_discovery
  pub limited : q.timeout ≡ or_default f.timeout 4_500
  pub abortable : q.signal ≡ f.signal

frame_of-IsFrame :
    (f : ZclFrame) (address : ℕ) (eui64 : Text) → IsFrame f address eui64 (frame_of f address eui64)
frame_of-IsFrame f address eui64 = record {
  to_node = (refl, refl);
  to_place = (refl, refl);
  carried = refl;
  routed = refl;
  limited = refl;
  abortable = refl;
}

module _ (get_network_address : Text → Result ℕ) (ready : Bool)
    (sent : FrameRequest → Result (Unit {0})) where
  -- A failure that Homey takes for its translation.
  abbrev pub fails_as : ZclFrame → Thrown → Result (Unit {0})
  fails_as f x = err (translate_send_error x (or_default f.timeout 4_500))

  -- How a call ends: the network address is not known; there is no adapter; the address does not
  -- convert; or one frame is given, and the adapter takes or refuses it.
  abbrev pub IsFrameSent : ZclFrame → List FrameRequest × Result (Unit {0}) → Type 0
  IsFrameSent f (given, r) =
      ((e : Thrown) × (get_network_address f.ieee_address ≡ err e) × (given ≡ []) × (r ≡ err e))
      ⊎ ((address : ℕ) × (get_network_address f.ieee_address ≡ ok address)
          × (((ready ≡ false)
                × (given ≡ [])
                × (r ≡ fails_as f (plain_error (text "Ember adapter is not ready"))))
              ⊎ ((ready ≡ true)
                  × (((x : Thrown) × (homey_ieee_to_eui64 f.ieee_address ≡ err x)
                        × (given ≡ [])
                        × (r ≡ fails_as f x))
                      ⊎ ((eui64 : Text) × (q : FrameRequest) × (homey_ieee_to_eui64 f.ieee_address
                            ≡ ok eui64)
                          × IsFrame f address eui64 q
                          × (given ≡ q ∷ [])
                          × (((sent q ≡ ok tt) × (r ≡ ok tt))
                              ⊎ ((x : Thrown) × (sent q ≡ err x) × (r ≡ fails_as f x))))))))

  -- A call first looks the network address up, and throws what the lookup throws. Then without an
  -- adapter, or if the address does not convert, the adapter is given nothing, and the error is
  -- translated. Otherwise the adapter is given the frame once, with its endpoint, cluster, bytes,
  -- routing and signal and under Homey's timeout or 4.5 s; the call succeeds if the adapter takes
  -- it, and throws the translation of what the adapter throws if not.
  pub send_zcl_frame-IsFrameSent :
      (f : ZclFrame) → IsFrameSent f (send_zcl_frame get_network_address ready sent f)
  unfolding send_zcl_frame
  send_zcl_frame-IsFrameSent f = elim (Result-cases (get_network_address f.ieee_address)) [
    | inr (e, unknown) ↦ rw unknown (inl (e, refl, refl, refl))
    | inl (address, known) ↦ elim (Bool-cases ready) [
      | inr missing ↦ rw (known, missing) (inr (address, refl, inl (refl, refl, refl)))
      | inl there ↦ elim (Result-cases (homey_ieee_to_eui64 f.ieee_address)) [
        | inr (x, bad) ↦
            rw (known, there, bad) (inr (address, refl, inr (refl, inl (x, refl, refl, refl))))
        | inl (eui64, good) ↦
            let q = frame_of f address eui64 in
            elim (Result-cases (sent q)) [
              | inl (u, taken) ↦
                  rw (known, there, good, taken)
                    (inr (
                      address,
                      refl,
                      inr (
                        refl,
                        inr (
                          eui64,
                          q,
                          refl,
                          frame_of-IsFrame f address eui64,
                          refl,
                          inl (taken, refl),
                        ),
                      ),
                    ))
              | inr (x, refused) ↦
                  rw (known, there, good, refused)
                    (inr (
                      address,
                      refl,
                      inr (
                        refl,
                        inr (
                          eui64,
                          q,
                          refl,
                          frame_of-IsFrame f address eui64,
                          refl,
                          inr (x, refused, refl),
                        ),
                      ),
                    ))
            ]
      ]
    ]
  ]
