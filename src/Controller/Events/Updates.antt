-- ===== src/Controller/Events/Updates.antt =====
-- enhancements/0001-zigbee-ember/src/HomeyEmberController.mts: the calls of `updateNodeAddress`
-- that the event handlers make.
use homey_shs_enhanced.Address.{eui64_to_homey_ieee}
use homey_shs_enhanced.Controller.Events.{
  parsed_eui64, leaving_address, coordinator_endpoint, truthy_number, payload_address,
  schedule_backup, ieee_address_response, convert_truthy, network_address_response,
  end_device_announce, ZclPayload, zdo_frame_received, on_zdo_frame, handle_zcl_frame,
  on_device_joined, update_last_seen, convert, responded, on_route_record, node_left, zdo_actions,
  node_joined, on_device_leave, ZdoParsed, for_converted, on_zdo_response, update_node_address,
  for_address, on_zcl_payload, ZdoFrame, Action,
}
use homey_shs_enhanced.Prelude.{
  or_default, if◌then◌else◌, Thrown, arith, Bool-cases, Option-cases, Result-cases, Bool, Option,
  Text, ℕ, List, Result, none, err, [], refl, some, ok, inl, inr, ◌∷◌, ◌⊎◌, ◌≡◌, ◌==◌,
}

-- The calls of `updateNodeAddress`.
abbrev pub updates : List Action → List (Text × ℕ)
updates [] = []
updates (update_node_address ieee address ∷ rest) = (ieee, address) ∷ updates rest
updates (node_joined ieee address ∷ rest) = updates rest
updates (node_left ieee ∷ rest) = updates rest
updates (update_last_seen ieee ∷ rest) = updates rest
updates (schedule_backup ∷ rest) = updates rest
updates (handle_zcl_frame ieee endpoint cluster bytes group destination ∷ rest) = updates rest
updates (zdo_frame_received ieee sender cluster endpoint bytes ∷ rest) = updates rest
updates (end_device_announce ieee address flags ∷ rest) = updates rest
updates (network_address_response status ieee address ∷ rest) = updates rest
updates (ieee_address_response status ieee address ∷ rest) = updates rest

quiet :
    (found : Result (Option Text)) (act : Text → List Action)
    → ((ieee : Text) → updates (act ieee) ≡ [])
    → updates (for_address found act) ≡ []
quiet (err e) act h = refl
quiet (ok none) act h = refl
quiet (ok (some ieee)) act h = h ieee

quiet_converted :
    (found : Result Text) (act : Text → List Action)
    → ((ieee : Text) → updates (act ieee) ≡ [])
    → updates (for_converted found act) ≡ []
quiet_converted (err e) act h = refl
quiet_converted (ok ieee) act h = h ieee

module _ (success announce network_response ieee_response : ℕ) (find_ieee_address : ℕ → Option Text)
    (is_node : Text → Bool) where
  -- A frame that announces a device successfully, under an address that converts.
  abbrev pub Announces : ZdoFrame → Text → ℕ → Type 0
  Announces frame ieee address =
      (frame.cluster_id ≡ announce)
      × ((p : ZdoParsed) × (frame.response ≡ some (success, some p))
          × (convert p.eui64 ≡ ok ieee)
          × (p.nwk_address ≡ address))

  abbrev pub Justified : ZdoFrame → List (Text × ℕ) → Type 0
  Justified frame us =
      (us ≡ [])
      ⊎ ((ieee : Text) × (address : ℕ) × Announces frame ieee address × (us ≡ (ieee, address) ∷ []))

  response-Justified :
      (frame : ZdoFrame) (p : ZdoParsed)
      → frame.response ≡ some (success, some p)
      → Justified frame (
          updates (
            on_zdo_response success announce network_response ieee_response find_ieee_address
              is_node frame p))
  unfolding on_zdo_response
  response-Justified frame p e = elim (Result-cases (convert p.eui64)) [
    | inr (x, c) ↦ rw c (inl refl)
    | inl (ieee, c) ↦ elim (Bool-cases (frame.cluster_id == announce)) [
      | inl here ↦ rw (c, here) (inr (ieee, p.nwk_address, (ground arith, (p, e, c, refl)), refl))
      | inr there ↦ rw (c, there) (inl (ground arith))
    ]
  ]

  responded-Justified :
      (frame : ZdoFrame) (response : Option (ℕ × Option ZdoParsed))
      → frame.response ≡ response
      → Justified frame (
          updates (
            responded success announce network_response ieee_response find_ieee_address is_node
              frame response))
  responded-Justified frame none e = inl refl
  responded-Justified frame (some (status, none)) e = inl refl
  responded-Justified frame (some (status, some p)) e = elim (Bool-cases (status == success)) [
    | inr failed ↦ rw failed (inl refl)
    | inl fine ↦
        let same : status ≡ success = ground arith in
        rw fine (response-Justified frame p (rw (← same) e))
  ]

  zdo-Justified :
      (parsed : Result (Option Text)) (frame : ZdoFrame)
      → Justified frame (
          updates (
            zdo_actions success announce network_response ieee_response find_ieee_address is_node
              parsed frame))
  zdo-Justified (err e) frame = inl refl
  zdo-Justified (ok (some ieee)) frame = responded-Justified frame frame.response refl
  zdo-Justified (ok none) frame = elim (Option-cases (find_ieee_address frame.sender)) [
    | inl unknown ↦ rw unknown (responded-Justified frame frame.response refl)
    | inr (ieee, known) ↦ rw known (responded-Justified frame frame.response refl)
  ]

  -- Homey's map of addresses changes on two events only: a device that joins, if its EUI64 converts,
  -- gets the address that it joined with; and a ZDO frame changes it at most once, to what a
  -- successful announcement says under an EUI64 that converts. Payloads, leaves and route records
  -- leave it alone.
  pub events-updates :
      (payload : ZclPayload) (eui64 : Text) (address : ℕ) (leaving : Option Text)
      (left_address : Option ℕ) (frame : ZdoFrame)
      → (updates (
            on_zcl_payload success announce network_response ieee_response find_ieee_address is_node
              payload)
          ≡ [])
        × (updates (
              on_device_leave success announce network_response ieee_response find_ieee_address
                is_node leaving left_address)
            ≡ [])
        × (updates (
              on_route_record success announce network_response ieee_response find_ieee_address
                is_node address eui64)
            ≡ [])
        × (((e : Thrown) × (eui64_to_homey_ieee eui64 ≡ err e)
              × (on_device_joined success announce network_response ieee_response find_ieee_address
                    is_node eui64 address
                  ≡ []))
            ⊎ ((ieee : Text) × (eui64_to_homey_ieee eui64 ≡ ok ieee)
                × (updates (
                      on_device_joined success announce network_response ieee_response
                        find_ieee_address is_node eui64 address)
                    ≡ (ieee, address) ∷ [])))
        × Justified frame (
            updates (
              on_zdo_frame success announce network_response ieee_response find_ieee_address is_node
                frame))
  unfolding on_zcl_payload on_device_leave on_route_record on_device_joined on_zdo_frame
  events-updates payload eui64 address leaving left_address frame = (
    quiet
        (payload_address success announce network_response ieee_response find_ieee_address is_node
          payload.address)
        (λ ieee.
          handle_zcl_frame ieee payload.endpoint payload.cluster_id payload.bytes
            (truthy_number payload.group_id)
            (or_default payload.destination_endpoint coordinator_endpoint)
          ∷ [])
        (λ ieee. refl),
    quiet
        (leaving_address success announce network_response ieee_response find_ieee_address is_node
          leaving left_address)
        (λ ieee. node_left ieee ∷ schedule_backup ∷ []) (λ ieee. refl),
    quiet_converted (eui64_to_homey_ieee eui64)
        (λ source.
          for_address (ok (if is_node source then some source else find_ieee_address address))
            (λ ieee. update_last_seen ieee ∷ []))
        (λ source.
          quiet (ok (if is_node source then some source else find_ieee_address address))
            (λ ieee. update_last_seen ieee ∷ []) (λ ieee. refl)),
    elim (Result-cases (eui64_to_homey_ieee eui64)) [
      | inl (ieee, e) ↦ inr (ieee, e, rw e refl)
      | inr (x, e) ↦ inl (x, e, rw e refl)
    ],
    zdo-Justified
        (convert_truthy (
          parsed_eui64 success announce network_response ieee_response find_ieee_address is_node
            frame.response))
        frame,
  )
