-- ===== src/Controller/Zdo/Status.antt =====
-- enhancements/0001-zigbee-ember/src/HomeyEmberController.mts: the requests that `sendZdo` sends,
-- and `assertZdoSuccess`.
use homey_shs_enhanced.Address.{homey_ieee_to_eui64}
use homey_shs_enhanced.Controller.Zdo.{
  bind, unbind, status_label, send_zdo, binding_args, change_binding, assert_zdo_success,
  send_zdo_to,
}
use homey_shs_enhanced.Controller.ZdoData.{
  no_data, AnswerData, AnswerKind, num_arg, text_arg, timeout_of, RequestOptions, Arg, ZdoRequest,
  ZdoNames,
}
use homey_shs_enhanced.Prelude.{
  subst, ap, >>=-eq-ok, arith, Result-cases, [], inl, inr, ◌∷◌, List, Option, Bool, ℕ, Result, Text,
  true, none, some, ok, ◌≡◌,
}

module _ (names : ZdoNames) (get_network_address : Text → Result ℕ) (ready : Bool)
    (timeout_message : ℕ → Text)
    (answer : (k : AnswerKind) → ZdoRequest → Result (Option (ℕ × AnswerData k))) where
  -- The request that was sent, and its answer.
  pub record IsSent (k : AnswerKind) (ieee : Text) (cluster : ℕ) (args : List Arg)
      (options : RequestOptions) (address : ℕ) (response : ℕ × AnswerData k) : Type 0 where
    pub eui64 : Text
    pub converted : homey_ieee_to_eui64 ieee ≡ ok eui64
    pub live : options.aborted ≡ none
    pub adapter : ready ≡ true
    pub answered :
        answer k (record {
          eui64 = eui64;
          network_address = address;
          cluster_id = cluster;
          args = args;
          timeout = timeout_of options;
          signal = options.signal;
        })
        ≡ ok (some response)

  pub send_zdo_to-IsSent :
      (k : AnswerKind) (ieee : Text) (cluster : ℕ) (args : List Arg) (options : RequestOptions)
      (address : ℕ) (response : ℕ × AnswerData k)
      → send_zdo_to names get_network_address ready timeout_message answer k ieee cluster args
          options address
        ≡ ok response
      → IsSent k ieee cluster args options address response
  unfolding send_zdo_to
  send_zdo_to-IsSent k ieee cluster args options address response h =
      elim (Result-cases (homey_ieee_to_eui64 ieee)) [
        | inl (eui64, e) ↦ record {
          eui64 = eui64;
          converted = e;
          live = ground arith;
          adapter = ground arith;
          answered = ground arith;
        }
        | inr (x, e) ↦ absurd (ground arith)
      ]

  assert_zdo_success-ok :
      {D : Type 0} (response : ℕ × D) (options : RequestOptions) {d : D}
      → assert_zdo_success names get_network_address ready timeout_message answer response options
        ≡ ok d
      → (response.0 ≡ names.success) × (response.1 ≡ d)
  unfolding assert_zdo_success
  assert_zdo_success-ok (status, x) options h = ground arith

  -- The same for `sendZdo` and the check of its answer.
  pub send_zdo-IsSent :
      (k : AnswerKind) (ieee : Text) (cluster : ℕ) (args : List Arg) (options : RequestOptions)
      (response : ℕ × AnswerData k) (d : AnswerData k)
      → send_zdo names get_network_address ready timeout_message answer k ieee cluster args options
        ≡ ok response
      → assert_zdo_success names get_network_address ready timeout_message answer response options
        ≡ ok d
      → (address : ℕ) × IsSent k ieee cluster args options address (names.success, d)
        × (get_network_address ieee ≡ ok address)
  unfolding send_zdo
  send_zdo-IsSent k ieee cluster args options response d sent success =
      let (address, found, sent) = >>=-eq-ok (get_network_address ieee) _ sent in
      let (ok_status, same) = assert_zdo_success-ok response options success in
      let whole : response ≡ (names.success, d) = λ i. (ok_status i, same i) in
      (
        address,
        subst (λ r. IsSent k ieee cluster args options address r) whole
            (send_zdo_to-IsSent k ieee cluster args options address response sent),
        found,
      )

  -- A binding is reported made or removed only if the node was asked for exactly that, with both
  -- addresses in herdsman's form, at the address that the base class knows for it, by an adapter
  -- that is there and under a signal that is not aborted, and answered with success; the label
  -- returned is that of success.
  pub change_binding-IsSent :
      (request : ℕ) (ieee : Text) (endpoint cluster : ℕ) (target : Text) (target_endpoint : ℕ)
      (options : RequestOptions) (label : Text)
      → change_binding names get_network_address ready timeout_message answer request ieee endpoint
          cluster target target_endpoint options
        ≡ ok label
      → (source : Text) × (destination : Text) × (address : ℕ) × (homey_ieee_to_eui64 ieee
          ≡ ok source)
        × (homey_ieee_to_eui64 target ≡ ok destination)
        × (get_network_address ieee ≡ ok address)
        × IsSent no_data ieee request
            (text_arg source
              ∷ num_arg endpoint
              ∷ num_arg cluster
              ∷ num_arg 3
              ∷ text_arg destination
              ∷ num_arg 0
              ∷ num_arg target_endpoint
              ∷ [])
            options
            address
            (names.success, tt)
        × (label
            ≡ status_label names get_network_address ready timeout_message answer names.success)
  unfolding change_binding binding_args send_zdo
  change_binding-IsSent request ieee endpoint cluster target target_endpoint options label h =
      let (args, made, h) =
        >>=-eq-ok
          (binding_args names get_network_address ready timeout_message answer ieee endpoint cluster
            target target_endpoint)
          _ h in
      let (source, s, made) = >>=-eq-ok (homey_ieee_to_eui64 ieee) _ made in
      let (destination, t, made) = >>=-eq-ok (homey_ieee_to_eui64 target) _ made in
      let (response, sent, h) =
        >>=-eq-ok
          (send_zdo names get_network_address ready timeout_message answer no_data ieee request args
            options)
          _ h in
      let (address, found, sent) = >>=-eq-ok (get_network_address ieee) _ sent in
      let (d, success, h) =
        >>=-eq-ok
          (assert_zdo_success names get_network_address ready timeout_message answer response
            options)
          _ h in
      let (ok_status, same) = assert_zdo_success-ok response options success in
      let record_sent =
        send_zdo_to-IsSent no_data ieee request args options address response sent in
      let args' : List Arg =
        text_arg source
        ∷ num_arg endpoint
        ∷ num_arg cluster
        ∷ num_arg 3
        ∷ text_arg destination
        ∷ num_arg 0
        ∷ num_arg target_endpoint
        ∷ [] in
      let same_args : args ≡ args' = cc in
      let same_response : response ≡ (names.success, tt) = ap (λ s. (s, tt)) ok_status in
      let at_args =
        subst (λ a. IsSent no_data ieee request a options address response) same_args record_sent in
      (
        source,
        destination,
        address,
        s,
        t,
        found,
        subst (λ r. IsSent no_data ieee request args' options address r) same_response at_args,
        (cc),
      )

  -- What a binding request that succeeds means, by the number of the request.
  abbrev pub IsChanged : ℕ → Text → ℕ → ℕ → Text → ℕ → RequestOptions → Text → Type 0
  IsChanged request ieee endpoint cluster target target_endpoint options label =
      (source : Text) × (destination : Text) × (address : ℕ) × (homey_ieee_to_eui64 ieee
        ≡ ok source)
      × (homey_ieee_to_eui64 target ≡ ok destination)
      × (get_network_address ieee ≡ ok address)
      × IsSent no_data ieee request
          (text_arg source
            ∷ num_arg endpoint
            ∷ num_arg cluster
            ∷ num_arg 3
            ∷ text_arg destination
            ∷ num_arg 0
            ∷ num_arg target_endpoint
            ∷ [])
          options address (names.success, tt)
      × (label ≡ status_label names get_network_address ready timeout_message answer names.success)

  -- `_bind` succeeds only if the node answered a bind request with success, and `_unbind` only if
  -- it answered an unbind request so; each request for the same two endpoints and cluster, under
  -- the conditions of every binding request.
  pub bind-unbind-IsSent :
      (ieee : Text) (endpoint cluster : ℕ) (target : Text) (target_endpoint : ℕ)
      (options : RequestOptions) (label : Text)
      → (bind names get_network_address ready timeout_message answer ieee endpoint cluster target
              target_endpoint options
            ≡ ok label
          → IsChanged names.bind_request ieee endpoint cluster target target_endpoint options label)
        × (unbind names get_network_address ready timeout_message answer ieee endpoint cluster
                target target_endpoint options
              ≡ ok label
            → IsChanged names.unbind_request ieee endpoint cluster target target_endpoint options
                label)
  unfolding bind unbind
  bind-unbind-IsSent ieee endpoint cluster target target_endpoint options label = (
    change_binding-IsSent names.bind_request ieee endpoint cluster target target_endpoint options
        label,
    change_binding-IsSent names.unbind_request ieee endpoint cluster target target_endpoint options
        label,
  )
