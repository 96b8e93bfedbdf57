-- ===== src/Controller/Zdo/Tables.antt =====
-- enhancements/0001-zigbee-ember/src/HomeyEmberController.mts: the binding table and the
-- descriptors that Homey is given.
use homey_shs_enhanced.Controller.Zdo.Status.{send_zdo-IsSent, IsSent}
use homey_shs_enhanced.Controller.Zdo.{
  assert_zdo_success, send_zdo, homey_binding, homey_bindings, get_simple_descriptor,
  get_binding_table,
}
use homey_shs_enhanced.Controller.ZdoData.{
  simple_data, table_data, AnswerData, AnswerKind, Arg, num_arg, SimpleDescriptor, HomeyBinding,
  BindingTable, HomeyBindingTable, BindingEntry, HomeySimpleDescriptor, RequestOptions, ZdoRequest,
  ZdoNames,
}
use homey_shs_enhanced.Prelude.{
  sym, ap, arith, subst, >>=-eq-ok, get_elem?, length, List, Option, Bool, ℕ, Result, Text, [],
  refl, zero, suc, some, ok, ◌/◌, ◌<◌, ◌∙◌, ◌+◌, ◌*◌, ◌∷◌, ◌%◌, ◌≡◌,
}

module _ (names : ZdoNames) (get_network_address : Text → Result ℕ) (ready : Bool)
    (timeout_message : ℕ → Text)
    (answer : (k : AnswerKind) → ZdoRequest → Result (Option (ℕ × AnswerData k))) where
  homey_bindings-get :
      (entries : List BindingEntry) (bindings : List HomeyBinding)
      → homey_bindings names get_network_address ready timeout_message answer entries ≡ ok bindings
      → (length bindings ≡ length entries)
        × ((i : ℕ) (entry : BindingEntry)
            → get_elem? entries i ≡ some entry
            → (b : HomeyBinding) × (get_elem? bindings i ≡ some b)
              × (homey_binding names get_network_address ready timeout_message answer entry ≡ ok b))
  unfolding homey_bindings
  homey_bindings-get [] bindings h =
      let empty : [] ≡ bindings = cc in
      subst
        (λ l.
          (length l ≡ 0)
          × ((i : ℕ) (entry : BindingEntry)
              → get_elem? {A = BindingEntry} [] i ≡ some entry
              → (b : HomeyBinding) × (get_elem? l i ≡ some b)
                × (homey_binding names get_network_address ready timeout_message answer entry
                    ≡ ok b)))
        empty (refl, λ i entry e. cc)
  homey_bindings-get (x ∷ xs) bindings h =
      let (b, e, h) =
        >>=-eq-ok (homey_binding names get_network_address ready timeout_message answer x) _ h in
      let (bs, k, h) =
        >>=-eq-ok (homey_bindings names get_network_address ready timeout_message answer xs) _ h in
      let (size, each) = homey_bindings-get xs bs k in
      let whole : b ∷ bs ≡ bindings = cc in
      subst
        (λ l.
          (length l ≡ length (x ∷ xs))
          × ((i : ℕ) (entry : BindingEntry)
              → get_elem? (x ∷ xs) i ≡ some entry
              → (c : HomeyBinding) × (get_elem? l i ≡ some c)
                × (homey_binding names get_network_address ready timeout_message answer entry
                    ≡ ok c)))
        whole
        (
          omega (arith, size),
          elim [
            | zero ↦ λ entry f.
                let same : x ≡ entry = cc in
                subst
                  (λ y.
                    (c : HomeyBinding) × (some b ≡ some c)
                    × (homey_binding names get_network_address ready timeout_message answer y
                        ≡ ok c))
                  same (b, refl, e)
            | suc i ↦ λ entry f. each i entry f
          ],
        )

  -- A binding table that Homey is given has as many entries as it says and as the node sent, and
  -- each is the node's entry at the same place with its addresses in Homey's form.
  pub get_binding_table-entries :
      (ieee : Text) (start_index : ℕ) (options : RequestOptions) (t : HomeyBindingTable)
      → get_binding_table names get_network_address ready timeout_message answer ieee start_index
          options
        ≡ ok t
      → (table : BindingTable) × (address : ℕ) × IsSent names get_network_address ready
          timeout_message answer table_data ieee names.binding_table_request
          (num_arg start_index ∷ [])
          options
          address
          (names.success, table)
        × (t.binding_table_list_count ≡ length table.entry_list)
        × (length t.binding_table_list ≡ length table.entry_list)
        × ((i : ℕ) (entry : BindingEntry)
            → get_elem? table.entry_list i ≡ some entry
            → (b : HomeyBinding) × (get_elem? t.binding_table_list i ≡ some b)
              × (homey_binding names get_network_address ready timeout_message answer entry ≡ ok b))
  unfolding get_binding_table
  get_binding_table-entries ieee start_index options t h =
      let (response, sent, h) =
        >>=-eq-ok
          (send_zdo names get_network_address ready timeout_message answer table_data ieee
            names.binding_table_request (num_arg start_index ∷ []) options)
          _ h in
      let (table, success, h) =
        >>=-eq-ok
          (assert_zdo_success names get_network_address ready timeout_message answer response
            options)
          _ h in
      let (bindings, made, h) =
        >>=-eq-ok
          (homey_bindings names get_network_address ready timeout_message answer table.entry_list) _
          h in
      let (size, each) = homey_bindings-get table.entry_list bindings made in
      let list : bindings ≡ t.binding_table_list = ground arith in
      let counted : t.binding_table_list_count ≡ length bindings = ground arith in
      let (address, is_sent, _) =
        send_zdo-IsSent names get_network_address ready timeout_message answer table_data ieee
          names.binding_table_request (num_arg start_index ∷ []) options response table sent
          success in
      (
        table,
        address,
        is_sent,
        counted ∙ size,
        ap length (sym list) ∙ size,
        λ i entry e.
            subst
              (λ l.
                (b : HomeyBinding) × (get_elem? l i ≡ some b)
                × (homey_binding names get_network_address ready timeout_message answer entry
                    ≡ ok b))
              list (each i entry e),
      )

  -- The two halves of the device version that a node sends make it up again.
  pub get_simple_descriptor-version :
      (ieee : Text) (endpoint : ℕ) (options : RequestOptions) (s : HomeySimpleDescriptor)
      → get_simple_descriptor names get_network_address ready timeout_message answer ieee endpoint
          options
        ≡ ok s
      → (d : SimpleDescriptor) × (address : ℕ) × IsSent names get_network_address ready
          timeout_message answer simple_data ieee names.simple_descriptor_request
          (num_arg address ∷ num_arg endpoint ∷ [])
          options
          address
          (names.success, d)
        × (s.reserved1 * 16 + s.application_device_version ≡ d.device_version)
        × (s.application_device_version < 16)
  unfolding get_simple_descriptor
  get_simple_descriptor-version ieee endpoint options s h =
      let (address, found, h) = >>=-eq-ok (get_network_address ieee) _ h in
      let args : List Arg = num_arg address ∷ num_arg endpoint ∷ [] in
      let (response, sent, h) =
        >>=-eq-ok
          (send_zdo names get_network_address ready timeout_message answer simple_data ieee
            names.simple_descriptor_request args options)
          _ h in
      let (d, success, h) =
        >>=-eq-ok
          (assert_zdo_success names get_network_address ready timeout_message answer response
            options)
          _ h in
      let (address', is_sent, found') =
        send_zdo-IsSent names get_network_address ready timeout_message answer simple_data ieee
          names.simple_descriptor_request args options response d sent success in
      let same : address' ≡ address = cc in
      let low : d.device_version % 16 ≡ s.application_device_version = ground arith in
      let high : d.device_version / 16 ≡ s.reserved1 = ground arith in
      (
        d,
        address,
        subst
            (λ a.
              IsSent names get_network_address ready timeout_message answer simple_data ieee
                names.simple_descriptor_request args options a (names.success, d))
            same is_sent,
        omega arith,
        omega arith,
      )
