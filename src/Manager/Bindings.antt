-- ===== src/Manager/Bindings.antt =====
-- enhancements/0001-zigbee-ember/src/ManagerZigbeeEmber.mts: `createBindings`, which binds the
-- remote-control clusters of a new node to the controller. Homey's own bindings, the driver's JSON
-- text and the controller's nodes are parameters.
pub mod Calls
use homey_shs_enhanced.Prelude.{
  text, contains, Bool, Result, Option, List, Text, ℕ, [], false, none, some, ok, err, ◌∷◌,
  if◌then◌else◌, ◌||◌, ◌++◌, ◌==◌, ◌&&◌,
}

abbrev pub extra_remote_clusters : List ℕ
extra_remote_clusters = 0x0006 ∷ 0x0008 ∷ []

pub record Endpoint : Type 0 where
  pub endpoint_id : ℕ
  pub output_clusters : List ℕ

abbrev pub includes_cluster : List ℕ → ℕ → Bool
includes_cluster [] c = false
includes_cluster (d ∷ ds) c = d == c || includes_cluster ds c

-- The inner loop, for one endpoint: the calls of `bind`, by endpoint and cluster. How they end is
-- only logged.
unfoldable pub bind_clusters : Endpoint → List ℕ → List (ℕ × ℕ)
bind_clusters e [] = []
bind_clusters e (c ∷ cs) =
    if includes_cluster e.output_clusters c
    then (e.endpoint_id, c) ∷ bind_clusters e cs
    else bind_clusters e cs

unfoldable pub bind_endpoints : List Endpoint → List (ℕ × ℕ)
bind_endpoints [] = []
bind_endpoints (e ∷ es) = bind_clusters e extra_remote_clusters ++ bind_endpoints es

unfoldable pub is_trust_remote : Text → Bool
is_trust_remote description =
    contains (text "Trust International B.V.") description
    && contains (text "ZLL-NonColorController") description

-- `node?.endpointDescriptors ?? []`.
abbrev pub endpoints_of : Option (List Endpoint) → List Endpoint
endpoints_of none = []
endpoints_of (some es) = es

-- `inherited`: how `super.createBindings` ends. `node`: what `getZigbeeDirectly().getNode` gives.
unfoldable pub create_bindings :
    Result (Unit {0}) → Text → Result (Option (List Endpoint)) → List (ℕ × ℕ) × Result (Unit {0})
create_bindings (err e) description node = ([], err e)
create_bindings (ok _) description (err e) =
    if is_trust_remote description then ([], ok tt) else ([], err e)
create_bindings (ok _) description (ok node) =
    if is_trust_remote description then ([], ok tt) else (bind_endpoints (endpoints_of node), ok tt)
