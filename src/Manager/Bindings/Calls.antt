-- ===== src/Manager/Bindings/Calls.antt =====
-- enhancements/0001-zigbee-ember/src/ManagerZigbeeEmber.mts: the bindings that `createBindings`
-- asks for.
use homey_shs_enhanced.Manager.Bindings.{
  endpoints_of, is_trust_remote, extra_remote_clusters, includes_cluster, Endpoint, bind_clusters,
  create_bindings, bind_endpoints,
}
use homey_shs_enhanced.Prelude.{
  ==-refl, sym, subst, not, Bool-cases, Thrown, Option, Text, Bool, arith, List, ℕ, [], refl, false,
  ok, err, inl, inr, ◌∷◌, ◌||◌, ◌++◌, ◌≡◌, ◌==◌, ◌&&◌,
}

abbrev pub asks : ℕ × ℕ → List (ℕ × ℕ) → Bool
asks k [] = false
asks k (c ∷ cs) = (c.0 == k.0 && c.1 == k.1) || asks k cs

-- Some endpoint has this number and this output cluster.
abbrev pub sends_from : List Endpoint → ℕ → ℕ → Bool
sends_from [] endpoint cluster = false
sends_from (e ∷ es) endpoint cluster =
    (e.endpoint_id == endpoint && includes_cluster e.output_clusters cluster)
    || sends_from es endpoint cluster

asks-append : (k : ℕ × ℕ) (cs ds : List (ℕ × ℕ)) → asks k (cs ++ ds) ≡ (asks k cs || asks k ds)
asks-append k [] ds = refl
asks-append k (c ∷ cs) ds = ground (arith, asks-append k cs ds)

asks-bind_clusters :
    (e : Endpoint) (cs : List ℕ) (endpoint cluster : ℕ)
    → asks (endpoint, cluster) (bind_clusters e cs) ≡ (
        includes_cluster cs cluster
        && (e.endpoint_id == endpoint && includes_cluster e.output_clusters cluster))
unfolding bind_clusters
asks-bind_clusters e [] endpoint cluster = refl
asks-bind_clusters e (c ∷ cs) endpoint cluster = elim (Bool-cases (c == cluster)) [
  | inl here ↦
      let same : c ≡ cluster = ground arith in
      subst
        (λ d. asks (endpoint, cluster) (bind_clusters e (d ∷ cs)) ≡ (
          includes_cluster (d ∷ cs) cluster
          && (e.endpoint_id == endpoint && includes_cluster e.output_clusters cluster)))
        (sym same) (ground (arith, asks-bind_clusters e cs endpoint cluster, ==-refl cluster))
  | inr there ↦ ground (arith, asks-bind_clusters e cs endpoint cluster)
]

asks-bind_endpoints :
    (es : List Endpoint) (endpoint cluster : ℕ)
    → asks (endpoint, cluster) (bind_endpoints es)
      ≡ (includes_cluster extra_remote_clusters cluster && sends_from es endpoint cluster)
unfolding bind_endpoints
asks-bind_endpoints [] endpoint cluster = ground arith
asks-bind_endpoints (e ∷ es) endpoint cluster = ground (
  arith,
  asks-append (endpoint, cluster) (bind_clusters e extra_remote_clusters) (bind_endpoints es),
  asks-bind_clusters e extra_remote_clusters endpoint cluster,
  asks-bind_endpoints es endpoint cluster,
)

-- Once Homey's own bindings are made, and unless the driver is for the excluded Trust remote, a
-- binding is asked for exactly if its cluster is On/Off or Level Control and an endpoint of that
-- number has it among its output clusters; for that remote, or if Homey's own bindings fail, none
-- is.
pub create_bindings-calls :
    (description : Text) (node : Option (List Endpoint)) (endpoint cluster : ℕ) (e : Thrown)
    → (asks (endpoint, cluster) (create_bindings (ok tt) description (ok node)).0 ≡ (
        not (is_trust_remote description)
        && ((cluster == 6 || cluster == 8) && sends_from (endpoints_of node) endpoint cluster)))
      × (create_bindings (err e) description (ok node) ≡ ([], err e))
unfolding create_bindings
create_bindings-calls description node endpoint cluster e =
    (ground (arith, asks-bind_endpoints (endpoints_of node) endpoint cluster), refl)
