-- ===== src/ConfiguredServices/Reconcile/Returns.antt =====
-- When the builders and the reconcile functions of the ConfiguredService controller return without an
-- error and without a panic.
use meshach.Prelude.{
  ℕ, ◌<◌, ◌≡◌, ◌≢◌, refl, some, List, [], ◌∷◌, arith, lt→ltb, Text, length, int32,
}
use meshach.Api.{ObjectMeta, Policy, Subset, MeshConfigSpec, ConfiguredService}
use meshach.Istio.{VirtualService, DestinationRule, ServiceEntry}
use meshach.Cluster.{Cluster}
use meshach.Client.{ok}
use meshach.Client.Actions.{done}
use meshach.Client.Sync.{found_map, publish}
use meshach.Client.Sync.Returns.{Accepts, sync-returns}
use meshach.Mesh.Subsets.{get_subset}
use meshach.Mesh.Objects.{
  copy_virtual_service, copy_destination_rule, copy_service_entry, compare_virtual_service,
  compare_destination_rule, compare_service_entry,
}
use meshach.ServiceConfigs.Panics.{
  Returns, value, reroute_subset-Returns, get_timeout-Returns, get_retries-Returns,
}
use meshach.ConfiguredServices.Build.{
  truncated, instance_timeout, instance_retries, build_http_route, build_http_routes,
  build_virtual_service, build_destination_rule, build_service_entry,
}
use meshach.ConfiguredServices.Build.Traffic.{build_routes-eq-reroute_subset}
use meshach.ConfiguredServices.Reconcile.{
  sync_virtual_service, reconcile_virtual_service, sync_destination_rule,
  reconcile_destination_rule, reconcile_service_entry,
}

not_nil : {A : Type 0} (xs : List A) → 0 < length xs → xs ≢ []
not_nil [] h e = omega arith
not_nil (x ∷ xs) h e = cc e

module _ {S : Type 0} (cluster : Cluster S) (sha1 : Text → List ℕ) (mesh : MeshConfigSpec)
    (cs : ConfiguredService) (s : S)
    (owns : (m : ObjectMeta) → cluster.set_owner cs.meta m ≡ ok m) where
  module _ (global : Policy) (has_global : mesh.global_policy ≡ some global) (subsets : List Subset)
      (some_subset : 0 < length subsets) where
    http_route-Returns :
        (subset : Subset) → Returns (build_http_route sha1 cluster.opt mesh cs subset subsets)
    unfolding build_http_route
    http_route-Returns subset =
        let timeout = instance_timeout cs.spec.instances in
        let retries = instance_retries cs.spec.instances in
        let (rs, e) =
          value
            (reroute_subset-Returns cs.meta.name subset subsets (not_nil subsets some_subset)) in
        let (t, k) =
          value (get_timeout-Returns cluster.opt mesh global has_global timeout retries) in
        let (m, l) =
          value (get_retries-Returns cluster.opt mesh global has_global timeout (int32 retries)) in
        rw (build_routes-eq-reroute_subset cs subset subsets, e, k, l)

    http_routes-Returns :
        (globals : List Subset)
        → Returns (build_http_routes sha1 cluster.opt mesh cs subsets globals)
    unfolding build_http_routes
    http_routes-Returns [] = refl
    http_routes-Returns (subset ∷ rest) =
        let (r, e) = value (http_route-Returns subset) in
        let (rs, k) = value (http_routes-Returns rest) in rw (e, k)

    virtual_service-Returns : Returns (build_virtual_service sha1 cluster.opt mesh cs subsets)
    unfolding build_virtual_service
    virtual_service-Returns =
        let (rs, e) = value (http_routes-Returns mesh.global_subsets) in
        rw (lt→ltb 0 (length subsets) some_subset, e)

    destination_rule-Returns : Returns (build_destination_rule sha1 cluster.opt mesh cs subsets)
    unfolding build_destination_rule
    destination_rule-Returns = rw has_global

  -- In a mesh with a global policy, for a service with actual subsets whose objects are listed: where its
  -- controller reference is set and every write is accepted, reconcileDestinationRule and
  -- reconcileVirtualService of the ConfiguredService controller return without an error or a panic.
  pub configured-returns :
      (global : Policy) (rules : List DestinationRule) (services : List VirtualService)
      → mesh.global_policy ≡ some global
      → 0 < length (get_subset mesh cs.spec.instances)
      → cluster.destination_rules.list cs.meta.namespace (truncated sha1 cs.spec.original_name) s
        ≡ ok rules
      → cluster.virtual_services.list cs.meta.namespace (truncated sha1 cs.spec.original_name) s
        ≡ ok services
      → Accepts cluster.destination_rules cluster.retry
      → Accepts cluster.virtual_services cluster.retry
      → ((reconcile_destination_rule cluster sha1 mesh cs s).0 ≡ done tt)
        × ((reconcile_virtual_service cluster sha1 mesh cs s).0 ≡ done tt)
  unfolding reconcile_destination_rule sync_destination_rule reconcile_virtual_service
      sync_virtual_service publish
  configured-returns global rules services g p lr ls accepts_rules accepts_services =
      let subsets = get_subset mesh cs.spec.instances in
      let (vs, v) = value (virtual_service-Returns global g subsets p) in
      let (dr, d) = value (destination_rule-Returns global g subsets p) in
      let more = lt→ltb 0 (length subsets) p in
      (
        rw (lr, more, d, owns dr.meta)
            (sync-returns cluster.destination_rules cluster.retry accepts_rules (λ o. o.meta)
              (compare_destination_rule cluster.deep_equal) copy_destination_rule dr
              (found_map (λ o. o.meta) [] rules) s),
        rw (ls, more, v, owns vs.meta)
            (sync-returns cluster.virtual_services cluster.retry accepts_services (λ o. o.meta)
              (compare_virtual_service cluster.deep_equal) copy_virtual_service vs
              (found_map (λ o. o.meta) [] services) s),
      )

  -- Where the service entries are listed, the controller reference is set and every write is accepted,
  -- reconcileServiceEntry returns without an error or a panic, with or without instances.
  pub service_entry-returns :
      (entries : List ServiceEntry)
      → cluster.service_entries.list cs.meta.namespace (truncated sha1 cs.spec.original_name) s
        ≡ ok entries
      → Accepts cluster.service_entries cluster.retry
      → (reconcile_service_entry cluster sha1 mesh cs s).0 ≡ done tt
  unfolding reconcile_service_entry publish
  service_entry-returns entries l accepts =
      let se = build_service_entry sha1 cluster.opt mesh cs in
      rw (l, owns se.meta)
        (sync-returns cluster.service_entries cluster.retry accepts (λ o. o.meta)
          (compare_service_entry cluster.deep_equal) copy_service_entry se
          (found_map (λ o. o.meta) [] entries) s)
