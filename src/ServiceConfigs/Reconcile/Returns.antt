-- ===== src/ServiceConfigs/Reconcile/Returns.antt =====
-- When reconcileVirtualService and reconcileDestinationRule of the ServiceConfig controller return without
-- an error, and when they write nothing.
use meshach.Prelude.{◌<◌, ◌≡◌, ◌≢◌, false, some, List, [], ◌∷◌, arith, lt→ltb, length}
use meshach.Api.{ObjectMeta, Policy, Subset, MeshConfigSpec, ServiceConfig}
use meshach.Istio.{VirtualService, DestinationRule}
use meshach.Cluster.{Cluster, DeepEqual, DeepEqualLaws}
use meshach.Client.{ok}
use meshach.Client.Actions.{done}
use meshach.Client.Sync.{found_map, publish}
use meshach.Client.Sync.Returns.{Accepts, sync-returns, sync-steady}
use meshach.Mesh.Rules.{differs}
use meshach.Mesh.Objects.{
  copy_virtual_service, copy_destination_rule, compare_virtual_service, compare_destination_rule,
}
use meshach.ServiceConfigs.Build.{truncated, build_virtual_service}
use meshach.ServiceConfigs.Panics.{value, builders-Returns}
use meshach.ServiceConfigs.Status.{subsets_found}
use meshach.ServiceConfigs.Reconcile.{
  sync_virtual_service, reconcile_virtual_service, sync_destination_rule,
  reconcile_destination_rule,
}

not_nil : {A : Type 0} (xs : List A) → 0 < length xs → xs ≢ []
not_nil [] h e = omega arith
not_nil (x ∷ xs) h e = cc e

module _ (eq : DeepEqual) (laws : DeepEqualLaws eq) where
  same_virtual_service :
      (new old : VirtualService)
      → old.meta.finalizers ≡ new.meta.finalizers
      → old.meta.labels ≡ new.meta.labels
      → old.spec ≡ new.spec
      → compare_virtual_service eq new old ≡ false
  unfolding compare_virtual_service differs
  same_virtual_service new old f l s = rw (
    f,
    l,
    s,
    laws.finalizers_refl new.meta.finalizers,
    laws.labels_refl new.meta.labels,
    laws.virtual_service_refl new.spec,
  )

module _ {S : Type 0} (cluster : Cluster S) (mesh : MeshConfigSpec) (sc : ServiceConfig) (s : S)
    (subsets : List Subset) (found : subsets_found cluster mesh sc s ≡ ok subsets)
    (some_subset : 0 < length subsets)
    (owns : (m : ObjectMeta) → cluster.set_owner sc.meta m ≡ ok m) where
  -- A service with a policy, in a mesh with a global policy, and with actual subsets: where its objects are
  -- listed, its controller reference is set and every write is accepted, reconcileVirtualService and
  -- reconcileDestinationRule return without an error and without a panic.
  pub reconcile-returns :
      (policy global : Policy) (rules : List DestinationRule) (services : List VirtualService)
      → sc.spec.policy ≡ some policy
      → mesh.global_policy ≡ some global
      → cluster.destination_rules.list sc.meta.namespace (truncated sc.spec.original_name) s
        ≡ ok rules
      → cluster.virtual_services.list sc.meta.namespace (truncated sc.spec.original_name) s
        ≡ ok services
      → Accepts cluster.destination_rules cluster.retry
      → Accepts cluster.virtual_services cluster.retry
      → ((reconcile_destination_rule cluster mesh sc s).0 ≡ done tt)
        × ((reconcile_virtual_service cluster mesh sc s).0 ≡ done tt)
  unfolding reconcile_destination_rule sync_destination_rule reconcile_virtual_service
      sync_virtual_service publish
  reconcile-returns policy global rules services p g lr ls accepts_rules accepts_services =
      let built =
        builders-Returns cluster.opt mesh global g sc policy p subsets
          (not_nil subsets some_subset) in
      let (vs, v) = value built.0 in
      let (dr, d) = value built.1 in
      let more = lt→ltb 0 (length subsets) some_subset in
      (
        rw (lr, found, more, d, owns dr.meta)
            (sync-returns cluster.destination_rules cluster.retry accepts_rules (λ o. o.meta)
              (compare_destination_rule cluster.deep_equal) copy_destination_rule dr
              (found_map (λ o. o.meta) [] rules) s),
        rw (ls, found, more, v, owns vs.meta)
            (sync-returns cluster.virtual_services cluster.retry accepts_services (λ o. o.meta)
              (compare_virtual_service cluster.deep_equal) copy_virtual_service vs
              (found_map (λ o. o.meta) [] services) s),
      )

  -- For a service with actual subsets, whose VirtualService is built and whose controller reference is set,
  -- where the one VirtualService that is listed for it has the built name, finalizers, labels and spec,
  -- reconcileVirtualService returns without an error and changes nothing. DeepEqual holds of equal values.
  pub reconcile_virtual_service-steady :
      (vs old : VirtualService)
      → DeepEqualLaws cluster.deep_equal
      → build_virtual_service cluster.opt mesh sc subsets ≡ some vs
      → cluster.virtual_services.list sc.meta.namespace (truncated sc.spec.original_name) s
        ≡ ok (old ∷ [])
      → old.meta.name ≡ vs.meta.name
      → old.meta.finalizers ≡ vs.meta.finalizers
      → old.meta.labels ≡ vs.meta.labels
      → old.spec ≡ vs.spec
      → reconcile_virtual_service cluster mesh sc s ≡ (done tt, s)
  unfolding reconcile_virtual_service sync_virtual_service publish
  reconcile_virtual_service-steady vs old laws v l n f lab sp =
      rw (l, found, lt→ltb 0 (length subsets) some_subset, v, owns vs.meta)
        (sync-steady cluster.virtual_services cluster.retry (λ o. o.meta)
          (compare_virtual_service cluster.deep_equal) copy_virtual_service vs old s n
          (same_virtual_service cluster.deep_equal laws vs old f lab sp))
